-- ===== src/Tests/Epoll.antt =====
-- An event poll at small inputs.
use dpdk_tcp.Prelude.{
  ℕ, ◌*◌, ◌<◌, ◌≡◌, ◌≢◌, refl, arith, ◌==◌, if◌then◌else◌, pos, negsuc, some, none, [], ◌∷◌, update,
}
use dpdk_tcp.XyList.{Ptr, XyListNode}
use dpdk_tcp.Socket.{tcp_established}
use dpdk_tcp.World.{World, XyEventPoll, XyEpollItem, xy_tcp_sock_epoll}
use dpdk_tcp.Epoll.{epoll_event_callback}
use dpdk_tcp.Epoll.Ctl.{XyEpollEvent, xy_epoll_ctl_add, xy_epoll_ctl_del, xy_epoll_ctl}
use dpdk_tcp.Epoll.Wait.{Timespec, Waiting, deadline_of, collect_events, xy_epoll_wait}
use dpdk_tcp.Epoll.Ready.{IsReady, Taken}
use dpdk_tcp.Epoll.Collect.{fewer, collect_events-first}
use dpdk_tcp.Epoll.Signal.{Registered, epoll_event_callback-IsReady}
use dpdk_tcp.Epoll.Deadline.{nanoseconds, deadline_of-nanoseconds}
use dpdk_tcp.Epoll.Blocking.{with_waiting, Woken, awake, woken, Waits, Reports, xy_epoll_wait-Woken}
use dpdk_tcp.Epoll.Timeout.{TimedWait, xy_epoll_wait-TimedWait}
use dpdk_tcp.Epoll.Tree.{RbTree}
use dpdk_tcp.Epoll.Register.{Addresses, IsNew, xy_epoll_ctl-add-del}
use dpdk_tcp.Epoll.Destroy.{xy_epoll_close_socket}
use dpdk_tcp.Epoll.Close.{AllFreed, xy_epoll_close_socket-AllFreed}
use dpdk_tcp.Tests.{sys, world, frame, store}

-- The poll 600 holds the items 701, which is ready, and 702, which is not.
abbrev pub item : ℕ → ℕ → XyEpollItem
item sock ready = record { ready = ready; sock_id = sock; events = 1; event_data = sock * 10 }

abbrev pub poll : ℕ → XyEventPoll
poll ready_num = record {
  id = 5;
  ready_num = ready_num;
  rb_tree = 701 ∷ 702 ∷ [];
  rb_num = 2;
  waiting = 0;
}

abbrev ready_links : XyListNode
ready_links = record {
  next = update (update store.node.next 3600 (some 701)) 701 (some 3600);
  prev = update (update store.node.prev 3600 (some 701)) 701 (some 3600);
}

abbrev with_polls : XyListNode → ℕ → World
with_polls links n = record (world tcp_established (frame 0x10 11)) {
  lists = record store { node = links };
  maps = λ (p : Ptr). record {
    id = p;
    sock_type = xy_tcp_sock_epoll;
    event_poll = 600;
    tcp_socket = 300;
  };
  polls = λ (p : Ptr). if p == 600 then some (poll n) else none;
  items =
      λ (p : Ptr). if p == 701 then some (item 7 n) else if p == 702 then some (item 8 0) else none;
}

-- One item is ready, or none.
abbrev pub ready : World
ready = with_polls ready_links 1

abbrev idle : World
idle = with_polls store.node 0

ready-IsReady : IsReady sys ready 600 (701 ∷ [])
ready-IsReady = record {
  poll = (poll 1, refl, refl);
  ring = ground arith;
  items = ((item 7 1, refl, refl), tt);
}

collect_events-first_example :
    (w' : World) × (collect_events sys 600 4 ready
      ≡ some ((pos 1, record { events = 1; event_data = 70 } ∷ []), w'))
    × Taken sys 600 ready 1 (701 ∷ []) w'
collect_events-first_example = collect_events-first sys 600 ready (701 ∷ []) 4 ready-IsReady

-- An event for the socket 8, whose item is 702.
ready-Registered : Registered sys ready 8 600 702 (item 8 0)
ready-Registered = record {
  in_table = refl;
  its_poll = refl;
  found = (poll 1, refl, refl);
  not_null = ground arith;
  item = refl;
}

epoll_event_callback-IsReady_example :
    (w' : World) × (epoll_event_callback sys 8 4 ready ≡ some (pos 0, w'))
    × IsReady sys w' 600 (702 ∷ 701 ∷ [])
    × (w'.items 702 ≡ some (item 8 1))
epoll_event_callback-IsReady_example =
    epoll_event_callback-IsReady sys ready 8 4 600 702 (item 8 0) (701 ∷ []) ready-Registered
      ready-IsReady (refl, refl) (ground arith)

-- Two and a half seconds after this there is a carry.
abbrev now : Timespec
now = record { tv_sec = 10; tv_nsec = 600000000 }

deadline_of-nanoseconds_example :
    (nanoseconds (deadline_of now 2500) ≡ 13100000000)
    × ((deadline_of now 2500).tv_nsec < 1000000000)
deadline_of-nanoseconds_example = deadline_of-nanoseconds now 2500 (omega arith)

-- `pthread_cond_wait` returns after an event, `pthread_cond_timedwait` at the deadline.
abbrev env : Waiting
env = record {
  clock_gettime = λ w. some (now, w);
  cond_wait = λ ep w. some (0, ready);
  cond_timedwait = λ ep deadline w. some (110, w);
}

idle-Waits : Waits sys idle 5 9 600
idle-Waits = record {
  in_table = refl;
  its_poll = refl;
  not_null = ground arith;
  out_not_null = ground arith;
}

-- The memory that the call finds when it is awake.
abbrev found : World
found = with_waiting ready 600 (poll 1) 0

found-IsReady : IsReady sys found 600 (701 ∷ [])
found-IsReady = record {
  poll = (poll 1, refl, refl);
  ring = ground arith;
  items = ((item 7 1, refl, refl), tt);
}

idle-Woken : Woken env 600 1 idle found
idle-Woken =
    woken 0 idle (poll 0) ready (poll 1) found refl refl refl refl (awake found (poll 1) refl refl)

xy_epoll_wait-Woken_example :
    Reports sys 600 (701 ∷ []) 4 (xy_epoll_wait sys env (pos 5) 9 (pos 4) (negsuc 0)) idle found
    × (0 < fewer 4 1)
xy_epoll_wait-Woken_example =
    xy_epoll_wait-Woken sys env idle found 5 9 600 3 0 1 (701 ∷ []) idle-Waits idle-Woken
      (omega arith) found-IsReady

-- The memory in which the wait ends, and the one after the mark is taken back.
abbrev waited : World
waited = with_waiting idle 600 (poll 0) 1

abbrev marked : XyEventPoll
marked = record (poll 0) { waiting = 1 }

idle-TimedWait : TimedWait env 600 idle 2500 waited
idle-TimedWait = record {
  poll = (poll 0, refl, refl);
  now = now;
  w1 = waited;
  clock = refl;
  ret = 110;
  timedwait = refl;
  ended = refl;
}

waited-IsReady : IsReady sys (with_waiting waited 600 marked 0) 600 []
waited-IsReady = record { poll = (poll 0, refl, refl); ring = ground arith; items = tt }

xy_epoll_wait-TimedWait_example :
    Reports sys 600 [] 4
      (xy_epoll_wait sys env (pos 5) 9 (pos 4) (pos 2500))
      idle
      (with_waiting waited 600 marked 0)
xy_epoll_wait-TimedWait_example =
    xy_epoll_wait-TimedWait sys env idle waited 5 9 600 3 2499 marked [] idle-Waits idle-TimedWait
      refl (omega arith) waited-IsReady

pub sys-RbTree : RbTree sys
sys-RbTree = record {
  find = λ items t sock ordered. refl;
  insert_new = λ items t p ordered it absent. ground arith;
  remove_old = λ items t p ordered there. refl;
  min_empty = refl;
  min_first = λ items x t ordered. refl;
}

-- The socket 9 goes into the poll, with an item at 5000, and out of it again.
ready-Addresses : Addresses sys ready 5 9 600 (poll 1)
ready-Addresses = record {
  in_table = refl;
  its_poll = refl;
  not_null = ground arith;
  a_socket = ground arith;
  poll = refl;
  ordered = (
    (ground arith, (item 7 1, refl, omega arith)),
    (omega arith, tt),
    ((ground arith, (item 8 0, refl, omega arith)), tt, tt),
  );
}

ready-IsNew : IsNew sys ready 9 (poll 1) 5000
ready-IsNew = record {
  int = omega arith;
  absent = refl;
  memory = refl;
  not_null = ground arith;
  fresh = refl;
}

abbrev input : XyEpollEvent
input = record { events = 1; event_data = 90 }

xy_epoll_ctl-add-del_example :
    (w' : World) × (w'' : World) × (xy_epoll_ctl sys (pos 5) xy_epoll_ctl_add 9 (some input) ready
      ≡ some (pos 0, w'))
    × (xy_epoll_ctl sys (pos 5) xy_epoll_ctl_del 9 none w' ≡ some (pos 0, w''))
    × (w''.polls 600 ≡ some (poll 1))
    × (w''.items 5000 ≡ none)
    × ((x : Ptr) → x ≢ 5000 → w''.items x ≡ ready.items x)
xy_epoll_ctl-add-del_example =
    xy_epoll_ctl-add-del sys sys-RbTree ready 5 9 600 (poll 1) 5000 input none ready-Addresses
      ready-IsNew

xy_epoll_close_socket-AllFreed_example :
    (w' : World) × (xy_epoll_close_socket sys (pos 5) ready ≡ some (pos 0, w'))
    × AllFreed w'.items (701 ∷ 702 ∷ [])
    × (w'.polls 600 ≡ none)
    × (xy_epoll_close_socket sys (pos 5) w' ≡ none)
xy_epoll_close_socket-AllFreed_example =
    xy_epoll_close_socket-AllFreed sys 600 sys-RbTree ready 5 (poll 1) (701 ∷ []) refl refl
      (ground arith) refl ready-Addresses.ordered (ground arith) (omega arith) (omega arith)
