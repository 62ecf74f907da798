-- ===== src/Epoll/Blocking.antt =====
-- How `xy_epoll_wait` of network/src/xy_epoll.cc waits, and what ends the wait.
use dpdk_tcp.Prelude.{
  ℕ, zero, suc, ◌<◌, ◌≡◌, ◌≢◌, M, ◌∙◌, arith, true, false, leb, ◌==◌, ℤ, pos, negsuc, some, List,
  length, update,
}
use dpdk_tcp.XyList.{Ptr, null}
use dpdk_tcp.Port.{xy_max_tcp}
use dpdk_tcp.World.{World, System, XyEventPoll}
use dpdk_tcp.World.Memory.{load_poll, modify_poll, load_map}
use dpdk_tcp.Manage.{xy_get_event_poll_by_id, event_poll_of_id, map_of_id}
use dpdk_tcp.Epoll.Ctl.{XyEpollEvent}
use dpdk_tcp.Epoll.Wait.{Waiting, wait_round, wait_loop, collect_events, xy_epoll_wait}
use dpdk_tcp.Epoll.Ready.{IsReady, events_of, Taken}
use dpdk_tcp.Epoll.Collect.{fewer, collect_events-first}

-- The memory with the mark of a waiting thread.
abbrev pub with_waiting : World → Ptr → XyEventPoll → ℕ → World
with_waiting w ep p b = record w { polls = update w.polls ep (some (record p { waiting = b })) }

-- The thread is woken `k` times before the poll counts a ready item; each time but the last
-- `pthread_cond_wait` returns while none is.
pub data Woken (env : Waiting) (ep : Ptr) : ℕ → World → World → Type 0 where
  awake :
      (w : World) (p : XyEventPoll)
      → w.polls ep ≡ some p
      → (p.ready_num == 0) ≡ false
      → Woken env ep 0 w w
  woken :
      (k : ℕ) (w : World) (p : XyEventPoll) (w1 : World) (p1 : XyEventPoll) (w2 : World)
      → w.polls ep ≡ some p
      → p.ready_num ≡ 0
      → env.cond_wait ep (with_waiting w ep p 1) ≡ some (0, w1)
      → w1.polls ep ≡ some p1
      → Woken env ep k (with_waiting w1 ep p1 0) w2
      → Woken env ep (suc k) w w2

module _ (sys : System) (env : Waiting) (ep : Ptr) where
  wait_loop-Woken :
      (rounds k t : ℕ) (w w2 : World)
      → k < rounds
      → Woken env ep k w w2
      → wait_loop sys env rounds ep (negsuc t) w ≡ some (true, w2)
  unfolding wait_loop load_poll wait_round modify_poll
  wait_loop-Woken zero k t w w2 lt run = ground arith
  wait_loop-Woken (suc n) _ t w _ lt (awake _ p e r) = ground arith
  wait_loop-Woken (suc n) _ t w w2 lt (woken k _ p w1 p1 _ e idle run e1 rest) =
      ground (arith, run, wait_loop-Woken n k t (with_waiting w1 ep p1 0) w2 (omega arith) rest)

-- After the last wake there is an item in the list.
some-ready :
    (sys : System) (env : Waiting) (ep : Ptr) (w w2 : World) (k m : ℕ) (xs : List Ptr)
    → Woken env ep k w w2
    → IsReady sys w2 ep xs
    → 0 < fewer (suc m) (length xs)
some-ready sys env ep w _ _ m xs (awake _ p e r) ready =
    let (q, e', count) = ready.poll in ground arith
some-ready sys env ep w w2 _ m xs (woken k _ p w1 p1 _ e idle run e1 rest) ready =
    some-ready sys env ep (with_waiting w1 ep p1 0) w2 k m xs rest ready

-- The arguments that pass the function's checks, and the poll they lead to.
pub record Waits (sys : System) (w : World) (id out : ℕ) (ep : Ptr) : Type 0 where
  pub in_table : leb xy_max_tcp id ≡ false
  pub its_poll : (w.maps (sys.socket_maps id)).event_poll ≡ ep
  pub not_null : ep ≢ null
  pub out_not_null : out ≢ null

pub xy_epoll_wait-goes_on :
    (sys : System) (env : Waiting) (w w2 : World) (id out : ℕ) (ep : Ptr) (m : ℕ) (timeout : ℤ)
    → Waits sys w id out ep
    → wait_loop sys env sys.rounds ep timeout w ≡ some (true, w2)
    → xy_epoll_wait sys env (pos id) out (pos (suc m)) timeout w ≡ collect_events sys ep (suc m) w2
unfolding xy_epoll_wait event_poll_of_id xy_get_event_poll_by_id map_of_id load_map
xy_epoll_wait-goes_on sys env w w2 id out ep m timeout a run = ground (arith, a, run)

-- What a call that ends its wait in the memory `w2` returns and leaves.
abbrev pub Reports :
    (sys : System) → Ptr → List Ptr → ℕ → M World (ℤ × List XyEpollEvent) → World → World → Type 0
Reports sys ep xs max_events call w w2 =
    (w' : World) × (call w
      ≡ some (
        (pos (fewer max_events (length xs)), events_of w2.items (fewer max_events (length xs)) xs),
        w',
      ))
    × Taken sys ep w2 (fewer max_events (length xs)) xs w'

-- Without a timeout (a negative one) the call returns once another thread has put an item on the
-- ready list, however often pthread_cond_wait returned before that with nothing ready, as long as
-- the bound on rounds allows as many: it reports the first events of the list that is there then,
-- at most max_events, and at least one. The id leads to a poll and the output array exists.
pub xy_epoll_wait-Woken :
    (sys : System) (env : Waiting) (w w2 : World) (id out : ℕ) (ep : Ptr) (m t k : ℕ)
    (xs : List Ptr)
    → Waits sys w id out ep
    → Woken env ep k w w2
    → k < sys.rounds
    → IsReady sys w2 ep xs
    → Reports sys ep xs (suc m) (xy_epoll_wait sys env (pos id) out (pos (suc m)) (negsuc t)) w w2
      × (0 < fewer (suc m) (length xs))
xy_epoll_wait-Woken sys env w w2 id out ep m t k xs a run lt r =
    let (w', done, taken) = collect_events-first sys ep w2 xs (suc m) r in
    (
      (
        w',
        xy_epoll_wait-goes_on sys env w w2 id out ep m (negsuc t) a
              (wait_loop-Woken sys env ep sys.rounds k t w w2 lt run)
            ∙ done,
        taken,
      ),
      some-ready sys env ep w w2 k m xs run r,
    )
