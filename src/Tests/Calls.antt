-- ===== src/Tests/Calls.antt =====
-- The calls of the application at small inputs.
use dpdk_tcp.Prelude.{
  ◌<◌, u32, ◌/◌, ◌^◌, ◌*◌, ◌+◌, M, pure, ◌≡◌, refl, arith, ◌==◌, if◌then◌else◌, pos, minus_one,
  some, none, [], ◌∷◌, update,
}
use dpdk_tcp.XyList.{Ptr, XyListNode}
use dpdk_tcp.XyList.Chain.{IsRing}
use dpdk_tcp.Wnd.Mbuf.Holds.{Holds}
use dpdk_tcp.Socket.{XyTcpSocket, tcp_established, tcp_listen, tcp_close}
use dpdk_tcp.World.{World, XySocketOps, xy_tcp_sock_tcp}
use dpdk_tcp.Socks.{listener_tcp_sock_lookup}
use dpdk_tcp.SynApi.Calls.{xy_syn_listen}
use dpdk_tcp.SynApi.Text.{send_text}
use dpdk_tcp.SynApi.Serve.{LockWaits, LeavesHeld}
use dpdk_tcp.SynApi.Segments.{send_text-queues}
use dpdk_tcp.SynApi.Listen.{CanListen, xy_syn_listen-found}
use dpdk_tcp.SynSocks.{established_take_next}
use dpdk_tcp.SynSocks.Accept.{established_take_next-oldest}
use dpdk_tcp.Api.{
  blank, xy_socket, xy_bind, xy_listen, xy_connect, xy_accept, xy_recv, xy_send, xy_close,
  xy_epoll_create,
}
use dpdk_tcp.Api.Answered.{CanCall, calls-Block}
use dpdk_tcp.Tests.{sys, world, frame, sock, alone}

abbrev quiet : World
quiet = world tcp_established (frame 0x10 11)

-- The queue of events without an event, and with the calls 800 and 801.
abbrev no_events : XyListNode
no_events = record { next = update alone.next 50 (some 51); prev = update alone.prev 51 (some 50) }

abbrev two_events : XyListNode
two_events = record {
  next = update (update (update alone.next 50 (some 800)) 800 (some 801)) 801 (some 51);
  prev = update (update (update alone.prev 51 (some 801)) 801 (some 800)) 800 (some 50);
}

abbrev calling : World
calling = record quiet {
  events = two_events;
  ops = λ (p : Ptr). if p == 800 then some blank else if p == 801 then some blank else none;
}

-- The lock of the tests waits for a mutex that is held.
sys-LockWaits : LockWaits sys
sys-LockWaits n low =
    let two : 0 < u32 (n / 2 ^ 32 * 2 ^ 32 + 2) = omega arith in (ground arith, grind (arith, two))

idle : M World (Unit {0})
idle = pure tt

idle-LeavesHeld : (p : Ptr) → LeavesHeld p idle
unfolding idle
idle-LeavesHeld p w w' (n, e, low) run = (n, ground arith, low)

-- A call at the address 900.
abbrev waiting : World
waiting = record quiet { events = no_events }

waiting-CanCall : CanCall sys 900 waiting
waiting-CanCall = record {
  queue = record {
    chain = ground arith;
    apart = ground arith;
    tail_out = refl;
    head_ne = ground arith;
    tail_ne = ground arith;
  };
  apart = refl;
  not_null = ground arith;
  high_head = omega arith;
}

calls-Block_example :
    (xy_socket sys idle idle 900 waiting ≡ none)
    × (xy_bind sys idle idle 900 (pos 3) 11 80 waiting ≡ none)
    × (xy_listen sys idle idle 900 (pos 3) waiting ≡ none)
    × (xy_connect sys idle idle 900 (pos 3) waiting ≡ none)
    × (xy_accept sys idle idle 900 (pos 3) waiting ≡ none)
    × (xy_recv sys idle idle 900 (pos 3) 40 10 waiting ≡ none)
    × (xy_send sys idle idle 900 (pos 3) 40 10 waiting ≡ none)
    × (xy_close sys idle idle 900 (pos 3) waiting ≡ none)
    × (xy_epoll_create sys idle idle 900 (pos 1) waiting ≡ none)
calls-Block_example =
    calls-Block sys 900 sys-LockWaits idle idle (idle-LeavesHeld 900) (idle-LeavesHeld 900) waiting
      (pos 3) 11 80 40 10 (pos 1) waiting-CanCall

-- 3000 octets on the connected socket 100 take three buffers.
send_text-queues_example :
    (w' : World) × (send_text sys 3001 100 40 3000 quiet ≡ some (3000, w'))
    × Holds sys.pktmbuf_mtod w'.lists 2100 (20 ∷ 21 ∷ 22 ∷ [])
    × (w'.tx ≡ [])
send_text-queues_example =
    send_text-queues sys 100 quiet (sock tcp_established) 40 3000 [] refl
      (record { ring = ground arith; carries = tt })
      (record { nodes = ((refl, refl), ((refl, refl), ((refl, refl), tt))); apart = ground arith })
      (ground arith, (ground arith, (ground arith, tt)))

-- The socket 400 has the id 5 and is closed; 300 listens.
abbrev closed : XyTcpSocket
closed = record (sock tcp_close) { port_src = 8080 }

abbrev listen_call : XySocketOps
listen_call = record blank { sock_id = pos 5 }

abbrev bound : World
bound = record quiet {
  maps =
      λ (p : Ptr). record { id = 5; sock_type = xy_tcp_sock_tcp; event_poll = 0; tcp_socket = 400 };
  ops = λ (p : Ptr). if p == 900 then some listen_call else none;
  socks = update quiet.socks 400 (some closed);
}

bound-CanListen : CanListen sys bound 900 400 listen_call 5 closed
bound-CanListen = record {
  call_there = refl;
  its_id = refl;
  in_table = refl;
  its_socket = refl;
  not_null = refl;
  there = refl;
  small_id = refl;
  closed = refl;
}

xy_syn_listen-found_example :
    (w' : World) × (xy_syn_listen sys 900 bound ≡ some (minus_one, w'))
    × (w'.socks 400 ≡ some (record closed { state = tcp_listen }))
    × IsRing w'.lists.node 1 (400 ∷ 300 ∷ [])
    × (listener_tcp_sock_lookup sys 11 8080 w' ≡ some (400, w'))
xy_syn_listen-found_example =
    xy_syn_listen-found sys bound 900 400 listen_call 5 closed (300 ∷ []) bound-CanListen
      (ground arith) ((record (sock tcp_listen) { port_src = 81 }, refl, refl), tt) (refl, refl)
      refl (omega arith)

-- The socket 100 has not been handed out.
established_take_next-oldest_example :
    established_take_next sys (λ w. none) quiet ≡ some (100, record quiet { cur = 100 })
established_take_next-oldest_example =
    established_take_next-oldest sys (λ w. none) quiet [] [] 100 (ground arith) refl (omega arith)
