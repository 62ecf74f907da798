-- ===== src/Tests/Handshake.antt =====
-- A handshake at small inputs.
use dpdk_tcp.Prelude.{◌==◌, if◌then◌else◌, ℤ, ◌≡◌, refl, arith, some, none, [], ◌∷◌}
use dpdk_tcp.XyList.{XyListNode, xy_list_del, xy_list_add_head}
use dpdk_tcp.XyList.Chain.{IsRing}
use dpdk_tcp.XyList.Move.{xy_list_del-xy_list_add_head}
use dpdk_tcp.Socket.{
  XyTcpSocket, TcpStates, tcp_listen, tcp_syn_sent, tcp_syn_received, tcp_established,
}
use dpdk_tcp.World.{World}
use dpdk_tcp.Tcp.Graph.Rank.{Forward}
use dpdk_tcp.Recv.{handle}
use dpdk_tcp.Recv.Forward.{deliver, handle-deliver}
use dpdk_tcp.World.Memory.{load_sock}
use dpdk_tcp.Net.Forward.{next_id, segment, sent, tx_result}
use dpdk_tcp.WndHdl.{ack_update}
use dpdk_tcp.Tcp.{has_flag}
use dpdk_tcp.Tcp.Graph.Keep.{IsAt}
use dpdk_tcp.Tcp.Graph.Edges.{Becomes}
use dpdk_tcp.Tcp.Graph.Moves.{state_tcp_otherwise-Becomes}
use dpdk_tcp.Tcp.Others.{acceptable, on_ack, state_tcp_otherwise}
use dpdk_tcp.Tcp.Others.Data.{state_tcp_otherwise-completing}
use dpdk_tcp.Tcp.Others.Handshake.{on_ack-syn_received, state_tcp_otherwise-syn_received}
use dpdk_tcp.Tcp.SynSent.{state_tcp_syn_sent, syn_tcb, bad_ack}
use dpdk_tcp.Tcp.SynSent.Open.{state_tcp_syn_sent-syn_ack}
use dpdk_tcp.Tcp.Listen.{state_tcp_listen}
use dpdk_tcp.Tcp.Listen.Passive.{opened}
use dpdk_tcp.Tcp.Listen.Open.{CanOpen, state_tcp_listen-syn}
use dpdk_tcp.Tests.{store, sock, frame, world, sys, control, swap_16}

-- The node 200 goes from the list of head 2 to the list of head 3, where 100 is.
xy_list_del-xy_list_add_head_example :
    (g : XyListNode) × (k : XyListNode) × (xy_list_del 200 store.node ≡ some (tt, g))
    × (xy_list_add_head 3 200 g ≡ some (tt, k))
    × IsRing k 2 []
    × IsRing k 3 (200 ∷ 100 ∷ [])
xy_list_del-xy_list_add_head_example =
    xy_list_del-xy_list_add_head store.node 2 3 200 [] [] (100 ∷ []) (ground arith) (ground arith)
      (refl, (refl, tt))

-- The socket in handshake.
abbrev waiting : XyTcpSocket
waiting = record (sock tcp_syn_received) { port_dst = 4001 }

abbrev good : World
good = world tcp_established (frame 0x10 11)

on_ack-syn_received_example :
    (w' : World) × (on_ack sys tcp_syn_received 200 7 good ≡ some (none, w'))
    × (w'.socks 200
        ≡ some (record waiting {
          state = tcp_established;
          tcb = ack_update sys (frame 0x10 11).tcp control;
        }))
    × IsRing w'.lists.node 2 []
    × IsRing w'.lists.node 3 (200 ∷ 100 ∷ [])
    × (w'.tx ≡ [])
    × (w'.freed ≡ [])
on_ack-syn_received_example =
    on_ack-syn_received sys good 200 7 waiting refl [] [] (100 ∷ []) refl (ground arith)
      (ground arith) (refl, (refl, tt))

-- The same segment, from the first check on. No event poll exists, and the socket's id is 1.
state_tcp_otherwise-completing_example : state_tcp_otherwise sys 200 7 good ≡ none
unfolding acceptable has_flag
state_tcp_otherwise-completing_example =
    state_tcp_otherwise-completing sys good 200 7 waiting refl (omega arith) refl refl [] []
      (100 ∷ []) refl refl refl refl refl refl (ground arith) (ground arith) (refl, (refl, tt))

-- The acknowledgment 9 is older than what was sent.
abbrev old : World
old = world tcp_established (frame 0x10 9)

state_tcp_otherwise-syn_received_example :
    state_tcp_otherwise sys 200 7 old
    ≡ some (
      tx_result sys old,
      sent old 200 waiting 7 (segment sys waiting (frame 0x10 9) 0x04 9 0 (swap_16 40)),
    )
unfolding acceptable has_flag
state_tcp_otherwise-syn_received_example =
    state_tcp_otherwise-syn_received sys old 200 7 waiting refl refl refl refl refl refl refl

-- A SYN for the listener 300; the new socket is at 5000.
abbrev greeting : World
greeting = world tcp_established (frame 0x02 0)

abbrev listener : XyTcpSocket
listener = record (sock tcp_listen) { port_src = 81 }

greeting-CanOpen : CanOpen sys greeting 300 5000 10000 [] (200 ∷ [])
greeting-CanOpen = record {
  new = refl;
  not_null = refl;
  free_ring = ground arith;
  syn_ring = ground arith;
  apart = (refl, (refl, tt));
  own_free = (refl, (refl, (refl, tt)));
  own_syn = (refl, (refl, (refl, tt)));
  own_listener = (refl, (refl, (refl, tt)));
  node = (refl, refl);
  rcv_node = (refl, refl);
  snd_node = (refl, refl);
}

state_tcp_listen-syn_example :
    (r : ℤ) × (w' : World) × (sk' : XyTcpSocket) × (state_tcp_listen sys 300 7 greeting
      ≡ some (r, w'))
    × (w'.socks 5000 ≡ some sk')
    × (sk'.state ≡ tcp_syn_received)
    × ((sk'.ip_socket.ip_src ≡ 11) × (sk'.port_src ≡ 80))
    × ((sk'.ip_socket.ip_dst ≡ 22) × (sk'.port_dst ≡ 4000))
    × ((sk'.tcb.snd_una ≡ 77) × (sk'.tcb.snd_nxt ≡ 78))
    × (sk'.tcb.rcv_nxt ≡ 51)
    × IsRing w'.lists.node 2 (5000 ∷ 200 ∷ [])
    × IsRing w'.lists.node 4 []
    × (w'.tx
        ≡ (7, segment sys (opened (frame 0x02 0) 77) (frame 0x02 0) 0x12 77 51 (swap_16 40)) ∷ [])
    × (w'.freed ≡ [])
unfolding has_flag
state_tcp_listen-syn_example =
    state_tcp_listen-syn sys greeting 300 7 5000 10000 [] (200 ∷ []) listener refl greeting-CanOpen
      refl refl refl

-- The socket 200 stays in SYN-RECEIVED.
state_tcp_otherwise-Becomes_example :
    (t : TcpStates) × IsAt 200 t
      (sent old 200 waiting 7 (segment sys waiting (frame 0x10 9) 0x04 9 0 (swap_16 40)))
    × Becomes 0x10 tcp_syn_received t
unfolding acceptable has_flag
state_tcp_otherwise-Becomes_example =
    state_tcp_otherwise-Becomes sys 200 7 tcp_syn_received old (tx_result sys old)
      (sent old 200 waiting 7 (segment sys waiting (frame 0x10 9) 0x04 9 0 (swap_16 40)))
      (record { sock = waiting; there = refl; state = refl })
      (state_tcp_otherwise-syn_received sys old 200 7 waiting refl refl refl refl refl refl refl)

-- The socket 200 has sent a SYN, which the segment answers.
abbrev greeted : World
greeted = record (world tcp_established (frame 0x12 11)) {
  socks = λ p. if p == 200 then some (sock tcp_syn_sent) else none;
}

state_tcp_syn_sent-syn_ack_example :
    (r : ℤ) × (w' : World) × (sk' : XyTcpSocket) × (state_tcp_syn_sent sys 200 7 greeted
      ≡ some (r, w'))
    × (w'.socks 200 ≡ some sk')
    × (sk'.state ≡ tcp_established)
    × (sk'.tcb.rcv_nxt ≡ 51)
    × ((sk'.tcb.snd_una ≡ 11) × (sk'.tcb.snd_nxt ≡ 12))
    × IsRing w'.lists.node 2 []
    × IsRing w'.lists.node 3 (200 ∷ 100 ∷ [])
    × (w'.tx
        ≡ (
          7,
          segment sys
              (record (sock tcp_established) { tcb = syn_tcb (frame 0x12 11).tcp control })
              (frame 0x12 11)
              0x10
              12
              51
              (swap_16 40),
        )
          ∷ [])
    × (w'.freed ≡ [])
unfolding has_flag bad_ack
state_tcp_syn_sent-syn_ack_example =
    state_tcp_syn_sent-syn_ack sys greeted 200 7 (sock tcp_syn_sent) refl [] [] (100 ∷ []) refl refl
      refl refl (ground arith) (ground arith) (refl, (refl, tt))

-- Two segments for the socket 200, whose acknowledgments are both too old.
abbrev answered_once : World
answered_once = sent old 200 waiting 7 (segment sys waiting (frame 0x10 9) 0x04 9 0 (swap_16 40))

abbrev answered_twice : World
answered_twice =
    sent answered_once 200 (next_id waiting) 8
      (segment sys (next_id waiting) (frame 0x10 9) 0x04 9 0 (swap_16 40))

both_answered : deliver sys 200 (7 ∷ 8 ∷ []) old ≡ some (tt, answered_twice)
unfolding load_sock handle sent next_id acceptable has_flag
both_answered = ground (
  arith,
  state_tcp_otherwise-syn_received sys old 200 7 waiting refl refl refl refl refl refl refl,
  state_tcp_otherwise-syn_received sys answered_once 200 8 (next_id waiting) refl refl refl refl
      refl refl refl,
)

handle-deliver_example : (t : TcpStates) × IsAt 200 t answered_twice × Forward tcp_syn_received t
handle-deliver_example =
    handle-deliver sys 200 (7 ∷ 8 ∷ []) tcp_syn_received old answered_twice (λ n. ground arith) refl
      (record { sock = waiting; there = refl; state = refl }) both_answered
