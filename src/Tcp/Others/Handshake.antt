-- ===== src/Tcp/Others/Handshake.antt =====
-- The end of the three-way handshake (network/include/xy_tcp_state_others.h): the acknowledgment that a
-- socket in SYN-RECEIVED waits for.
use dpdk_tcp.Prelude.{◌≡◌, refl, arith, true, false, some, none, List, ◌∷◌, ◌++◌, ltb, ◌||◌, update}
use dpdk_tcp.XyList.{Ptr}
use dpdk_tcp.XyList.Chain.{IsRing}
use dpdk_tcp.XyList.Move.{Apart, xy_list_del-xy_list_add_head}
use dpdk_tcp.Socket.{XyTcpSocket, tcp_syn_received, tcp_established}
use dpdk_tcp.World.{World, System}
use dpdk_tcp.Net.Forward.{tcp_forward_lem, segment, sent, tx_result}
use dpdk_tcp.WndHdl.{ack_update}
use dpdk_tcp.Tcp.Flags.{has_flag, rst_flag, ack_flag, syn_flag}
use dpdk_tcp.Tcp.Others.{acceptable, on_ack, state_tcp_otherwise}

module _ (sys : System) (w : World) (p m : Ptr) (sk : XyTcpSocket)
    (found : w.socks p ≡ some sk) where
  -- An acknowledgment of something that the socket has sent completes the handshake: the fifth check
  -- lets the segment pass, the socket is in ESTABLISHED with its send window updated, it has left the
  -- list of handshakes, wherever it stood, and heads the list of connections, and nothing is sent
  -- or freed.
  pub on_ack-syn_received :
      (xs ys zs : List Ptr)
      → (ltb (w.frames m).tcp.recv_ack sk.tcb.snd_una
          || ltb sk.tcb.snd_nxt (w.frames m).tcp.recv_ack)
        ≡ false
      → IsRing w.lists.node sys.list_syn_recved (xs ++ (p ∷ ys))
      → IsRing w.lists.node sys.list_established zs
      → Apart (sys.list_syn_recved ∷ xs ++ (p ∷ ys)) (sys.list_established ∷ zs)
      → (w' : World) × (on_ack sys tcp_syn_received p m w ≡ some (none, w'))
        × (w'.socks p
            ≡ some (record sk {
              state = tcp_established;
              tcb = ack_update sys (w.frames m).tcp sk.tcb;
            }))
        × IsRing w'.lists.node sys.list_syn_recved (xs ++ ys)
        × IsRing w'.lists.node sys.list_established (p ∷ zs)
        × (w'.tx ≡ w.tx)
        × (w'.freed ≡ w.freed)
  unfolding on_ack
  on_ack-syn_received xs ys zs acks syn established apart =
      let (g, k, del, add, left, joined) =
        xy_list_del-xy_list_add_head w.lists.node sys.list_syn_recved sys.list_established p xs ys
          zs syn established apart in
      let sk' = record sk {
        state = tcp_established;
        tcb = ack_update sys (w.frames m).tcp sk.tcb;
      } in
      (
        record w {
          lists = record (w.lists) { node = k };
          socks =
              update (update w.socks p (some (record sk { state = tcp_established }))) p (some sk');
        },
        ground (arith, del, add),
        ground arith,
        left,
        joined,
        refl,
        refl,
      )

  -- On a socket in SYN-RECEIVED an acceptable segment with ACK and without RST and SYN whose
  -- acknowledgment is below SND.UNA or beyond SND.NXT is answered by one reset that carries the
  -- acknowledgment as its sequence number; of the socket only the packet id changes, and no list
  -- changes.
  pub state_tcp_otherwise-syn_received :
      sk.state ≡ tcp_syn_received
      → acceptable sk.tcb (w.frames m).tcp ≡ true
      → has_flag (w.frames m).tcp.tcp_flags rst_flag ≡ false
      → has_flag (w.frames m).tcp.tcp_flags syn_flag ≡ false
      → has_flag (w.frames m).tcp.tcp_flags ack_flag ≡ true
      → (ltb (w.frames m).tcp.recv_ack sk.tcb.snd_una
          || ltb sk.tcb.snd_nxt (w.frames m).tcp.recv_ack)
        ≡ true
      → state_tcp_otherwise sys p m w
        ≡ some (
          tx_result sys w,
          sent w p sk m (
              segment sys sk
                (w.frames m)
                rst_flag
                (w.frames m).tcp.recv_ack
                0
                (w.frames m).ip.total_length),
        )
  unfolding state_tcp_otherwise on_ack
  state_tcp_otherwise-syn_received at fits no_rst no_syn acks bad =
      ground (arith, tcp_forward_lem sys w p m rst_flag (w.frames m).tcp.recv_ack 0 sk found)
