-- ===== src/Tcp/SynSent/Open.antt =====
-- The active open (network/include/xy_tcp_state_syn_sent.h): the SYN with an acknowledgment that a
-- socket in SYN-SENT waits for.
use dpdk_tcp.Prelude.{◌+◌, ◌≡◌, refl, arith, true, false, some, List, ◌∷◌, ◌++◌, update, u32, ℤ}
use dpdk_tcp.XyList.{Ptr}
use dpdk_tcp.XyList.Chain.{IsRing}
use dpdk_tcp.XyList.Move.{Apart, xy_list_del-xy_list_add_head}
use dpdk_tcp.Socket.{XyTcpSocket, tcp_established}
use dpdk_tcp.World.{World, System}
use dpdk_tcp.Net.Forward.{tcp_forward_lem, segment, sent, next_id, tx_result}
use dpdk_tcp.Tcp.Flags.{has_flag, rst_flag, ack_flag, syn_flag}
use dpdk_tcp.Tcp.SynSent.{bad_ack, syn_tcb, state_tcp_syn_sent}

module _ (sys : System) (w : World) (p m : Ptr) (sk : XyTcpSocket)
    (found : w.socks p ≡ some sk) where
  -- The socket once the SYN and its acknowledgment are taken.
  abbrev pub connected : XyTcpSocket
  connected = record sk { state = tcp_established; tcb = syn_tcb (w.frames m).tcp sk.tcb }

  -- On a socket in SYN-SENT a segment with SYN and ACK and without RST, whose acknowledgment is beyond
  -- ISS and not beyond SND.NXT, completes the handshake. The socket is in ESTABLISHED: it expects the
  -- number after the segment's, and everything up to the acknowledgment is acknowledged. It has left
  -- the list of handshakes, wherever it stood, and heads the list of connections; one frame is sent,
  -- the acknowledgment of the SYN in the segment's buffer, and nothing is freed.
  pub state_tcp_syn_sent-syn_ack :
      (xs ys zs : List Ptr)
      → has_flag (w.frames m).tcp.tcp_flags ack_flag ≡ true
      → has_flag (w.frames m).tcp.tcp_flags rst_flag ≡ false
      → has_flag (w.frames m).tcp.tcp_flags syn_flag ≡ true
      → bad_ack sk.tcb (w.frames m).tcp ≡ false
      → IsRing w.lists.node sys.list_syn_recved (xs ++ (p ∷ ys))
      → IsRing w.lists.node sys.list_established zs
      → Apart (sys.list_syn_recved ∷ xs ++ (p ∷ ys)) (sys.list_established ∷ zs)
      → let f = w.frames m in
        (r : ℤ) × (w' : World) × (sk' : XyTcpSocket) × (state_tcp_syn_sent sys p m w ≡ some (r, w'))
        × (w'.socks p ≡ some sk')
        × (sk'.state ≡ tcp_established)
        × (sk'.tcb.rcv_nxt ≡ u32 (f.tcp.sent_seq + 1))
        × ((sk'.tcb.snd_una ≡ f.tcp.recv_ack) × (sk'.tcb.snd_nxt ≡ sk.tcb.snd_nxt))
        × IsRing w'.lists.node sys.list_syn_recved (xs ++ ys)
        × IsRing w'.lists.node sys.list_established (p ∷ zs)
        × (w'.tx
            ≡ (
              m,
              segment sys connected f ack_flag sk.tcb.snd_nxt
                  (u32 (f.tcp.sent_seq + 1))
                  f.ip.total_length,
            )
              ∷ w.tx)
        × (w'.freed ≡ w.freed)
  unfolding state_tcp_syn_sent syn_tcb bad_ack next_id sent
  state_tcp_syn_sent-syn_ack xs ys zs acks no_rst syn good syn_ring established apart =
      let (g, k, del, add, left, joined) =
        xy_list_del-xy_list_add_head w.lists.node sys.list_syn_recved sys.list_established p xs ys
          zs syn_ring established apart in
      let f = w.frames m in
      let seq = sk.tcb.snd_nxt in
      let ack = u32 (f.tcp.sent_seq + 1) in
      let u : World = record w {
        lists = record (w.lists) { node = k };
        socks =
            update (update w.socks p (some (record sk { tcb = syn_tcb f.tcp sk.tcb }))) p
              (some connected);
      } in
      (
        tx_result sys u,
        sent u p connected m (segment sys connected f ack_flag seq ack f.ip.total_length),
        next_id connected,
        ground (arith, del, add, tcp_forward_lem sys u p m ack_flag seq ack connected),
        ground arith,
        refl,
        refl,
        (ground arith, refl),
        left,
        joined,
        refl,
        refl,
      )
