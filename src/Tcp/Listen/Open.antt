-- ===== src/Tcp/Listen/Open.antt =====
-- The whole passive open (network/include/xy_tcp_state_listen.h).
use dpdk_tcp.Prelude.{◌+◌, ◌≡◌, refl, ap, arith, true, false, some, List, ◌∷◌, ◌==◌, u32, ℤ, bit_or}
use dpdk_tcp.XyList.{Ptr, null}
use dpdk_tcp.XyList.Chain.{IsRing}
use dpdk_tcp.XyList.Ring.{IsNode}
use dpdk_tcp.XyList.Move.{Apart}
use dpdk_tcp.Socket.{XyTcpSocket, tcp_syn_received}
use dpdk_tcp.World.{World, System}
use dpdk_tcp.Net.Forward.{next_id, segment, sent, tx_result}
use dpdk_tcp.Tcp.Flags.{has_flag, rst_flag, ack_flag, syn_flag}
use dpdk_tcp.Tcp.Listen.{passive_open, state_tcp_listen, passive_socket, passive_tcb}
use dpdk_tcp.Tcp.Listen.Spares.{own}
use dpdk_tcp.Tcp.Listen.Allocate.{xy_allocate_tcp_socket-Allocated}
use dpdk_tcp.Tcp.Listen.Passive.{opened, Filled, passive_fill, passive_tail}

-- Memory in which a listener `p` can make a socket: the table has a free element `e`, `malloc`
-- returns `q`, and the nodes in `q` are in no list and not the listener's.
pub record CanOpen (sys : System) (w : World) (p q e : Ptr) (es xs : List Ptr) : Type 0 where
  pub new : sys.malloc w.mallocs ≡ q
  pub not_null : (q == null) ≡ false
  pub free_ring : IsRing w.lists.node sys.free_sock_maps (e ∷ es)
  pub syn_ring : IsRing w.lists.node sys.list_syn_recved xs
  pub apart : Apart (sys.free_sock_maps ∷ e ∷ es) (sys.list_syn_recved ∷ xs)
  pub own_free : Apart (own sys q) (sys.free_sock_maps ∷ es)
  pub own_syn : Apart (own sys q) (sys.list_syn_recved ∷ xs)
  pub own_listener : Apart (own sys q) (own sys p)
  pub node : IsNode w.lists.node p
  pub rcv_node : IsNode w.lists.node (sys.rcv_buf_list p)
  pub snd_node : IsNode w.lists.node (sys.snd_buf_list p)

module _ (sys : System) (w : World) (p m q e : Ptr) (es xs : List Ptr) (sk : XyTcpSocket)
    (there : w.socks p ≡ some sk) (c : CanOpen sys w p q e es xs) where
  passive_open-opened :
      (u : World) × (passive_open sys p m w
        ≡ some (
          tx_result sys u,
          sent u q (opened (w.frames m) (u32 (sys.rand w.rands))) m (
              segment sys
                (opened (w.frames m) (u32 (sys.rand w.rands)))
                (w.frames m)
                (bit_or syn_flag ack_flag)
                (u32 (sys.rand w.rands))
                (u32 ((w.frames m).tcp.sent_seq + 1))
                (w.frames m).ip.total_length),
        ))
      × Filled sys w q (q ∷ xs) es (opened (w.frames m) (u32 (sys.rand w.rands))) u
  unfolding passive_open
  passive_open-opened =
      let (v, r1, alloc) =
        xy_allocate_tcp_socket-Allocated sys w q e sys.list_syn_recved es xs c.new c.not_null
          c.free_ring c.syn_ring c.apart c.own_free c.own_syn in
      let apart : Apart (sys.free_sock_maps ∷ es) (sys.list_syn_recved ∷ xs) =
        (c.apart.0, c.apart.1.1) in
      let (w2, w3, w4, w5, r2, r3, r4, rands, r5, filled) =
        passive_fill sys p m q es xs c.own_free c.own_syn apart w v (w.frames m) sk there alloc
          c.own_listener c.node c.rcv_node c.snd_node in
      let (u, r6, r7, done) =
        passive_tail sys p m q es xs c.own_free c.own_syn apart w w5
          (opened (w.frames m) (u32 (sys.rand w.rands))) (bit_or syn_flag ack_flag)
          (u32 (sys.rand w.rands)) (u32 ((w.frames m).tcp.sent_seq + 1)) filled in
      (u, ground (arith, r1, r2, r3, r4, rands, r5, r6, done.sock, r7), done)

  -- A SYN without RST and ACK, in memory where the listener can make a socket, is handled to the end.
  -- The new socket is in SYN-RECEIVED, for the segment's addresses and ports the other way round; it
  -- has sent its initial sequence number and expects the one after the segment's. It heads the list
  -- of handshakes, the other free elements of the table stay free, one frame is sent, the SYN and
  -- ACK of the new socket in the segment's buffer, and nothing is freed.
  pub state_tcp_listen-syn :
      has_flag (w.frames m).tcp.tcp_flags rst_flag ≡ false
      → has_flag (w.frames m).tcp.tcp_flags ack_flag ≡ false
      → has_flag (w.frames m).tcp.tcp_flags syn_flag ≡ true
      → let f = w.frames m in
        let iss = u32 (sys.rand w.rands) in
        (r : ℤ) × (w' : World) × (sk' : XyTcpSocket) × (state_tcp_listen sys p m w ≡ some (r, w'))
        × (w'.socks q ≡ some sk')
        × (sk'.state ≡ tcp_syn_received)
        × ((sk'.ip_socket.ip_src ≡ f.ip.dst_addr) × (sk'.port_src ≡ f.tcp.dst_port))
        × ((sk'.ip_socket.ip_dst ≡ f.ip.src_addr) × (sk'.port_dst ≡ f.tcp.src_port))
        × ((sk'.tcb.snd_una ≡ iss) × (sk'.tcb.snd_nxt ≡ u32 (iss + 1)))
        × (sk'.tcb.rcv_nxt ≡ u32 (f.tcp.sent_seq + 1))
        × IsRing w'.lists.node sys.list_syn_recved (q ∷ xs)
        × IsRing w'.lists.node sys.free_sock_maps es
        × (w'.tx
            ≡ (
              m,
              segment sys
                  (opened f iss)
                  f
                  (bit_or syn_flag ack_flag)
                  iss
                  (u32 (f.tcp.sent_seq + 1))
                  f.ip.total_length,
            )
              ∷ w.tx)
        × (w'.freed ≡ w.freed)
  unfolding state_tcp_listen passive_socket passive_tcb next_id sent
  state_tcp_listen-syn no_rst no_ack syn =
      let (u, run, done) = passive_open-opened in
      let f = w.frames m in
      let iss = u32 (sys.rand w.rands) in
      let g =
        segment sys (opened f iss) f (bit_or syn_flag ack_flag) iss (u32 (f.tcp.sent_seq + 1))
          f.ip.total_length in
      (
        tx_result sys u,
        sent u q (opened f iss) m g,
        next_id (opened f iss),
        ground (arith, run),
        ground arith,
        refl,
        (refl, refl),
        (refl, refl),
        (refl, refl),
        refl,
        done.syn_ring,
        done.free_ring,
        ap (λ t. (m, g) ∷ t) done.tx,
        done.freed,
      )
