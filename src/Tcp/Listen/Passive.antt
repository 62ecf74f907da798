-- ===== src/Tcp/Listen/Passive.antt =====
-- A SYN for a listener (network/include/xy_tcp_state_listen.h).
use dpdk_tcp.Prelude.{ℕ, ◌+◌, ◌≡◌, ◌∙◌, ap, arith, some, List, ◌∷◌, u32}
use dpdk_tcp.XyList.{Ptr}
use dpdk_tcp.XyList.Chain.{IsRing}
use dpdk_tcp.XyList.Ring.{IsNode, between, front, xy_list_add_head-front}
use dpdk_tcp.XyList.Move.{Apart, Apart-right, between-IsRing, front-mem}
use dpdk_tcp.Packet.{Frame}
use dpdk_tcp.Socket.{XyTcpSocket, zero_tcb}
use dpdk_tcp.World.{World, System}
use dpdk_tcp.World.Memory.{copy_sock, assign_sock, assign_tcb}
use dpdk_tcp.Net.{tcp_forward}
use dpdk_tcp.Socks.{syn_recv_tcp_sock_enqueue}
use dpdk_tcp.Net.Forward.{tcp_forward_lem, segment, sent, tx_result}
use dpdk_tcp.Tcp.Listen.{passive_socket, passive_tcb}
use dpdk_tcp.Tcp.Listen.Spares.{
  own, Spares-trans, IsRing-Spares, copy_sock_lem, assign_sock_lem, assign_tcb_lem,
}
use dpdk_tcp.Tcp.Listen.Allocate.{Allocated}

-- The new socket, in the order of its making: allocated, copied from the listener, assigned, its
-- control block assigned.
abbrev pub opened : Frame → ℕ → XyTcpSocket
opened f iss = record (passive_socket f) { tcb = passive_tcb f iss }

-- The memory with the new socket filled in, before it joins a list.
pub record Filled (sys : System) (w : World) (q : Ptr) (xs es : List Ptr) (sk : XyTcpSocket)
    (w' : World) : Type 0 where
  pub sock : w'.socks q ≡ some sk
  pub syn_ring : IsRing w'.lists.node sys.list_syn_recved xs
  pub free_ring : IsRing w'.lists.node sys.free_sock_maps es
  pub node : IsNode w'.lists.node q
  pub frames : w'.frames ≡ w.frames
  pub tx : w'.tx ≡ w.tx
  pub freed : w'.freed ≡ w.freed

module _ (sys : System) (p m q : Ptr) (es xs : List Ptr)
    (own_free : Apart (own sys q) (sys.free_sock_maps ∷ es))
    (own_syn : Apart (own sys q) (sys.list_syn_recved ∷ xs))
    (apart : Apart (sys.free_sock_maps ∷ es) (sys.list_syn_recved ∷ xs)) where
  -- The rest of the passive open, once the socket is filled.
  pub passive_tail :
      (w v : World) (sk : XyTcpSocket) (flags seq ack : ℕ)
      → Filled sys w q xs es sk v
      → (u : World) × (syn_recv_tcp_sock_enqueue sys q v ≡ some (tt, u))
        × (tcp_forward sys q m flags seq ack u
            ≡ some (
              tx_result sys u,
              sent u q sk m
                  (segment sys sk (w.frames m) flags seq ack (w.frames m).ip.total_length),
            ))
        × Filled sys w q (q ∷ xs) es sk u
  unfolding syn_recv_tcp_sock_enqueue
  passive_tail w v sk flags seq ack d =
      let syn = sys.list_syn_recved in
      let f = front syn xs in
      let (run, ring) = xy_list_add_head-front v.lists.node syn q xs d.syn_ring d.node own_syn.0 in
      let g = between v.lists.node syn f q in
      let u : World = record v { lists = record (v.lists) { node = g } } in
      (
        u,
        ground (arith, run),
        tcp_forward_lem sys u q m flags seq ack sk d.sock
            ∙ ap
                (λ fs. some (
                  tx_result sys u,
                  sent u q sk m (segment sys sk (fs m) flags seq ack (fs m).ip.total_length),
                ))
                d.frames,
        record {
          sock = d.sock;
          syn_ring = ring;
          free_ring =
              between-IsRing v.lists.node syn f q sys.free_sock_maps es d.free_ring
                (Apart-right (sys.free_sock_maps ∷ es) (syn ∷ xs) syn apart (ground arith))
                (Apart-right (sys.free_sock_maps ∷ es) (syn ∷ xs) f apart (front-mem syn xs))
                own_free.0;
          node = (ground arith, ground arith);
          frames = d.frames;
          tx = d.tx;
          freed = d.freed;
        },
      )

  -- The new socket filled, after its allocation.
  module _ (w v : World) (f : Frame) (sk : XyTcpSocket) (there : w.socks p ≡ some sk)
      (new : Allocated sys w q sys.list_syn_recved xs es v) (own_p : Apart (own sys q) (own sys p))
      (np : IsNode w.lists.node p) (nr : IsNode w.lists.node (sys.rcv_buf_list p))
      (ns : IsNode w.lists.node (sys.snd_buf_list p)) where
    pub passive_fill :
        (w2 : World) × (w3 : World) × (w4 : World) × (w5 : World) × (copy_sock sys q p v
          ≡ some (tt, w2))
        × (assign_sock sys q (passive_socket f) w2 ≡ some (tt, w3))
        × (assign_tcb sys q zero_tcb w3 ≡ some (tt, w4))
        × (w4.rands ≡ w.rands)
        × (assign_tcb sys q
              (passive_tcb f (u32 (sys.rand w.rands)))
              (record w4 { rands = w4.rands + 1 })
            ≡ some (tt, w5))
        × Filled sys w q xs es (opened f (u32 (sys.rand w.rands))) w5
    passive_fill =
        let (s, here) = new.sock in
        let (w2, r2, s2, h2) =
          copy_sock_lem sys v q s here p sk (new.others p (ground (arith, own_p)) ∙ there)
            (new.nodes p np) (new.nodes (sys.rcv_buf_list p) nr) (new.nodes (sys.snd_buf_list p) ns)
            own_p in
        let (w3, r3, s3, h3, n3) = assign_sock_lem sys w2 q sk h2 (passive_socket f) in
        let (w4, r4, s4, h4, n4) = assign_tcb_lem sys w3 q (passive_socket f) h3 zero_tcb n3 in
        let v4 : World = record w4 { rands = w4.rands + 1 } in
        let (w5, r5, s5, h5, n5) =
          assign_tcb_lem sys v4 q (record (passive_socket f) { tcb = zero_tcb }) h4
            (passive_tcb f (u32 (sys.rand w.rands))) n4 in
        let s14 = Spares-trans s2 (Spares-trans s3 s4) in
        let keep =
          λ (head : Ptr) (zs : List Ptr) (a : Apart (own sys q) (head ∷ zs))
              (c : IsRing v.lists.node head zs).
            IsRing-Spares sys q v4 w5 head zs s5 a (IsRing-Spares sys q v w4 head zs s14 a c) in
        (
          w2,
          w3,
          w4,
          w5,
          r2,
          r3,
          r4,
          s14.rands ∙ new.rands,
          r5,
          record {
            sock = h5;
            syn_ring = keep sys.list_syn_recved xs own_syn new.ring;
            free_ring = keep sys.free_sock_maps es own_free new.free_ring;
            node = n5;
            frames = s5.frames ∙ (s14.frames ∙ new.frames);
            tx = s5.tx ∙ (s14.tx ∙ new.tx);
            freed = s5.freed ∙ (s14.freed ∙ new.freed);
          },
        )
