-- ===== src/Tcp/Graph/Aside.antt =====
-- A listener that opens a connection (network/include/xy_tcp_state_listen.h) leaves the state of every
-- socket that exists alone, since the new socket is at an address of its own.
use dpdk_tcp.Prelude.{
  triple_fact, pos, some, ◌≡◌, arith, ℕ, false, Triple, Option-cases, inl, inr, triple_bind,
  triple_seq, triple_pure, triple_if, ◌==◌, update, bit_or,
}
use dpdk_tcp.XyList.{
  Ptr, null, load_next, load_prev, xy_list_is_empty, xy_list_take_head, xy_list_add_head,
}
use dpdk_tcp.Wnd.Mbuf.{on_node}
use dpdk_tcp.Socket.{XyTcpSocket, TcpStates, Tcb, zero_tcb}
use dpdk_tcp.World.{World, System, XySocketMap, xy_tcp_sock_tcp}
use dpdk_tcp.World.Memory.{
  modify_sock, put_links, copy_links, on_links, assign_sock, assign_tcb, modify_tcb, copy_sock,
  rand, malloc, load_map, modify_map,
}
use dpdk_tcp.Manage.{allocate_sock, xy_allocate_tcp_socket}
use dpdk_tcp.Socks.{syn_recv_tcp_sock_enqueue}
use dpdk_tcp.Tcp.Flags.{has_flag, rst_flag, ack_flag, syn_flag}
use dpdk_tcp.Tcp.Listen.{passive_open, passive_socket, passive_tcb, state_tcp_listen}
use dpdk_tcp.Tcp.Graph.Keep.{
  IsAt, Keeps, IsAt-socks, load_frame-Keeps, on_lists-Keeps, load_sock-Keeps, pktmbuf_free-Keeps,
}
use dpdk_tcp.Tcp.Graph.Calls.{tcp_forward_any-Keeps, done}

module _ (sys : System) (p : Ptr) (s : TcpStates) where
  modify_other-Keeps :
      (q : Ptr) (f : XyTcpSocket → XyTcpSocket) → (q == p) ≡ false → Keeps p s (modify_sock q f)
  unfolding modify_sock
  modify_other-Keeps q f other = record {
    after = λ w at a w' e. elim (Option-cases (w.socks q)) [
      | inl n ↦ absurd (ground (arith, e, n))
      | inr (sk, n) ↦ IsAt-socks p s w w' (ground (arith, e, n, other)) at
    ];
  }

  put_links-Keeps : (q next prev : Ptr) → Keeps p s (put_links q next prev)
  unfolding put_links
  put_links-Keeps q next prev = record {
    after = λ w at a w' e. IsAt-socks p s w w' (ground (arith, e)) at;
  }

  copy_links-Keeps : (dst src : Ptr) → Keeps p s (copy_links dst src)
  unfolding copy_links on_links
  copy_links-Keeps dst src = triple_bind _ _ (on_lists-Keeps p s (on_node (load_next src))) λ next.
      triple_bind _ _ (on_lists-Keeps p s (on_node (load_prev src)))
        λ prev. put_links-Keeps dst next prev

  rand-Keeps : Keeps p s (rand sys)
  unfolding rand
  rand-Keeps = record { after = λ w at a w' e. IsAt-socks p s w w' (ground (arith, e)) at }

  load_map-Keeps : (q : Ptr) → Keeps p s (load_map q)
  unfolding load_map
  load_map-Keeps q = record { after = λ w at a w' e. IsAt-socks p s w w' (ground (arith, e)) at }

  modify_map-Keeps : (q : Ptr) (f : XySocketMap → XySocketMap) → Keeps p s (modify_map q f)
  unfolding modify_map
  modify_map-Keeps q f = record {
    after = λ w at a w' e. IsAt-socks p s w w' (ground (arith, e)) at;
  }

  module _ (q : Ptr) (other : (q == p) ≡ false) where
    assign_sock-Keeps : (sk : XyTcpSocket) → Keeps p s (assign_sock sys q sk)
    unfolding assign_sock
    assign_sock-Keeps sk = triple_seq _ _ (modify_other-Keeps q (λ _. sk) other) (
        triple_seq _ _ (put_links-Keeps q null null) (
          triple_seq _ _ (put_links-Keeps (sys.rcv_buf_list q) null null)
            (put_links-Keeps (sys.snd_buf_list q) null null)))

    assign_tcb-Keeps : (t : Tcb) → Keeps p s (assign_tcb sys q t)
    unfolding assign_tcb modify_tcb
    assign_tcb-Keeps t = triple_seq _ _ (modify_other-Keeps q (λ sk. record sk { tcb = t }) other) (
        triple_seq _ _ (put_links-Keeps (sys.rcv_buf_list q) null null)
          (put_links-Keeps (sys.snd_buf_list q) null null))

    copy_sock-Keeps : (src : Ptr) → Keeps p s (copy_sock sys q src)
    unfolding copy_sock
    copy_sock-Keeps src = triple_bind _ _ (load_sock-Keeps p s src) λ sk.
        triple_seq _ _ (modify_other-Keeps q (λ _. sk) other) (
          triple_seq _ _ (copy_links-Keeps q src) (
            triple_seq _ _ (copy_links-Keeps (sys.rcv_buf_list q) (sys.rcv_buf_list src))
              (copy_links-Keeps (sys.snd_buf_list q) (sys.snd_buf_list src))))

    new_sock-Keeps :
        Keeps p s
          (λ (w : World). some (tt, record w { socks = update w.socks q (some sys.uninitialised) }))
    new_sock-Keeps = record {
      after = λ w at a w' e. IsAt-socks p s w w' (ground (arith, e, other)) at;
    }

  -- The result is another address.
  abbrev Elsewhere : Ptr → World → Type 0
  Elsewhere q w = IsAt p s w × ((q == p) ≡ false)

  module _ (fresh : (n : ℕ) → (sys.malloc n == p) ≡ false) (exists : (null == p) ≡ false) where
    malloc-Elsewhere : Triple (IsAt p s) (malloc sys) Elsewhere
    unfolding malloc
    malloc-Elsewhere = record {
      after = λ w at q w' e.
          (IsAt-socks p s w w' (ground (arith, e)) at, ground (arith, e, fresh w.mallocs));
    }

    allocate_sock-Elsewhere : Triple (IsAt p s) (allocate_sock sys) Elsewhere
    unfolding allocate_sock
    allocate_sock-Elsewhere = triple_bind _ _ malloc-Elsewhere λ q. triple_fact _ λ other.
        triple_if (q == null) _ _ (λ _. triple_pure null (λ w at. (at, exists)))
          (λ _. triple_seq _ _ (new_sock-Keeps q other) (
            triple_seq _ _ (put_links-Keeps q sys.uninitialised_link sys.uninitialised_link) (
              triple_seq _ _
                (put_links-Keeps (sys.rcv_buf_list q) sys.uninitialised_link sys.uninitialised_link)
                (triple_seq _ _
                  (put_links-Keeps (sys.snd_buf_list q) sys.uninitialised_link
                    sys.uninitialised_link)
                  (triple_pure q (λ w at. (at, other)))))))

    allocate-Elsewhere : Triple (IsAt p s) (xy_allocate_tcp_socket sys) Elsewhere
    unfolding xy_allocate_tcp_socket on_links
    allocate-Elsewhere =
        triple_bind _ _ (on_lists-Keeps p s (on_node (xy_list_is_empty sys.free_sock_maps)))
          λ empty.
            triple_if empty _ _ (λ _. triple_pure null (λ w at. (at, exists)))
              (λ _.
                triple_bind _ _
                  (on_lists-Keeps p s (on_node (xy_list_take_head sys.free_sock_maps)))
                  λ sock_map. triple_bind _ _ allocate_sock-Elsewhere λ q. triple_fact _ λ other.
                    triple_seq _ _
                      (modify_map-Keeps sock_map
                        (λ m. record m { sock_type = xy_tcp_sock_tcp; tcp_socket = q }))
                      (triple_bind _ _ (load_map-Keeps sock_map) λ m.
                        triple_seq _ _ (modify_other-Keeps q (λ sk. record sk { id = m.id }) other)
                          (triple_pure q (λ w at. (at, other)))))

    passive_open-Keeps : (listener m : Ptr) → Keeps p s (passive_open sys listener m)
    unfolding passive_open syn_recv_tcp_sock_enqueue on_links
    passive_open-Keeps listener m = triple_bind _ _ (load_frame-Keeps p s m) λ f.
        triple_bind _ _ allocate-Elsewhere λ q. triple_fact _ λ other.
          triple_seq _ _ (copy_sock-Keeps q other listener) (
            triple_seq _ _ (assign_sock-Keeps q other (passive_socket f)) (
              triple_seq _ _ (assign_tcb-Keeps q other zero_tcb) (
                triple_bind _ _ rand-Keeps λ iss.
                  triple_seq _ _ (assign_tcb-Keeps q other (passive_tcb f iss)) (
                    triple_seq _ _
                      (on_lists-Keeps p s (on_node (xy_list_add_head sys.list_syn_recved q)))
                      (triple_bind _ _ (load_sock-Keeps p s q) λ sk.
                        tcp_forward_any-Keeps sys p s q m (bit_or syn_flag ack_flag) sk.tcb.iss
                          sk.tcb.rcv_nxt)))))

    pub state_tcp_listen-Keeps : (listener m : Ptr) → Keeps p s (state_tcp_listen sys listener m)
    unfolding state_tcp_listen
    state_tcp_listen-Keeps listener m = triple_bind _ _ (load_frame-Keeps p s m) λ f.
        triple_if (has_flag f.tcp.tcp_flags rst_flag) _ _
          (λ _. triple_seq _ _ (pktmbuf_free-Keeps p s m) (done sys p s (pos 0)))
          (λ _.
            triple_if (has_flag f.tcp.tcp_flags ack_flag) _ _
              (λ _. tcp_forward_any-Keeps sys p s listener m rst_flag f.tcp.recv_ack 0)
              (λ _.
                triple_if (has_flag f.tcp.tcp_flags syn_flag) _ _
                  (λ _. passive_open-Keeps listener m)
                  (λ _. triple_seq _ _ (pktmbuf_free-Keeps p s m) (done sys p s (pos 0)))))
