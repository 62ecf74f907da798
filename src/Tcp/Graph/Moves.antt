-- ===== src/Tcp/Graph/Moves.antt =====
-- The states between which a segment moves a connection (network/include/xy_tcp_state_others.h).
use dpdk_tcp.Prelude.{
  M, ◌>>◌, pure, ℤ, pos, some, none, Option, ◌≡◌, Triple, triple_bind, triple_seq, triple_if,
  triple_fact, ◌==◌, not, ℕ, true, false, refl, arith, triple_pure,
}
use dpdk_tcp.XyList.{Ptr, xy_list_del}
use dpdk_tcp.Wnd.Mbuf.{on_node}
use dpdk_tcp.Socket.{
  TcpStates, tcp_listen, tcp_syn_sent, tcp_syn_received, tcp_established, tcp_fin_wait_1,
  tcp_fin_wait_2, tcp_close, tcp_close_wait, tcp_closing, tcp_last_ack, tcp_time_wait,
}
use dpdk_tcp.World.{World, System}
use dpdk_tcp.World.Memory.{load_sock, on_links, set_state, pktmbuf_free}
use dpdk_tcp.Socks.{syn_recv_tcp_sock_dequeue}
use dpdk_tcp.Tcp.Flags.{has_flag, syn_flag, rst_flag, ack_flag}
use dpdk_tcp.Tcp.Others.{on_rst, on_ack, process_segment, state_tcp_otherwise, acceptable}
use dpdk_tcp.Tcp.Graph.Keep.{
  IsAt, Keeps, load_frame-Keeps, on_lists-Keeps, load_sock-Keeps, load_sock-state,
  pktmbuf_free-Keeps, set_state-IsAt,
}
use dpdk_tcp.Tcp.Graph.Calls.{tcp_forward-Keeps}
use dpdk_tcp.Tcp.Graph.Edges.{Becomes, stays, handled, closes, refused, Became, became, from_Became}
use dpdk_tcp.Packet.{Frame}
use dpdk_tcp.Tcp.Graph.Frame.{
  triple_both, triple_first, triple_read, FramePost, on_ack-KeepsFrame, load_frame-KeepsFrame,
  load_sock-KeepsFrame,
}
use dpdk_tcp.Tcp.Graph.Ack.{AckPost, on_ack-Became}
use dpdk_tcp.Tcp.Graph.Fin.{process_segment-Became}

module _ (sys : System) (p : Ptr) where
  -- The state that a segment with these flags has led to.
  abbrev Moved : ℕ → TcpStates → World → Type 0
  Moved flags = Became p (Becomes flags)

  -- The socket goes into a state, and the buffer is freed.
  set_and_free :
      (flags : ℕ) (s t : TcpStates) (m : Ptr)
      → Becomes flags s t
      → Triple (IsAt p s) (set_state p t >> (pktmbuf_free m >> pure (pos 0))) (λ _. Moved flags s)
  set_and_free flags s t m step =
      triple_seq _ _ (set_state-IsAt p s t)
        (triple_seq _ _ (pktmbuf_free-Keeps p t m) (became p (Becomes flags) s t (pos 0) step))

  free_only :
      (flags : ℕ) (s : TcpStates) (m : Ptr)
      → Triple (IsAt p s) (pktmbuf_free m >> pure (pos 0)) (λ _. Moved flags s)
  free_only flags s m =
      triple_seq _ _ (pktmbuf_free-Keeps p s m) (became p (Becomes flags) s s (pos 0) (stays s))

  Keeps-stays :
      (flags : ℕ) (s : TcpStates) (m : M World ℤ)
      → Keeps p s m
      → Triple (IsAt p s) m (λ _. Moved flags s)
  Keeps-stays flags s m keeps = record {
    after = λ w at a w' e. (s, keeps.after w at a w' e, stays s);
  }

  on_rst-Became :
      (flags : ℕ) (s : TcpStates) (m : Ptr)
      → has_flag flags rst_flag ≡ true
      → Triple (IsAt p s) (on_rst s p m) (λ _. Moved flags s)
  unfolding on_rst syn_recv_tcp_sock_dequeue on_links
  on_rst-Became flags tcp_syn_received m set =
      triple_bind _ _ (load_sock-Keeps p tcp_syn_received p) λ sk.
        triple_seq _ _
          (triple_if (sk.passive == 0) _ _
            (λ _. record {
              after = λ w at a w' e. (
                tcp_close,
                (set_state-IsAt p tcp_syn_received tcp_close).after w at a w' e,
                closes tcp_syn_received (ground (arith, set)),
              );
            })
            (λ _. triple_seq _ _ (set_state-IsAt p tcp_syn_received tcp_listen) (record {
              after = λ w at a w' e. (
                tcp_listen,
                (on_lists-Keeps p tcp_listen (on_node (xy_list_del p))).after w at a w' e,
                refused set,
              );
            })))
          (from_Became p (Becomes flags) tcp_syn_received _ _ λ t step.
            triple_seq _ _ (pktmbuf_free-Keeps p t m)
              (became p (Becomes flags) tcp_syn_received t (pos 0) step))
  on_rst-Became flags tcp_listen m set =
      set_and_free flags tcp_listen tcp_close m (closes tcp_listen (ground (arith, set)))
  on_rst-Became flags tcp_syn_sent m set =
      set_and_free flags tcp_syn_sent tcp_close m (closes tcp_syn_sent (ground (arith, set)))
  on_rst-Became flags tcp_established m set =
      set_and_free flags tcp_established tcp_close m (closes tcp_established (ground (arith, set)))
  on_rst-Became flags tcp_fin_wait_1 m set =
      set_and_free flags tcp_fin_wait_1 tcp_close m (closes tcp_fin_wait_1 (ground (arith, set)))
  on_rst-Became flags tcp_fin_wait_2 m set =
      set_and_free flags tcp_fin_wait_2 tcp_close m (closes tcp_fin_wait_2 (ground (arith, set)))
  on_rst-Became flags tcp_close m set =
      set_and_free flags tcp_close tcp_close m (closes tcp_close (ground (arith, set)))
  on_rst-Became flags tcp_close_wait m set =
      set_and_free flags tcp_close_wait tcp_close m (closes tcp_close_wait (ground (arith, set)))
  on_rst-Became flags tcp_closing m set =
      set_and_free flags tcp_closing tcp_close m (closes tcp_closing (ground (arith, set)))
  on_rst-Became flags tcp_last_ack m set =
      set_and_free flags tcp_last_ack tcp_close m (closes tcp_last_ack (ground (arith, set)))
  on_rst-Became flags tcp_time_wait m set =
      set_and_free flags tcp_time_wait tcp_close m (closes tcp_time_wait (ground (arith, set)))

  on_rst-IsAt :
      (flags : ℕ) (s : TcpStates) (m : Ptr) (t : TcpStates)
      → t ≡ s
      → has_flag flags rst_flag ≡ true
      → Triple (IsAt p s) (on_rst t p m) (λ _. Moved flags s)
  on_rst-IsAt flags s m t q set = rw q (on_rst-Became flags s m set)

  module _ (m : Ptr) (g : Frame) where
    -- The socket's state, and the frame in the segment's buffer.
    abbrev Handles : TcpStates → World → Type 0
    Handles s w = IsAt p s w × (w.frames m ≡ g)

    on_ack-IsAt :
        (s t : TcpStates)
        → t ≡ s
        → Triple
            (Handles s)
            (on_ack sys t p m)
            (λ r w. AckPost sys p s r w × FramePost m g sys p r w)
    on_ack-IsAt s t q =
        rw q (triple_both _ (on_ack-Became sys p s m) (on_ack-KeepsFrame m g sys p s))

    -- What follows the fifth check.
    after_ack :
        (s : TcpStates) (returned : Option ℤ)
        → has_flag g.tcp.tcp_flags rst_flag ≡ false
        → has_flag g.tcp.tcp_flags syn_flag ≡ false
        → has_flag g.tcp.tcp_flags ack_flag ≡ true
        → Triple
            (λ w. AckPost sys p s returned w × FramePost m g sys p returned w)
            (elim returned [ some r ↦ pure r | none ↦ process_segment sys p m ])
            (λ _. Moved g.tcp.tcp_flags s)
    after_ack s (some r) rst syn ack = triple_pure r (λ w post. (s, post.0, stays s))
    after_ack s none rst syn ack = record {
      after = λ w ((t, at, step), frame) r w' e.
          (let (u, at', fin) = (process_segment-Became sys p t m g).after w (at, frame) r w' e in
            (u, at', handled s t u rst syn ack step fin));
    }

    with_frame :
        (s : TcpStates) → Triple (Handles s) (load_sock p) (λ sk w. Handles s w × (sk.state ≡ s))
    with_frame s = record {
      after = λ w (at, frame) sk w' e.
          (let (at', q) = (load_sock-state p s).after w at sk w' e in
            ((at', (load_sock-KeepsFrame m g p).after w frame sk w' e), q));
    }

  otherwise-Became :
      (s : TcpStates) (m : Ptr) (g : Frame)
      → Triple
          (λ w. IsAt p s w × (w.frames m ≡ g))
          (state_tcp_otherwise sys p m)
          (λ _. Moved g.tcp.tcp_flags s)
  unfolding state_tcp_otherwise
  otherwise-Became s m g =
      triple_bind _ _ (triple_both _ (load_frame-Keeps p s m) (load_frame-KeepsFrame m g)) λ f.
        triple_read m g f (λ f _. Moved f.tcp.tcp_flags s) _
          (triple_bind _ _ (with_frame m f s) λ sk. triple_fact _ λ q.
            triple_if (not (acceptable sk.tcb f.tcp)) _ _
              (λ _. triple_first _ (
                triple_if (has_flag f.tcp.tcp_flags rst_flag) _ _
                  (λ _. free_only f.tcp.tcp_flags s m)
                  (λ _.
                    Keeps-stays f.tcp.tcp_flags s _
                      (tcp_forward-Keeps sys p s m ack_flag sk.tcb.snd_nxt sk.tcb.rcv_nxt))))
              (λ _.
                triple_if (has_flag f.tcp.tcp_flags rst_flag) _ _
                  (λ set. triple_first _ (on_rst-IsAt f.tcp.tcp_flags s m sk.state q set))
                  (λ rst.
                    triple_if (has_flag f.tcp.tcp_flags syn_flag) _ _
                      (λ set. triple_first _ (
                        set_and_free f.tcp.tcp_flags s tcp_close m
                          (closes s (ground (arith, set)))))
                      (λ syn.
                        triple_if (not (has_flag f.tcp.tcp_flags ack_flag)) _ _
                          (λ _. triple_first _ (free_only f.tcp.tcp_flags s m))
                          (λ ack.
                            triple_bind _ _ (on_ack-IsAt m f s sk.state q) λ returned.
                              after_ack m f s returned rst syn (ground (arith, ack)))))))

-- A segment for a socket moves it only along the edges of the graph, each for a flag that the segment
-- has: with ACK and neither RST nor SYN, along an edge for an acknowledgment and then, if it has a
-- FIN, along one for a FIN (`handled`); with an RST or a SYN, to CLOSE (`closes`); with an RST, from
-- SYN-RECEIVED back to LISTEN (`refused`). So an ESTABLISHED socket can only stay, enter CLOSE-WAIT by
-- a FIN, or be closed by an RST or a SYN, and a CLOSING one can only stay or be closed by these two.
-- The flags are those of the frame in the segment's buffer at the start. It holds for every segment
-- whose handling returns, whatever else is in memory.
pub state_tcp_otherwise-Becomes :
    (sys : System) (p m : Ptr) (s : TcpStates) (w : World) (r : ℤ) (w' : World)
    → IsAt p s w
    → state_tcp_otherwise sys p m w ≡ some (r, w')
    → (t : TcpStates) × IsAt p t w' × Becomes (w.frames m).tcp.tcp_flags s t
state_tcp_otherwise-Becomes sys p m s w r w' at e =
    (otherwise-Became sys p s m (w.frames m)).after w (at, refl) r w' e
