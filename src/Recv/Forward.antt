-- ===== src/Recv/Forward.antt =====
-- A connection only goes forward through its states: `handle` of network/src/xy_tcp_recv.cc, for one
-- segment and for any sequence of segments.
use dpdk_tcp.Prelude.{
  ℕ, ◌+◌, ◌≡◌, inl, inr, refl, arith, false, List, [], ◌∷◌, M, ◌>>=◌, ◌>>◌, pure, some, pos, Triple,
  triple_bind, triple_seq, triple_if, triple_fact, ◌==◌, ltb, ◌&&◌, bit_or, u32,
}
use dpdk_tcp.XyList.{Ptr, null, xy_list_add_head, xy_list_del}
use dpdk_tcp.Wnd.Mbuf.{on_node}
use dpdk_tcp.Socket.{
  TcpStates, tcp_listen, tcp_syn_sent, tcp_syn_received, tcp_established, tcp_fin_wait_1,
  tcp_fin_wait_2, tcp_close, tcp_close_wait, tcp_closing, tcp_last_ack, tcp_time_wait,
}
use dpdk_tcp.World.{World, System}
use dpdk_tcp.World.Memory.{pktmbuf_free, load_sock, on_links}
use dpdk_tcp.Socks.{
  syn_recv_tcp_sock_enqueue, syn_recv_tcp_sock_dequeue, established_tcp_sock_enqueue,
}
use dpdk_tcp.Recv.{handle}
use dpdk_tcp.Tcp.{has_flag, rst_flag, ack_flag, syn_flag}
use dpdk_tcp.Tcp.Close.{state_tcp_close}
use dpdk_tcp.Tcp.Others.{state_tcp_otherwise}
use dpdk_tcp.Tcp.SynSent.{state_tcp_syn_sent, active_syn, bad_ack, syn_tcb}
use dpdk_tcp.Tcp.Graph.Keep.{
  IsAt, Keeps, load_frame-Keeps, on_lists-Keeps, load_sock-Keeps, load_sock-state,
  pktmbuf_free-Keeps, modify_tcb-Keeps, set_state-IsAt,
}
use dpdk_tcp.Tcp.Graph.Calls.{tcp_forward-Keeps, done}
use dpdk_tcp.Tcp.Graph.Edges.{Became, from_Became}
use dpdk_tcp.Tcp.Graph.Rank.{Forward, Forward-trans, Connected, Becomes-Forward}
use dpdk_tcp.Tcp.Graph.Moves.{state_tcp_otherwise-Becomes}
use dpdk_tcp.Tcp.Graph.Aside.{state_tcp_listen-Keeps}

module _ (sys : System) (p : Ptr) where
  Keeps-Forward :
      {A : Type 0} {s t : TcpStates} {m : M World A}
      → Forward s t
      → Keeps p t m
      → Triple (IsAt p t) m (λ _. Became p Forward s)
  Keeps-Forward {t} step keeps = record {
    after = λ w at a w' e. (t, keeps.after w at a w' e, step);
  }

  drop_segment : (s : TcpStates) (m : Ptr) → Keeps p s (do pktmbuf_free m; pure (pos 0))
  drop_segment s m = triple_seq _ _ (pktmbuf_free-Keeps p s m) (done sys p s (pos 0))

  state_tcp_close-Keeps : (s : TcpStates) (m : Ptr) → Keeps p s (state_tcp_close sys p m)
  unfolding state_tcp_close
  state_tcp_close-Keeps s m = triple_bind _ _ (load_frame-Keeps p s m) λ f.
      triple_if (has_flag f.tcp.tcp_flags rst_flag) _ _ (λ _. drop_segment s m)
        (λ _.
          triple_if (has_flag f.tcp.tcp_flags ack_flag) _ _
            (λ _. tcp_forward-Keeps sys p s m rst_flag f.tcp.recv_ack 0)
            (λ _.
              tcp_forward-Keeps sys p s m (bit_or rst_flag ack_flag) 0 (u32 (f.tcp.sent_seq + 1))))

  active_syn-Forward :
      (m : Ptr)
      → Triple (IsAt p tcp_syn_sent) (active_syn sys p m) (λ _. Became p Forward tcp_syn_sent)
  unfolding active_syn syn_recv_tcp_sock_dequeue syn_recv_tcp_sock_enqueue
      established_tcp_sock_enqueue on_links
  active_syn-Forward m = triple_bind _ _ (load_frame-Keeps p tcp_syn_sent m) λ f.
      triple_seq _ _ (modify_tcb-Keeps p tcp_syn_sent p (syn_tcb f.tcp)) (
        triple_bind _ _ (load_sock-Keeps p tcp_syn_sent p) λ sk.
          triple_if (ltb sk.tcb.iss sk.tcb.snd_una) _ _
            (λ _. triple_seq _ _ (on_lists-Keeps p tcp_syn_sent (on_node (xy_list_del p))) (
              triple_seq _ _ (set_state-IsAt p tcp_syn_sent tcp_established) (
                triple_seq _ _
                  (on_lists-Keeps p tcp_established
                    (on_node (xy_list_add_head sys.list_established p)))
                  (Keeps-Forward (inr (omega arith)) (
                    tcp_forward-Keeps sys p tcp_established m ack_flag sk.tcb.snd_nxt
                      sk.tcb.rcv_nxt)))))
            (λ _. triple_seq _ _ (set_state-IsAt p tcp_syn_sent tcp_syn_received) (
              triple_seq _ _
                (on_lists-Keeps p tcp_syn_received
                  (on_node (xy_list_add_head sys.list_syn_recved p)))
                (Keeps-Forward (inr (omega arith)) (
                  tcp_forward-Keeps sys p tcp_syn_received m (bit_or ack_flag syn_flag) sk.tcb.iss
                    sk.tcb.rcv_nxt)))))

  state_tcp_syn_sent-Forward :
      (m : Ptr)
      → Triple
          (IsAt p tcp_syn_sent)
          (state_tcp_syn_sent sys p m)
          (λ _. Became p Forward tcp_syn_sent)
  unfolding state_tcp_syn_sent
  state_tcp_syn_sent-Forward m = triple_bind _ _ (load_frame-Keeps p tcp_syn_sent m) λ f.
      triple_bind _ _ (load_sock-Keeps p tcp_syn_sent p) λ sk.
        triple_if (has_flag f.tcp.tcp_flags ack_flag && bad_ack sk.tcb f.tcp) _ _
          (λ _.
            triple_if (has_flag f.tcp.tcp_flags rst_flag) _ _
              (λ _. Keeps-Forward (inl refl) (drop_segment tcp_syn_sent m))
              (λ _.
                Keeps-Forward (inl refl)
                  (tcp_forward-Keeps sys p tcp_syn_sent m rst_flag f.tcp.recv_ack 0)))
          (λ _.
            triple_if (has_flag f.tcp.tcp_flags rst_flag) _ _
              (λ _.
                triple_if (has_flag f.tcp.tcp_flags ack_flag) _ _
                  (λ _. triple_seq _ _ (pktmbuf_free-Keeps p tcp_syn_sent m) (
                    triple_seq _ _ (set_state-IsAt p tcp_syn_sent tcp_close)
                      (Keeps-Forward (inr (omega arith)) (done sys p tcp_close (pos 0)))))
                  (λ _. Keeps-Forward (inl refl) (drop_segment tcp_syn_sent m)))
              (λ _.
                triple_if (has_flag f.tcp.tcp_flags syn_flag) _ _ (λ _. active_syn-Forward m)
                  (λ _. Keeps-Forward (inl refl) (drop_segment tcp_syn_sent m))))

  otherwise-Forward :
      (s : TcpStates) (m : Ptr)
      → Connected s
      → Triple (IsAt p s) (state_tcp_otherwise sys p m) (λ _. Became p Forward s)
  otherwise-Forward s m c = record {
    after = λ w at r w' e.
        (let (t, at', step) = state_tcp_otherwise-Becomes sys p m s w r w' at e in
          (t, at', Becomes-Forward c step));
  }

  -- The segments of one connection, each handled in the state that the one before has left.
  abbrev pub deliver : List Ptr → M World (Unit {0})
  deliver [] = pure tt
  deliver (m ∷ ms) = do sk ← load_sock p; _ ← handle sys sk.state p m; deliver ms

  module _ (fresh : (n : ℕ) → (sys.malloc n == p) ≡ false) (exists : (null == p) ≡ false) where
    handle-Forward :
        (s : TcpStates) (m : Ptr) → Triple (IsAt p s) (handle sys s p m) (λ _. Became p Forward s)
    unfolding handle
    handle-Forward tcp_close m = Keeps-Forward (inl refl) (state_tcp_close-Keeps tcp_close m)
    handle-Forward tcp_listen m =
        Keeps-Forward (inl refl) (state_tcp_listen-Keeps sys p tcp_listen fresh exists p m)
    handle-Forward tcp_syn_sent m = state_tcp_syn_sent-Forward m
    handle-Forward tcp_syn_received m = otherwise-Forward tcp_syn_received m (inr (omega arith))
    handle-Forward tcp_established m = otherwise-Forward tcp_established m (inr (omega arith))
    handle-Forward tcp_fin_wait_1 m = otherwise-Forward tcp_fin_wait_1 m (inr (omega arith))
    handle-Forward tcp_fin_wait_2 m = otherwise-Forward tcp_fin_wait_2 m (inr (omega arith))
    handle-Forward tcp_close_wait m = otherwise-Forward tcp_close_wait m (inr (omega arith))
    handle-Forward tcp_closing m = otherwise-Forward tcp_closing m (inr (omega arith))
    handle-Forward tcp_last_ack m = otherwise-Forward tcp_last_ack m (inr (omega arith))
    handle-Forward tcp_time_wait m = otherwise-Forward tcp_time_wait m (inr (omega arith))

    handle-Forward_read :
        (s : TcpStates) (m : Ptr) (t : TcpStates)
        → t ≡ s
        → Triple (IsAt p s) (handle sys t p m) (λ _. Became p Forward s)
    handle-Forward_read s m t q = rw q (handle-Forward s m)

    further :
        (s t : TcpStates) (m : M World (Unit {0}))
        → Forward s t
        → Triple (IsAt p t) m (λ _. Became p Forward t)
        → Triple (IsAt p t) m (λ _. Became p Forward s)
    further s t m step h = record {
      after = λ w at a w' e.
          (let (u, at', step') = h.after w at a w' e in (u, at', Forward-trans s t u step step'));
    }

    deliver-Triple :
        (ms : List Ptr) (s : TcpStates) → Triple (IsAt p s) (deliver ms) (λ _. Became p Forward s)
    deliver-Triple [] s = Keeps-Forward (inl refl) (done sys p s tt)
    deliver-Triple (m ∷ ms) s = triple_bind _ _ (load_sock-state p s) λ sk. triple_fact _ λ q.
        triple_bind _ _ (handle-Forward_read s m sk.state q)
          λ _. from_Became p Forward s _ _ λ t step. further s t _ step (deliver-Triple ms t)

-- Whatever segments arrive for a socket, in whatever order, their handlers never lead it back to a
-- state that it has left: it is in the state it was in, or in one further on in the order SYN-SENT,
-- SYN-RECEIVED, ESTABLISHED and FIN-WAIT-1, then CLOSE-WAIT, FIN-WAIT-2, CLOSING and LAST-ACK, then
-- TIME-WAIT, CLOSE, and at the end LISTEN, which a socket in handshake goes back to. It holds for
-- every sequence of segments whose handling returns, if `malloc` never returns the address of this
-- socket, which is not `NULL`.
pub handle-deliver :
    (sys : System) (p : Ptr) (ms : List Ptr) (s : TcpStates) (w w' : World)
    → ((n : ℕ) → (sys.malloc n == p) ≡ false)
    → (null == p) ≡ false
    → IsAt p s w
    → deliver sys p ms w ≡ some (tt, w')
    → (t : TcpStates) × IsAt p t w' × Forward s t
handle-deliver sys p ms s w w' fresh exists at e =
    (deliver-Triple sys p fresh exists ms s).after w at tt w' e
