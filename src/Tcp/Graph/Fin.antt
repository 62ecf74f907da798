-- ===== src/Tcp/Graph/Fin.antt =====
-- The sixth to eighth checks of network/include/xy_tcp_state_others.h, by the state.
use dpdk_tcp.Prelude.{
  M, ◌>>◌, pure, pos, ◌≡◌, Triple, triple_bind, triple_seq, triple_pure, triple_if, triple_fact,
  ◌==◌, true, false, Bool, ◌+◌, if◌then◌else◌, u32,
}
use dpdk_tcp.XyList.{Ptr, xy_list_del}
use dpdk_tcp.Wnd.Mbuf.{on_node}
use dpdk_tcp.Socket.{
  TcpStates, tcp_listen, tcp_syn_sent, tcp_syn_received, tcp_established, tcp_fin_wait_1,
  tcp_fin_wait_2, tcp_close, tcp_close_wait, tcp_closing, tcp_last_ack, tcp_time_wait,
}
use dpdk_tcp.World.{World, System}
use dpdk_tcp.World.Memory.{on_links, set_state, pktmbuf_free}
use dpdk_tcp.Socks.{syn_recv_tcp_sock_dequeue, established_tcp_sock_dequeue}
use dpdk_tcp.Tcp.Flags.{has_flag, fin_flag, ack_flag}
use dpdk_tcp.Tcp.Others.{fin_state, on_fin, process_segment, urgent}
use dpdk_tcp.Tcp.Graph.Keep.{
  IsAt, Keeps, load_frame-Keeps, on_lists-Keeps, modify_tcb-Keeps, load_sock-Keeps, load_sock-state,
  pktmbuf_free-Keeps, set_state-IsAt,
}
use dpdk_tcp.Tcp.Graph.Calls.{tcp_forward-Keeps, on_text-Keeps}
use dpdk_tcp.Packet.{Frame}
use dpdk_tcp.Tcp.Graph.Frame.{
  triple_both, triple_first, triple_read, HasFrame, load_frame-KeepsFrame,
}
use dpdk_tcp.Tcp.Graph.Edges.{
  FinStep, fin_stays, fin_in_established, fin_in_syn_received, fin_crossing, fin_with_ack,
  fin_after_ack, Became, became, from_Became,
}

module _ (sys : System) (p : Ptr) where
  -- A list operation and a new state, as the switch of the eighth check has them.
  leave_and_set :
      (s t : TcpStates)
      → FinStep true s t
      → Triple
          (IsAt p s)
          (on_links (xy_list_del p) >> (set_state p t >> pure false))
          (λ _. Became p (FinStep true) s)
  unfolding on_links
  leave_and_set s t step =
      triple_seq _ _ (on_lists-Keeps p s (on_node (xy_list_del p)))
        (triple_seq _ _ (set_state-IsAt p s t) (became p (FinStep true) s t false step))

  drop_segment :
      (s : TcpStates) (m : Ptr)
      → Triple (IsAt p s) (pktmbuf_free m >> pure true) (λ _. Became p (FinStep true) s)
  drop_segment s m =
      triple_seq _ _ (pktmbuf_free-Keeps p s m)
        (became p (FinStep true) s s true (fin_stays true s))

  crossing : (b : Bool) → FinStep true tcp_fin_wait_1 (if b then tcp_time_wait else tcp_closing)
  crossing true = fin_with_ack
  crossing false = fin_crossing

  fin_state-Became :
      (s : TcpStates) (m : Ptr)
      → Triple (IsAt p s) (fin_state sys s p m) (λ _. Became p (FinStep true) s)
  unfolding fin_state established_tcp_sock_dequeue syn_recv_tcp_sock_dequeue
  fin_state-Became tcp_close m = drop_segment tcp_close m
  fin_state-Became tcp_listen m = drop_segment tcp_listen m
  fin_state-Became tcp_syn_sent m = drop_segment tcp_syn_sent m
  fin_state-Became tcp_established m =
      leave_and_set tcp_established tcp_close_wait fin_in_established
  fin_state-Became tcp_syn_received m =
      leave_and_set tcp_syn_received tcp_close_wait fin_in_syn_received
  fin_state-Became tcp_fin_wait_1 m = triple_bind _ _ (load_sock-Keeps p tcp_fin_wait_1 p) λ sk.
      triple_bind _ _ (load_frame-Keeps p tcp_fin_wait_1 m) λ f.
        triple_seq _ _
          (set_state-IsAt p tcp_fin_wait_1
            (if f.tcp.recv_ack == sk.tcb.snd_nxt then tcp_time_wait else tcp_closing))
          (became p (FinStep true) tcp_fin_wait_1
            (if f.tcp.recv_ack == sk.tcb.snd_nxt then tcp_time_wait else tcp_closing) false
            (crossing (f.tcp.recv_ack == sk.tcb.snd_nxt)))
  fin_state-Became tcp_fin_wait_2 m =
      triple_seq _ _ (set_state-IsAt p tcp_fin_wait_2 tcp_time_wait)
        (became p (FinStep true) tcp_fin_wait_2 tcp_time_wait false fin_after_ack)
  fin_state-Became tcp_close_wait m =
      became p (FinStep true) tcp_close_wait tcp_close_wait false (fin_stays true tcp_close_wait)
  fin_state-Became tcp_closing m =
      became p (FinStep true) tcp_closing tcp_closing false (fin_stays true tcp_closing)
  fin_state-Became tcp_last_ack m =
      became p (FinStep true) tcp_last_ack tcp_last_ack false (fin_stays true tcp_last_ack)
  fin_state-Became tcp_time_wait m =
      became p (FinStep true) tcp_time_wait tcp_time_wait false (fin_stays true tcp_time_wait)

  -- Code that keeps the state after a step.
  Keeps-Became :
      {A : Type 0} (s t : TcpStates) (m : M World A)
      → FinStep true s t
      → Keeps p t m
      → Triple (IsAt p t) m (λ _. Became p (FinStep true) s)
  Keeps-Became s t m step keeps = record {
    after = λ w at a w' e. (t, keeps.after w at a w' e, step);
  }

  on_fin-Became :
      (s : TcpStates) (m : Ptr)
      → Triple (IsAt p s) (on_fin sys s p m) (λ _. Became p (FinStep true) s)
  unfolding on_fin
  on_fin-Became s m = triple_bind _ _ (fin_state-Became s m) λ dropped.
      triple_if dropped _ _ (λ _. triple_pure (pos 0) (λ w at. at))
        (λ _. from_Became p (FinStep true) s _ _ λ t step. Keeps-Became s t _ step (
          triple_bind _ _ (load_frame-Keeps p t m) λ f.
            triple_seq _ _
              (modify_tcb-Keeps p t p (λ b. record b { rcv_nxt = u32 (f.tcp.sent_seq + 1) }))
              (triple_bind _ _ (load_sock-Keeps p t p)
                λ sk. tcp_forward-Keeps sys p t m ack_flag sk.tcb.snd_nxt sk.tcb.rcv_nxt)))

  on_fin-IsAt :
      (s : TcpStates) (m : Ptr) (t : TcpStates) (fin : Bool)
      → t ≡ s
      → fin ≡ true
      → Triple (IsAt p s) (on_fin sys t p m) (λ _. Became p (FinStep fin) s)
  on_fin-IsAt s m t fin q set = rw (q, set) (on_fin-Became s m)

  -- The FIN bit that counts is that of the frame in the segment's buffer.
  pub process_segment-Became :
      (s : TcpStates) (m : Ptr) (g : Frame)
      → Triple
          (λ w. IsAt p s w × HasFrame m g w)
          (process_segment sys p m)
          (λ _. Became p (FinStep (has_flag g.tcp.tcp_flags fin_flag)) s)
  unfolding process_segment
  process_segment-Became s m g =
      triple_bind _ _ (triple_both _ (load_frame-Keeps p s m) (load_frame-KeepsFrame m g)) λ f.
        triple_read m g f (λ f _. Became p (FinStep (has_flag f.tcp.tcp_flags fin_flag)) s) _
          (triple_first _ (
            triple_bind _ _ (load_sock-Keeps p s p) λ sk.
              triple_seq _ _ (modify_tcb-Keeps p s p (urgent sk.state f.tcp)) (
                triple_seq _ _ (on_text-Keeps sys p s sk.state m) (
                  triple_bind _ _ (load_sock-state p s) λ sk'. triple_fact _ λ q.
                    triple_if (has_flag f.tcp.tcp_flags fin_flag) _ _
                      (λ set. on_fin-IsAt s m sk'.state (has_flag f.tcp.tcp_flags fin_flag) q set)
                      (λ _.
                        became p (FinStep (has_flag f.tcp.tcp_flags fin_flag)) s s (pos 0)
                          (fin_stays (has_flag f.tcp.tcp_flags fin_flag) s))))))
