-- ===== src/Tcp/Graph/Ack.antt =====
-- The fifth check of network/include/xy_tcp_state_others.h, by the state.
use dpdk_tcp.Prelude.{
  pure, ℤ, some, none, Option, Triple, triple_bind, triple_seq, triple_pure, triple_if, ◌==◌, ◌||◌,
  ltb,
}
use dpdk_tcp.XyList.{Ptr, xy_list_del, xy_list_add_head}
use dpdk_tcp.Wnd.Mbuf.{on_node}
use dpdk_tcp.Socket.{
  TcpStates, tcp_listen, tcp_syn_sent, tcp_syn_received, tcp_established, tcp_fin_wait_1,
  tcp_fin_wait_2, tcp_close, tcp_close_wait, tcp_closing, tcp_last_ack, tcp_time_wait,
}
use dpdk_tcp.World.{World, System}
use dpdk_tcp.World.Memory.{on_links}
use dpdk_tcp.Socks.{syn_recv_tcp_sock_dequeue, established_tcp_sock_enqueue}
use dpdk_tcp.Tcp.Flags.{rst_flag}
use dpdk_tcp.Tcp.Others.{on_ack, advance_if_acked}
use dpdk_tcp.Tcp.Graph.Keep.{
  IsAt, load_frame-Keeps, on_lists-Keeps, load_sock-Keeps, set_state-IsAt,
}
use dpdk_tcp.Tcp.Graph.Calls.{tcp_forward-Keeps, tcp_ack_window_update-Keeps}
use dpdk_tcp.Tcp.Graph.Edges.{
  AckStep, ack_stays, ack_opens, ack_of_fin, ack_in_close_wait, ack_last, Became, became,
}

module _ (sys : System) (p : Ptr) where
  -- A return from `state_tcp_otherwise` leaves the state.
  abbrev pub AckPost : TcpStates → Option ℤ → World → Type 0
  AckPost s (some r) w = IsAt p s w
  AckPost s none w = Became p AckStep s w

  advance_if_acked-Became :
      (s t : TcpStates) (m : Ptr)
      → AckStep s t
      → Triple (IsAt p s) (advance_if_acked sys p m t) (λ _. Became p AckStep s)
  unfolding advance_if_acked
  advance_if_acked-Became s t m step = triple_bind _ _ (load_sock-Keeps p s p) λ sk.
      triple_bind _ _ (load_frame-Keeps p s m) λ f.
        triple_if (f.tcp.recv_ack == sk.tcb.snd_nxt) _ _
          (λ _. record {
            after = λ w at a w' e. (t, (set_state-IsAt p s t).after w at a w' e, step);
          })
          (λ _. became p AckStep s s tt (ack_stays s))

  ack_done : (s : TcpStates) → Triple (IsAt p s) (pure none) (AckPost s)
  ack_done s = triple_pure none (λ w at. (s, at, ack_stays s))

  pub on_ack-Became : (s : TcpStates) (m : Ptr) → Triple (IsAt p s) (on_ack sys s p m) (AckPost s)
  unfolding on_ack syn_recv_tcp_sock_dequeue established_tcp_sock_enqueue on_links
  on_ack-Became tcp_syn_received m = triple_bind _ _ (load_sock-Keeps p tcp_syn_received p) λ sk.
      triple_bind _ _ (load_frame-Keeps p tcp_syn_received m) λ f.
        triple_if (ltb f.tcp.recv_ack sk.tcb.snd_una || ltb sk.tcb.snd_nxt f.tcp.recv_ack) _ _
          (λ _.
            triple_bind _ _ (tcp_forward-Keeps sys p tcp_syn_received m rst_flag f.tcp.recv_ack 0)
              λ r. triple_pure (some r) (λ w at. at))
          (λ _. triple_seq _ _ (on_lists-Keeps p tcp_syn_received (on_node (xy_list_del p))) (
            triple_seq _ _ (set_state-IsAt p tcp_syn_received tcp_established) (
              triple_seq _ _
                (on_lists-Keeps p tcp_established
                  (on_node (xy_list_add_head sys.list_established p)))
                (triple_bind _ _ (tcp_ack_window_update-Keeps sys p tcp_established m)
                  λ _. triple_pure none (λ w at. (tcp_established, at, ack_opens))))))
  on_ack-Became tcp_established m =
      triple_bind _ _ (tcp_ack_window_update-Keeps sys p tcp_established m)
        λ _. ack_done tcp_established
  on_ack-Became tcp_fin_wait_1 m =
      triple_bind _ _ (tcp_ack_window_update-Keeps sys p tcp_fin_wait_1 m) λ _.
        triple_seq _ _ (advance_if_acked-Became tcp_fin_wait_1 tcp_fin_wait_2 m ack_of_fin)
          (triple_pure none (λ w at. at))
  on_ack-Became tcp_fin_wait_2 m =
      triple_bind _ _ (tcp_ack_window_update-Keeps sys p tcp_fin_wait_2 m)
        λ _. ack_done tcp_fin_wait_2
  on_ack-Became tcp_close_wait m =
      triple_bind _ _ (tcp_ack_window_update-Keeps sys p tcp_close_wait m) λ _.
        triple_seq _ _ (advance_if_acked-Became tcp_close_wait tcp_time_wait m ack_in_close_wait)
          (triple_pure none (λ w at. at))
  on_ack-Became tcp_closing m =
      triple_bind _ _ (tcp_ack_window_update-Keeps sys p tcp_closing m) λ _. ack_done tcp_closing
  on_ack-Became tcp_last_ack m =
      triple_seq _ _ (advance_if_acked-Became tcp_last_ack tcp_close m ack_last)
        (triple_pure none (λ w at. at))
  on_ack-Became tcp_listen m = ack_done tcp_listen
  on_ack-Became tcp_syn_sent m = ack_done tcp_syn_sent
  on_ack-Became tcp_close m = ack_done tcp_close
  on_ack-Became tcp_time_wait m = ack_done tcp_time_wait
