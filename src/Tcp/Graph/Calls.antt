-- ===== src/Tcp/Graph/Calls.antt =====
-- The functions that the handlers call leave the state of the socket alone.
use dpdk_tcp.Prelude.{
  pure, pos, refl, ℕ, triple_bind, triple_seq, triple_pure, triple_if, triple_fault, ◌==◌, ◌&&◌,
  not, ◌+◌, if◌then◌else◌, minus_one, u16, u32, bit_or,
}
use dpdk_tcp.XyList.{Ptr, null, xy_list_add_head}
use dpdk_tcp.Wnd.{xy_tcp_rcv_wnd_try_put, xy_tcp_rcv_wnd_collect}
use dpdk_tcp.Wnd.Mbuf.{on_node}
use dpdk_tcp.Socket.{TcpStates, XyEthSocket}
use dpdk_tcp.World.{System}
use dpdk_tcp.World.Memory.{on_links}
use dpdk_tcp.Net.{
  eth_send, ip_out, ip_forward, ip_send, tcp_out, tcp_forward, tcp_send, ip_setup, eth_setup,
  tcp_setup, tcp_ready, ether_type_ipv4, ipproto_tcp, sizeof_tcp_hdr, sizeof_ipv4_hdr,
}
use dpdk_tcp.Manage.{xy_get_event_poll_by_id}
use dpdk_tcp.Epoll.{epoll_event_callback, xy_epollin}
use dpdk_tcp.WndHdl.{tcp_ack_window_update, tcp_recv_window_update, collect_into, ack_update}
use dpdk_tcp.Tcp.Others.{state_tcp_handle_data, on_text, takes_text}
use dpdk_tcp.Tcp.Flags.{ack_flag}
use dpdk_tcp.Tcp.Graph.Keep.{
  Keeps, load_frame-Keeps, modify_frame-Keeps, on_lists-Keeps, modify_sock-Keeps, modify_tcb-Keeps,
  load_sock-Keeps, tx_burst-Keeps, pktmbuf_alloc-Keeps, map_of_id-Keeps, find_item-Keeps,
  load_poll-Keeps, modify_poll-Keeps, load_item-Keeps, modify_item-Keeps,
}

module _ (sys : System) (p : Ptr) (s : TcpStates) where
  pub done : {A : Type 0} → (a : A) → Keeps p s (pure a)
  done a = triple_pure a (λ w at. at)

  eth_send-Keeps : (e : XyEthSocket) (m : Ptr) (t : ℕ) → Keeps p s (eth_send sys e m t)
  unfolding eth_send
  eth_send-Keeps e m t =
      triple_seq _ _ (modify_frame-Keeps p s m (λ f. record f { eth = eth_setup e f.eth t }))
        (triple_bind _ _ (tx_burst-Keeps p s sys m) λ n. done (if 1 == n then pos 0 else minus_one))

  ip_out-Keeps : (q m : Ptr) (n t : ℕ) → Keeps p s (ip_out sys q m n t)
  unfolding ip_out
  ip_out-Keeps q m n t = triple_bind _ _ (load_sock-Keeps p s q) λ sk.
      triple_bind _ _ (load_frame-Keeps p s m) λ f.
        triple_seq _ _
          (modify_sock-Keeps p s q
            (λ k. record k { ip_socket = (ip_setup sys sk.ip_socket f.ip n t).0 }) (λ k. refl))
          (triple_seq _ _
            (modify_frame-Keeps p s m
              (λ g. record g { ip = (ip_setup sys sk.ip_socket f.ip n t).1 }))
            (eth_send-Keeps sk.ip_socket.eth_socket m (sys.cpu_to_be_16 ether_type_ipv4)))

  tcp_out-Keeps : (q m : Ptr) (flags seq ack : ℕ) → Keeps p s (tcp_out sys q m flags seq ack)
  unfolding tcp_out
  tcp_out-Keeps q m flags seq ack = triple_bind _ _ (load_sock-Keeps p s q) λ sk.
      modify_frame-Keeps p s m
        (λ f. record f { tcp = tcp_ready sys (tcp_setup sk f.tcp flags) f.ip f.payload seq ack })

  pub tcp_forward_any-Keeps :
      (q m : Ptr) (flags seq ack : ℕ) → Keeps p s (tcp_forward sys q m flags seq ack)
  unfolding tcp_forward ip_forward
  tcp_forward_any-Keeps q m flags seq ack =
      triple_seq _ _ (tcp_out-Keeps q m flags seq ack) (
        triple_bind _ _ (load_frame-Keeps p s m)
          λ f. ip_out-Keeps q m ipproto_tcp f.ip.total_length)

  pub tcp_forward-Keeps :
      (m : Ptr) (flags seq ack : ℕ) → Keeps p s (tcp_forward sys p m flags seq ack)
  tcp_forward-Keeps = tcp_forward_any-Keeps p

  tcp_send-Keeps :
      (m : Ptr) (flags seq ack len : ℕ) → Keeps p s (tcp_send sys p m flags seq ack len)
  unfolding tcp_send ip_send
  tcp_send-Keeps m flags seq ack len = triple_seq _ _ (tcp_out-Keeps p m flags seq ack) (
      ip_out-Keeps p m ipproto_tcp
        (sys.cpu_to_be_16 (u16 (u16 (len + sizeof_tcp_hdr) + sizeof_ipv4_hdr))))

  pub tcp_ack_window_update-Keeps : (m : Ptr) → Keeps p s (tcp_ack_window_update sys p m)
  unfolding tcp_ack_window_update
  tcp_ack_window_update-Keeps m =
      triple_bind _ _ (load_frame-Keeps p s m)
        λ f. triple_seq _ _ (modify_tcb-Keeps p s p (ack_update sys f.tcp)) (done (pos 0))

  collect_into-Keeps : Keeps p s (collect_into sys p)
  unfolding collect_into
  collect_into-Keeps = triple_bind _ _ (load_sock-Keeps p s p) λ sk.
      triple_bind _ _
        (on_lists-Keeps p s
          (xy_tcp_rcv_wnd_collect sys.pktmbuf_mtod sk.tcb.rcv_wnd_buffer (sys.rcv_buf_list p)))
        λ (count, window).
          triple_seq _ _
            (modify_tcb-Keeps p s p
              (λ t. record t { rcv_wnd_buffer = window; rcv_nxt = u32 (t.rcv_nxt + count) }))
            (done (pos 0))

  tcp_recv_window_update-Keeps : (m : Ptr) → Keeps p s (tcp_recv_window_update sys p m)
  unfolding tcp_recv_window_update
  tcp_recv_window_update-Keeps m = triple_bind _ _ (load_sock-Keeps p s p) λ sk.
      triple_bind _ _ (load_frame-Keeps p s m) λ f.
        let r = xy_tcp_rcv_wnd_try_put sk.tcb.rcv_wnd_buffer sk.tcb.rcv_nxt f.tcp.sent_seq m in
        triple_seq _ _ (modify_tcb-Keeps p s p (λ t. record t { rcv_wnd_buffer = r.1 })) (
          triple_if (not (r.0 == 0) && (f.tcp.sent_seq == sk.tcb.rcv_nxt)) _ _
            (λ _. collect_into-Keeps) (λ _. done (pos 0)))

  epoll_event_callback-Keeps : (sock event : ℕ) → Keeps p s (epoll_event_callback sys sock event)
  unfolding epoll_event_callback xy_get_event_poll_by_id on_links
  epoll_event_callback-Keeps sock event =
      triple_bind _ _ (triple_bind _ _ (map_of_id-Keeps p s sys sock) λ m. done m.event_poll) λ ep.
        triple_bind _ _ (load_poll-Keeps p s ep) λ poll.
          triple_bind _ _ (find_item-Keeps p s sys poll.rb_tree sock) λ epi.
            triple_if (epi == null) _ _ (λ _. triple_fault)
              λ _. triple_bind _ _ (load_item-Keeps p s epi) λ item.
                triple_if (item.ready == 0) _ _
                  (λ _. triple_seq _ _ (modify_item-Keeps p s epi (λ i. record i { ready = 1 })) (
                    triple_seq _ _
                      (on_lists-Keeps p s (on_node (xy_list_add_head (sys.ready_list ep) epi)))
                      (triple_seq _ _
                        (modify_poll-Keeps p s ep (λ q. record q { ready_num = q.ready_num + 1 }))
                        (done (pos 0)))))
                  (λ _.
                    triple_seq _ _
                      (modify_item-Keeps p s epi (λ i. record i { events = bit_or i.events event }))
                      (done (pos 1)))

  state_tcp_handle_data-Keeps : (m : Ptr) → Keeps p s (state_tcp_handle_data sys p m)
  unfolding state_tcp_handle_data
  state_tcp_handle_data-Keeps m = triple_bind _ _ (load_sock-Keeps p s p) λ sk.
      triple_bind _ _ (epoll_event_callback-Keeps sk.id xy_epollin) λ _.
        triple_bind _ _ (tcp_recv_window_update-Keeps m) λ _.
          triple_bind _ _ (pktmbuf_alloc-Keeps p s sys) λ reply_buf.
            triple_bind _ _ (load_sock-Keeps p s p) λ sk'.
              triple_if (reply_buf == null) _ _ (λ _. triple_fault)
                λ _.
                  triple_bind _ _
                    (tcp_send-Keeps reply_buf ack_flag sk'.tcb.snd_nxt sk'.tcb.rcv_nxt 0)
                    λ _. done (pos 0)

  pub on_text-Keeps : (t : TcpStates) (m : Ptr) → Keeps p s (on_text sys t p m)
  unfolding on_text
  on_text-Keeps t m =
      triple_if (takes_text t) _ _
        (λ _. triple_bind _ _ (state_tcp_handle_data-Keeps m) λ _. done tt) (λ _. done tt)
