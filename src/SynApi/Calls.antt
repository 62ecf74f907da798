-- ===== src/SynApi/Calls.antt =====
-- The calls of queue/src/xy_syn_api.cc that open, name and close sockets.
use dpdk_tcp.Prelude.{
  ℕ, ◌+◌, M, ◌>>=◌, ◌>>◌, pure, fault, Bool, false, leb, ltb, ◌==◌, if◌then◌else◌, ℤ, pos, negsuc,
  minus_one, some,
}
use dpdk_tcp.XyList.{Ptr, null}
use dpdk_tcp.Port.{port_register, xy_max_tcp}
use dpdk_tcp.Wnd.Mbuf.{xy_mbuf_list_add_tail}
use dpdk_tcp.Socket.{
  TcpStates, tcp_listen, tcp_close, tcp_established, tcp_syn_received, tcp_fin_wait_1, zero_tcb,
  zero_tcp_socket,
}
use dpdk_tcp.World.{World, System}
use dpdk_tcp.World.Memory.{
  load_sock, modify_sock, set_state, load_frame, modify_frame, assign_sock, assign_tcb,
  pktmbuf_alloc, on_lists,
}
use dpdk_tcp.Manage.{xy_allocate_tcp_socket, tcp_socket_of_id}
use dpdk_tcp.Socks.{
  is_listen, listener_tcp_sock_enqueue, established_tcp_sock_dequeue, syn_recv_tcp_sock_dequeue,
}
use dpdk_tcp.Net.{
  eth_setup, ip_setup, tcp_setup, ether_type_ipv4, ipproto_tcp, sizeof_ipv4_hdr, sizeof_tcp_hdr,
}
use dpdk_tcp.Tcp.{syn_flag, fin_flag}
use dpdk_tcp.Epoll.Ctl.{ebadf, einval, bad_id}
use dpdk_tcp.SynApi.Ops.{load_ops, modify_ops, is_closed, is_established}

-- `xy_return_if(condition, code)`, and the value of a call that succeeded
abbrev pub code : ℕ → M World ℤ
code n = pure (pos n)

module _ (sys : System) where
  open sys use {cpu_to_be_16}

  unfoldable pub xy_syn_socket : Ptr → M World ℤ
  unfolding xy_allocate_tcp_socket assign_sock assign_tcb modify_sock load_sock modify_ops
  xy_syn_socket create = do
    tcp_sk ← xy_allocate_tcp_socket sys
    if tcp_sk == null then code ebadf else (do
      assign_sock sys tcp_sk zero_tcp_socket
      modify_sock tcp_sk (λ sk. record sk { ref_cnt = 1; state = tcp_close })
      assign_tcb sys tcp_sk zero_tcb
      sk ← load_sock tcp_sk
      modify_ops create (λ o. record o { sock_id = pos sk.id })
      pure minus_one)

  unfoldable pub register : ℕ → M World ℤ
  unfolding port_register
  register port w =
      let (r, occupied) = port_register port w.ports in some (r, record w { ports = occupied })

  abbrev pub is_zero_result : ℤ → Bool
  is_zero_result (pos n) = n == 0
  is_zero_result (negsuc n) = false

  unfoldable pub xy_syn_bind : Ptr → M World ℤ
  unfolding load_ops tcp_socket_of_id register modify_sock
  xy_syn_bind bind = do
    o ← load_ops bind
    tcp_sk ← tcp_socket_of_id sys o.sock_id
    if bad_id o.sock_id
        then code ebadf
        else if leb 65535 o.port
        then code einval
        else if tcp_sk == null
        then code ebadf
        else (do
          register_ret ← register o.port
          (if is_zero_result register_ret
              then modify_sock tcp_sk (λ sk. record sk {
                ip_socket = record (sk.ip_socket) { ip_src = o.ip };
                port_src = o.port;
              })
              else modify_sock tcp_sk (λ sk. record sk {
                ip_socket = record (sk.ip_socket) { ip_src = 0 };
                port_src = 0;
              }))
          pure minus_one)

  -- What most of the calls begin with: the socket of the id, if it is in the required state.
  unfoldable pub with_sock : (TcpStates → Bool) → Ptr → (Ptr → M World ℤ) → M World ℤ
  unfolding load_ops tcp_socket_of_id load_sock
  with_sock test call body = do
    o ← load_ops call
    tcp_sk ← tcp_socket_of_id sys o.sock_id
    if tcp_sk == null then code ebadf else (do
      sk ← load_sock tcp_sk
      if ltb xy_max_tcp sk.id
          then code ebadf
          else if test sk.state
          then body tcp_sk
          else code einval)

  unfoldable pub xy_syn_listen : Ptr → M World ℤ
  unfolding with_sock set_state listener_tcp_sock_enqueue
  xy_syn_listen listen =
      with_sock is_closed listen λ tcp_sk. do
        set_state tcp_sk tcp_listen
        listener_tcp_sock_enqueue sys tcp_sk
        pure minus_one

  -- `eth_setup`, `ip_setup` and `tcp_setup` on a new buffer.
  unfoldable pub fill_headers : Ptr → Ptr → ℕ → ℕ → M World (Unit {0})
  unfolding load_sock modify_sock load_frame modify_frame eth_setup ip_setup tcp_setup
  fill_headers tcp_sk m_buf ip_len tcp_flags = do
    sk ← load_sock tcp_sk
    f ← load_frame m_buf
    modify_sock tcp_sk (λ s. record s {
      ip_socket = (ip_setup sys sk.ip_socket f.ip ipproto_tcp (cpu_to_be_16 ip_len)).0;
    })
    modify_frame m_buf (λ g. record g {
      eth = eth_setup sk.ip_socket.eth_socket g.eth (cpu_to_be_16 ether_type_ipv4);
      ip = (ip_setup sys sk.ip_socket g.ip ipproto_tcp (cpu_to_be_16 ip_len)).1;
      tcp = tcp_setup sk g.tcp tcp_flags;
    })

  -- A buffer for a segment without text; `rte_pktmbuf_alloc` that fails is a fault, since the code
  -- writes through the pointer at once.
  unfoldable pub control_segment : Ptr → ℕ → M World Ptr
  unfolding pktmbuf_alloc fill_headers
  control_segment tcp_sk tcp_flags = do
    m_buf ← pktmbuf_alloc sys
    if m_buf == null
        then fault
        else (do fill_headers tcp_sk m_buf (sizeof_tcp_hdr + sizeof_ipv4_hdr) tcp_flags; pure m_buf)

  -- `xy_mbuf_list_add_tail(&tcp_sk->tcb.snd_buf_list, m_buf)`
  unfoldable pub queue_segment : Ptr → Ptr → M World (Unit {0})
  unfolding on_lists xy_mbuf_list_add_tail
  queue_segment tcp_sk m_buf =
      on_lists (xy_mbuf_list_add_tail sys.pktmbuf_mtod (sys.snd_buf_list tcp_sk) m_buf)

  unfoldable pub xy_syn_connect : Ptr → M World ℤ
  unfolding with_sock control_segment queue_segment
  xy_syn_connect connect = with_sock is_closed connect λ tcp_sk. do
    m_buf ← control_segment tcp_sk syn_flag
    queue_segment tcp_sk m_buf
    pure minus_one

  unfoldable pub xy_syn_accept : Ptr → M World ℤ
  unfolding with_sock
  xy_syn_accept accept = with_sock is_listen accept λ tcp_sk. pure minus_one

  -- The switch of `xy_syn_close`.
  unfoldable pub leave_list : TcpStates → Ptr → M World (Unit {0})
  unfolding established_tcp_sock_dequeue syn_recv_tcp_sock_dequeue
  leave_list tcp_established tcp_sk = established_tcp_sock_dequeue tcp_sk
  leave_list tcp_syn_received tcp_sk = syn_recv_tcp_sock_dequeue tcp_sk
  leave_list _ tcp_sk = pure tt

  unfoldable pub xy_syn_close : Ptr → M World ℤ
  unfolding with_sock control_segment load_sock leave_list set_state queue_segment
  xy_syn_close close = with_sock is_established close λ tcp_sk. do
    m_buf ← control_segment tcp_sk fin_flag
    sk ← load_sock tcp_sk
    leave_list sk.state tcp_sk
    set_state tcp_sk tcp_fin_wait_1
    queue_segment tcp_sk m_buf
    pure minus_one
