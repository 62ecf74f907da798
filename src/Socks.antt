-- ===== src/Socks.antt =====
-- network/src/xy_socks.cc and queue/src/xy_syn_socks.cc: the lists of the sockets that listen, that
-- wait for the end of a handshake, and that are connected. The lock of the last holds no value.
pub mod Lookup
use dpdk_tcp.Prelude.{
  ℕ, zero, suc, Bool, true, false, Option, none, some, M, ◌>>=◌, ◌>>◌, pure, fault, ◌==◌, ◌&&◌, not,
  if◌then◌else◌,
}
use dpdk_tcp.XyList.{Ptr, null, load_next, xy_list_add_head, xy_list_del}
use dpdk_tcp.Socket.{XyTcpSocket, TcpStates, tcp_listen, tcp_established}
use dpdk_tcp.World.{World, System}
use dpdk_tcp.World.Memory.{load_sock, on_links}

abbrev pub is_listen : TcpStates → Bool
is_listen tcp_listen = true
is_listen _ = false

-- `for (pos = head->next; pos != head; pos = pos->next)`, which returns the first socket that passes
-- the test, or `NULL`. `none` is also a walk of more than the given rounds.
unfoldable pub walk : ℕ → Ptr → (XyTcpSocket → Bool) → Ptr → M World Ptr
walk zero head test pos = fault
walk (suc rounds) head test pos =
    let rest = λ (next : Ptr). walk rounds head test next in
    if pos == head then pure null else (do
      node ← load_sock pos
      if test node then pure pos else (do next ← on_links (load_next pos); rest next))

-- The test of `listener_tcp_sock_lookup`.
unfoldable pub listens_at : ℕ → ℕ → XyTcpSocket → Bool
listens_at dst_ip_be dst_port node =
    (node.ip_socket.ip_src == dst_ip_be) && (node.port_src == dst_port)

-- The assertion that follows it.
unfoldable pub assert_listen : Ptr → M World Ptr
unfolding load_sock
assert_listen pos =
    if pos == null
    then pure null
    else do node ← load_sock pos; if is_listen node.state then pure pos else fault

-- The test of both other lookups. It ends in `node->port_src && dst_port_be`: that both ports are
-- not 0, where the first three conditions are equations.
unfoldable pub connects : ℕ → ℕ → ℕ → ℕ → XyTcpSocket → Bool
connects dst_ip_be dst_port_be src_ip_be src_port_be node =
    (node.ip_socket.ip_dst == src_ip_be)
    && ((node.port_dst == src_port_be)
        && ((node.ip_socket.ip_src == dst_ip_be)
            && (not (node.port_src == 0) && not (dst_port_be == 0))))

module _ (sys : System) where
  open sys use {list_listeners, list_syn_recved, list_established, rounds}

  unfoldable pub syn_recv_tcp_sock_enqueue : Ptr → M World (Unit {0})
  unfolding on_links
  syn_recv_tcp_sock_enqueue tcp_sock = on_links (xy_list_add_head list_syn_recved tcp_sock)

  unfoldable pub listener_tcp_sock_enqueue : Ptr → M World (Unit {0})
  unfolding on_links
  listener_tcp_sock_enqueue tcp_sock = on_links (xy_list_add_head list_listeners tcp_sock)

  unfoldable pub established_tcp_sock_enqueue : Ptr → M World (Unit {0})
  unfolding on_links
  established_tcp_sock_enqueue tcp_sock = on_links (xy_list_add_head list_established tcp_sock)

  unfoldable pub listener_tcp_sock_lookup : ℕ → ℕ → M World Ptr
  unfolding walk load_next on_links load_sock assert_listen listens_at
  listener_tcp_sock_lookup dst_ip_be dst_port = do
    first ← on_links (load_next list_listeners)
    pos ← walk rounds list_listeners (listens_at dst_ip_be dst_port) first
    assert_listen pos

  unfoldable pub syn_rcvd_tcp_sock_lookup : ℕ → ℕ → ℕ → ℕ → M World Ptr
  unfolding walk load_next on_links load_sock connects
  syn_rcvd_tcp_sock_lookup dst_ip_be dst_port_be src_ip_be src_port_be = do
    first ← on_links (load_next list_syn_recved)
    walk rounds list_syn_recved (connects dst_ip_be dst_port_be src_ip_be src_port_be) first

  unfoldable pub established_tcp_sock_look_up : ℕ → ℕ → ℕ → ℕ → M World Ptr
  unfolding walk load_next on_links load_sock connects
  established_tcp_sock_look_up dst_ip_be dst_port_be src_ip_be src_port_be = do
    first ← on_links (load_next list_established)
    walk rounds list_established (connects dst_ip_be dst_port_be src_ip_be src_port_be) first

unfoldable pub syn_recv_tcp_sock_dequeue : Ptr → M World (Unit {0})
unfolding on_links
syn_recv_tcp_sock_dequeue tcp_sock = on_links (xy_list_del tcp_sock)

unfoldable pub listener_tcp_sock_dequeue : Ptr → M World (Unit {0})
unfolding on_links
listener_tcp_sock_dequeue tcp_sock = on_links (xy_list_del tcp_sock)

unfoldable pub established_tcp_sock_dequeue : Ptr → M World (Unit {0})
unfolding on_links
established_tcp_sock_dequeue tcp_sock = on_links (xy_list_del tcp_sock)
