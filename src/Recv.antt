-- ===== src/Recv.antt =====
-- network/src/xy_tcp_recv.cc, xy_ip.cc and xy_eth.cc: from a received frame to the handler that
-- answers it.
pub mod Demux
pub mod Dispatch
pub mod Forward
pub mod Answers
pub mod Wire
use dpdk_tcp.Prelude.{
  ℕ, ◌+◌, ◌%◌, M, ◌>>=◌, ◌>>◌, pure, Bool, ltb, ◌==◌, ◌&&◌, if◌then◌else◌, ℤ, pos, bit_and,
}
use dpdk_tcp.XyList.{Ptr, null}
use dpdk_tcp.Packet.{Frame}
use dpdk_tcp.Socket.{TcpStates, tcp_listen, tcp_syn_sent, tcp_close}
use dpdk_tcp.World.{World, System}
use dpdk_tcp.World.Memory.{load_sock, load_frame, pktmbuf_free}
use dpdk_tcp.Socks.{
  syn_rcvd_tcp_sock_lookup, established_tcp_sock_look_up, listener_tcp_sock_lookup,
}
use dpdk_tcp.Net.{sizeof_ether_hdr, sizeof_tcp_hdr, ether_type_ipv4, ether_type_arp, ipproto_tcp}
use dpdk_tcp.Net.Reply.{arp_recv, icmp_recv}
use dpdk_tcp.Tcp.Close.{state_tcp_close}
use dpdk_tcp.Tcp.Listen.{state_tcp_listen}
use dpdk_tcp.Tcp.SynSent.{state_tcp_syn_sent}
use dpdk_tcp.Tcp.Others.{state_tcp_otherwise}

-- `RTE_IPV4_HDR_OFFSET_MASK`
abbrev pub ipv4_hdr_offset_mask : ℕ
ipv4_hdr_offset_mask = 0x1fff

module _ (sys : System) where
  open sys use {cpu_to_be_16, udptcp_cksum, ipv4_hdr_len, xy_this_ip}

  -- `check_tcp_hdr(tcp_h, iph) == 0`: the checksum is compared with one taken over the header that
  -- holds it.
  unfoldable pub check_tcp_hdr : Frame → Bool
  check_tcp_hdr f = f.tcp.cksum == udptcp_cksum f.ip f.tcp f.payload

  -- The socket that a segment is for, or `NULL`.
  unfoldable pub socket_lookup : Frame → M World Ptr
  unfolding syn_rcvd_tcp_sock_lookup established_tcp_sock_look_up listener_tcp_sock_lookup
  socket_lookup f = do
    s ← syn_rcvd_tcp_sock_lookup sys f.ip.dst_addr f.tcp.dst_port f.ip.src_addr f.tcp.src_port
    if s == null
        then (do
          e ←
              established_tcp_sock_look_up sys f.ip.dst_addr f.tcp.dst_port f.ip.src_addr
                f.tcp.src_port
          if e == null then listener_tcp_sock_lookup sys f.ip.dst_addr f.tcp.dst_port else pure e)
        else pure s

  -- The handler of a state.
  unfoldable pub handle : TcpStates → Ptr → Ptr → M World ℤ
  handle tcp_close tcp_sk m_buf = state_tcp_close sys tcp_sk m_buf
  handle tcp_listen tcp_sk m_buf = state_tcp_listen sys tcp_sk m_buf
  handle tcp_syn_sent tcp_sk m_buf = state_tcp_syn_sent sys tcp_sk m_buf
  handle _ tcp_sk m_buf = state_tcp_otherwise sys tcp_sk m_buf

  unfoldable pub tcp_recv : Ptr → ℕ → ℕ → M World ℤ
  unfolding load_frame load_sock check_tcp_hdr socket_lookup handle
  tcp_recv m_buf hdr_len len = do
    f ← load_frame m_buf
    if ltb len (sizeof_ether_hdr + hdr_len + sizeof_tcp_hdr)
        then pure (pos 0)
        else if check_tcp_hdr f
        then (do
          tcp_sk ← socket_lookup f
          if tcp_sk == null
              then pure (pos 0)
              else (do sk ← load_sock tcp_sk; handle sk.state tcp_sk m_buf))
        else pure (pos 0)

  -- An IPv4 packet for this host that is no fragment.
  unfoldable pub for_this_host : Frame → Bool
  for_this_host f =
      (bit_and f.ip.version_ihl 0xf0 == 0x40)
      && ((bit_and f.ip.fragment_offset (cpu_to_be_16 ipv4_hdr_offset_mask) == 0)
          && (f.ip.dst_addr == xy_this_ip))

  unfoldable pub ip_recv : Ptr → ℕ → M World ℤ
  unfolding load_frame for_this_host
  ip_recv m_buf len = do
    f ← load_frame m_buf
    if for_this_host f
        then (if f.ip.next_proto_id == ipproto_tcp
            then tcp_recv m_buf (ipv4_hdr_len f.ip) len
            else if f.ip.next_proto_id == 1
            then icmp_recv sys m_buf (ipv4_hdr_len f.ip) len
            else pure (pos 0))
        else pure (pos 0)

  unfoldable pub eth_recv : Ptr → M World ℤ
  unfolding load_frame pktmbuf_free
  eth_recv buf = do
    f ← load_frame buf
    if f.eth.ether_type == cpu_to_be_16 ether_type_ipv4
        then ip_recv buf f.data_len
        else if f.eth.ether_type == cpu_to_be_16 ether_type_arp
        then arp_recv sys buf f.data_len
        else (do pktmbuf_free buf; pure (pos 0))
