-- ===== src/Net.antt =====
-- network/src/xy_eth.cc, xy_ip.cc and xy_tcp.cc: filling in the headers of a frame and sending it.
pub mod Forward
pub mod Reply
use dpdk_tcp.Prelude.{
  ℕ, ◌+◌, ◌/◌, ◌^◌, M, ◌>>=◌, ◌>>◌, pure, ℤ, pos, minus_one, u16, ◌==◌, if◌then◌else◌, some, length,
  ◌∷◌, List,
}
use dpdk_tcp.XyList.{Ptr}
use dpdk_tcp.Packet.{EtherHdr, Ipv4Hdr, TcpHdr, Frame}
use dpdk_tcp.Socket.{XyEthSocket, XyIpSocket, XyTcpSocket}
use dpdk_tcp.World.{World, System}
use dpdk_tcp.World.Memory.{load_sock, modify_sock, load_frame, modify_frame}

-- the header sizes and codes of DPDK
abbrev pub sizeof_ether_hdr : ℕ
sizeof_ether_hdr = 14

abbrev pub sizeof_ipv4_hdr : ℕ
sizeof_ipv4_hdr = 20

abbrev pub sizeof_tcp_hdr : ℕ
sizeof_tcp_hdr = 20

abbrev pub ether_type_ipv4 : ℕ
ether_type_ipv4 = 0x0800

abbrev pub ether_type_arp : ℕ
ether_type_arp = 0x0806

abbrev pub ipproto_tcp : ℕ
ipproto_tcp = 6

unfoldable pub eth_setup : XyEthSocket → EtherHdr → ℕ → EtherHdr
eth_setup eth_sk eh ether_type = record eh {
  d_addr = eth_sk.mac_dst;
  s_addr = eth_sk.mac_src;
  ether_type = ether_type;
}

unfoldable pub tcp_setup : XyTcpSocket → TcpHdr → ℕ → TcpHdr
tcp_setup tcp_sk tcp_h tcp_flags = record tcp_h {
  dst_port = tcp_sk.port_dst;
  src_port = tcp_sk.port_src;
  data_off = sizeof_tcp_hdr / 4;
  tcp_flags = tcp_flags;
  rx_win = u16 tcp_sk.tcb.rcv_wnd;
  tcp_urp = 0;
}

module _ (sys : System) where
  open sys use {cpu_to_be_16, cpu_to_be_32, ipv4_cksum, udptcp_cksum, eth_tx_burst, ttl}

  -- The header and the socket's next packet id.
  unfoldable pub ip_setup : XyIpSocket → Ipv4Hdr → ℕ → ℕ → XyIpSocket × Ipv4Hdr
  ip_setup ip_sk iph next_proto_id total_length =
      let filled : Ipv4Hdr = record {
        version_ihl = 0x45;
        type_of_service = 0;
        total_length = total_length;
        packet_id = cpu_to_be_16 ip_sk.id;
        fragment_offset = 0x4000;
        time_to_live = ttl;
        next_proto_id = next_proto_id;
        hdr_checksum = 0;
        src_addr = ip_sk.ip_src;
        dst_addr = ip_sk.ip_dst;
      } in
      (record ip_sk { id = u16 (ip_sk.id + 1) }, record filled { hdr_checksum = ipv4_cksum filled })

  unfoldable pub tcp_ready : TcpHdr → Ipv4Hdr → List ℕ → ℕ → ℕ → TcpHdr
  tcp_ready tcp_h iph payload sent_seq recv_ack =
      let filled = record tcp_h {
        sent_seq = cpu_to_be_32 sent_seq;
        recv_ack = cpu_to_be_32 recv_ack;
        cksum = 0;
      } in
      record filled { cksum = udptcp_cksum iph filled payload }

  -- `rte_eth_tx_burst(0, 0, &m_buf, 1)`
  unfoldable pub tx_burst : Ptr → M World ℕ
  tx_burst m_buf w =
      some (eth_tx_burst (length w.tx), record w { tx = (m_buf, w.frames m_buf) ∷ w.tx })

  unfoldable pub eth_send : XyEthSocket → Ptr → ℕ → M World ℤ
  unfolding modify_frame eth_setup tx_burst
  eth_send eth_sk m_buf ether_type = do
    modify_frame m_buf (λ f. record f { eth = eth_setup eth_sk f.eth ether_type })
    n ← tx_burst m_buf
    pure (if 1 == n then pos 0 else minus_one)

  -- `ip_setup` on the socket's IP part and the buffer's IP header, and `eth_send`.
  unfoldable pub ip_out : Ptr → Ptr → ℕ → ℕ → M World ℤ
  unfolding load_sock modify_sock load_frame modify_frame ip_setup eth_send
  ip_out tcp_sk m_buf next_proto_id total_length = do
    sk ← load_sock tcp_sk
    f ← load_frame m_buf
    modify_sock tcp_sk
        (λ s. record s { ip_socket = (ip_setup sk.ip_socket f.ip next_proto_id total_length).0 })
    modify_frame m_buf
        (λ g. record g { ip = (ip_setup sk.ip_socket f.ip next_proto_id total_length).1 })
    eth_send sk.ip_socket.eth_socket m_buf (cpu_to_be_16 ether_type_ipv4)

  unfoldable pub ip_send : Ptr → Ptr → ℕ → ℕ → M World ℤ
  unfolding ip_out
  ip_send tcp_sk m_buf next_proto_id data_len =
      ip_out tcp_sk m_buf next_proto_id (cpu_to_be_16 (u16 (data_len + sizeof_ipv4_hdr)))

  unfoldable pub ip_forward : Ptr → Ptr → ℕ → M World ℤ
  unfolding load_frame ip_out
  ip_forward tcp_sk m_buf next_proto_id = do
    f ← load_frame m_buf
    ip_out tcp_sk m_buf next_proto_id f.ip.total_length

  -- `tcp_setup` and `tcp_ready` on the buffer's TCP header.
  unfoldable pub tcp_out : Ptr → Ptr → ℕ → ℕ → ℕ → M World (Unit {0})
  unfolding load_sock modify_frame tcp_setup tcp_ready
  tcp_out tcp_sk m_buf tcp_flags sent_seq recv_ack = do
    sk ← load_sock tcp_sk
    modify_frame m_buf (λ f. record f {
      tcp = tcp_ready (tcp_setup sk f.tcp tcp_flags) f.ip f.payload sent_seq recv_ack;
    })

  unfoldable pub tcp_forward : Ptr → Ptr → ℕ → ℕ → ℕ → M World ℤ
  unfolding tcp_out ip_forward
  tcp_forward tcp_sk m_buf tcp_flags sent_seq recv_ack = do
    tcp_out tcp_sk m_buf tcp_flags sent_seq recv_ack
    ip_forward tcp_sk m_buf ipproto_tcp

  unfoldable pub tcp_send : Ptr → Ptr → ℕ → ℕ → ℕ → ℕ → M World ℤ
  unfolding tcp_out ip_send
  tcp_send tcp_sk m_buf tcp_flags sent_seq recv_ack data_len = do
    tcp_out tcp_sk m_buf tcp_flags sent_seq recv_ack
    ip_send tcp_sk m_buf ipproto_tcp (u16 (data_len + sizeof_tcp_hdr))
