-- ===== src/Net/Reply.antt =====
-- network/src/xy_arp.cc and xy_icmp.cc: the answers that need no connection. A `len` is an `int`, of
-- which the callers pass a length that is at least 0.
use dpdk_tcp.Prelude.{
  ℕ, ◌+◌, ◌-◌, ◌^◌, M, ◌>>=◌, ◌>>◌, pure, fault, ℤ, pos, u16, ◌==◌, ltb, ◌&&◌, if◌then◌else◌,
}
use dpdk_tcp.XyList.{Ptr}
use dpdk_tcp.Packet.{Frame}
use dpdk_tcp.World.{World, System}
use dpdk_tcp.World.Memory.{load_frame, modify_frame}
use dpdk_tcp.Net.{sizeof_ether_hdr, tx_burst}

abbrev pub sizeof_arp_hdr : ℕ
sizeof_arp_hdr = 28

abbrev pub sizeof_icmp_hdr : ℕ
sizeof_icmp_hdr = 8

abbrev pub arp_op_request : ℕ
arp_op_request = 1

abbrev pub arp_op_reply : ℕ
arp_op_reply = 2

abbrev pub icmp_echo_request : ℕ
icmp_echo_request = 8

abbrev pub icmp_echo_reply : ℕ
icmp_echo_reply = 0

module _ (sys : System) where
  open sys use {cpu_to_be_16, ipv4_cksum, raw_cksum, ttl, xy_this_ip, xy_this_mac}

  -- The frame that answers an ARP request.
  unfoldable pub arp_reply : Frame → Frame
  arp_reply f = record f {
    eth = record (f.eth) { d_addr = f.eth.s_addr; s_addr = xy_this_mac };
    arp = record {
      arp_opcode = cpu_to_be_16 arp_op_reply;
      arp_tha = f.arp.arp_sha;
      arp_sha = xy_this_mac;
      arp_tip = f.arp.arp_sip;
      arp_sip = xy_this_ip;
    };
  }

  unfoldable pub arp_recv : Ptr → ℕ → M World ℤ
  unfolding load_frame modify_frame tx_burst arp_reply
  arp_recv m_buf len = do
    f ← load_frame m_buf
    if ltb len (sizeof_ether_hdr + sizeof_arp_hdr)
        then pure (pos 0)
        else if cpu_to_be_16 f.arp.arp_opcode == arp_op_request
        then (if xy_this_ip == f.arp.arp_tip
            then (do
              modify_frame m_buf arp_reply
              n ← tx_burst sys m_buf
              pure (if 1 == n then pos 1 else pos 0))
            else pure (pos 0))
        else pure (pos 0)

  -- `len - RTE_ETHER_HDR_LEN - ipv4_hdr_len` as the `size_t` of `rte_raw_cksum`: below 0 it wraps
  -- round to nearly 2 ^ 64, and the sum reads beyond the buffer, which is a fault.
  unfoldable pub icmp_text_len : ℕ → ℕ → M World ℕ
  icmp_text_len ipv4_hdr_len len =
      if ltb len (sizeof_ether_hdr + ipv4_hdr_len)
      then fault
      else pure (len - (sizeof_ether_hdr + ipv4_hdr_len))

  -- The frame that answers an echo request whose ICMP message has `text_len` octets. The checksum of
  -- the IPv4 header is taken with its old checksum in place.
  unfoldable pub icmp_reply : ℕ → Frame → Frame
  icmp_reply text_len f =
      let iph = record (f.ip) {
        dst_addr = f.ip.src_addr;
        src_addr = xy_this_ip;
        time_to_live = ttl;
      } in
      let icmp = record (f.icmp) { icmp_type = icmp_echo_reply; icmp_cksum = 0 } in
      record f {
        eth = record (f.eth) { d_addr = f.eth.s_addr; s_addr = xy_this_mac };
        ip = record iph { hdr_checksum = ipv4_cksum iph };
        icmp = record icmp { icmp_cksum = 2 ^ 16 - 1 - u16 (raw_cksum icmp f.payload text_len) };
      }

  unfoldable pub icmp_recv : Ptr → ℕ → ℕ → M World ℤ
  unfolding load_frame modify_frame tx_burst icmp_text_len icmp_reply
  icmp_recv m_buf ipv4_hdr_len len = do
    f ← load_frame m_buf
    if ltb len (sizeof_ether_hdr + sizeof_icmp_hdr)
        then pure (pos 0)
        else if (f.icmp.icmp_type == icmp_echo_request) && (f.icmp.icmp_code == 0)
        then (do
          text_len ← icmp_text_len ipv4_hdr_len len
          modify_frame m_buf (icmp_reply text_len)
          n ← tx_burst sys m_buf
          pure (if 0 == n then pos 1 else pos 0))
        else pure (pos 0)
