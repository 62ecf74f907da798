-- ===== src/Packet.antt =====
-- The packet headers that network/src reads and writes in place (the structs of DPDK's rte_ether.h,
-- rte_ip.h, rte_tcp.h, rte_arp.h and rte_icmp.h), one frame to a packet buffer. A field is the number
-- that the program reads from it: no byte order is undone. What follows the Ethernet header is read
-- as an IPv4 or an ARP packet, and what follows the IPv4 header as TCP or ICMP; the model keeps these
-- views apart, and the TCP header where the program finds it.
use dpdk_tcp.Prelude.{ℕ, List}

pub record EtherHdr : Type 0 where
  pub d_addr : ℕ
  pub s_addr : ℕ
  pub ether_type : ℕ

pub record Ipv4Hdr : Type 0 where
  pub version_ihl : ℕ
  pub type_of_service : ℕ
  pub total_length : ℕ
  pub packet_id : ℕ
  pub fragment_offset : ℕ
  pub time_to_live : ℕ
  pub next_proto_id : ℕ
  pub hdr_checksum : ℕ
  pub src_addr : ℕ
  pub dst_addr : ℕ

pub record TcpHdr : Type 0 where
  pub src_port : ℕ
  pub dst_port : ℕ
  pub sent_seq : ℕ
  pub recv_ack : ℕ
  pub data_off : ℕ
  pub tcp_flags : ℕ
  pub rx_win : ℕ
  pub cksum : ℕ
  pub tcp_urp : ℕ

pub record ArpHdr : Type 0 where
  pub arp_opcode : ℕ
  pub arp_sha : ℕ
  pub arp_sip : ℕ
  pub arp_tha : ℕ
  pub arp_tip : ℕ

pub record IcmpHdr : Type 0 where
  pub icmp_type : ℕ
  pub icmp_code : ℕ
  pub icmp_cksum : ℕ

pub record Frame : Type 0 where
  pub eth : EtherHdr
  pub ip : Ipv4Hdr
  pub tcp : TcpHdr
  pub arp : ArpHdr
  pub icmp : IcmpHdr
  pub data_len : ℕ
  pub pkt_len : ℕ
  pub payload : List ℕ
