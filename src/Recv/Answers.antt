-- ===== src/Recv/Answers.antt =====
-- Frames that are answered without a connection: `eth_recv` of network/src/xy_eth.cc down to xy_arp.cc
-- and xy_icmp.cc.
use dpdk_tcp.Prelude.{
  ◌+◌, ◌-◌, ◌⊎◌, none, ◌≡◌, refl, arith, Bool, true, false, ltb, ◌==◌, ◌&&◌, not, if◌then◌else◌, ℤ,
  some, ◌∷◌, Bool-cases, inl, inr, length, pos, update,
}
use dpdk_tcp.XyList.{Ptr}
use dpdk_tcp.Packet.{Frame}
use dpdk_tcp.World.{World, System}
use dpdk_tcp.Net.{sizeof_ether_hdr, ether_type_ipv4, ether_type_arp}
use dpdk_tcp.Net.Reply.{
  sizeof_arp_hdr, sizeof_icmp_hdr, arp_op_request, arp_op_reply, icmp_echo_request, icmp_echo_reply,
  arp_reply, arp_recv, icmp_text_len, icmp_reply, icmp_recv,
}
use dpdk_tcp.Recv.{for_this_host, ip_recv, eth_recv}

module _ (sys : System) (w : World) (m : Ptr) where
  abbrev f : Frame
  f = w.frames m

  -- A request for the address of this host, whole.
  abbrev pub asks : Bool
  asks =
      not (ltb f.data_len (sizeof_ether_hdr + sizeof_arp_hdr))
      && ((sys.cpu_to_be_16 f.arp.arp_opcode == arp_op_request)
          && (sys.xy_this_ip == f.arp.arp_tip))

  -- The answer to an ARP request, as its asker reads it.
  pub record IsAnswer (g : Frame) : Type 0 where
    pub opcode : g.arp.arp_opcode ≡ sys.cpu_to_be_16 arp_op_reply
    pub to_mac : g.eth.d_addr ≡ f.eth.s_addr
    pub from_mac : g.eth.s_addr ≡ sys.xy_this_mac
    pub target : (g.arp.arp_tha ≡ f.arp.arp_sha) × (g.arp.arp_tip ≡ f.arp.arp_sip)
    pub sender : (g.arp.arp_sha ≡ sys.xy_this_mac) × (g.arp.arp_sip ≡ sys.xy_this_ip)

  -- An ARP frame is handled to the end. If it is a whole request for this host's address, one frame is
  -- sent in its buffer, to the asker: the reply that gives this host's hardware address for the
  -- address that was asked for. On any other ARP frame nothing is sent. Nothing is freed.
  pub eth_recv-arp :
      f.eth.ether_type ≡ sys.cpu_to_be_16 ether_type_arp
      → (sys.cpu_to_be_16 ether_type_arp == sys.cpu_to_be_16 ether_type_ipv4) ≡ false
      → (r : ℤ) × (w' : World) × (g : Frame) × (eth_recv sys m w ≡ some (r, w'))
        × (w'.tx ≡ (if asks then (m, g) ∷ w.tx else w.tx))
        × IsAnswer g
        × (w'.freed ≡ w.freed)
  unfolding eth_recv arp_recv arp_reply
  eth_recv-arp arp other =
      let g = arp_reply sys f in
      let answer : IsAnswer g = record {
        opcode = refl;
        to_mac = refl;
        from_mac = refl;
        target = (refl, refl);
        sender = (refl, refl);
      } in
      elim (Bool-cases asks) [
        | inl yes_asks ↦ (
          if 1 == sys.eth_tx_burst (length w.tx) then pos 1 else pos 0,
          record w { frames = update w.frames m g; tx = (m, g) ∷ w.tx },
          g,
          ground arith,
          rw yes_asks refl,
          answer,
          refl,
        )
        | inr no_asks ↦ (pos 0, w, g, ground arith, rw no_asks refl, answer, refl)
      ]

  -- A whole echo request.
  abbrev pub pings : Bool
  pings =
      not (ltb f.data_len (sizeof_ether_hdr + sizeof_icmp_hdr))
      && ((f.icmp.icmp_type == icmp_echo_request) && (f.icmp.icmp_code == 0))

  -- The answer to an echo request, as its sender reads it: the same text, from this host.
  pub record IsEcho (g : Frame) : Type 0 where
    pub kind : (g.icmp.icmp_type ≡ icmp_echo_reply) × (g.icmp.icmp_code ≡ f.icmp.icmp_code)
    pub to_mac : g.eth.d_addr ≡ f.eth.s_addr
    pub from_mac : g.eth.s_addr ≡ sys.xy_this_mac
    pub to_ip : g.ip.dst_addr ≡ f.ip.src_addr
    pub from_ip : g.ip.src_addr ≡ sys.xy_this_ip
    pub text : (g.payload ≡ f.payload) × (g.ip.total_length ≡ f.ip.total_length)

  -- An echo request whose frame ends before the IPv4 header does, by that header's own length.
  abbrev pub cut_off : Bool
  cut_off = pings && ltb f.data_len (sizeof_ether_hdr + sys.ipv4_hdr_len f.ip)

  -- An ICMP packet for this host, in IPv4 and no fragment. An echo request whose frame ends before the
  -- IPv4 header does, by that header's own length, makes the checksum read out of bounds. Any other
  -- packet is handled to the end: if it is an echo request, one frame is sent in its buffer, to its
  -- sender, the echo reply with the same text; if not, nothing is sent. Nothing is freed.
  pub eth_recv-icmp :
      f.eth.ether_type ≡ sys.cpu_to_be_16 ether_type_ipv4
      → for_this_host sys f ≡ true
      → f.ip.next_proto_id ≡ 1
      → ((cut_off ≡ true) × (eth_recv sys m w ≡ none))
        ⊎ ((cut_off ≡ false)
            × ((r : ℤ) × (w' : World) × (g : Frame) × (eth_recv sys m w ≡ some (r, w'))
                × (w'.tx ≡ (if pings then (m, g) ∷ w.tx else w.tx))
                × IsEcho g
                × (w'.freed ≡ w.freed)))
  unfolding eth_recv ip_recv icmp_recv icmp_reply icmp_text_len
  eth_recv-icmp ipv4 here icmp =
      let g = icmp_reply sys (f.data_len - (sizeof_ether_hdr + sys.ipv4_hdr_len f.ip)) f in
      let echo : IsEcho g = record {
        kind = (refl, refl);
        to_mac = refl;
        from_mac = refl;
        to_ip = refl;
        from_ip = refl;
        text = (refl, refl);
      } in
      elim (Bool-cases cut_off) [
        | inl cut ↦ inl (cut, ground arith)
        | inr not_cut ↦ inr (
          not_cut,
          elim (Bool-cases pings) [
            | inl yes_pings ↦ (
              if 0 == sys.eth_tx_burst (length w.tx) then pos 1 else pos 0,
              record w { frames = update w.frames m g; tx = (m, g) ∷ w.tx },
              g,
              ground arith,
              rw yes_pings refl,
              echo,
              refl,
            )
            | inr no_pings ↦ (pos 0, w, g, ground arith, rw no_pings refl, echo, refl)
          ],
        )
      ]
