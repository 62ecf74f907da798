-- ===== src/Tests/Answers.antt =====
-- An ARP request and a ping for this host, whose address is 11.
use dpdk_tcp.Prelude.{◌⊎◌, true, false, none, ◌≡◌, refl, some, [], ◌∷◌, ℤ}
use dpdk_tcp.Packet.{Frame}
use dpdk_tcp.Socket.{tcp_established}
use dpdk_tcp.World.{World}
use dpdk_tcp.Recv.{for_this_host, eth_recv}
use dpdk_tcp.Recv.Answers.{IsAnswer, IsEcho, cut_off, eth_recv-arp, eth_recv-icmp}
use dpdk_tcp.Tests.{frame, world, sys, swap_16}

-- The host 22 asks from the hardware address 2.
abbrev question : Frame
question = record (frame 0 0) {
  eth = record { d_addr = 0xffffff; s_addr = 2; ether_type = swap_16 0x0806 };
  arp = record { arp_opcode = swap_16 1; arp_sha = 2; arp_sip = 22; arp_tha = 0; arp_tip = 11 };
}

abbrev asked : World
asked = world tcp_established question

eth_recv-arp_example :
    (r : ℤ) × (w' : World) × (g : Frame) × (eth_recv sys 7 asked ≡ some (r, w'))
    × (w'.tx ≡ (7, g) ∷ [])
    × IsAnswer sys asked 7 g
    × (w'.freed ≡ [])
eth_recv-arp_example = eth_recv-arp sys asked 7 refl refl

abbrev ping : Frame
ping = record (frame 0 0) {
  ip = record (frame 0 0).ip { next_proto_id = 1 };
  icmp = record { icmp_type = 8; icmp_code = 0; icmp_cksum = 0 };
}

abbrev pinged : World
pinged = world tcp_established ping

eth_recv-icmp_example :
    ((cut_off sys pinged 7 ≡ true) × (eth_recv sys 7 pinged ≡ none))
    ⊎ ((cut_off sys pinged 7 ≡ false)
        × ((r : ℤ) × (w' : World) × (g : Frame) × (eth_recv sys 7 pinged ≡ some (r, w'))
            × (w'.tx ≡ (7, g) ∷ [])
            × IsEcho sys pinged 7 g
            × (w'.freed ≡ [])))
unfolding for_this_host
eth_recv-icmp_example = eth_recv-icmp sys pinged 7 refl refl refl
