-- ===== src/Tests/Wire.antt =====
-- A SYN from the wire for the listener 300, from a port that no connection has.
use dpdk_tcp.Prelude.{◌≡◌, refl, arith, some, [], ◌∷◌, ℤ}
use dpdk_tcp.XyList.Chain.{IsRing}
use dpdk_tcp.Packet.{Frame}
use dpdk_tcp.Socket.{XyTcpSocket, tcp_listen, tcp_established, tcp_syn_received}
use dpdk_tcp.World.{World}
use dpdk_tcp.Net.Forward.{segment}
use dpdk_tcp.Tcp.{has_flag}
use dpdk_tcp.Tcp.Listen.Passive.{opened}
use dpdk_tcp.Tcp.Listen.Open.{CanOpen}
use dpdk_tcp.Socks.{connects, listens_at}
use dpdk_tcp.Socks.Lookup.{find}
use dpdk_tcp.Recv.{for_this_host, check_tcp_hdr, eth_recv}
use dpdk_tcp.Recv.Demux.{Tables, demux}
use dpdk_tcp.Recv.Wire.{IsSegmentHere, eth_recv-syn}
use dpdk_tcp.Tests.{sock, frame, world, sys, swap_16}

abbrev request : Frame
request = record (frame 0x02 0) {
  tcp = record (frame 0x02 0).tcp { src_port = 4002; dst_port = 81 };
}

abbrev requested : World
requested = world tcp_established request

abbrev listener : XyTcpSocket
listener = record (sock tcp_listen) { port_src = 81 }

requested-Tables : Tables sys requested (200 ∷ []) (100 ∷ []) (300 ∷ [])
requested-Tables = record {
  syn_ring = ground arith;
  syn_socks = ((_, refl), tt);
  syn_few = omega arith;
  established_ring = ground arith;
  established_socks = ((_, refl), tt);
  established_few = omega arith;
  listener_ring = ground arith;
  listener_socks = ((_, refl, refl), tt);
  listener_few = omega arith;
}

request-IsSegmentHere : IsSegmentHere sys requested 7
unfolding for_this_host check_tcp_hdr
request-IsSegmentHere = record { ipv4 = refl; here = refl; tcp = refl; long = refl; sum = refl }

requested-CanOpen : CanOpen sys requested 300 5000 10000 [] (200 ∷ [])
requested-CanOpen = record {
  new = refl;
  not_null = refl;
  free_ring = ground arith;
  syn_ring = ground arith;
  apart = (refl, (refl, tt));
  own_free = (refl, (refl, (refl, tt)));
  own_syn = (refl, (refl, (refl, tt)));
  own_listener = (refl, (refl, (refl, tt)));
  node = (refl, refl);
  rcv_node = (refl, refl);
  snd_node = (refl, refl);
}

eth_recv-syn_example :
    (r : ℤ) × (w' : World) × (sk' : XyTcpSocket) × (eth_recv sys 7 requested ≡ some (r, w'))
    × (w'.socks 5000 ≡ some sk')
    × (sk'.state ≡ tcp_syn_received)
    × ((sk'.ip_socket.ip_src ≡ 11) × (sk'.port_src ≡ 81))
    × ((sk'.ip_socket.ip_dst ≡ 22) × (sk'.port_dst ≡ 4002))
    × (sk'.tcb.rcv_nxt ≡ 51)
    × IsRing w'.lists.node 2 (5000 ∷ 200 ∷ [])
    × (w'.tx ≡ (7, segment sys (opened request 77) request 0x12 77 51 (swap_16 40)) ∷ [])
    × (w'.freed ≡ [])
unfolding has_flag demux find connects listens_at
eth_recv-syn_example =
    eth_recv-syn sys requested 7 (200 ∷ []) (100 ∷ []) (300 ∷ []) [] 300 5000 10000 listener
      requested-Tables request-IsSegmentHere refl refl refl refl requested-CanOpen refl refl refl
