-- ===== src/Recv/Wire.antt =====
-- A connection request from the wire: from `eth_recv` of network/src/xy_eth.cc through xy_ip.cc,
-- xy_tcp_recv.cc and xy_socks.cc to the listener, and back to the device.
use dpdk_tcp.Prelude.{◌+◌, ◌≡◌, arith, true, false, some, List, ◌∷◌, ◌==◌, ltb, u32, bit_or, ℤ}
use dpdk_tcp.XyList.{Ptr, null}
use dpdk_tcp.XyList.Chain.{IsRing}
use dpdk_tcp.Packet.{Frame}
use dpdk_tcp.Socket.{XyTcpSocket, tcp_listen, tcp_syn_received}
use dpdk_tcp.World.{World, System}
use dpdk_tcp.Net.{sizeof_ether_hdr, sizeof_tcp_hdr, ether_type_ipv4, ipproto_tcp}
use dpdk_tcp.Net.Forward.{segment}
use dpdk_tcp.Tcp.{has_flag, rst_flag, ack_flag, syn_flag}
use dpdk_tcp.Tcp.Listen.Passive.{opened}
use dpdk_tcp.Tcp.Listen.Open.{CanOpen, state_tcp_listen-syn}
use dpdk_tcp.Recv.{check_tcp_hdr, handle, for_this_host, ip_recv, eth_recv}
use dpdk_tcp.Recv.Demux.{Tables, demux, tcp_recv_handles}

module _ (sys : System) (w : World) (m : Ptr) where
  abbrev f : Frame
  f = w.frames m

  -- A TCP segment for this host that is whole: in IPv4, no fragment, as long as its headers, with
  -- the checksum that the test asks for.
  pub record IsSegmentHere : Type 0 where
    pub ipv4 : f.eth.ether_type ≡ sys.cpu_to_be_16 ether_type_ipv4
    pub here : for_this_host sys f ≡ true
    pub tcp : f.ip.next_proto_id ≡ ipproto_tcp
    pub long : ltb f.data_len (sizeof_ether_hdr + sys.ipv4_hdr_len f.ip + sizeof_tcp_hdr) ≡ false
    pub sum : check_tcp_hdr sys f ≡ true

  -- A whole segment that matches a socket of the lists goes from the device to the handler of that
  -- socket's state.
  eth_recv_handles :
      (xs es ls : List Ptr) (p : Ptr) (sk : XyTcpSocket)
      → Tables sys w xs es ls
      → IsSegmentHere
      → demux w f xs es ls ≡ p
      → (p == null) ≡ false
      → w.socks p ≡ some sk
      → eth_recv sys m w ≡ handle sys sk.state p m w
  unfolding eth_recv ip_recv
  eth_recv_handles xs es ls p sk t s at hit found = ground (
    arith,
    s,
    tcp_recv_handles sys w xs es ls t m (sys.ipv4_hdr_len f.ip) f.data_len p sk at s.long s.sum hit
        found,
  )

  -- A SYN from the wire, for a listener of this host, is answered on the wire. It is a whole segment
  -- without RST and ACK that matches no connection and no handshake but the listener, in memory where
  -- the listener can make a socket. Then `eth_recv` returns; the new socket is in SYN-RECEIVED for
  -- the segment's addresses and ports the other way round, expects the number after the segment's,
  -- and heads the list of handshakes; one frame is sent, the SYN and ACK of the new socket in the
  -- segment's buffer, and nothing is freed.
  pub eth_recv-syn :
      (xs es ls frees : List Ptr) (p q e : Ptr) (sk : XyTcpSocket)
      → Tables sys w xs es ls
      → IsSegmentHere
      → demux w f xs es ls ≡ p
      → (p == null) ≡ false
      → w.socks p ≡ some sk
      → sk.state ≡ tcp_listen
      → CanOpen sys w p q e frees xs
      → has_flag f.tcp.tcp_flags rst_flag ≡ false
      → has_flag f.tcp.tcp_flags ack_flag ≡ false
      → has_flag f.tcp.tcp_flags syn_flag ≡ true
      → let iss = u32 (sys.rand w.rands) in
        (r : ℤ) × (w' : World) × (sk' : XyTcpSocket) × (eth_recv sys m w ≡ some (r, w'))
        × (w'.socks q ≡ some sk')
        × (sk'.state ≡ tcp_syn_received)
        × ((sk'.ip_socket.ip_src ≡ f.ip.dst_addr) × (sk'.port_src ≡ f.tcp.dst_port))
        × ((sk'.ip_socket.ip_dst ≡ f.ip.src_addr) × (sk'.port_dst ≡ f.tcp.src_port))
        × (sk'.tcb.rcv_nxt ≡ u32 (f.tcp.sent_seq + 1))
        × IsRing w'.lists.node sys.list_syn_recved (q ∷ xs)
        × (w'.tx
            ≡ (
              m,
              segment sys
                  (opened f iss)
                  f
                  (bit_or syn_flag ack_flag)
                  iss
                  (u32 (f.tcp.sent_seq + 1))
                  f.ip.total_length,
            )
              ∷ w.tx)
        × (w'.freed ≡ w.freed)
  unfolding handle
  eth_recv-syn xs es ls frees p q e sk t s at hit found listens can no_rst no_ack syn =
      let (r, w', sk', run, there, state, local, remote, numbers, next, ring, free, tx, freed) =
        state_tcp_listen-syn sys w p m q e frees xs sk found can no_rst no_ack syn in
      (
        r,
        w',
        sk',
        ground (arith, eth_recv_handles xs es ls p sk t s at hit found, run, listens),
        there,
        state,
        local,
        remote,
        next,
        ring,
        tx,
        freed,
      )
