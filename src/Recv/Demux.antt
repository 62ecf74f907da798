-- ===== src/Recv/Demux.antt =====
-- Which socket a segment goes to (network/src/xy_tcp_recv.cc).
use dpdk_tcp.Prelude.{
  ℕ, ◌+◌, ◌<◌, ◌≡◌, arith, true, false, List, length, ◌==◌, ltb, if◌then◌else◌, pos, some,
}
use dpdk_tcp.XyList.{Ptr, null}
use dpdk_tcp.XyList.Chain.{IsRing}
use dpdk_tcp.Packet.{Frame}
use dpdk_tcp.Socket.{XyTcpSocket}
use dpdk_tcp.World.{World, System}
use dpdk_tcp.Socks.{connects, listens_at}
use dpdk_tcp.Socks.Lookup.{
  AllSocks, AllListen, find, syn_rcvd_tcp_sock_lookup-find, established_tcp_sock_look_up-find,
  listener_tcp_sock_lookup-find,
}
use dpdk_tcp.Net.{sizeof_ether_hdr, sizeof_tcp_hdr}
use dpdk_tcp.Recv.{check_tcp_hdr, socket_lookup, handle, tcp_recv}

-- The three lists of sockets: in handshake, connected, listening.
pub record Tables (sys : System) (w : World) (xs es ls : List Ptr) : Type 0 where
  pub syn_ring : IsRing w.lists.node sys.list_syn_recved xs
  pub syn_socks : AllSocks w xs
  pub syn_few : length xs < sys.rounds
  pub established_ring : IsRing w.lists.node sys.list_established es
  pub established_socks : AllSocks w es
  pub established_few : length es < sys.rounds
  pub listener_ring : IsRing w.lists.node sys.list_listeners ls
  pub listener_socks : AllListen w ls
  pub listener_few : length ls < sys.rounds

-- The socket of a frame: the first in handshake that matches, else the first connected one, else the
-- first listener, else `null`.
unfoldable pub demux : World → Frame → (xs es ls : List Ptr) → Ptr
demux w f xs es ls =
    let test = connects f.ip.dst_addr f.tcp.dst_port f.ip.src_addr f.tcp.src_port in
    let s = find w test xs in
    let e = find w test es in
    if s == null
    then if e == null then find w (listens_at f.ip.dst_addr f.tcp.dst_port) ls else e
    else s

module _ (sys : System) (w : World) (xs es ls : List Ptr) (t : Tables sys w xs es ls) where
  socket_lookup-demux : (f : Frame) → socket_lookup sys f w ≡ some (demux w f xs es ls, w)
  unfolding socket_lookup demux
  socket_lookup-demux f = ground (
    arith,
    syn_rcvd_tcp_sock_lookup-find sys w xs t.syn_few f.ip.dst_addr f.tcp.dst_port f.ip.src_addr
        f.tcp.src_port t.syn_ring t.syn_socks,
    established_tcp_sock_look_up-find sys w es t.established_few f.ip.dst_addr f.tcp.dst_port
        f.ip.src_addr f.tcp.src_port t.established_ring t.established_socks,
    listener_tcp_sock_lookup-find sys w ls t.listener_few f.ip.dst_addr f.tcp.dst_port
        t.listener_ring t.listener_socks,
  )

  -- A segment that is shorter than its headers, that fails the checksum test, or that matches no
  -- socket of the three lists, each shorter than the bound on rounds, is dropped: `tcp_recv`
  -- returns 0 and changes nothing (it does not free the buffer either).
  pub tcp_recv_drops :
      (m hdr_len len : ℕ)
      → (if ltb len (sizeof_ether_hdr + hdr_len + sizeof_tcp_hdr)
          then true
          else if check_tcp_hdr sys (w.frames m)
          then demux w (w.frames m) xs es ls == null
          else true)
        ≡ true
      → tcp_recv sys m hdr_len len w ≡ some (pos 0, w)
  unfolding tcp_recv
  tcp_recv_drops m hdr_len len h = ground (arith, socket_lookup-demux (w.frames m))

  -- A segment that is long enough for its headers, passes the checksum test and matches a socket
  -- of the three lists (in handshake first, then connected, then listening) is handled by the
  -- handler of that socket's state, in unchanged memory. Each list is shorter than the bound on
  -- rounds.
  pub tcp_recv_handles :
      (m hdr_len len p : ℕ) (sk : XyTcpSocket)
      → demux w (w.frames m) xs es ls ≡ p
      → ltb len (sizeof_ether_hdr + hdr_len + sizeof_tcp_hdr) ≡ false
      → check_tcp_hdr sys (w.frames m) ≡ true
      → (p == null) ≡ false
      → w.socks p ≡ some sk
      → tcp_recv sys m hdr_len len w ≡ handle sys sk.state p m w
  unfolding tcp_recv
  tcp_recv_handles m hdr_len len p sk at long sum hit found =
      ground (arith, socket_lookup-demux (w.frames m))
