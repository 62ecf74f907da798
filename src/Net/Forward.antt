-- ===== src/Net/Forward.antt =====
-- What network/src/xy_tcp.cc sends.
use dpdk_tcp.Prelude.{
  ℕ, ◌+◌, ◌^◌, ◌≡◌, ◌<◌, ℤ, pos, minus_one, u16, ◌==◌, if◌then◌else◌, some, length, ◌∷◌, update,
  arith,
}
use dpdk_tcp.XyList.{Ptr}
use dpdk_tcp.Packet.{Frame}
use dpdk_tcp.Socket.{XyTcpSocket}
use dpdk_tcp.World.{World, System}
use dpdk_tcp.Net.{
  sizeof_ipv4_hdr, sizeof_tcp_hdr, ether_type_ipv4, ipproto_tcp, eth_setup, ip_setup, tcp_setup,
  tcp_ready, tcp_forward, tcp_send,
}

-- The socket after it has used up a packet id.
unfoldable pub next_id : XyTcpSocket → XyTcpSocket
next_id sk = record sk { ip_socket = record (sk.ip_socket) { id = u16 (sk.ip_socket.id + 1) } }

-- The memory after a segment has gone out.
unfoldable pub sent : World → Ptr → XyTcpSocket → Ptr → Frame → World
unfolding next_id
sent w p sk m g = record w {
  socks = update w.socks p (some (next_id sk));
  frames = update w.frames m g;
  tx = (m, g) ∷ w.tx;
}

module _ (sys : System) where
  open sys use {cpu_to_be_16, cpu_to_be_32, ipv4_cksum, udptcp_cksum, eth_tx_burst, ttl}

  -- The frame that a socket makes of a frame: its headers filled for the peer.
  unfoldable pub segment : XyTcpSocket → Frame → ℕ → ℕ → ℕ → ℕ → Frame
  unfolding eth_setup ip_setup tcp_setup tcp_ready
  segment sk f tcp_flags sent_seq recv_ack total_length = record f {
    eth = eth_setup sk.ip_socket.eth_socket f.eth (cpu_to_be_16 ether_type_ipv4);
    ip = (ip_setup sys sk.ip_socket f.ip ipproto_tcp total_length).1;
    tcp = tcp_ready sys (tcp_setup sk f.tcp tcp_flags) f.ip f.payload sent_seq recv_ack;
  }

  unfoldable pub tx_result : World → ℤ
  tx_result w = if 1 == eth_tx_burst (length w.tx) then pos 0 else minus_one

  -- `tcp_forward` on an existing socket returns, hands the buffer to the device once with the
  -- headers filled for the peer and the old total length, uses up one packet id, changes nothing
  -- else, and returns 0 if the device took the frame and -1 if not.
  pub tcp_forward_lem :
      (w : World) (p m flags seq ack : ℕ) (sk : XyTcpSocket)
      → w.socks p ≡ some sk
      → tcp_forward sys p m flags seq ack w
        ≡ some (
          tx_result w,
          sent w p sk m (segment sk (w.frames m) flags seq ack (w.frames m).ip.total_length),
        )
  unfolding tcp_forward segment next_id sent tx_result ip_setup
  tcp_forward_lem w p m flags seq ack sk e = ground arith

  -- `tcp_send` on an existing socket, with `data_len` octets whose total length fits 16 bits,
  -- returns, hands the buffer to the device once with the headers filled for the peer and the
  -- total length of a segment with that much data, uses up one packet id, changes nothing else,
  -- and returns 0 if the device took the frame and -1 if not.
  pub tcp_send_lem :
      (w : World) (p m flags seq ack data_len : ℕ) (sk : XyTcpSocket)
      → w.socks p ≡ some sk
      → data_len + sizeof_tcp_hdr + sizeof_ipv4_hdr < 2 ^ 16
      → tcp_send sys p m flags seq ack data_len w
        ≡ some (
          tx_result w,
          sent w p sk m (
              segment sk
                (w.frames m)
                flags
                seq
                ack
                (cpu_to_be_16 (data_len + sizeof_tcp_hdr + sizeof_ipv4_hdr))),
        )
  unfolding tcp_send segment sent tx_result
  tcp_send_lem w p m flags seq ack data_len sk e h =
      let fits : u16 (u16 (data_len + sizeof_tcp_hdr) + sizeof_ipv4_hdr)
          ≡ data_len + sizeof_tcp_hdr + sizeof_ipv4_hdr =
        omega arith in
      ground (arith, fits)
