-- ===== src/Tcp/Listen.antt =====
-- network/include/xy_tcp_state_listen.h: a segment for a listener.
pub mod Allocate
pub mod Open
pub mod Passive
pub mod Spares
use dpdk_tcp.Prelude.{ℕ, ◌+◌, M, ◌>>=◌, ◌>>◌, pure, if◌then◌else◌, u32, ℤ, pos, bit_or}
use dpdk_tcp.XyList.{Ptr}
use dpdk_tcp.Packet.{Frame}
use dpdk_tcp.Socket.{XyTcpSocket, Tcb, tcp_syn_received, zero_tcb, zero_tcp_socket}
use dpdk_tcp.Wnd.{xy_rcv_wnd_size}
use dpdk_tcp.World.{World, System}
use dpdk_tcp.World.Memory.{
  load_sock, load_frame, pktmbuf_free, copy_sock, assign_sock, assign_tcb, rand,
}
use dpdk_tcp.Manage.{xy_allocate_tcp_socket}
use dpdk_tcp.Socks.{syn_recv_tcp_sock_enqueue}
use dpdk_tcp.Net.{tcp_forward}
use dpdk_tcp.Tcp.Flags.{has_flag, rst_flag, ack_flag, syn_flag}

-- The socket that the handler assigns; what it does not name is zero.
unfoldable pub passive_socket : Frame → XyTcpSocket
unfolding zero_tcp_socket
passive_socket f = record zero_tcp_socket {
  ref_cnt = 1;
  passive = 1;
  state = tcp_syn_received;
  port_src = f.tcp.dst_port;
  port_dst = f.tcp.src_port;
  ip_socket = record {
    id = 0;
    ip_src = f.ip.dst_addr;
    ip_dst = f.ip.src_addr;
    eth_socket = record { mac_src = f.eth.d_addr; mac_dst = f.eth.s_addr };
  };
}

unfoldable pub passive_tcb : Frame → ℕ → Tcb
unfolding zero_tcb
passive_tcb f iss = record zero_tcb {
  snd_una = iss;
  snd_nxt = u32 (iss + 1);
  snd_wnd = f.tcp.rx_win;
  iss = iss;
  rcv_nxt = u32 (f.tcp.sent_seq + 1);
  rcv_wnd = xy_rcv_wnd_size;
  irs = f.tcp.sent_seq;
}

module _ (sys : System) where
  -- The branch for a SYN: a new socket in state SYN-RECEIVED, which answers with SYN and ACK.
  unfoldable pub passive_open : Ptr → Ptr → M World ℤ
  unfolding load_sock load_frame xy_allocate_tcp_socket copy_sock assign_sock assign_tcb rand
      passive_socket passive_tcb syn_recv_tcp_sock_enqueue
  passive_open listener m_buf = do
    f ← load_frame m_buf
    tcp_sk ← xy_allocate_tcp_socket sys
    copy_sock sys tcp_sk listener
    assign_sock sys tcp_sk (passive_socket f)
    assign_tcb sys tcp_sk zero_tcb
    iss ← rand sys
    assign_tcb sys tcp_sk (passive_tcb f iss)
    syn_recv_tcp_sock_enqueue sys tcp_sk
    sk ← load_sock tcp_sk
    tcp_forward sys tcp_sk m_buf (bit_or syn_flag ack_flag) sk.tcb.iss sk.tcb.rcv_nxt

  unfoldable pub state_tcp_listen : Ptr → Ptr → M World ℤ
  unfolding load_frame pktmbuf_free passive_open
  state_tcp_listen listener m_buf = do
    f ← load_frame m_buf
    if has_flag f.tcp.tcp_flags rst_flag
        then (do pktmbuf_free m_buf; pure (pos 0))
        else if has_flag f.tcp.tcp_flags ack_flag
        then tcp_forward sys listener m_buf rst_flag f.tcp.recv_ack 0
        else if has_flag f.tcp.tcp_flags syn_flag
        then passive_open listener m_buf
        else (do pktmbuf_free m_buf; pure (pos 0))
