-- ===== src/Tcp/SynSent.antt =====
-- network/include/xy_tcp_state_syn_sent.h: a segment for a socket in state SYN-SENT.
pub mod Open
use dpdk_tcp.Prelude.{
  ◌+◌, M, ◌>>=◌, ◌>>◌, pure, Bool, ltb, leb, ◌&&◌, ◌||◌, if◌then◌else◌, u32, ℤ, pos, bit_or,
}
use dpdk_tcp.XyList.{Ptr}
use dpdk_tcp.Packet.{TcpHdr}
use dpdk_tcp.Socket.{Tcb, tcp_close, tcp_established, tcp_syn_received}
use dpdk_tcp.World.{World, System}
use dpdk_tcp.World.Memory.{load_sock, load_frame, pktmbuf_free, modify_tcb, set_state}
use dpdk_tcp.Socks.{
  syn_recv_tcp_sock_enqueue, syn_recv_tcp_sock_dequeue, established_tcp_sock_enqueue,
}
use dpdk_tcp.Net.{tcp_forward}
use dpdk_tcp.Tcp.Flags.{has_flag, rst_flag, ack_flag, syn_flag}

-- The acknowledgment of a segment is outside what was sent.
unfoldable pub bad_ack : Tcb → TcpHdr → Bool
bad_ack tcb tcp_h = leb tcp_h.recv_ack tcb.iss || ltb tcb.snd_nxt tcp_h.recv_ack

-- What a SYN sets in the control block.
unfoldable pub syn_tcb : TcpHdr → Tcb → Tcb
syn_tcb tcp_h tcb = record tcb {
  rcv_nxt = u32 (tcp_h.sent_seq + 1);
  irs = tcp_h.sent_seq;
  snd_una = if has_flag tcp_h.tcp_flags ack_flag then tcp_h.recv_ack else tcb.snd_una;
}

module _ (sys : System) where
  -- The branch for a SYN.
  unfoldable pub active_syn : Ptr → Ptr → M World ℤ
  unfolding load_sock load_frame modify_tcb set_state syn_tcb syn_recv_tcp_sock_dequeue
      syn_recv_tcp_sock_enqueue established_tcp_sock_enqueue
  active_syn tcp_sk m_buf = do
    f ← load_frame m_buf
    modify_tcb tcp_sk (syn_tcb f.tcp)
    sk ← load_sock tcp_sk
    if ltb sk.tcb.iss sk.tcb.snd_una
        then (do
          syn_recv_tcp_sock_dequeue tcp_sk
          set_state tcp_sk tcp_established
          established_tcp_sock_enqueue sys tcp_sk
          tcp_forward sys tcp_sk m_buf ack_flag sk.tcb.snd_nxt sk.tcb.rcv_nxt)
        else (do
          set_state tcp_sk tcp_syn_received
          syn_recv_tcp_sock_enqueue sys tcp_sk
          tcp_forward sys tcp_sk m_buf (bit_or ack_flag syn_flag) sk.tcb.iss sk.tcb.rcv_nxt)

  unfoldable pub state_tcp_syn_sent : Ptr → Ptr → M World ℤ
  unfolding load_sock load_frame pktmbuf_free set_state bad_ack active_syn
  state_tcp_syn_sent tcp_sk m_buf = do
    f ← load_frame m_buf
    sk ← load_sock tcp_sk
    let flags = f.tcp.tcp_flags
    if has_flag flags ack_flag && bad_ack sk.tcb f.tcp
        then (if has_flag flags rst_flag
            then (do pktmbuf_free m_buf; pure (pos 0))
            else tcp_forward sys tcp_sk m_buf rst_flag f.tcp.recv_ack 0)
        else if has_flag flags rst_flag
        then (if has_flag flags ack_flag
            then (do pktmbuf_free m_buf; set_state tcp_sk tcp_close; pure (pos 0))
            else (do pktmbuf_free m_buf; pure (pos 0)))
        else if has_flag flags syn_flag
        then active_syn tcp_sk m_buf
        else (do pktmbuf_free m_buf; pure (pos 0))
