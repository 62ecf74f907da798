-- ===== src/Tcp/Close.antt =====
-- network/include/xy_tcp_state_close.h: a segment for a socket in state CLOSED.
use dpdk_tcp.Prelude.{◌+◌, M, ◌>>=◌, ◌>>◌, pure, if◌then◌else◌, u32, ℤ, pos, bit_or}
use dpdk_tcp.XyList.{Ptr}
use dpdk_tcp.World.{World, System}
use dpdk_tcp.World.Memory.{load_frame, pktmbuf_free}
use dpdk_tcp.Net.{tcp_forward}
use dpdk_tcp.Tcp.Flags.{has_flag, rst_flag, ack_flag}

module _ (sys : System) where
  unfoldable pub state_tcp_close : Ptr → Ptr → M World ℤ
  unfolding load_frame pktmbuf_free
  state_tcp_close tcp_sk m_buf = do
    f ← load_frame m_buf
    if has_flag f.tcp.tcp_flags rst_flag
        then (do pktmbuf_free m_buf; pure (pos 0))
        else if has_flag f.tcp.tcp_flags ack_flag
        then tcp_forward sys tcp_sk m_buf rst_flag f.tcp.recv_ack 0
        else tcp_forward sys tcp_sk m_buf (bit_or rst_flag ack_flag) 0 (u32 (f.tcp.sent_seq + 1))
