-- ===== src/SendBuf.antt =====
-- network/src/xy_tcp_send.cc: sending what a connected socket has queued.
pub mod Peer
pub mod Sends
use dpdk_tcp.Prelude.{ℕ, zero, suc, ◌+◌, ◌-◌, M, ◌>>=◌, ◌>>◌, pure, ltb, if◌then◌else◌, u32, ℤ, pos}
use dpdk_tcp.XyList.{Ptr}
use dpdk_tcp.Wnd.{xy_tcp_snd_wnd_size, xy_tcp_snd_wnd_add}
use dpdk_tcp.Wnd.Mbuf.{xy_mbuf_list_take_head}
use dpdk_tcp.World.{World, System}
use dpdk_tcp.World.Memory.{load_sock, modify_frame, modify_tcb, on_lists}
use dpdk_tcp.Net.{tcp_ready, ip_forward, ipproto_tcp}

module _ (sys : System) where
  -- `tcp_ready(…, tcb.snd_nxt++, tcb.rcv_nxt)` and `ip_forward`
  unfoldable pub tcp_send_one_buf : Ptr → Ptr → M World ℤ
  unfolding load_sock modify_tcb modify_frame
  tcp_send_one_buf tcp_sk m_buf = do
    sk ← load_sock tcp_sk
    modify_tcb tcp_sk (λ t. record t { snd_nxt = u32 (t.snd_nxt + 1) })
    modify_frame m_buf
        (λ f. record f { tcp = tcp_ready sys f.tcp f.ip f.payload sk.tcb.snd_nxt sk.tcb.rcv_nxt })
    ip_forward sys tcp_sk m_buf ipproto_tcp

  -- `for (; size < tcb->snd_wnd; ++size)`. `snd_wnd` does not change, so the rounds are known.
  unfoldable pub send_loop : ℕ → Ptr → M World (Unit {0})
  unfolding on_lists modify_tcb
  send_loop zero tcp_sk = pure tt
  send_loop (suc k) tcp_sk = do
    m_buf ← on_lists (xy_mbuf_list_take_head (sys.snd_buf_list tcp_sk))
    modify_tcb tcp_sk
        (λ t. record t { snd_wnd_buffer = (xy_tcp_snd_wnd_add t.snd_wnd_buffer m_buf).1 })
    _ ← tcp_send_one_buf tcp_sk m_buf
    send_loop k tcp_sk

  unfoldable pub tcp_send_buf : Ptr → M World ℤ
  unfolding load_sock send_loop
  tcp_send_buf tcp_sk = do
    sk ← load_sock tcp_sk
    let size = xy_tcp_snd_wnd_size sk.tcb.snd_wnd_buffer
    (if ltb 0 size
        then (do
          _ ← tcp_send_one_buf tcp_sk (sk.tcb.snd_wnd_buffer.buffer sk.tcb.snd_wnd_buffer.head_)
          pure tt)
        else pure tt)
    send_loop (sk.tcb.snd_wnd - size) tcp_sk
    pure (pos 0)
