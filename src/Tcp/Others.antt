-- ===== src/Tcp/Others.antt =====
-- network/include/xy_tcp_state_others.h: a segment for a socket in any state from SYN-RECEIVED on. The
-- numbered checks of `state_tcp_otherwise` are functions of their own, in their order.
pub mod Acceptable
pub mod Data
pub mod Handshake
pub mod Late
use dpdk_tcp.Prelude.{
  ℕ, ◌+◌, M, ◌>>=◌, ◌>>◌, pure, fault, Bool, true, false, ltb, leb, ◌==◌, ◌&&◌, ◌||◌, not,
  if◌then◌else◌, u32, ℤ, pos, bit_or, Option, none, some,
}
use dpdk_tcp.XyList.{Ptr, null}
use dpdk_tcp.Packet.{TcpHdr}
use dpdk_tcp.Socket.{
  Tcb, TcpStates, tcp_listen, tcp_syn_sent, tcp_syn_received, tcp_established, tcp_fin_wait_1,
  tcp_fin_wait_2, tcp_close, tcp_close_wait, tcp_closing, tcp_last_ack, tcp_time_wait,
}
use dpdk_tcp.World.{World, System}
use dpdk_tcp.World.Memory.{
  load_sock, load_frame, pktmbuf_free, pktmbuf_alloc, modify_tcb, set_state,
}
use dpdk_tcp.Socks.{
  syn_recv_tcp_sock_dequeue, established_tcp_sock_enqueue, established_tcp_sock_dequeue,
}
use dpdk_tcp.Net.{tcp_forward, tcp_send}
use dpdk_tcp.Epoll.{epoll_event_callback, xy_epollin}
use dpdk_tcp.WndHdl.{tcp_ack_window_update, tcp_recv_window_update}
use dpdk_tcp.Tcp.Flags.{has_flag, fin_flag, syn_flag, rst_flag, ack_flag, urg_flag}

-- First: the sequence number.
unfoldable pub acceptable : Tcb → TcpHdr → Bool
acceptable tcb tcp_h =
    if tcb.rcv_wnd == 0
    then has_flag tcp_h.tcp_flags (bit_or ack_flag (bit_or urg_flag rst_flag))
    else leb tcb.rcv_nxt tcp_h.sent_seq || leb tcp_h.sent_seq (u32 (tcb.rcv_nxt + tcb.rcv_wnd))

-- Second: the RST bit. `tcp_socket_reclaim` is empty.
unfoldable pub on_rst : TcpStates → Ptr → Ptr → M World ℤ
unfolding load_sock set_state syn_recv_tcp_sock_dequeue pktmbuf_free
on_rst tcp_syn_received tcp_sk m_buf = do
  sk ← load_sock tcp_sk
  (if sk.passive == 0
      then set_state tcp_sk tcp_close
      else (do set_state tcp_sk tcp_listen; syn_recv_tcp_sock_dequeue tcp_sk))
  pktmbuf_free m_buf
  pure (pos 0)
on_rst _ tcp_sk m_buf = do set_state tcp_sk tcp_close; pktmbuf_free m_buf; pure (pos 0)

-- The states in which the segment's text and urgent pointer are looked at.
abbrev pub takes_text : TcpStates → Bool
takes_text tcp_established = true
takes_text tcp_fin_wait_1 = true
takes_text tcp_fin_wait_2 = true
takes_text _ = false

-- Sixth: the URG bit.
unfoldable pub urgent : TcpStates → TcpHdr → Tcb → Tcb
urgent state tcp_h tcb =
    if has_flag tcp_h.tcp_flags urg_flag && takes_text state
    then record tcb { rcv_up = if ltb tcp_h.tcp_urp tcb.rcv_up then tcb.rcv_up else tcp_h.tcp_urp }
    else tcb

module _ (sys : System) where
  -- The state after an acknowledgment of all that was sent.
  unfoldable pub advance_if_acked : Ptr → Ptr → TcpStates → M World (Unit {0})
  unfolding load_sock load_frame set_state
  advance_if_acked tcp_sk m_buf state = do
    sk ← load_sock tcp_sk
    f ← load_frame m_buf
    if f.tcp.recv_ack == sk.tcb.snd_nxt then set_state tcp_sk state else pure tt

  -- Fifth: the ACK field, by the state. A value is a return from `state_tcp_otherwise`.
  unfoldable pub on_ack : TcpStates → Ptr → Ptr → M World (Option ℤ)
  unfolding load_sock load_frame set_state syn_recv_tcp_sock_dequeue established_tcp_sock_enqueue
      tcp_ack_window_update advance_if_acked
  on_ack tcp_syn_received tcp_sk m_buf = do
    sk ← load_sock tcp_sk
    f ← load_frame m_buf
    if ltb f.tcp.recv_ack sk.tcb.snd_una || ltb sk.tcb.snd_nxt f.tcp.recv_ack
        then (do r ← tcp_forward sys tcp_sk m_buf rst_flag f.tcp.recv_ack 0; pure (some r))
        else (do
          syn_recv_tcp_sock_dequeue tcp_sk
          set_state tcp_sk tcp_established
          established_tcp_sock_enqueue sys tcp_sk
          _ ← tcp_ack_window_update sys tcp_sk m_buf
          pure none)
  on_ack tcp_established tcp_sk m_buf = do _ ← tcp_ack_window_update sys tcp_sk m_buf; pure none
  on_ack tcp_fin_wait_1 tcp_sk m_buf = do
    _ ← tcp_ack_window_update sys tcp_sk m_buf
    advance_if_acked tcp_sk m_buf tcp_fin_wait_2
    pure none
  on_ack tcp_fin_wait_2 tcp_sk m_buf = do _ ← tcp_ack_window_update sys tcp_sk m_buf; pure none
  on_ack tcp_close_wait tcp_sk m_buf = do
    _ ← tcp_ack_window_update sys tcp_sk m_buf
    advance_if_acked tcp_sk m_buf tcp_time_wait
    pure none
  on_ack tcp_closing tcp_sk m_buf = do _ ← tcp_ack_window_update sys tcp_sk m_buf; pure none
  on_ack tcp_last_ack tcp_sk m_buf = do advance_if_acked tcp_sk m_buf tcp_close; pure none
  on_ack _ tcp_sk m_buf = pure none

  -- An allocation that fails is a fault: the code reads through the pointer at once.
  unfoldable pub state_tcp_handle_data : Ptr → Ptr → M World ℤ
  unfolding load_sock epoll_event_callback tcp_recv_window_update pktmbuf_alloc
  state_tcp_handle_data tcp_sk buf = do
    sk ← load_sock tcp_sk
    _ ← epoll_event_callback sys sk.id xy_epollin
    _ ← tcp_recv_window_update sys tcp_sk buf
    reply_buf ← pktmbuf_alloc sys
    sk ← load_sock tcp_sk
    if reply_buf == null then fault else (do
      _ ← tcp_send sys tcp_sk reply_buf ack_flag sk.tcb.snd_nxt sk.tcb.rcv_nxt 0
      pure (pos 0))

  -- Seventh: the segment text.
  unfoldable pub on_text : TcpStates → Ptr → Ptr → M World (Unit {0})
  unfolding state_tcp_handle_data
  on_text state tcp_sk m_buf =
      if takes_text state then (do _ ← state_tcp_handle_data tcp_sk m_buf; pure tt) else pure tt

  -- The switch of the eighth check: the FIN bit. `true` is a return, with the buffer freed.
  unfoldable pub fin_state : TcpStates → Ptr → Ptr → M World Bool
  unfolding load_sock load_frame set_state pktmbuf_free established_tcp_sock_dequeue
      syn_recv_tcp_sock_dequeue
  fin_state tcp_close tcp_sk m_buf = do pktmbuf_free m_buf; pure true
  fin_state tcp_listen tcp_sk m_buf = do pktmbuf_free m_buf; pure true
  fin_state tcp_syn_sent tcp_sk m_buf = do pktmbuf_free m_buf; pure true
  fin_state tcp_established tcp_sk m_buf = do
    established_tcp_sock_dequeue tcp_sk
    set_state tcp_sk tcp_close_wait
    pure false
  fin_state tcp_syn_received tcp_sk m_buf = do
    syn_recv_tcp_sock_dequeue tcp_sk
    set_state tcp_sk tcp_close_wait
    pure false
  fin_state tcp_fin_wait_1 tcp_sk m_buf = do
    sk ← load_sock tcp_sk
    f ← load_frame m_buf
    set_state tcp_sk (if f.tcp.recv_ack == sk.tcb.snd_nxt then tcp_time_wait else tcp_closing)
    pure false
  fin_state tcp_fin_wait_2 tcp_sk m_buf = do set_state tcp_sk tcp_time_wait; pure false
  fin_state _ tcp_sk m_buf = pure false

  unfoldable pub on_fin : TcpStates → Ptr → Ptr → M World ℤ
  unfolding load_sock load_frame modify_tcb fin_state
  on_fin state tcp_sk m_buf = do
    dropped ← fin_state state tcp_sk m_buf
    if dropped then pure (pos 0) else (do
      f ← load_frame m_buf
      modify_tcb tcp_sk (λ t. record t { rcv_nxt = u32 (f.tcp.sent_seq + 1) })
      sk ← load_sock tcp_sk
      tcp_forward sys tcp_sk m_buf ack_flag sk.tcb.snd_nxt sk.tcb.rcv_nxt)

  -- Sixth to eighth, for a segment that was not dropped. The switches read the state anew.
  unfoldable pub process_segment : Ptr → Ptr → M World ℤ
  unfolding load_sock load_frame modify_tcb urgent on_text on_fin
  process_segment tcp_sk m_buf = do
    f ← load_frame m_buf
    sk ← load_sock tcp_sk
    modify_tcb tcp_sk (urgent sk.state f.tcp)
    on_text sk.state tcp_sk m_buf
    sk ← load_sock tcp_sk
    if has_flag f.tcp.tcp_flags fin_flag then on_fin sk.state tcp_sk m_buf else pure (pos 0)

  unfoldable pub state_tcp_otherwise : Ptr → Ptr → M World ℤ
  unfolding load_sock load_frame pktmbuf_free set_state acceptable on_rst on_ack process_segment
  state_tcp_otherwise tcp_sk m_buf = do
    f ← load_frame m_buf
    sk ← load_sock tcp_sk
    let flags = f.tcp.tcp_flags
    if not (acceptable sk.tcb f.tcp)
        then (if has_flag flags rst_flag
            then (do pktmbuf_free m_buf; pure (pos 0))
            else tcp_forward sys tcp_sk m_buf ack_flag sk.tcb.snd_nxt sk.tcb.rcv_nxt)
        else if has_flag flags rst_flag
        then on_rst sk.state tcp_sk m_buf
        else if has_flag flags syn_flag
        then (do set_state tcp_sk tcp_close; pktmbuf_free m_buf; pure (pos 0))
        else if not (has_flag flags ack_flag)
        then (do pktmbuf_free m_buf; pure (pos 0))
        else (do
          returned ← on_ack sk.state tcp_sk m_buf
          elim returned [ some r ↦ pure r | none ↦ process_segment tcp_sk m_buf ])
