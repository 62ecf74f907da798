-- ===== src/WndHdl.antt =====
-- network/include/xy_tcp_wnd_hdl.h: what a segment does to the two windows of its connection.
pub mod Ack
pub mod Receive
use dpdk_tcp.Prelude.{
  ℕ, ◌+◌, M, ◌>>=◌, ◌>>◌, pure, Bool, ltb, leb, ◌==◌, ◌&&◌, not, if◌then◌else◌, u32, u16, sub32, ℤ,
  pos,
}
use dpdk_tcp.XyList.{Ptr}
use dpdk_tcp.Packet.{TcpHdr}
use dpdk_tcp.Socket.{Tcb}
use dpdk_tcp.Wnd.{xy_tcp_snd_wnd_erase, xy_tcp_rcv_wnd_try_put, xy_tcp_rcv_wnd_collect}
use dpdk_tcp.World.{World, System}
use dpdk_tcp.World.Memory.{load_sock, load_frame, modify_tcb, on_lists}

module _ (sys : System) where
  -- set SND.WND, SND.WL1 and SND.WL2
  unfoldable pub take_window : TcpHdr → Tcb → Tcb
  take_window tcp_h tcb = record tcb {
    snd_wnd = u16 (sys.be_to_cpu_16 tcp_h.rx_win);
    snd_wl1 = tcp_h.sent_seq;
    snd_wl2 = tcp_h.recv_ack;
  }

  -- `if (wl1 < seq || (wl1 = seq && wl2 <= ack))`: the second operand assigns to `snd_wl1`.
  unfoldable pub window_update : TcpHdr → Tcb → Tcb
  unfolding take_window
  window_update tcp_h tcb =
      let newer = not (tcp_h.sent_seq == 0) && leb tcb.snd_wl2 tcp_h.recv_ack in
      let assigned = record tcb { snd_wl1 = if newer then 1 else 0 } in
      if ltb tcb.snd_wl1 tcp_h.sent_seq
      then take_window tcp_h tcb
      else if newer
      then take_window tcp_h assigned
      else assigned

  -- The acknowledged buffers, from the edge that was just moved to the acknowledgment.
  unfoldable pub erase_acked : TcpHdr → Tcb → Tcb
  erase_acked tcp_h tcb = record tcb {
    snd_wnd_buffer = (xy_tcp_snd_wnd_erase tcb.snd_wnd_buffer (sub32 tcp_h.recv_ack tcb.snd_una)).1;
  }

  unfoldable pub ack_update : TcpHdr → Tcb → Tcb
  unfolding erase_acked window_update
  ack_update tcp_h tcb =
      if ltb tcb.snd_una tcp_h.recv_ack && leb tcp_h.recv_ack tcb.snd_nxt
      then window_update tcp_h (erase_acked tcp_h (record tcb { snd_una = tcp_h.recv_ack }))
      else tcb

  unfoldable pub tcp_ack_window_update : Ptr → Ptr → M World ℤ
  unfolding load_frame modify_tcb ack_update
  tcp_ack_window_update tcp_sk m_buf = do
    f ← load_frame m_buf
    modify_tcb tcp_sk (ack_update f.tcp)
    pure (pos 0)

  -- The buffer put into the window; the run of buffers that is complete moved to the receive list.
  unfoldable pub collect_into : Ptr → M World ℤ
  unfolding load_sock on_lists xy_tcp_rcv_wnd_collect modify_tcb
  collect_into tcp_sk = do
    sk ← load_sock tcp_sk
    (count, window) ←
        on_lists
          (xy_tcp_rcv_wnd_collect sys.pktmbuf_mtod sk.tcb.rcv_wnd_buffer (sys.rcv_buf_list tcp_sk))
    modify_tcb tcp_sk (λ t. record t { rcv_wnd_buffer = window; rcv_nxt = u32 (t.rcv_nxt + count) })
    pure (pos 0)

  unfoldable pub tcp_recv_window_update : Ptr → Ptr → M World ℤ
  unfolding load_sock load_frame modify_tcb collect_into xy_tcp_rcv_wnd_try_put
  tcp_recv_window_update tcp_sk buf = do
    sk ← load_sock tcp_sk
    f ← load_frame buf
    let (put, window) =
        xy_tcp_rcv_wnd_try_put sk.tcb.rcv_wnd_buffer sk.tcb.rcv_nxt f.tcp.sent_seq buf
    modify_tcb tcp_sk (λ t. record t { rcv_wnd_buffer = window })
    if not (put == 0) && (f.tcp.sent_seq == sk.tcb.rcv_nxt)
        then collect_into tcp_sk
        else pure (pos 0)
