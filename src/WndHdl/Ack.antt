-- ===== src/WndHdl/Ack.antt =====
-- Acknowledgments (network/include/xy_tcp_wnd_hdl.h).
use dpdk_tcp.Prelude.{
  ℕ, ◌^◌, ◌≤◌, ◌<◌, ◌≡◌, arith, true, ltb, leb, ◌==◌, ◌&&◌, not, if◌then◌else◌, u16, sub32, Bool,
}
use dpdk_tcp.Packet.{TcpHdr}
use dpdk_tcp.Socket.{Tcb}
use dpdk_tcp.Wnd.{XyTcpSndWnd, xy_snd_wnd_size, xy_tcp_snd_wnd_erase}
use dpdk_tcp.Wnd.Snd.{IsSndWnd}
use dpdk_tcp.World.{System}
use dpdk_tcp.WndHdl.{take_window, ack_update}

-- The sequence numbers of the sender are in order, none having wrapped.
pub record IsSending (t : Tcb) : Type 0 where
  pub una_le_nxt : t.snd_una ≤ t.snd_nxt
  pub nxt_lt : t.snd_nxt < 2 ^ 32
  pub window : IsSndWnd t.snd_wnd_buffer

-- Erasing from the edge to itself leaves the window as it is.
erase-none :
    (w : XyTcpSndWnd) (a : ℕ)
    → a < 2 ^ 32
    → w.head_ < xy_snd_wnd_size
    → (xy_tcp_snd_wnd_erase w (sub32 a a)).1 ≡ w
unfolding xy_tcp_snd_wnd_erase
erase-none w a h k = let z : sub32 a a ≡ 0 = omega arith in ground arith

module _ (sys : System) (tcp_h : TcpHdr) (t : Tcb) (s : IsSending t) where
  -- The segment is newer than the last one that gave the size of the send window.
  abbrev pub newer : Bool
  newer =
      if ltb t.snd_wl1 tcp_h.sent_seq
      then true
      else not (tcp_h.sent_seq == 0) && leb t.snd_wl2 tcp_h.recv_ack

  -- The control block after an acknowledgment that is accepted.
  abbrev pub acked : Tcb
  acked = record t {
    snd_una = tcp_h.recv_ack;
    snd_wnd = if newer then u16 (sys.be_to_cpu_16 tcp_h.rx_win) else t.snd_wnd;
    snd_wl1 = if newer then tcp_h.sent_seq else 0;
    snd_wl2 = if newer then tcp_h.recv_ack else t.snd_wl2;
  }

  -- No acknowledgment takes a buffer out of the send window: the count to erase is read from
  -- SND.UNA after it has been moved.
  pub ack_update_erases_none : (ack_update sys tcp_h t).snd_wnd_buffer ≡ t.snd_wnd_buffer
  unfolding ack_update take_window
  ack_update_erases_none = ground (arith, erase-none t.snd_wnd_buffer tcp_h.recv_ack)

  -- For an acknowledgment that moves SND.UNA: the send window's size is taken from the segment, with
  -- its sequence number and acknowledgment, if the segment is newer than the last one that gave it,
  -- and otherwise SND.WND stays and SND.WL1 is lost: it becomes 0.
  pub ack_update-wnd :
      (ltb t.snd_una tcp_h.recv_ack && leb tcp_h.recv_ack t.snd_nxt) ≡ true
      → let t' = ack_update sys tcp_h t in
        let newer =
          if ltb t.snd_wl1 tcp_h.sent_seq
          then true
          else not (tcp_h.sent_seq == 0) && leb t.snd_wl2 tcp_h.recv_ack in
        (t'.snd_wnd ≡ (if newer then u16 (sys.be_to_cpu_16 tcp_h.rx_win) else t.snd_wnd))
        × (t'.snd_wl1 ≡ (if newer then tcp_h.sent_seq else 0))
        × (t'.snd_wl2 ≡ (if newer then tcp_h.recv_ack else t.snd_wl2))
  unfolding ack_update take_window
  ack_update-wnd moves = ground arith
