-- ===== src/Tests/Windows.antt =====
-- The two windows of a connection at small inputs.
use dpdk_tcp.Prelude.{
  ℕ, suc, ◌+◌, ◌-◌, ◌%◌, ◌≤◌, ◌≡◌, refl, sym, arith, false, some, List, [], ◌∷◌, length, ltb, ◌==◌,
  if◌then◌else◌, u32, pos,
}
use mathlib.Core.Path.{subst}
use dpdk_tcp.XyList.{Ptr, null}
use dpdk_tcp.Wnd.{
  XyTcpRcvWnd, xy_rcv_wnd_size, xy_tcp_rcv_wnd_try_put, xy_tcp_rcv_wnd_collect, xy_tcp_snd_wnd_size,
}
use dpdk_tcp.Wnd.Mbuf.{XyMbufStore}
use dpdk_tcp.Wnd.Mbuf.Holds.{Holds, Fresh}
use dpdk_tcp.Wnd.Snd.{in_flight}
use dpdk_tcp.Wnd.Rcv.{xy_tcp_rcv_wnd_try_put-edge}
use dpdk_tcp.Wnd.Rcv.Collect.{ready, ready_from}
use dpdk_tcp.Wnd.Rcv.Deliver.{xy_tcp_rcv_wnd_collect-ready}
use dpdk_tcp.Packet.{TcpHdr}
use dpdk_tcp.Socket.{XyTcpSocket, tcp_established}
use dpdk_tcp.World.{World}
use dpdk_tcp.WndHdl.{tcp_recv_window_update}
use dpdk_tcp.WndHdl.Receive.{with_next, tcp_recv_window_update-next}
use dpdk_tcp.Tests.{store, rcv_window, snd_window, sock, frame, world, sys}

in_flight-snd_window : in_flight snd_window ≡ 5 ∷ 6 ∷ []
unfolding xy_tcp_snd_wnd_size
in_flight-snd_window = refl

xy_tcp_rcv_wnd_try_put-edge_example :
    let (ret, w') = xy_tcp_rcv_wnd_try_put rcv_window 50 (u32 (50 + xy_rcv_wnd_size)) 17 in
    (ret ≡ 1) × (w'.buffer 4094 ≡ 17)
xy_tcp_rcv_wnd_try_put-edge_example =
    xy_tcp_rcv_wnd_try_put-edge rcv_window 50 17 (omega arith) (omega arith)

-- The run of buffers, slot by slot.
ready_from-empty : (b : ℕ → Ptr) (k i : ℕ) → b i ≡ null → ready_from b (suc k) i ≡ []
unfolding ready_from
ready_from-empty b k i e = ground arith

ready_from-full :
    (b : ℕ → Ptr) (k i j : ℕ) (m : Ptr) (ms : List Ptr)
    → (b i == null) ≡ false
    → b i ≡ m
    → (i + 1) % xy_rcv_wnd_size ≡ j
    → ready_from b k j ≡ ms
    → ready_from b (suc k) i ≡ m ∷ ms
unfolding ready_from
ready_from-full b k i j m ms e f g rest = ground arith

-- The window with the buffer 7 at the left edge, where 8 and 9 have been waiting.
abbrev filled : XyTcpRcvWnd
filled = with_next rcv_window 7

ready-filled : ready filled ≡ 7 ∷ 8 ∷ 9 ∷ []
ready-filled = ready_from-full filled.buffer 4095 4094 4095 7 (8 ∷ 9 ∷ []) refl refl refl (
    ready_from-full filled.buffer 4094 4095 0 8 (9 ∷ []) refl refl refl (
      ready_from-full filled.buffer 4093 0 1 9 [] refl refl refl
        (ready_from-empty filled.buffer 4092 1 refl)))

empty-Holds : Holds sys.pktmbuf_mtod store 1100 []
empty-Holds = record { ring = ((refl, refl), (refl, tt)); carries = tt }

three-Fresh : Fresh sys.pktmbuf_mtod store 1100 [] (7 ∷ 8 ∷ 9 ∷ [])
three-Fresh = record {
  nodes = ((refl, refl), ((refl, refl), ((refl, refl), tt)));
  apart = (refl, (refl, (refl, (refl, tt))));
}

ready-Fresh : Fresh sys.pktmbuf_mtod store 1100 [] (ready filled)
ready-Fresh = subst (λ ns. Fresh sys.pktmbuf_mtod store 1100 [] ns) (sym ready-filled) three-Fresh

xy_tcp_rcv_wnd_collect-ready_example :
    (t : XyMbufStore) × (w' : XyTcpRcvWnd) × (xy_tcp_rcv_wnd_collect sys.pktmbuf_mtod filled 1100
        store
      ≡ some ((length (ready filled), w'), t))
    × Holds sys.pktmbuf_mtod t 1100 (ready filled)
    × (w'.head_ ≡ (4094 + length (ready filled)) % xy_rcv_wnd_size)
    × (w'.buffer 0 ≡ (
        if ltb ((0 + xy_rcv_wnd_size - 4094) % xy_rcv_wnd_size) (length (ready filled))
        then null
        else filled.buffer 0))
xy_tcp_rcv_wnd_collect-ready_example =
    xy_tcp_rcv_wnd_collect-ready sys.pktmbuf_mtod filled store 1100 [] (omega arith) empty-Holds
      ready-Fresh 0 (omega arith)

-- The frame 7 is the segment that is expected next.
abbrev here : World
here = world tcp_established (frame 0x10 11)

tcp_recv_window_update-next_example :
    (w' : World) × (sk' : XyTcpSocket) × (tcp_recv_window_update sys 100 7 here ≡ some (pos 0, w'))
    × (w'.socks 100 ≡ some sk')
    × (sk'.tcb.rcv_nxt ≡ u32 (50 + length (ready filled)))
    × (1 ≤ length (ready filled))
    × Holds sys.pktmbuf_mtod w'.lists 1100 (ready filled)
    × (w'.tx ≡ [])
tcp_recv_window_update-next_example =
    tcp_recv_window_update-next sys here 100 7 (sock tcp_established) refl (omega arith) []
      (omega arith) refl (omega arith) empty-Holds ready-Fresh

abbrev ack_11 : TcpHdr
ack_11 = (frame 0x10 11).tcp
