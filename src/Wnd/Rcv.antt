-- ===== src/Wnd/Rcv.antt =====
-- The receive window of network/include/xy_tcp_wnd.h.
pub mod Collect
pub mod Deliver
pub mod Loop
use dpdk_tcp.Prelude.{
  ℕ, zero, suc, ◌+◌, ◌-◌, ◌%◌, ◌^◌, ◌≤◌, ◌<◌, ◌≡◌, refl, update, ◌==◌, if◌then◌else◌, leb, ltb,
  arith, sub32, u32,
}
use dpdk_tcp.XyList.{Ptr}
use dpdk_tcp.Wnd.{XyTcpRcvWnd, xy_rcv_wnd_size, xy_tcp_rcv_wnd_try_put, rcv_slot}

-- `xy_tcp_rcv_wnd_try_put` never writes outside the array, if the head is inside it.
pub rcv_slot-lt :
    (w : XyTcpRcvWnd) (offset : ℕ)
    → w.head_ < xy_rcv_wnd_size
    → offset ≤ xy_rcv_wnd_size
    → rcv_slot w offset ≡ (w.head_ + offset) % xy_rcv_wnd_size
unfolding rcv_slot
rcv_slot-lt w offset h k = ground arith

-- A buffer whose distance from the left edge, round the sequence numbers, is within the size of the
-- window goes to the slot at that distance from the head, round the ring, and every other slot
-- stays; any other buffer is refused and changes nothing.
pub xy_tcp_rcv_wnd_try_put_lem :
    (w : XyTcpRcvWnd) (head_seq seq : ℕ) (m : Ptr)
    → w.head_ < xy_rcv_wnd_size
    → (j : ℕ)
    → let offset = sub32 seq head_seq in
      let (ret, w') = xy_tcp_rcv_wnd_try_put w head_seq seq m in
      (ret ≡ (if leb offset xy_rcv_wnd_size then 1 else 0))
      × (w'.head_ ≡ w.head_)
      × (w'.buffer j ≡ (
          if leb offset xy_rcv_wnd_size
          then (if (w.head_ + offset) % xy_rcv_wnd_size == j then m else w.buffer j)
          else w.buffer j))
unfolding xy_tcp_rcv_wnd_try_put
xy_tcp_rcv_wnd_try_put_lem w head_seq seq m h j =
    ground (arith, rcv_slot-lt w (sub32 seq head_seq) h)

-- A buffer one whole window ahead of the left edge is not refused: it takes the slot of the
-- segment that is expected next.
pub xy_tcp_rcv_wnd_try_put-edge :
    (w : XyTcpRcvWnd) (head_seq : ℕ) (m : Ptr)
    → w.head_ < xy_rcv_wnd_size
    → head_seq < 2 ^ 32
    → let (ret, w') = xy_tcp_rcv_wnd_try_put w head_seq (u32 (head_seq + xy_rcv_wnd_size)) m in
      (ret ≡ 1) × (w'.buffer w.head_ ≡ m)
unfolding xy_tcp_rcv_wnd_try_put
xy_tcp_rcv_wnd_try_put-edge w head_seq m h k =
    ground (arith, rcv_slot-lt w (sub32 (u32 (head_seq + xy_rcv_wnd_size)) head_seq) h)
