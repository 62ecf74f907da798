-- ===== src/Wnd/Rcv/Deliver.antt =====
-- What `xy_tcp_rcv_wnd_collect` of network/include/xy_tcp_wnd.h delivers.
use dpdk_tcp.Prelude.{
  ℕ, zero, suc, ◌+◌, ◌-◌, ◌%◌, ◌^◌, ◌≤◌, ◌<◌, ◌≡◌, sym, ap, ◌∙◌, inl, inr, true, false, ◌&&◌,
  Bool-cases, List, ◌++◌, length, length-append, update, if◌then◌else◌, leb, ltb, arith, pure,
  >>=-some, >>-some, >>-inversion, some,
}
use dpdk_tcp.XyList.{Ptr, null}
use mathlib.Core.List.{append-nil}
use dpdk_tcp.Wnd.Mbuf.{XyMbufStore}
use dpdk_tcp.Wnd.Mbuf.Holds.{Holds, Fresh}
use dpdk_tcp.Wnd.{XyTcpRcvWnd, xy_rcv_wnd_size, collect_loop, xy_tcp_rcv_wnd_collect}
use dpdk_tcp.Wnd.Rcv.Loop.{run, clear, length-run, append_all, loop_result, collect_loop-run}
use dpdk_tcp.Wnd.Rcv.Collect.{
  ready, moved, moved-ready, first, first_window, stops, second, final, append_all-append,
  append_all-Holds,
}

clear-at :
    (n : ℕ) (b : ℕ → Ptr) (i j : ℕ)
    → clear b i n j ≡ (if leb i j && ltb j (i + n) then null else b j)
clear-at zero b i j = ground arith
clear-at (suc n) b i j = ground (arith, clear-at n (update b i null) (i + 1) j)

module _ (mtod : Ptr → Ptr) (w : XyTcpRcvWnd) (l : Ptr) (h : w.head_ < xy_rcv_wnd_size) where
  loop_returns :
      (k i c : ℕ) (v : XyTcpRcvWnd) (s t : XyMbufStore)
      → i + k < 2 ^ 16
      → c + k < 2 ^ 32
      → append_all mtod l (run v.buffer k i) s ≡ some (tt, t)
      → collect_loop mtod k i c l v s ≡ some (loop_result v k i c, t)
  loop_returns k i c v s t hi hc e =
      collect_loop-run mtod k i c l v s hi hc
      ∙ >>-some (append_all mtod l (run v.buffer k i)) (pure (loop_result v k i c)) s e

  low : length (first w) ≤ xy_rcv_wnd_size - w.head_
  low = length-run w.buffer (xy_rcv_wnd_size - w.head_) w.head_

  -- Where the first loop stops, it is the whole function.
  collect-stops :
      (s t : XyMbufStore)
      → stops w ≡ true
      → append_all mtod l (first w) s ≡ some (tt, t)
      → xy_tcp_rcv_wnd_collect mtod w l s ≡ some ((length (first w), final w), t)
  unfolding xy_tcp_rcv_wnd_collect
  collect-stops s t stop e =
      >>=-some (collect_loop mtod (xy_rcv_wnd_size - w.head_) w.head_ 0 l w) _ s
        (loop_returns (xy_rcv_wnd_size - w.head_) w.head_ 0 w s t (omega arith) (omega arith) e)
      ∙ ground arith

  -- Where it does not, the second loop goes on from the start of the array.
  collect-full :
      (s r t : XyMbufStore)
      → stops w ≡ false
      → append_all mtod l (first w) s ≡ some (tt, r)
      → append_all mtod l (second w) r ≡ some (tt, t)
      → xy_tcp_rcv_wnd_collect mtod w l s
        ≡ some ((length (first w) + length (second w), final w), t)
  unfolding xy_tcp_rcv_wnd_collect
  collect-full s r t full e f =
      >>=-some (collect_loop mtod (xy_rcv_wnd_size - w.head_) w.head_ 0 l w) _ s
        (loop_returns (xy_rcv_wnd_size - w.head_) w.head_ 0 w s r (omega arith) (omega arith) e)
      ∙ rw full (
          >>=-some (collect_loop mtod w.head_ 0 (0 + length (first w)) l (first_window w)) _ r (
            loop_returns w.head_ 0 (0 + length (first w)) (first_window w) r t (omega arith)
              (omega (arith, low)) f)
          ∙ ground arith)

  -- Both cases together.
  collect-moved :
      (s t : XyMbufStore)
      → append_all mtod l (moved w) s ≡ some (tt, t)
      → xy_tcp_rcv_wnd_collect mtod w l s ≡ some ((length (moved w), final w), t)
  collect-moved s t e = elim (Bool-cases (stops w)) [
    | inl stop ↦
        let e' : append_all mtod l (first w) s ≡ some (tt, t) = rw (stop, append-nil) at e in
        collect-stops s t stop e' ∙ rw (stop, append-nil)
    | inr full ↦
        let e' : append_all mtod l (first w ++ second w) s ≡ some (tt, t) = rw full at e in
        let (r, e1, e2) =
          >>-inversion (append_all mtod l (first w)) (append_all mtod l (second w)) s
            (sym (append_all-append mtod l (first w) (second w) s) ∙ e') in
        collect-full s r t full e1 e2
        ∙ ap (λ n. some ((n, final w), t))
            (sym (ap length (rw full) ∙ length-append (first w) (second w)))
  ]

length-moved :
    (w : XyTcpRcvWnd)
    → length (moved w) ≡ length (first w) + (if stops w then 0 else length (second w))
length-moved w = elim (Bool-cases (stops w)) [
  | inl stop ↦ rw (stop, append-nil) (omega arith)
  | inr full ↦ rw full (length-append (first w) (second w))
]

-- The window after a collection: the head moves past what was delivered, round the ring, and the
-- slots of what was delivered are empty.
final_lem :
    (w : XyTcpRcvWnd)
    → w.head_ < xy_rcv_wnd_size
    → ((final w).head_ ≡ (w.head_ + length (moved w)) % xy_rcv_wnd_size)
      × ((j : ℕ)
          → j < xy_rcv_wnd_size
          → (final w).buffer j ≡ (
              if ltb ((j + xy_rcv_wnd_size - w.head_) % xy_rcv_wnd_size) (length (moved w))
              then null
              else w.buffer j))
final_lem w h =
    let n = length-run w.buffer (xy_rcv_wnd_size - w.head_) w.head_ in
    let m = length-run (first_window w).buffer w.head_ 0 in
    let len = length-moved w in
    (
      ground (arith, n, m, len),
      λ j hj. ground (
        arith,
        n,
        m,
        len,
        clear-at (length (first w)) w.buffer w.head_ j,
        clear-at (length (second w)) (first_window w).buffer 0 j,
      ),
    )

-- The node of each buffer that has arrived with no gap before it lies in no list that `head` leads
-- through. Then `xy_tcp_rcv_wnd_collect` returns, puts these buffers behind those of the list, in
-- order, returns their number, moves the head of the window past them round the ring, empties
-- their slots, and leaves every other slot.
pub xy_tcp_rcv_wnd_collect-ready :
    (mtod : Ptr → Ptr) (w : XyTcpRcvWnd) (s : XyMbufStore) (head : Ptr) (ms : List Ptr)
    → w.head_ < xy_rcv_wnd_size
    → Holds mtod s head ms
    → Fresh mtod s head ms (ready w)
    → (j : ℕ) → j < xy_rcv_wnd_size
    → (t : XyMbufStore) × (w' : XyTcpRcvWnd) × (xy_tcp_rcv_wnd_collect mtod w head s
        ≡ some ((length (ready w), w'), t))
      × Holds mtod t head (ms ++ ready w)
      × (w'.head_ ≡ (w.head_ + length (ready w)) % xy_rcv_wnd_size)
      × (w'.buffer j ≡ (
          if ltb ((j + xy_rcv_wnd_size - w.head_) % xy_rcv_wnd_size) (length (ready w))
          then null
          else w.buffer j))
xy_tcp_rcv_wnd_collect-ready mtod w s head ms h holds fresh j hj =
    let e = moved-ready w h in
    let (t, run, holds') = append_all-Holds mtod s head ms (ready w) holds fresh in
    let (moves, clears) = final_lem w h in
    (
      t,
      final w,
      rw (← e) (collect-moved mtod w head h s t (rw e run)),
      holds',
      rw (← e) moves,
      rw (← e) (clears j hj),
    )
