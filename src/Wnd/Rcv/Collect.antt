-- ===== src/Wnd/Rcv/Collect.antt =====
-- `xy_tcp_rcv_wnd_collect` of network/include/xy_tcp_wnd.h: both loops together.
use dpdk_tcp.Prelude.{
  ℕ, zero, suc, ◌+◌, ◌-◌, ◌%◌, ◌≤◌, ◌<◌, ◌≡◌, refl, sym, ap, ◌∙◌, inl, inr, Bool, List, [], ◌∷◌,
  ◌++◌, length, ◌==◌, if◌then◌else◌, ltb, arith, ◌>>◌, Option-cases, some,
}
use mathlib.Core.List.{append_assoc, append-nil}
use dpdk_tcp.XyList.{Ptr, null}
use dpdk_tcp.XyList.Ring.{SameNode}
use dpdk_tcp.Wnd.Mbuf.{XyMbufStore, xy_mbuf_list_add_tail}
use dpdk_tcp.Wnd.Mbuf.Holds.{
  Holds, Fresh, AllNodes, not-mem-of-Distinct, xy_mbuf_list_add_tail-Holds,
}
use dpdk_tcp.Wnd.{XyTcpRcvWnd, xy_rcv_wnd_size}
use dpdk_tcp.Wnd.Rcv.Loop.{run, clear, run-clear, append_all, loop_window}

-- The buffers of `k` slots from slot `i` on, round the ring, up to the first slot that is empty.
unfoldable pub ready_from : (ℕ → Ptr) → ℕ → ℕ → List Ptr
ready_from b zero i = []
ready_from b (suc k) i =
    if b i == null then [] else b i ∷ ready_from b k ((i + 1) % xy_rcv_wnd_size)

-- The buffers that have arrived with no gap before them.
abbrev pub ready : XyTcpRcvWnd → List Ptr
ready w = ready_from w.buffer xy_rcv_wnd_size w.head_

-- Short of the end of the array the ring is a line.
ready_from-run : (b : ℕ → Ptr) (k i : ℕ) → i + k ≤ xy_rcv_wnd_size → ready_from b k i ≡ run b k i
unfolding ready_from run
ready_from-run b zero i h = refl
ready_from-run b (suc zero) i h = ground arith
ready_from-run b (suc (suc k)) i h =
    let e : (i + 1) % xy_rcv_wnd_size ≡ i + 1 = omega arith in
    ground (arith, e, ready_from-run b (suc k) (i + 1))

-- At the end of the array the ring goes on at its start.
ready_from-split :
    (b : ℕ → Ptr) (m k i : ℕ)
    → i + k ≡ xy_rcv_wnd_size
    → 0 < k
    → ready_from b (k + m) i
      ≡ run b k i ++ (if ltb (length (run b k i)) k then [] else ready_from b m 0)
unfolding ready_from run
ready_from-split b m zero i e h = absurd (omega arith)
ready_from-split b m (suc zero) i e h =
    let w : (i + 1) % xy_rcv_wnd_size ≡ 0 = omega arith in
    let s : suc zero + m ≡ suc m = omega arith in rw s (rw w (ground arith))
ready_from-split b m (suc (suc k)) i e h =
    let w : (i + 1) % xy_rcv_wnd_size ≡ i + 1 = omega arith in
    let s : suc (suc k) + m ≡ suc (suc k + m) = omega arith in
    rw s (rw w (ground (arith, ready_from-split b m (suc k) (i + 1))))

module _ (mtod : Ptr → Ptr) where
  pub append_all-append :
      (l : Ptr) (xs ys : List Ptr) (s : XyMbufStore)
      → append_all mtod l (xs ++ ys) s ≡ (append_all mtod l xs >> append_all mtod l ys) s
  append_all-append l [] ys s = refl
  append_all-append l (x ∷ xs) ys s = elim (Option-cases (xy_mbuf_list_add_tail mtod l x s)) [
    | inl e ↦ ground arith
    | inr ((u, t), e) ↦ ground (arith, append_all-append l xs ys t)
  ]

  pub AllNodes-mono :
      (s t : XyMbufStore) (ns : List Ptr)
      → ((a : Ptr) → SameNode s.node t.node a)
      → AllNodes mtod s ns
      → AllNodes mtod t ns
  AllNodes-mono s t [] keep all = tt
  AllNodes-mono s t (n ∷ ns) keep all =
      (ground (arith, keep (mtod n)), AllNodes-mono s t ns keep all.1)

  pub append_all-Holds :
      (s : XyMbufStore) (l : Ptr) (ms ns : List Ptr)
      → Holds mtod s l ms
      → Fresh mtod s l ms ns
      → (t : XyMbufStore) × (append_all mtod l ns s ≡ some (tt, t)) × Holds mtod t l (ms ++ ns)
  append_all-Holds s l ms [] holds fresh = (s, refl, rw append-nil holds)
  append_all-Holds s l ms (n ∷ ns) holds fresh =
      let (t, eq, holds', keep) =
        xy_mbuf_list_add_tail-Holds mtod s l n ms holds fresh.nodes.0
          (not-mem-of-Distinct mtod l n ms ns fresh.apart) in
      let fresh' : Fresh mtod t l (ms ++ (n ∷ [])) ns = record {
        nodes = AllNodes-mono s t ns keep fresh.nodes.1;
        apart = rw append_assoc fresh.apart;
      } in
      let (t', eq', holds'') = append_all-Holds t l (ms ++ (n ∷ [])) ns holds' fresh' in
      (t', ground (arith, eq, eq'), rw append_assoc at holds'')

-- The run of slots from the head to the end of the array.
abbrev pub first : XyTcpRcvWnd → List Ptr
first w = run w.buffer (xy_rcv_wnd_size - w.head_) w.head_

-- The first loop stops at an empty slot.
abbrev pub stops : XyTcpRcvWnd → Bool
stops w = ltb (length (first w)) (xy_rcv_wnd_size - w.head_)

-- The window that the first loop leaves where it does not stop.
abbrev pub first_window : XyTcpRcvWnd → XyTcpRcvWnd
first_window w = record w { buffer = clear w.buffer w.head_ (length (first w)) }

-- The run of slots from the start of the array to the head, as the second loop finds them.
abbrev pub second : XyTcpRcvWnd → List Ptr
second w = run (first_window w).buffer w.head_ 0

-- What both loops move, and the window that they leave.
abbrev pub moved : XyTcpRcvWnd → List Ptr
moved w = first w ++ (if stops w then [] else second w)

abbrev pub final : XyTcpRcvWnd → XyTcpRcvWnd
final w =
    if stops w
    then loop_window w (xy_rcv_wnd_size - w.head_) w.head_
    else loop_window (first_window w) w.head_ 0

pub moved-ready : (w : XyTcpRcvWnd) → w.head_ < xy_rcv_wnd_size → moved w ≡ ready w
moved-ready w h =
    let e : xy_rcv_wnd_size ≡ (xy_rcv_wnd_size - w.head_) + w.head_ = omega arith in
    ap (λ r. first w ++ (if stops w then [] else r))
      (run-clear (length (first w)) w.buffer w.head_ w.head_ 0 (omega arith)
        ∙ sym (ready_from-run w.buffer w.head_ 0 (omega arith)))
    ∙ sym (
        ready_from-split w.buffer w.head_ (xy_rcv_wnd_size - w.head_) w.head_ (omega arith)
          (omega arith))
    ∙ ap (λ k. ready_from w.buffer k w.head_) (sym e)
