-- ===== src/Wnd/Rcv/Loop.antt =====
-- One loop of `xy_tcp_rcv_wnd_collect` of network/include/xy_tcp_wnd.h: which buffers it moves.
use dpdk_tcp.Prelude.{
  ℕ, zero, suc, ◌+◌, ◌^◌, ◌≤◌, ◌<◌, ◌≡◌, refl, ◌∙◌, inl, inr, Bool, false, Bool-cases, List, [],
  ◌∷◌, length, update, ◌==◌, if◌then◌else◌, ltb, arith, u32, M, ◌>>◌, pure, Option-cases,
}
use dpdk_tcp.XyList.{Ptr, null}
use dpdk_tcp.Wnd.Mbuf.{XyMbufStore, xy_mbuf_list_add_tail}
use dpdk_tcp.Wnd.{XyTcpRcvWnd, collect_loop}

-- The buffers of at most `k` slots from slot `i` on, up to the first slot that is empty.
unfoldable pub run : (ℕ → Ptr) → ℕ → ℕ → List Ptr
run b zero i = []
run b (suc k) i = if b i == null then [] else b i ∷ run b k (i + 1)

-- The slots from `i` on emptied, `n` of them.
abbrev pub clear : (ℕ → Ptr) → ℕ → ℕ → ℕ → Ptr
clear b i zero = b
clear b i (suc n) = clear (update b i null) (i + 1) n

pub length-run : (b : ℕ → Ptr) (k i : ℕ) → length (run b k i) ≤ k
unfolding run
length-run b zero i = omega arith
length-run b (suc k) i = ground (arith, length-run b k (i + 1))

-- Emptying a slot before the start changes no run.
run-update : (b : ℕ → Ptr) (v : Ptr) (j k i : ℕ) → j < i → run (update b j v) k i ≡ run b k i
unfolding run
run-update b v j zero i h = refl
run-update b v j (suc k) i h = ground (arith, run-update b v j k (i + 1))

-- Nor does a change behind the end.
run-update_above :
    (b : ℕ → Ptr) (v : Ptr) (j k i : ℕ) → i + k ≤ j → run (update b j v) k i ≡ run b k i
unfolding run
run-update_above b v j zero i h = refl
run-update_above b v j (suc k) i h = ground (arith, run-update_above b v j k (i + 1))

pub run-clear : (n : ℕ) (b : ℕ → Ptr) (j k i : ℕ) → i + k ≤ j → run (clear b j n) k i ≡ run b k i
unfolding run
run-clear zero b j k i h = refl
run-clear (suc n) b j k i h =
    run-clear n (update b j null) (j + 1) k i (omega arith) ∙ run-update_above b null j k i h

module _ (mtod : Ptr → Ptr) where
  -- The buffers put at the end of a list, one after another.
  abbrev pub append_all : Ptr → List Ptr → M XyMbufStore (Unit {0})
  append_all l [] = pure tt
  append_all l (m ∷ ms) = xy_mbuf_list_add_tail mtod l m >> append_all l ms

-- The window that one loop leaves: it moves the head only where it stops at an empty slot.
abbrev pub loop_window : XyTcpRcvWnd → ℕ → ℕ → XyTcpRcvWnd
loop_window w k i =
    let n = length (run w.buffer k i) in
    record w { head_ = if ltb n k then i + n else w.head_; buffer = clear w.buffer i n }

module _ {S A : Type 0} where
  >>-step :
      (m n : M S (Unit {0})) (f g : M S A) (s : S)
      → ((t : S) → f t ≡ (n >> g) t)
      → (m >> f) s ≡ ((m >> n) >> g) s
  >>-step m n f g s h = elim (Option-cases (m s)) [
    | inl e ↦ ground arith
    | inr ((u, t), e) ↦ ground (arith, h t)
  ]

-- What one loop returns, started with the count `c`.
abbrev pub loop_result : XyTcpRcvWnd → ℕ → ℕ → ℕ → Bool × ℕ × XyTcpRcvWnd
loop_result w k i c = let n = length (run w.buffer k i) in (ltb n k, c + n, loop_window w k i)

loop_result-suc :
    (w : XyTcpRcvWnd) (k i c : ℕ)
    → (w.buffer i == null) ≡ false
    → c + suc k < 2 ^ 32
    → loop_result (record w { buffer = update w.buffer i null }) k (i + 1) (u32 (c + 1))
      ≡ loop_result w (suc k) i c
unfolding run
loop_result-suc w k i c full hc = ground (arith, run-update w.buffer null i k (i + 1))

-- One loop puts the run of full slots at the end of the list, and does nothing else to the lists.
pub collect_loop-run :
    (mtod : Ptr → Ptr) (k i c : ℕ) (l : Ptr) (w : XyTcpRcvWnd) (s : XyMbufStore)
    → i + k < 2 ^ 16
    → c + k < 2 ^ 32
    → collect_loop mtod k i c l w s
      ≡ (append_all mtod l (run w.buffer k i) >> pure (loop_result w k i c)) s
unfolding collect_loop run
collect_loop-run mtod zero i c l w s hi hc = ground arith
collect_loop-run mtod (suc k) i c l w s hi hc = elim (Bool-cases (w.buffer i == null)) [
  | inl empty ↦ rw (empty, collect_loop) (ground arith)
  | inr full ↦
      let w' : XyTcpRcvWnd = record w { buffer = update w.buffer i null } in
      rw
        (
          ← loop_result-suc w k i c full hc,
          full,
          ← run-update w.buffer null i k (i + 1) (omega arith),
        )
        (>>-step (xy_mbuf_list_add_tail mtod l (w.buffer i))
          (append_all mtod l (run w'.buffer k (i + 1)))
          (collect_loop mtod k (i + 1) (u32 (c + 1)) l w')
          (pure (loop_result w' k (i + 1) (u32 (c + 1)))) s
          (λ t. collect_loop-run mtod k (i + 1) (u32 (c + 1)) l w' t (omega arith) (omega arith)))
]
