-- ===== src/RingBuffer/Fifo.antt =====
-- The ring of queue/include/xy_ring.h is a bounded queue of pointers.
use dpdk_tcp.Prelude.{
  drop, ℕ, zero, suc, ◌+◌, ◌-◌, ◌%◌, ◌^◌, ◌≤◌, ◌<◌, ◌≡◌, refl, arith, Bool-cases, inl, inr, false,
  ltb, leb, ◌==◌, if◌then◌else◌, pos, minus_one, update, List, [], ◌∷◌, ◌++◌,
}
use native.Mathlib.Nat.{suc-add}
use dpdk_tcp.XyList.{Ptr, null}
use dpdk_tcp.RingBuffer.{
  XyRingBuffer, xy_ring_size, xy_ring_empty, xy_spsc_ring_peek, xy_spsc_ring_add, xy_spsc_ring_del,
}

pub record IsRingBuffer (r : XyRingBuffer) : Type 0 where
  pub head_in : r.head_ < xy_ring_size
  pub tail_in : r.tail_ < xy_ring_size

-- How many pointers the ring holds.
unfoldable pub used : XyRingBuffer → ℕ
used r = (r.tail_ + xy_ring_size - r.head_) % xy_ring_size

abbrev pub entries : (ℕ → Ptr) → ℕ → ℕ → List Ptr
entries b i zero = []
entries b i (suc n) = b i ∷ entries b ((i + 1) % xy_ring_size) n

-- The pointers that the ring holds, oldest first.
abbrev pub queue : XyRingBuffer → List Ptr
queue r = entries r.buffer r.head_ (used r)

entries-update :
    (b : ℕ → Ptr) (m : Ptr) (n i t : ℕ)
    → i < xy_ring_size
    → n < xy_ring_size
    → t ≡ (i + n) % xy_ring_size
    → entries (update b t m) i (suc n) ≡ entries b i n ++ (m ∷ [])
entries-update b m zero i t hi hn e = ground arith
entries-update b m (suc n) i t hi hn e =
    ground (arith, entries-update b m n ((i + 1) % xy_ring_size) t)

pub entries-drop :
    (b : ℕ → Ptr) (k n i : ℕ)
    → i < xy_ring_size
    → entries b ((i + k) % xy_ring_size) n ≡ drop k (entries b i (k + n))
entries-drop b zero n i h = ground arith
entries-drop b (suc k) n i h =
    let e : (i + suc k) % xy_ring_size ≡ ((i + 1) % xy_ring_size + k) % xy_ring_size =
      omega arith in
    rw (suc-add, e) (entries-drop b k n ((i + 1) % xy_ring_size) (omega arith))

drop-all : (b : ℕ → Ptr) (k n i : ℕ) → k ≤ n → [] ≡ drop n (entries b i k)
drop-all b zero zero i h = refl
drop-all b zero (suc n) i h = refl
drop-all b (suc k) zero i h = absurd (omega arith)
drop-all b (suc k) (suc n) i h = drop-all b k n ((i + 1) % xy_ring_size) (omega arith)

abbrev pub head_or_null : List Ptr → Ptr
head_or_null [] = null
head_or_null (x ∷ xs) = x

entries-head :
    (b : ℕ → Ptr) (i n : ℕ) → head_or_null (entries b i n) ≡ (if n == 0 then null else b i)
entries-head b i zero = refl
entries-head b i (suc n) = ground arith

used-zero : (r : XyRingBuffer) → IsRingBuffer r → (used r == 0) ≡ (r.head_ == r.tail_)
unfolding used
used-zero r v = ground arith

pub used-lt :
    (r : XyRingBuffer)
    → IsRingBuffer r
    → (used r < xy_ring_size) × (r.tail_ ≡ (r.head_ + used r) % xy_ring_size)
unfolding used
used-lt r v = omega arith

module _ (r : XyRingBuffer) (v : IsRingBuffer r) where
  used-add :
      (m : Ptr)
      → used r + 1 < xy_ring_size
      → let r' = (xy_spsc_ring_add r m).1 in
        (used r' ≡ suc (used r)) × (r'.head_ ≡ r.head_) × (r'.buffer ≡ update r.buffer r.tail_ m)
  unfolding xy_spsc_ring_add used
  used-add m room = ground arith

  add-status :
      (m : Ptr)
      → let (ret, r') = xy_spsc_ring_add r m in
        IsRingBuffer r' × (ret ≡ (if ltb (used r + 1) xy_ring_size then pos 0 else minus_one))
  unfolding xy_spsc_ring_add used
  add-status m = (ground arith, ground arith)

  add-full : (m : Ptr) → ltb (used r + 1) xy_ring_size ≡ false → (xy_spsc_ring_add r m).1 ≡ r
  unfolding xy_spsc_ring_add used
  add-full m full = ground arith

  queue-add :
      (m : Ptr) → used r + 1 < xy_ring_size → queue (xy_spsc_ring_add r m).1 ≡ queue r ++ (m ∷ [])
  queue-add m room =
      let (more, head, buffer) = used-add m room in
      let (small, place) = used-lt r v in
      rw (buffer, head, more)
        (entries-update r.buffer m (used r) r.head_ r.tail_ v.head_in small place)

  -- `xy_spsc_ring_add` to a ring with room returns 0 and appends the pointer; to a ring that holds
  -- all but one of its slots it returns -1 and changes nothing. Both indices stay in the array.
  pub xy_spsc_ring_add-queue :
      (m : Ptr)
      → let (ret, r') = xy_spsc_ring_add r m in
        IsRingBuffer r'
        × (ret ≡ (if ltb (used r + 1) xy_ring_size then pos 0 else minus_one))
        × (queue r' ≡ (if ltb (used r + 1) xy_ring_size then queue r ++ (m ∷ []) else queue r))
  xy_spsc_ring_add-queue m = elim (Bool-cases (ltb (used r + 1) xy_ring_size)) [
    | inl room ↦ ((add-status m).0, (add-status m).1, rw room (queue-add m (ground arith)))
    | inr full ↦ ((add-status m).0, (add-status m).1, rw (full, add-full m full) refl)
  ]

  del-fields :
      (n : ℕ)
      → n < 2 ^ 63
      → let (ret, r') = xy_spsc_ring_del r n in
        IsRingBuffer r'
        × (ret ≡ (if ltb (used r) n then (if leb r.head_ r.tail_ then n else used r) else n))
        × (r'.buffer ≡ r.buffer)
        × (used r' ≡ used r - n)
        × (r'.head_ ≡ (if ltb (used r) n then r.tail_ else (r.head_ + n) % xy_ring_size))
  unfolding xy_spsc_ring_del used
  del-fields n small = (ground arith, ground arith, ground arith, ground arith, ground arith)

  queue-del : (n : ℕ) → n < 2 ^ 63 → queue (xy_spsc_ring_del r n).1 ≡ drop n (queue r)
  queue-del n small =
      let (_, _, buffer, left, head) = del-fields n small in
      elim (Bool-cases (ltb (used r) n)) [
        | inl over ↦
            let none_left : used (xy_spsc_ring_del r n).1 ≡ 0 = ground arith in
            rw none_left (drop-all r.buffer (used r) n r.head_ (ground arith))
        | inr within ↦
            let parts : used r ≡ n + used (xy_spsc_ring_del r n).1 = ground arith in
            let at : (xy_spsc_ring_del r n).1.head_ ≡ (r.head_ + n) % xy_ring_size = ground arith in
            rw (buffer, at, parts)
              (entries-drop r.buffer n (used (xy_spsc_ring_del r n).1) r.head_ v.head_in)
      ]

  -- `xy_spsc_ring_del` takes out the `n` oldest pointers, or all if there are fewer, and keeps both
  -- indices in the array. It returns the number that it took out, except where the contents do not
  -- go round the end of the array: there it returns `n`, also if the ring held fewer.
  pub xy_spsc_ring_del-queue :
      (n : ℕ)
      → n < 2 ^ 63
      → let (ret, r') = xy_spsc_ring_del r n in
        IsRingBuffer r'
        × (queue r' ≡ drop n (queue r))
        × (ret ≡ (if ltb (used r) n then (if leb r.head_ r.tail_ then n else used r) else n))
  xy_spsc_ring_del-queue n small =
      let (valid, ret, _, _, _) = del-fields n small in (valid, queue-del n small, ret)

  -- `xy_ring_empty` tells whether the ring holds nothing; `xy_spsc_ring_peek` returns the oldest
  -- pointer that it holds, and `NULL` if there is none.
  pub xy_spsc_ring_peek-queue :
      (xy_ring_empty r ≡ (if used r == 0 then 1 else 0))
      × (xy_spsc_ring_peek r ≡ head_or_null (queue r))
  unfolding xy_ring_empty xy_spsc_ring_peek
  xy_spsc_ring_peek-queue = (
    ground (arith, used-zero r v),
    ground (arith, used-zero r v, entries-head r.buffer r.head_ (used r)),
  )
