-- ===== src/RingBuffer/Interleaved/Consistent.antt =====
-- queue/include/xy_ring.h with one producer and one consumer: what holds after every turn.
use dpdk_tcp.Prelude.{
  drop, ℕ, zero, suc, ◌+◌, ◌^◌, ◌<◌, ◌≡◌, refl, arith, sym, List, [], ◌∷◌, length,
}
use dpdk_tcp.XyList.{Ptr}
use dpdk_tcp.RingBuffer.{xy_ring_size}
use dpdk_tcp.RingBuffer.Fifo.{used, used-lt, entries, queue, head_or_null}
use dpdk_tcp.RingBuffer.Interleaved.{
  Consumer, Threads, Turn, turn, run, empty, del_head, peek_head, peeked, add, del, peek,
}
use dpdk_tcp.RingBuffer.Interleaved.Moves.{Inv, Consuming, produce-Inv, consume-Inv}

-- What the consumer asks `xy_spsc_ring_del` for.
abbrev Sized : Turn → Type 0
Sized (del n) = n < 2 ^ 63
Sized _ = Unit

abbrev pub AllSized : List Turn → Type 0
AllSized [] = Unit
AllSized (t ∷ ts) = Sized t × AllSized ts

turn-Inv : (s : Threads) → Inv s → (t : Turn) → Sized t → Inv (turn t s)
unfolding turn
turn-Inv s v (add ptr) h = produce-Inv s v ptr s.producer v.producing
turn-Inv s v (del n) h = consume-Inv s v (del_head n s.ring.head_) s.consumer (refl, h) v.consuming
turn-Inv s v peek h = consume-Inv s v (peek_head s.ring.head_) s.consumer refl v.consuming

run-Inv : (ts : List Turn) (s : Threads) → AllSized ts → Inv s → Inv (run ts s)
unfolding run
run-Inv [] s h v = v
run-Inv (t ∷ ts) s h v = run-Inv ts (turn t s) h.1 (turn-Inv s v t h.0)

empty-Inv : Inv empty
unfolding used
empty-Inv = record {
  valid = omega arith;
  producing = tt;
  consuming = tt;
  contents = refl;
  counted = refl;
}

-- A pointer that `xy_spsc_ring_peek` is about to return is the oldest of these.
abbrev pub IsOldest : Consumer → List Ptr → Type 0
IsOldest (peeked p) left = (0 < length left) × (head_or_null left ≡ p)
IsOldest _ left = Unit

entries-nonempty :
    (b : ℕ → Ptr) (i n : ℕ)
    → 0 < n
    → (0 < length (entries b i n)) × (head_or_null (entries b i n) ≡ b i)
entries-nonempty b i zero h = absurd (omega arith)
entries-nonempty b i (suc n) h = (omega arith, refl)

IsOldest-queue :
    (s : Threads) → Inv s → (c : Consumer) → Consuming s.ring c → IsOldest c (queue s.ring)
IsOldest-queue s v (peeked p) h =
    ground (arith, entries-nonempty s.ring.buffer s.ring.head_ (used s.ring))
IsOldest-queue s v _ h = tt

-- However the accesses of a producer and a consumer alternate, from an empty ring on: the ring holds
-- the pointers whose addition has returned 0, in that order, less as many as were removed from the
-- front, so none is lost, repeated or overtaken; no more are removed than were added, the ring
-- holds fewer than its size, and `xy_spsc_ring_peek` returns the oldest that is left or `NULL`.
-- The numbers that the consumer asks to remove are below 2^63.
pub run-queue :
    (ts : List Turn)
    → AllSized ts
    → let s = run ts empty in
      (queue s.ring ≡ drop s.removed s.added)
      × (length s.added ≡ s.removed + used s.ring)
      × (used s.ring < xy_ring_size)
      × IsOldest s.consumer (drop s.removed s.added)
run-queue ts sized =
    let v = run-Inv ts empty sized empty-Inv in
    let s = run ts empty in
    (
      v.contents,
      v.counted,
      (used-lt s.ring v.valid).0,
      rw (sym v.contents) (IsOldest-queue s v s.consumer v.consuming),
    )
