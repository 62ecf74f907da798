-- ===== src/RingBuffer/Interleaved/Moves.antt =====
-- queue/include/xy_ring.h with one producer and one consumer: each
-- access keeps what holds between them.
use dpdk_tcp.Prelude.{
  drop, drop-append, drop-drop, length-append, ◌∙◌, sym, ap, ℕ, zero, suc, ◌+◌, ◌%◌, ◌^◌, ◌≤◌, ◌<◌,
  ◌≡◌, refl, arith, Bool-cases, inl, inr, ltb, ◌==◌, if◌then◌else◌, update, [], ◌∷◌, ◌++◌, length,
}
use dpdk_tcp.XyList.{Ptr}
use dpdk_tcp.RingBuffer.{XyRingBuffer, xy_ring_size}
use dpdk_tcp.RingBuffer.Fifo.{IsRingBuffer, used, used-lt, entries, entries-drop, queue}
use dpdk_tcp.RingBuffer.Interleaved.{
  Producer, Consumer, Threads, next_index, del_index, distance, head_loaded, tail_loaded,
  slot_stored, del_head, del_tail, peek_head, peek_tail, peeked, produce, consume,
}

-- What the producer's local variables say of the ring. The consumer can only have made more room.
abbrev pub Producing : XyRingBuffer → Producer → Type 0
Producing r Producer.ready = Unit
Producing r (head_loaded p head) = (head < xy_ring_size) × (used r ≤ distance head r.tail_)
Producing r (tail_loaded p tail) = (tail ≡ r.tail_) × (used r + 1 < xy_ring_size)
Producing r (slot_stored p tail) =
    (tail ≡ r.tail_) × (used r + 1 < xy_ring_size) × (r.buffer tail ≡ p)

-- What the consumer's local variables say. The producer can only have added more.
abbrev pub Consuming : XyRingBuffer → Consumer → Type 0
Consuming r Consumer.ready = Unit
Consuming r (del_head n head) = (head ≡ r.head_) × (n < 2 ^ 63)
Consuming r (del_tail n head tail) =
    (head ≡ r.head_) × (n < 2 ^ 63) × (tail < xy_ring_size) × (distance head tail ≤ used r)
Consuming r (peek_head head) = head ≡ r.head_
Consuming r (peek_tail head) = (head ≡ r.head_) × (0 < used r)
Consuming r (peeked p) = (0 < used r) × (r.buffer r.head_ ≡ p)

pub record Inv (s : Threads) : Type 0 where
  pub valid : IsRingBuffer s.ring
  pub producing : Producing s.ring s.producer
  pub consuming : Consuming s.ring s.consumer
  pub contents : queue s.ring ≡ drop s.removed s.added
  pub counted : length s.added ≡ s.removed + used s.ring

-- A store to the slot at the tail is outside what the ring holds.
entries-update_other :
    (b : ℕ → Ptr) (m : Ptr) (n i t : ℕ)
    → i < xy_ring_size
    → n < xy_ring_size
    → t ≡ (i + n) % xy_ring_size
    → entries (update b t m) i n ≡ entries b i n
entries-update_other b m zero i t hi hn e = refl
entries-update_other b m (suc n) i t hi hn e =
    ground (arith, entries-update_other b m n ((i + 1) % xy_ring_size) t)

entries-last :
    (b : ℕ → Ptr) (n i : ℕ)
    → i < xy_ring_size
    → entries b i (suc n) ≡ entries b i n ++ (b ((i + n) % xy_ring_size) ∷ [])
entries-last b zero i hi = ground arith
entries-last b (suc n) i hi = ground (arith, entries-last b n ((i + 1) % xy_ring_size))

-- The index that `xy_spsc_ring_del` stores is behind the old one by what there was, at most `n`.
del_index-distance :
    (n head tail : ℕ)
    → n < 2 ^ 63
    → head < xy_ring_size
    → tail < xy_ring_size
    → (del_index n head tail < xy_ring_size)
      × (distance head (del_index n head tail)
          ≡ (if ltb (distance head tail) n then distance head tail else n))
unfolding del_index
del_index-distance n head tail small hh ht = (ground arith, ground arith)

-- The producer's accesses leave what the consumer has loaded true, and the other way round.
Consuming-kept :
    (r r' : XyRingBuffer) (c : Consumer)
    → r'.head_ ≡ r.head_
    → used r ≤ used r'
    → (0 < used r → r'.buffer r.head_ ≡ r.buffer r.head_)
    → Consuming r c
    → Consuming r' c
Consuming-kept r r' Consumer.ready head more same h = tt
Consuming-kept r r' (del_head n i) head more same h = ground arith
Consuming-kept r r' (del_tail n i j) head more same h = ground arith
Consuming-kept r r' (peek_head i) head more same h = ground arith
Consuming-kept r r' (peek_tail i) head more same h = ground arith
Consuming-kept r r' (peeked p) head more same h = ground (arith, same (ground arith))

Producing-kept :
    (r r' : XyRingBuffer) (p : Producer)
    → r'.tail_ ≡ r.tail_
    → used r' ≤ used r
    → r'.buffer ≡ r.buffer
    → Producing r p
    → Producing r' p
Producing-kept r r' Producer.ready tail less same h = tt
Producing-kept r r' (head_loaded q i) tail less same h = ground arith
Producing-kept r r' (tail_loaded q i) tail less same h = ground arith
Producing-kept r r' (slot_stored q i) tail less same h = ground arith

module _ (s : Threads) (v : Inv s) where
  open v use {valid, producing, consuming, contents, counted}

  -- The access of the producer keeps the invariant.
  pub produce-Inv : (ptr : Ptr) (p : Producer) → Producing s.ring p → Inv (produce ptr p s)
  unfolding produce used
  produce-Inv ptr Producer.ready f = record {
    valid = valid;
    producing = ground (arith, valid);
    consuming = consuming;
    contents = contents;
    counted = counted;
  }
  produce-Inv ptr (head_loaded q head) f = elim (Bool-cases (next_index s.ring.tail_ == head)) [
    | inl full ↦ rw full (record {
      valid = valid;
      producing = tt;
      consuming = consuming;
      contents = contents;
      counted = counted;
    })
    | inr room ↦ rw room (record {
      valid = valid;
      producing = ground (arith, valid);
      consuming = consuming;
      contents = contents;
      counted = counted;
    })
  ]
  produce-Inv ptr (tail_loaded q tail) f =
      let r' = record s.ring { buffer = update s.ring.buffer tail q } in
      let (small, place) = used-lt s.ring valid in
      record {
        valid = ground (arith, valid);
        producing = ground (arith, f);
        consuming =
            Consuming-kept s.ring r' s.consumer refl (omega arith) (λ some. ground arith) consuming;
        contents =
            entries-update_other s.ring.buffer q (used s.ring) s.ring.head_ tail valid.head_in small
              (ground arith)
            ∙ contents;
        counted = counted;
      }
  produce-Inv ptr (slot_stored q tail) f =
      let r' = record s.ring { tail_ = next_index tail } in
      let (small, place) = used-lt s.ring valid in
      let more : used r' ≡ suc (used s.ring) = ground (arith, valid) in
      record {
        valid = ground (arith, valid);
        producing = tt;
        consuming = Consuming-kept s.ring r' s.consumer refl (omega arith) (λ some. refl) consuming;
        contents =
            rw (more, entries-last s.ring.buffer (used s.ring) s.ring.head_ valid.head_in, contents)
              (ground (arith, drop-append s.removed s.added (q ∷ [])));
        counted = ground (arith, length-append s.added (q ∷ []));
      }

  -- The access of the consumer keeps the invariant.
  pub consume-Inv :
      (start c : Consumer) → Consuming s.ring start → Consuming s.ring c → Inv (consume start c s)
  unfolding consume used
  consume-Inv start Consumer.ready begins h = record {
    valid = valid;
    producing = producing;
    consuming = begins;
    contents = contents;
    counted = counted;
  }
  consume-Inv start (del_head n head) begins h = record {
    valid = valid;
    producing = producing;
    consuming = ground (arith, valid);
    contents = contents;
    counted = counted;
  }
  consume-Inv start (del_tail n head tail) begins h =
      let r' = record s.ring { head_ = del_index n head tail } in
      let (inside, gone) =
        del_index-distance n head tail (ground arith) (ground (arith, valid)) (ground arith) in
      let k = distance head (del_index n head tail) in
      let parts : used s.ring ≡ k + used r' = ground (arith, valid) in
      let at : del_index n head tail ≡ (s.ring.head_ + k) % xy_ring_size = ground (arith, valid) in
      record {
        valid = ground (arith, valid);
        producing = Producing-kept s.ring r' s.producer refl (omega arith) refl producing;
        consuming = tt;
        contents =
            ap (λ i. entries s.ring.buffer i (used r')) at
            ∙ entries-drop s.ring.buffer k (used r') s.ring.head_ valid.head_in
            ∙ ap (λ u. drop k (entries s.ring.buffer s.ring.head_ u)) (sym parts)
            ∙ ap (drop k) contents
            ∙ drop-drop s.removed k s.added;
        counted = ground arith;
      }
  consume-Inv start (peek_head head) begins h = elim (Bool-cases (head == s.ring.tail_)) [
    | inl none_left ↦ rw none_left (record {
      valid = valid;
      producing = producing;
      consuming = tt;
      contents = contents;
      counted = counted;
    })
    | inr some_left ↦ rw some_left (record {
      valid = valid;
      producing = producing;
      consuming = ground (arith, valid);
      contents = contents;
      counted = counted;
    })
  ]
  consume-Inv start (peek_tail head) begins h = record {
    valid = valid;
    producing = producing;
    consuming = ground arith;
    contents = contents;
    counted = counted;
  }
  consume-Inv start (peeked p) begins h = record {
    valid = valid;
    producing = producing;
    consuming = tt;
    contents = contents;
    counted = counted;
  }
