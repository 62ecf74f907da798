-- ===== src/RingBuffer/Interleaved.antt =====
-- queue/include/xy_ring.h with one producer and one consumer at work together: a turn of a thread is
-- one access to what they share. The accesses take effect in the order of the turns.
pub mod Moves
pub mod Consistent
use dpdk_tcp.Prelude.{ℕ, ◌+◌, ◌-◌, ◌%◌, ◌==◌, if◌then◌else◌, update, List, [], ◌∷◌, ◌++◌}
use dpdk_tcp.XyList.{Ptr, null}
use dpdk_tcp.RingBuffer.{XyRingBuffer, xy_ring_size, add_size, xy_spsc_ring_del}

-- What the producer has before it: nothing, or `xy_spsc_ring_add` after its load of `head_`, after
-- that of `tail_`, or after the store to the slot. The numbers are the local variables.
pub data Producer : Type 0 where
  ready : Producer
  head_loaded : Ptr → ℕ → Producer
  tail_loaded : Ptr → ℕ → Producer
  slot_stored : Ptr → ℕ → Producer

-- The same for the consumer: `xy_spsc_ring_del`, `xy_spsc_ring_peek`, or a pointer that the latter
-- is about to return.
pub data Consumer : Type 0 where
  ready : Consumer
  del_head : ℕ → ℕ → Consumer
  del_tail : ℕ → ℕ → ℕ → Consumer
  peek_head : ℕ → Consumer
  peek_tail : ℕ → Consumer
  peeked : Ptr → Consumer

-- The ring and its two threads; the pointers for which `xy_spsc_ring_add` has returned 0, oldest
-- first, and how many `xy_spsc_ring_del` has taken out.
pub record Threads : Type 0 where
  pub ring : XyRingBuffer
  pub producer : Producer
  pub consumer : Consumer
  pub added : List Ptr
  pub removed : ℕ

-- A thread's next access; one that is between calls makes this call.
pub data Turn : Type 0 where
  add : Ptr → Turn
  del : ℕ → Turn
  peek : Turn

-- `tail + 1`, and 0 at the end of the array
abbrev pub next_index : ℕ → ℕ
next_index tail = if add_size tail 1 == xy_ring_size then 0 else add_size tail 1

-- The index that `xy_spsc_ring_del` stores, from what it has loaded.
unfoldable pub del_index : ℕ → ℕ → ℕ → ℕ
unfolding xy_spsc_ring_del
del_index n head tail =
    (xy_spsc_ring_del (record { head_ = head; tail_ = tail; buffer = λ _. null }) n).1.head_

-- The places from one index to another, round the end of the array.
abbrev pub distance : ℕ → ℕ → ℕ
distance i j = (j + xy_ring_size - i) % xy_ring_size

-- `xy_spsc_ring_add` of `ptr`, or its next access.
unfoldable pub produce : Ptr → Producer → Threads → Threads
produce ptr Producer.ready s = record s { producer = head_loaded ptr s.ring.head_ }
produce _ (head_loaded ptr head) s =
    if next_index s.ring.tail_ == head
    then record s { producer = Producer.ready }
    else record s { producer = tail_loaded ptr s.ring.tail_ }
produce _ (tail_loaded ptr tail) s = record s {
  ring = record s.ring { buffer = update s.ring.buffer tail ptr };
  producer = slot_stored ptr tail;
}
produce _ (slot_stored ptr tail) s = record s {
  ring = record s.ring { tail_ = next_index tail };
  producer = Producer.ready;
  added = s.added ++ (ptr ∷ []);
}

-- The next access of the consumer's call; `start` is where a call that it makes now begins.
unfoldable pub consume : Consumer → Consumer → Threads → Threads
consume start Consumer.ready s = record s { consumer = start }
consume _ (del_head n head) s = record s { consumer = del_tail n head s.ring.tail_ }
consume _ (del_tail n head tail) s = record s {
  ring = record s.ring { head_ = del_index n head tail };
  consumer = Consumer.ready;
  removed = s.removed + distance head (del_index n head tail);
}
consume _ (peek_head head) s =
    if head == s.ring.tail_
    then record s { consumer = Consumer.ready }
    else record s { consumer = peek_tail head }
consume _ (peek_tail head) s = record s { consumer = peeked (s.ring.buffer head) }
consume _ (peeked ptr) s = record s { consumer = Consumer.ready }

unfoldable pub turn : Turn → Threads → Threads
unfolding produce consume
turn (add ptr) s = produce ptr s.producer s
turn (del n) s = consume (del_head n s.ring.head_) s.consumer s
turn peek s = consume (peek_head s.ring.head_) s.consumer s

unfoldable pub run : List Turn → Threads → Threads
unfolding turn
run [] s = s
run (t ∷ ts) s = run ts (turn t s)

-- An empty ring, as its memory is before the first call.
abbrev pub empty : Threads
empty = record {
  ring = record { head_ = 0; tail_ = 0; buffer = λ _. null };
  producer = Producer.ready;
  consumer = Consumer.ready;
  added = [];
  removed = 0;
}
