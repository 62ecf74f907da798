-- ===== src/RingBuffer.antt =====
-- queue/include/xy_ring.h: a ring of pointers between one producer and one consumer. The operations
-- are modelled one after another here, and access by access in Interleaved.
pub mod Fifo
pub mod Interleaved
use dpdk_tcp.Prelude.{
  ℕ, ◌+◌, ◌-◌, ◌%◌, ◌^◌, ltb, leb, ◌==◌, if◌then◌else◌, ℤ, pos, minus_one, update,
}
use dpdk_tcp.XyList.{Ptr, null}

abbrev pub xy_ring_size : ℕ
xy_ring_size = 2 ^ 16

pub record XyRingBuffer : Type 0 where
  pub head_ : ℕ
  pub tail_ : ℕ
  pub buffer : ℕ → Ptr

-- `size_t` addition
abbrev pub add_size : ℕ → ℕ → ℕ
add_size a b = (a + b) % 2 ^ 64

unfoldable pub xy_ring_empty : XyRingBuffer → ℕ
xy_ring_empty ring = if ring.head_ == ring.tail_ then 1 else 0

unfoldable pub xy_spsc_ring_peek : XyRingBuffer → Ptr
xy_spsc_ring_peek ring = if ring.head_ == ring.tail_ then null else ring.buffer ring.head_

unfoldable pub xy_spsc_ring_add : XyRingBuffer → Ptr → ℤ × XyRingBuffer
xy_spsc_ring_add ring ptr =
    let next = if add_size ring.tail_ 1 == xy_ring_size then 0 else add_size ring.tail_ 1 in
    if next == ring.head_
    then (minus_one, ring)
    else (pos 0, record ring { buffer = update ring.buffer ring.tail_ ptr; tail_ = next })

-- The branch where the contents lie round the end of the array.
unfoldable pub del_wrapped : XyRingBuffer → ℕ → ℕ × XyRingBuffer
del_wrapped ring n =
    let head = add_size ring.head_ n in
    if leb xy_ring_size head
    then (if ltb ring.tail_ (head - xy_ring_size)
        then (n - (head - xy_ring_size - ring.tail_), record ring { head_ = ring.tail_ })
        else (n, record ring { head_ = head - xy_ring_size }))
    else (n, record ring { head_ = head })

unfoldable pub xy_spsc_ring_del : XyRingBuffer → ℕ → ℕ × XyRingBuffer
unfolding del_wrapped
xy_spsc_ring_del ring n =
    if leb ring.head_ ring.tail_
    then (
      n,
      record ring {
        head_ =
            if ltb ring.tail_ (add_size ring.head_ n) then ring.tail_ else add_size ring.head_ n;
      },
    )
    else del_wrapped ring n
