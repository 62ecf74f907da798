-- ===== src/Tests/Interleaved.antt =====
-- A producer and a consumer of a ring whose accesses alternate.
use dpdk_tcp.Prelude.{drop, ◌+◌, ◌<◌, ◌≡◌, refl, arith, List, [], ◌∷◌, length}
use dpdk_tcp.RingBuffer.Interleaved.{del_index, Turn, run, empty, add, del, peek}
use dpdk_tcp.RingBuffer.Interleaved.Consistent.{IsOldest, AllSized, run-queue}
use dpdk_tcp.RingBuffer.Fifo.{queue, used}
use dpdk_tcp.RingBuffer.{xy_ring_size}

-- `peek` begins before 5 is published; `del` has loaded the tail when 6 is.
abbrev turns : List Turn
turns =
    add 5
    ∷ add 5
    ∷ peek
    ∷ add 5
    ∷ add 5
    ∷ peek
    ∷ peek
    ∷ peek
    ∷ add 6
    ∷ add 6
    ∷ add 6
    ∷ del 3
    ∷ del 3
    ∷ add 6
    ∷ del 3
    ∷ []

-- Only 5 was removed.
turns_left :
    let s = run turns empty in (s.removed ≡ 1) × (s.added ≡ 5 ∷ 6 ∷ []) × (queue s.ring ≡ 6 ∷ [])
unfolding run del_index used
turns_left = (refl, refl, refl)

turns-AllSized : AllSized turns
turns-AllSized = omega arith

run-queue_example :
    let s = run turns empty in
    (queue s.ring ≡ drop s.removed s.added)
    × (length s.added ≡ s.removed + used s.ring)
    × (used s.ring < xy_ring_size)
    × IsOldest s.consumer (drop s.removed s.added)
run-queue_example = run-queue turns turns-AllSized
