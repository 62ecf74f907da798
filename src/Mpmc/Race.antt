-- ===== src/Mpmc/Race.antt =====
-- Two threads at the list of queue/include/xy_mpmc.h. All that an operation does under its locks is one
-- step, since any other that uses the same nodes waits; the read of `tail->prev` comes before.
use dpdk_tcp.Prelude.{
  ◌≡◌, ◌≢◌, refl, arith, some, M, ◌>>=◌, pure, pos, List, [], ◌∷◌, true, is_some, update,
}
use dpdk_tcp.XyList.{Ptr, null, XyListNode, load_prev}
use dpdk_tcp.XyList.Ring.{IsNode}
use dpdk_tcp.XyList.Delete.{without}
use dpdk_tcp.Mpmc.{mpmc_list_add_tail, add_tail_locked, mpmc_list_del_head}
use dpdk_tcp.Mpmc.Fifo.{IsQueue}

-- A list whose head leads to its tail, where the tail leads back to another node.
record IsCut (h : XyListNode) (head tail : Ptr) : Type 0 where
  last : Ptr
  forth : h.next head ≡ some tail
  back : h.prev tail ≡ some last
  other : last ≢ head
  last_node : is_some (h.next last) ≡ true

-- Events that can be added: nodes, apart from the sentinels.
abbrev pub AreNew : XyListNode → Ptr → Ptr → List Ptr → Type 0
AreNew h head tail [] = Unit
AreNew h head tail (x ∷ xs) =
    (IsNode h x × (x ≢ null) × (x ≢ head) × (x ≢ tail)) × AreNew h head tail xs

-- One addition after the other.
abbrev pub add_all : Ptr → List Ptr → M XyListNode (Unit {0})
add_all tail [] = pure tt
add_all tail (x ∷ xs) = do _ ← mpmc_list_add_tail tail x; add_all tail xs

-- The store after `x` is linked between `l` and the tail, as by `add_tail_locked`.
abbrev linked : XyListNode → Ptr → Ptr → Ptr → XyListNode
linked h l tail x = record {
  next = update (update h.next l (some x)) x (some tail);
  prev = update (update h.prev tail (some x)) x (some l);
}

-- A change of the store that unmakes no node.
AreNew-kept :
    (h g : XyListNode) (head tail : Ptr) (xs : List Ptr)
    → ((y : Ptr) → IsNode h y → IsNode g y)
    → AreNew h head tail xs
    → AreNew g head tail xs
AreNew-kept h g head tail [] keep v = tt
AreNew-kept h g head tail (y ∷ ys) keep ((node, a, b, c), vs) =
    ((keep y node, a, b, c), AreNew-kept h g head tail ys keep vs)

mpmc_list_add_tail-IsCut :
    (h : XyListNode) (head tail x : Ptr) (c : IsCut h head tail)
    → tail ≢ null
    → IsNode h x × (x ≢ null) × (x ≢ head) × (x ≢ tail)
    → (mpmc_list_add_tail tail x h ≡ some (pos 0, linked h c.last tail x))
      × IsCut (linked h c.last tail x) head tail
unfolding mpmc_list_add_tail
mpmc_list_add_tail-IsCut h head tail x c nt new = (
  ground (arith, c.back, c.last_node),
  record {
    last = x;
    forth = ground (arith, c.forth, c.other);
    back = ground arith;
    other = ground arith;
    last_node = ground arith;
  },
)

add_all-IsCut :
    (h : XyListNode) (head tail : Ptr) (xs : List Ptr)
    → IsCut h head tail
    → tail ≢ null
    → AreNew h head tail xs
    → (g : XyListNode) × (add_all tail xs h ≡ some (tt, g)) × IsCut g head tail
add_all-IsCut h head tail [] c nt new = (h, refl, c)
add_all-IsCut h head tail (x ∷ xs) c nt (v, vs) =
    let (run, c') = mpmc_list_add_tail-IsCut h head tail x c nt v in
    let k = linked h c.last tail x in
    let (g, rest, c'') =
      add_all-IsCut k head tail xs c' nt (AreNew-kept h k head tail xs (λ y n. ground arith) vs) in
    (g, ground (arith, run, rest), c'')

-- A thread that adds an event reads the last node; before it takes the locks, another thread takes that
-- node out, as the only one of the queue. Then the addition returns 0, and its event is never
-- found; nor is any event that is added later, however many: `mpmc_list_del_head` returns `NULL`
-- and changes nothing. The events are nodes apart from the sentinels, and the first is not the one
-- taken out.
pub add_tail_locked-lost :
    (h : XyListNode) (head tail a x : Ptr) (xs : List Ptr)
    → IsQueue h head tail (a ∷ [])
    → AreNew h head tail (x ∷ xs)
    → x ≢ a
    → (g : XyListNode) × (k : XyListNode) × (j : XyListNode) × (load_prev tail h ≡ some (a, h))
      × (mpmc_list_del_head head tail h ≡ some (a, g))
      × (add_tail_locked tail a x g ≡ some (pos 0, k))
      × (add_all tail xs k ≡ some (tt, j))
      × (mpmc_list_del_head head tail j ≡ some (null, j))
unfolding load_prev mpmc_list_del_head add_tail_locked
add_tail_locked-lost h head tail a x xs q (v, vs) apart =
    let g = without h head tail in
    let k = linked g a tail x in
    let c : IsCut k head tail = record {
      last = x;
      forth = ground (arith, q.apart);
      back = ground arith;
      other = ground arith;
      last_node = ground arith;
    } in
    let (j, run, c') =
      add_all-IsCut k head tail xs c q.tail_ne
        (AreNew-kept h k head tail xs (λ y n. ground arith) vs) in
    (
      g,
      k,
      j,
      ground (arith, q.chain),
      ground (arith, q.chain, q.tail_out),
      ground (arith, q.chain, q.tail_out),
      run,
      ground (arith, c'.forth),
    )
