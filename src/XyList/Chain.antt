-- ===== src/XyList/Chain.antt =====
-- Which nodes a list head of network/include/xy_list.h stands for.
use dpdk_tcp.Prelude.{◌≡◌, some, List, [], ◌∷◌, ◌++◌, arith, ◌∈◌, Distinct}
use dpdk_tcp.XyList.{Ptr, XyListNode}

-- `a->next` is `b` and `b->prev` is `a`
abbrev pub Edge : XyListNode → Ptr → Ptr → Type 0
Edge h a b = (h.next a ≡ some b) × (h.prev b ≡ some a)

-- From `p` the links lead through `xs` to `e`, in both directions.
abbrev pub Chain : XyListNode → Ptr → List Ptr → Ptr → Type 0
Chain h p [] e = Edge h p e
Chain h p (x ∷ xs) e = Edge h p x × Chain h x xs e

-- The head stands for the nodes `xs`, in order.
abbrev pub IsRing : XyListNode → Ptr → List Ptr → Type 0
IsRing h head xs = Chain h head xs head × Distinct (head ∷ xs)

-- A change of the store that spares the nodes of a chain.
pub Chain-frame :
    (h g : XyListNode) (e p : Ptr) (xs : List Ptr)
    → Chain h p xs e
    → ((a : Ptr) → a ∈ p ∷ xs → g.next a ≡ h.next a)
    → ((a : Ptr) → a ∈ xs ++ (e ∷ []) → g.prev a ≡ h.prev a)
    → Chain g p xs e
Chain-frame h g e p [] c n v = ground (arith, n p, v e)
Chain-frame h g e p (x ∷ xs) (edge, c) n v = (
  ground (arith, n p, v x, edge),
  Chain-frame h g e x xs c (λ a m. n a (ground arith)) (λ a m. v a (ground arith)),
)

-- The node before the end of a chain that has nodes is one of them.
pub last-mem :
    (h : XyListNode) (e l p x : Ptr) (xs : List Ptr)
    → Chain h p (x ∷ xs) e
    → h.prev e ≡ some l
    → l ∈ x ∷ xs
last-mem h e l p x [] (_, edge) eq = ground (arith, edge)
last-mem h e l p x (y ∷ xs) (_, c) eq = ground (arith, last-mem h e l x y xs c eq)
