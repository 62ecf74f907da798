-- ===== src/XyList/Delete.antt =====
-- Removal from the lists of network/include/xy_list.h, and the test for an empty list.
use dpdk_tcp.Prelude.{
  ◌≡◌, some, List, [], ◌∷◌, ◌++◌, arith, ◌∈◌, ◌∉◌, has-append, update, Distinct, true, false,
}
use mathlib.Core.List.{append-nil}
use dpdk_tcp.XyList.{
  Ptr, XyListNode, xy_list_del, xy_list_take_head, xy_list_take_tail, xy_list_is_empty,
  xy_list_init,
}
use dpdk_tcp.XyList.Chain.{Edge, Chain, IsRing, Chain-frame}
use dpdk_tcp.XyList.Ring.{IsNode, SameNode}

-- The store after `a` and `b` are linked with what stood between them left out.
abbrev pub without : XyListNode → Ptr → Ptr → XyListNode
without h a b = record { next = update h.next a (some b); prev = update h.prev b (some a) }

-- The nodes on both sides of one node of a chain.
pub data Sides (h : XyListNode) (p x e : Ptr) (xs ys : List Ptr) : Type 0 where
  sides :
      (a b : Ptr)
      → Edge h a x
      → Edge h x b
      → a ∈ p ∷ xs
      → b ∈ ys ++ (e ∷ [])
      → Chain (without h a b) p (xs ++ ys) e
      → Sides h p x e xs ys

pub Chain-without :
    (h : XyListNode) (x e p : Ptr) (xs ys : List Ptr)
    → Chain h p (xs ++ (x ∷ ys)) e
    → Distinct (p ∷ xs ++ (x ∷ ys))
    → e ∉ xs ++ (x ∷ ys)
    → Sides h p x e xs ys
Chain-without h x e p [] [] (edge, c) d out =
    sides p e edge c (ground arith) (ground arith) (ground arith)
Chain-without h x e p [] (y ∷ ys) (edge, (after, c)) d out =
    sides p y edge after (ground arith) (ground arith) (
      ground arith,
      Chain-frame h (without h p y) e y ys c (λ a m. ground arith)
          (λ a m. ground (arith, has-append a ys (e ∷ []), has-append y ys (e ∷ []))),
    )
Chain-without h x e p (z ∷ xs) ys (edge, c) d out =
    elim (Chain-without h x e z xs ys c (ground arith) (ground arith)) [
      | sides a b before after ma mb linked ↦ sides a b before after (ground arith) mb (
        ground
            (arith, has-append p xs (x ∷ ys), has-append z xs (x ∷ ys), has-append z ys (e ∷ [])),
        linked,
      )
    ]

pub Distinct-without :
    (p x : Ptr) (xs ys : List Ptr) → Distinct (p ∷ xs ++ (x ∷ ys)) → Distinct (p ∷ xs ++ ys)
Distinct-without p x [] ys d = ground arith
Distinct-without p x (z ∷ xs) ys d =
    let rest = Distinct-without z x xs ys (ground arith) in
    ground (arith, has-append p xs (x ∷ ys), has-append p xs ys, rest)

-- `xy_list_del` returns, takes its node out of the list that it stands in, wherever it stands, and
-- every node stays a node.
pub xy_list_del-IsRing :
    (h : XyListNode) (head x : Ptr) (xs ys : List Ptr)
    → IsRing h head (xs ++ (x ∷ ys))
    → (g : XyListNode) × (xy_list_del x h ≡ some (tt, g))
      × IsRing g head (xs ++ ys)
      × ((a : Ptr) → SameNode h g a)
unfolding xy_list_del
xy_list_del-IsRing h head x xs ys (c, d) = elim (Chain-without h x head head xs ys c d d.0) [
  | sides a b before after ma mb linked ↦
      (without h a b, ground arith, (linked, Distinct-without head x xs ys d), (λ a. ground arith))
]

-- `xy_list_take_head` returns the first node of a list that has one, and leaves the rest.
pub xy_list_take_head-IsRing :
    (h : XyListNode) (head x : Ptr) (xs : List Ptr)
    → IsRing h head (x ∷ xs)
    → (g : XyListNode) × (xy_list_take_head head h ≡ some (x, g)) × IsRing g head xs
unfolding xy_list_take_head
xy_list_take_head-IsRing h head x xs r =
    let (g, eq, r', keep) = xy_list_del-IsRing h head x [] xs r in
    (g, ground (arith, eq, r.0.0), r')

-- `xy_list_take_tail` returns the last node of a list that has one, and leaves the rest.
pub xy_list_take_tail-IsRing :
    (h : XyListNode) (head x : Ptr) (xs : List Ptr)
    → IsRing h head (xs ++ (x ∷ []))
    → (g : XyListNode) × (xy_list_take_tail head h ≡ some (x, g)) × IsRing g head xs
unfolding xy_list_take_tail
xy_list_take_tail-IsRing h head x xs r =
    let (g, eq, r', keep) = xy_list_del-IsRing h head x xs [] r in
    (g, ground (arith, eq, prev_of_last h head x xs head r.0), rw append-nil at r')
  where
    prev_of_last :
        (h : XyListNode) (e x : Ptr) (xs : List Ptr) (p : Ptr)
        → Chain h p (xs ++ (x ∷ [])) e
        → h.prev e ≡ some x
    prev_of_last h e x [] p (_, (_, v)) = v
    prev_of_last h e x (y ∷ xs) p (_, c) = prev_of_last h e x xs y c

-- From an empty list `xy_list_take_head` returns the list's own head, and changes no link.
pub xy_list_take_head-nil :
    (h : XyListNode) (head : Ptr)
    → IsRing h head []
    → (g : XyListNode) × (xy_list_take_head head h ≡ some (head, g)) × IsRing g head []
unfolding xy_list_take_head
xy_list_take_head-nil h head ((n, v), d) = (without h head head, ground arith, ground arith)

-- `xy_list_is_empty` tells the empty list from the others, and changes nothing.
pub xy_list_is_empty-IsRing :
    (h : XyListNode) (head : Ptr) (xs : List Ptr)
    → IsRing h head xs
    → xy_list_is_empty head h ≡ some (elim xs [ [] ↦ true | x ∷ r ↦ false ], h)
unfolding xy_list_is_empty
xy_list_is_empty-IsRing h head [] (c, d) = ground arith
xy_list_is_empty-IsRing h head (x ∷ xs) ((edge, c), d) = ground arith

-- `xy_list_init` makes of any node an empty list.
pub xy_list_init-IsRing :
    (h : XyListNode) (head : Ptr)
    → IsNode h head
    → (g : XyListNode) × (xy_list_init head h ≡ some (tt, g)) × IsRing g head []
unfolding xy_list_init
xy_list_init-IsRing h head node = (
  record { next = update h.next head (some head); prev = update h.prev head (some head) },
  ground arith,
  ground arith,
)
