-- ===== src/XyList/Ring.antt =====
-- The operations of network/include/xy_list.h on a head that stands for a list of nodes.
use dpdk_tcp.Prelude.{
  ◌≡◌, ◌≢◌, some, List, [], ◌∷◌, ◌++◌, arith, ◌∈◌, ◌∉◌, has-append, update, Distinct, is_some, true,
}
use dpdk_tcp.XyList.{Ptr, XyListNode, xy_list_add_head, xy_list_add_tail}
use dpdk_tcp.XyList.Chain.{Chain, IsRing, Chain-frame, last-mem}

-- Both link fields of the address can be written.
abbrev pub IsNode : XyListNode → Ptr → Type 0
IsNode h a = (is_some (h.next a) ≡ true) × (is_some (h.prev a) ≡ true)

-- The change of the store makes no node and unmakes none, at this address.
abbrev pub SameNode : XyListNode → XyListNode → Ptr → Type 0
SameNode h g a =
    (is_some (g.next a) ≡ is_some (h.next a)) × (is_some (g.prev a) ≡ is_some (h.prev a))

-- The store after `new` is put between `a` and `b`, which were linked.
abbrev pub between : XyListNode → Ptr → Ptr → Ptr → XyListNode
between h a b new = record {
  next = update (update h.next new (some b)) a (some new);
  prev = update (update h.prev b (some new)) new (some a);
}

xy_list_add_head-between :
    (h : XyListNode) (head new f : Ptr)
    → h.next head ≡ some f
    → h.prev f ≡ some head
    → IsNode h new
    → new ≢ head
    → new ≢ f
    → xy_list_add_head head new h ≡ some (tt, between h head f new)
unfolding xy_list_add_head
xy_list_add_head-between h head new f p q node d e = ground arith

-- The node that comes first after the head.
abbrev pub front : Ptr → List Ptr → Ptr
front head [] = head
front head (x ∷ xs) = x

-- The links after `xy_list_add_head`, written out.
pub xy_list_add_head-front :
    (h : XyListNode) (head new : Ptr) (xs : List Ptr)
    → IsRing h head xs
    → IsNode h new
    → new ∉ head ∷ xs
    → (xy_list_add_head head new h ≡ some (tt, between h head (front head xs) new))
      × IsRing (between h head (front head xs) new) head (new ∷ xs)
xy_list_add_head-front h head new [] ((n, v), d) node out =
    (xy_list_add_head-between h head new head n v node (ground arith) (ground arith), ground arith)
xy_list_add_head-front h head new (x ∷ xs) (((n, v), c), d) node out = (
  xy_list_add_head-between h head new x n v node (ground arith) (ground arith),
  (
    (
      ground arith,
      (
        ground arith,
        Chain-frame h (between h head x new) head x xs c (λ a m. ground arith)
            (λ a m. ground (arith, has-append a xs (head ∷ []), has-append x xs (head ∷ []))),
      ),
    ),
    ground arith,
  ),
)

-- A linked pair stays a pair of nodes when one is put between them.
SameNode-between :
    (h : XyListNode) (head f new a : Ptr)
    → h.next head ≡ some f
    → h.prev f ≡ some head
    → IsNode h new
    → SameNode h (between h head f new) a
SameNode-between h head f new a n v node = ground arith

front-linked :
    (h : XyListNode) (head : Ptr) (xs : List Ptr)
    → IsRing h head xs
    → (h.next head ≡ some (front head xs)) × (h.prev (front head xs) ≡ some head)
front-linked h head [] (c, d) = c
front-linked h head (x ∷ xs) ((edge, c), d) = edge

-- `xy_list_add_head` returns, the new node comes first, and every node stays a node.
pub xy_list_add_head-IsRing :
    (h : XyListNode) (head new : Ptr) (xs : List Ptr)
    → IsRing h head xs
    → IsNode h new
    → new ∉ head ∷ xs
    → (g : XyListNode) × (xy_list_add_head head new h ≡ some (tt, g))
      × IsRing g head (new ∷ xs)
      × ((a : Ptr) → SameNode h g a)
xy_list_add_head-IsRing h head new xs ring node out =
    let (run, ring') = xy_list_add_head-front h head new xs ring node out in
    let (n, v) = front-linked h head xs ring in
    (
      between h head (front head xs) new,
      run,
      ring',
      (λ a. SameNode-between h head (front head xs) new a n v node),
    )

-- Between the last node of a chain and its end there is room for one more.
pub Chain-between :
    (h : XyListNode) (new e l p : Ptr) (xs : List Ptr)
    → Chain h p xs e
    → h.prev e ≡ some l
    → Distinct (p ∷ xs)
    → e ∉ xs
    → new ∉ p ∷ xs
    → new ≢ e
    → Chain (between h l e new) p (xs ++ (new ∷ [])) e
Chain-between h new e l p [] edge eq d out fresh ne =
    let same : p ≡ l = ground arith in (ground arith, ground arith)
Chain-between h new e l p (x ∷ xs) (edge, c) eq d out fresh ne =
    let mem = last-mem h e l p x xs (edge, c) eq in
    (
      ground arith,
      Chain-between h new e l x xs c eq (ground arith) (ground arith) (ground arith) ne,
    )

pub Distinct-snoc :
    (head new : Ptr) (xs : List Ptr)
    → Distinct (head ∷ xs)
    → new ∉ head ∷ xs
    → Distinct (head ∷ xs ++ (new ∷ []))
Distinct-snoc head new [] d out = ground arith
Distinct-snoc head new (x ∷ xs) d out =
    let rest = Distinct-snoc x new xs (ground arith) (ground arith) in
    ground (arith, has-append head xs (new ∷ []), rest)

xy_list_add_tail-between :
    (h : XyListNode) (head new l : Ptr)
    → h.prev head ≡ some l
    → h.next l ≡ some head
    → IsNode h new
    → new ≢ head
    → new ≢ l
    → (g : XyListNode) × (xy_list_add_tail head new h ≡ some (tt, g))
      × ((a : Ptr) → g.next a ≡ (between h l head new).next a)
      × ((a : Ptr) → g.prev a ≡ (between h l head new).prev a)
unfolding xy_list_add_tail
xy_list_add_tail-between h head new l p q node d e = (
  record {
    next = update (update h.next l (some new)) new (some head);
    prev = update (update h.prev new (some l)) head (some new);
  },
  ground arith,
  (λ a. ground arith),
  (λ a. ground arith),
)

-- The node before the head is linked to the head.
pub IsRing-last :
    (h : XyListNode) (e p : Ptr) (xs : List Ptr)
    → Chain h p xs e
    → (l : Ptr) × (h.prev e ≡ some l) × (h.next l ≡ some e) × (l ∈ p ∷ xs)
IsRing-last h e p [] (n, v) = (p, v, n, ground arith)
IsRing-last h e p (x ∷ xs) (edge, c) =
    let (l, v, n, m) = IsRing-last h e x xs c in (l, v, n, ground arith)

-- `xy_list_add_tail` returns, the new node comes last, and every node stays a node.
pub xy_list_add_tail-IsRing :
    (h : XyListNode) (head new : Ptr) (xs : List Ptr)
    → IsRing h head xs
    → IsNode h new
    → new ∉ head ∷ xs
    → (g : XyListNode) × (xy_list_add_tail head new h ≡ some (tt, g))
      × IsRing g head (xs ++ (new ∷ []))
      × ((a : Ptr) → SameNode h g a)
xy_list_add_tail-IsRing h head new xs (c, d) node out =
    let (l, v, n, m) = IsRing-last h head head xs c in
    let (g, eq, same_next, same_prev) =
      xy_list_add_tail-between h head new l v n node (ground arith) (ground arith) in
    let linked = Chain-between h new head l head xs c v d d.0 out (ground arith) in
    (
      g,
      eq,
      (
        Chain-frame (between h l head new) g head head (xs ++ (new ∷ [])) linked
            (λ a _. same_next a) (λ a _. same_prev a),
        Distinct-snoc head new xs d out,
      ),
      (λ a. ground (arith, same_next a, same_prev a)),
    )
