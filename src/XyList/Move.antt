-- ===== src/XyList/Move.antt =====
-- Two lists of network/include/xy_list.h in one store: a node that leaves one and joins the other.
use dpdk_tcp.Prelude.{
  ◌≡◌, some, List, [], ◌∷◌, ◌++◌, arith, ◌∈◌, ◌∉◌, has-append, Distinct, false, ◌==◌,
}
use dpdk_tcp.XyList.{Ptr, XyListNode, xy_list_del, xy_list_add_head, xy_list_take_head}
use dpdk_tcp.XyList.Chain.{IsRing, Chain-frame}
use dpdk_tcp.XyList.Ring.{SameNode, between, front, xy_list_add_head-front}
use dpdk_tcp.XyList.Delete.{without, sides, Chain-without, Distinct-without}

-- The lists share no node.
abbrev pub Apart : List Ptr → List Ptr → Type 0
Apart [] ys = Unit
Apart (x ∷ xs) ys = (x ∉ ys) × Apart xs ys

pub Apart-left : (xs ys : List Ptr) (a : Ptr) → Apart xs ys → a ∈ xs → a ∉ ys
Apart-left [] ys a p m = absurd (ground (arith, m))
Apart-left (x ∷ xs) ys a (o, p) m = ground (arith, Apart-left xs ys a p)

pub Apart-right : (xs ys : List Ptr) (a : Ptr) → Apart xs ys → a ∈ ys → a ∉ xs
Apart-right [] ys a p m = ground arith
Apart-right (x ∷ xs) ys a (o, p) m = ground (arith, Apart-right xs ys a p)

ne-of-mem : (xs : List Ptr) (a n : Ptr) → a ∉ xs → n ∈ xs → (a == n) ≡ false
ne-of-mem xs a n out m = ground arith

-- Writes at nodes outside a list spare it.
without-IsRing :
    (h : XyListNode) (a b head : Ptr) (zs : List Ptr)
    → IsRing h head zs
    → a ∉ head ∷ zs
    → b ∉ head ∷ zs
    → IsRing (without h a b) head zs
without-IsRing h a b head zs (c, d) oa ob = (
  Chain-frame h (without h a b) head head zs c (λ n m. ground (arith, ne-of-mem (head ∷ zs) a n))
      (λ n m. ground (arith, ne-of-mem (head ∷ zs) b n, has-append n zs (head ∷ []))),
  d,
)

pub between-IsRing :
    (h : XyListNode) (p f new head : Ptr) (zs : List Ptr)
    → IsRing h head zs
    → p ∉ head ∷ zs
    → f ∉ head ∷ zs
    → new ∉ head ∷ zs
    → IsRing (between h p f new) head zs
between-IsRing h p f new head zs (c, d) op of on = (
  Chain-frame h (between h p f new) head head zs c
      (λ n m. ground (arith, ne-of-mem (head ∷ zs) p n, ne-of-mem (head ∷ zs) new n))
      (λ n m. ground (
        arith,
        ne-of-mem (head ∷ zs) f n,
        ne-of-mem (head ∷ zs) new n,
        has-append n zs (head ∷ []),
      )),
  d,
)

pub front-mem : (head : Ptr) (zs : List Ptr) → front head zs ∈ head ∷ zs
front-mem head [] = ground arith
front-mem head (z ∷ zs) = ground arith

Apart-without :
    (x p : Ptr) (xs ys zs : List Ptr) → Apart (p ∷ xs ++ (x ∷ ys)) zs → Apart (p ∷ xs ++ ys) zs
Apart-without x p [] ys zs (o, (o', a)) = (o, a)
Apart-without x p (w ∷ xs) ys zs (o, a) = (o, Apart-without x w xs ys zs a)

not-mem-without : (x p : Ptr) (xs ys : List Ptr) → Distinct (p ∷ xs ++ (x ∷ ys)) → x ∉ p ∷ xs ++ ys
not-mem-without x p [] ys d = ground arith
not-mem-without x p (w ∷ xs) ys d =
    ground
      (arith, not-mem-without x w xs ys, has-append p xs (x ∷ ys), has-append p (w ∷ xs) (x ∷ ys))

-- A node of one list is deleted from it and added at the head of another list, which shares no node
-- with the first: both calls return, and both lists stay rings.
pub xy_list_del-xy_list_add_head :
    (h : XyListNode) (from to x : Ptr) (xs ys zs : List Ptr)
    → IsRing h from (xs ++ (x ∷ ys))
    → IsRing h to zs
    → Apart (from ∷ xs ++ (x ∷ ys)) (to ∷ zs)
    → (g : XyListNode) × (k : XyListNode) × (xy_list_del x h ≡ some (tt, g))
      × (xy_list_add_head to x g ≡ some (tt, k))
      × IsRing k from (xs ++ ys)
      × IsRing k to (x ∷ zs)
unfolding xy_list_del
xy_list_del-xy_list_add_head h from to x xs ys zs (c, d) other apart =
    elim (Chain-without h x from from xs ys c d d.0) [
      | sides a b before after ma mb linked ↦
          let all = from ∷ xs ++ (x ∷ ys) in
          let oa : a ∉ to ∷ zs =
            Apart-left all (to ∷ zs) a apart (ground (arith, has-append a xs (x ∷ ys))) in
          let ob : b ∉ to ∷ zs =
            Apart-left all (to ∷ zs) b apart
              (ground (arith, has-append b xs (x ∷ ys), has-append b ys (from ∷ []))) in
          let ox : x ∉ to ∷ zs =
            Apart-left all (to ∷ zs) x apart (ground (arith, has-append x xs (x ∷ ys))) in
          let g = without h a b in
          let (run, ring) =
            xy_list_add_head-front g to x zs (without-IsRing h a b to zs other oa ob) (ground arith)
              ox in
          let rest = Apart-without x from xs ys (to ∷ zs) apart in
          (
            g,
            between g to (front to zs) x,
            ground arith,
            run,
            between-IsRing g to (front to zs) x from (xs ++ ys)
                (linked, Distinct-without from x xs ys d)
                (Apart-right (from ∷ xs ++ ys) (to ∷ zs) to rest (ground arith))
                (Apart-right (from ∷ xs ++ ys) (to ∷ zs) (front to zs) rest (front-mem to zs))
                (not-mem-without x from xs ys d),
            ring,
          )
    ]

-- The first node of one list taken out, in the presence of another list.
pub xy_list_take_head-Apart :
    (h : XyListNode) (from to x : Ptr) (xs zs : List Ptr)
    → IsRing h from (x ∷ xs)
    → IsRing h to zs
    → Apart (from ∷ x ∷ xs) (to ∷ zs)
    → (g : XyListNode) × (xy_list_take_head from h ≡ some (x, g))
      × IsRing g from xs
      × IsRing g to zs
      × ((a : Ptr) → SameNode h g a)
unfolding xy_list_take_head xy_list_del
xy_list_take_head-Apart h from to x xs zs (c, d) other apart =
    elim (Chain-without h x from from [] xs c d d.0) [
      | sides a b before after ma mb linked ↦
          let all = from ∷ x ∷ xs in
          let oa : a ∉ to ∷ zs = Apart-left all (to ∷ zs) a apart (ground arith) in
          let ob : b ∉ to ∷ zs =
            Apart-left all (to ∷ zs) b apart (ground (arith, has-append b xs (from ∷ []))) in
          (
            without h a b,
            ground (arith, c),
            (linked, Distinct-without from x [] xs d),
            without-IsRing h a b to zs other oa ob,
            (λ a. ground arith),
          )
    ]
