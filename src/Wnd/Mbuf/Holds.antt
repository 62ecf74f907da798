-- ===== src/Wnd/Mbuf/Holds.antt =====
-- Which packet buffers a list of network/include/xy_list_mbuf.h stands for.
use dpdk_tcp.Prelude.{
  ◌≡◌, refl, some, List, [], ◌∷◌, ◌++◌, arith, ◌∉◌, has-append, update, Distinct,
}
use dpdk_tcp.XyList.{Ptr, XyListNode}
use dpdk_tcp.XyList.Chain.{IsRing}
use dpdk_tcp.XyList.Ring.{IsNode, SameNode, xy_list_add_tail-IsRing}
use dpdk_tcp.XyList.Delete.{xy_list_take_head-IsRing}
use dpdk_tcp.Wnd.Mbuf.{XyMbufStore, xy_mbuf_list_add_tail, xy_mbuf_list_take_head}

module _ (mtod : Ptr → Ptr) where
  -- the nodes of the listed buffers
  abbrev pub mtods : List Ptr → List Ptr
  mtods [] = []
  mtods (m ∷ ms) = mtod m ∷ mtods ms

  -- The node of each listed buffer says that it is the buffer's.
  abbrev pub Carries : XyMbufStore → List Ptr → Type 0
  Carries s [] = Unit
  Carries s (m ∷ ms) = (s.mbuf (mtod m) ≡ m) × Carries s ms

  -- The head stands for a list of these buffers, in order.
  pub record Holds (s : XyMbufStore) (head : Ptr) (ms : List Ptr) : Type 0 where
    pub ring : IsRing s.node head (mtods ms)
    pub carries : Carries s ms

  -- The buffers have nodes of their own, which are in no list that the head stands for.
  abbrev pub AllNodes : XyMbufStore → List Ptr → Type 0
  AllNodes s [] = Unit
  AllNodes s (m ∷ ms) = IsNode s.node (mtod m) × AllNodes s ms

  pub record Fresh (s : XyMbufStore) (head : Ptr) (ms ns : List Ptr) : Type 0 where
    pub nodes : AllNodes s ns
    pub apart : Distinct (head ∷ mtods (ms ++ ns))

  mtods-append : (ms ns : List Ptr) → mtods (ms ++ ns) ≡ mtods ms ++ mtods ns
  mtods-append [] ns = refl
  mtods-append (m ∷ ms) ns = rw (mtods-append ms ns)

  Carries-update :
      (s : XyMbufStore) (h : XyListNode) (m : Ptr) (ms : List Ptr)
      → Carries s ms
      → mtod m ∉ mtods ms
      → Carries (record { node = h; mbuf = update s.mbuf (mtod m) m }) (ms ++ (m ∷ []))
  Carries-update s h m [] c out = ground arith
  Carries-update s h m (n ∷ ms) c out = ground (arith, Carries-update s h m ms)

  pub not-mem-of-Distinct :
      (head m : Ptr) (ms ns : List Ptr)
      → Distinct (head ∷ mtods (ms ++ (m ∷ ns)))
      → mtod m ∉ head ∷ mtods ms
  not-mem-of-Distinct head m [] ns d = ground arith
  not-mem-of-Distinct head m (n ∷ ms) ns d = ground (
    arith,
    not-mem-of-Distinct head m ms ns,
    mtods-append ms (m ∷ ns),
    has-append head (mtods ms) (mtods (m ∷ ns)),
    has-append (mtod n) (mtods ms) (mtods (m ∷ ns)),
  )

  -- `xy_mbuf_list_add_tail` returns, and puts the buffer behind the others; every node stays one.
  pub xy_mbuf_list_add_tail-Holds :
      (s : XyMbufStore) (head m : Ptr) (ms : List Ptr)
      → Holds s head ms
      → IsNode s.node (mtod m)
      → mtod m ∉ head ∷ mtods ms
      → (t : XyMbufStore) × (xy_mbuf_list_add_tail mtod head m s ≡ some (tt, t))
        × Holds t head (ms ++ (m ∷ []))
        × ((a : Ptr) → SameNode s.node t.node a)
  unfolding xy_mbuf_list_add_tail
  xy_mbuf_list_add_tail-Holds s head m ms holds node out =
      let (g, eq, ring, keep) =
        xy_list_add_tail-IsRing s.node head (mtod m) (mtods ms) holds.ring node out in
      (
        record { node = g; mbuf = update s.mbuf (mtod m) m },
        ground (arith, eq),
        record {
          ring = rw (mtods-append ms (m ∷ [])) ring;
          carries = Carries-update s g m ms holds.carries (ground arith);
        },
        keep,
      )

  -- `xy_mbuf_list_take_head` returns the first buffer of a list that has one, and leaves the rest.
  pub xy_mbuf_list_take_head-Holds :
      (s : XyMbufStore) (head m : Ptr) (ms : List Ptr)
      → Holds s head (m ∷ ms)
      → (t : XyMbufStore) × (xy_mbuf_list_take_head head s ≡ some (m, t)) × Holds t head ms
  unfolding xy_mbuf_list_take_head
  xy_mbuf_list_take_head-Holds s head m ms holds =
      let (g, eq, ring) = xy_list_take_head-IsRing s.node head (mtod m) (mtods ms) holds.ring in
      (
        record s { node = g },
        ground (arith, eq, holds.carries),
        record { ring = ring; carries = holds.carries.1 },
      )
