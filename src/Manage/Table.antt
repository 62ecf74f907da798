-- ===== src/Manage/Table.antt =====
-- The free elements of the socket table (network/src/xy_manage.cc).
use dpdk_tcp.Prelude.{
  ℕ, zero, suc, ◌+◌, ◌≤◌, ◌<◌, ◌≡◌, ◌≢◌, refl, ap, arith, Bool-cases, inl, inr, ◌==◌, pos, some,
  List, [], ◌∷◌, ◌++◌, ◌∉◌, has-append, update,
}
use dpdk_tcp.XyList.{Ptr, null, XyListNode, xy_list_init}
use dpdk_tcp.XyList.Chain.{IsRing, Chain-frame}
use dpdk_tcp.XyList.Ring.{IsNode, xy_list_add_tail-IsRing}
use dpdk_tcp.XyList.Delete.{xy_list_init-IsRing}
use dpdk_tcp.Port.{xy_max_tcp}
use dpdk_tcp.World.{World, System}
use dpdk_tcp.World.Memory.{on_links, on_lists, put_links, modify_map}
use dpdk_tcp.Manage.{unused, release_map, init_loop, xy_socket_map_init}

-- The elements of `__socket_maps` are objects of their own, apart from the head of the free list.
pub record TableLayout (sys : System) : Type 0 where
  pub apart : (i j : ℕ) → i < 65536 → j < 65536 → sys.socket_maps i ≡ sys.socket_maps j → i ≡ j
  pub own : (i : ℕ) → i < 65536 → sys.socket_maps i ≢ sys.free_sock_maps

module _ (sys : System) where
  -- The elements from the i-th on.
  abbrev pub elements : ℕ → ℕ → List Ptr
  elements i zero = []
  elements i (suc n) = sys.socket_maps i ∷ elements (i + 1) n

  -- The links of a node outside a list may be written.
  pub IsRing-put_links :
      (h : XyListNode) (head p n v : Ptr) (xs : List Ptr)
      → IsRing h head xs
      → p ∉ head ∷ xs
      → IsRing (record { next = update h.next p (some n); prev = update h.prev p (some v) }) head xs
  IsRing-put_links h head p n v xs (c, d) out = (
    Chain-frame h (record { next = update h.next p (some n); prev = update h.prev p (some v) }) head
        head xs c (λ a m. ground arith) (λ a m. ground (arith, has-append a xs (head ∷ []))),
    d,
  )

  -- An element that is in no list goes to the end of the free list.
  pub release_map-IsRing :
      (w : World) (i : ℕ) (xs : List Ptr)
      → IsRing w.lists.node sys.free_sock_maps xs
      → sys.socket_maps i ∉ sys.free_sock_maps ∷ xs
      → (g : XyListNode) × (release_map sys i w
          ≡ some (
            tt,
            record w {
              lists = record (w.lists) { node = g };
              maps = update w.maps (sys.socket_maps i) (unused i);
            },
          ))
        × IsRing g sys.free_sock_maps (xs ++ (sys.socket_maps i ∷ []))
  unfolding release_map modify_map put_links on_links on_lists
  release_map-IsRing w i xs ring out =
      let p = sys.socket_maps i in
      let h = w.lists.node in
      let h' : XyListNode = record {
        next = update h.next p (some null);
        prev = update h.prev p (some null);
      } in
      let (g, run, ring', keep) =
        xy_list_add_tail-IsRing h' sys.free_sock_maps p xs
          (IsRing-put_links h sys.free_sock_maps p null null xs ring out)
          (ground arith, ground arith) out in
      (g, ground (arith, run), ring')

  elements-out :
      TableLayout sys → (i j n : ℕ) → i + n ≤ j → j < 65536 → sys.socket_maps j ∉ elements i n
  elements-out layout i j zero le lt = refl
  elements-out layout i j (suc n) le lt =
      let other : sys.socket_maps j ≢ sys.socket_maps i =
        λ e. (let q = layout.apart j i lt (omega arith) e in omega arith) in
      ground (arith, elements-out layout (i + 1) j n (omega arith) lt)

  elements-snoc :
      (i n j : ℕ) → i + n ≡ j → elements i n ++ (sys.socket_maps j ∷ []) ≡ elements i (n + 1)
  elements-snoc i zero j e = let q : i ≡ j = omega arith in rw q refl
  elements-snoc i (suc n) j e =
      let q : suc n + 1 ≡ suc (n + 1) = omega arith in
      rw q (ap (λ t. sys.socket_maps i ∷ t) (elements-snoc (i + 1) n j (omega arith)))

  -- The loop goes on from the i-th element, with k rounds left.
  init_loop-IsRing :
      TableLayout sys
      → (k i n : ℕ) (w : World) → i + k ≡ n
      → n ≤ 65536
      → IsRing w.lists.node sys.free_sock_maps (elements 0 i)
      → ((j : ℕ) → j < i → w.maps (sys.socket_maps j) ≡ unused j)
      → (w' : World) × (init_loop sys k i w ≡ some (tt, w'))
        × IsRing w'.lists.node sys.free_sock_maps (elements 0 n)
        × ((j : ℕ) → j < n → w'.maps (sys.socket_maps j) ≡ unused j)
  unfolding init_loop
  init_loop-IsRing layout zero i n w e le ring all =
      let q : n ≡ i = omega arith in (w, ground arith, rw q ring, rw q all)
  init_loop-IsRing layout (suc k) i n w e le ring all =
      let own = layout.own i (omega arith) in
      let (g, run, ring') =
        release_map-IsRing w i (elements 0 i) ring
          (ground (arith, elements-out layout 0 i i (omega arith) (omega arith))) in
      let v = record w {
        lists = record (w.lists) { node = g };
        maps = update w.maps (sys.socket_maps i) (unused i);
      } in
      let all' : (j : ℕ) → j < i + 1 → v.maps (sys.socket_maps j) ≡ unused j = λ j lt.
        elim (Bool-cases (j == i)) [
          | inl q ↦ (let same : j ≡ i = ground (arith, q) in ground arith)
          | inr q ↦
              (let other : sys.socket_maps i ≢ sys.socket_maps j = λ p.
                  (let r = layout.apart i j (omega arith) (omega arith) p in ground (arith, q)) in
                ground (arith, all j (ground (arith, q))))
        ] in
      let (w', run', ring'', all'') =
        init_loop-IsRing layout k (i + 1) n v (omega arith) le
          (rw (elements-snoc 0 i i (omega arith)) at ring') all' in
      (w', ground (arith, run, run'), ring'', all'')

  xy_socket_map_init-run :
      (w w' : World) (g : XyListNode)
      → xy_list_init sys.free_sock_maps w.lists.node ≡ some (tt, g)
      → init_loop sys xy_max_tcp 0 (record w { lists = record (w.lists) { node = g } })
        ≡ some (tt, w')
      → xy_socket_map_init sys w ≡ some (pos 0, w')
  unfolding xy_socket_map_init on_links on_lists
  xy_socket_map_init-run w w' g init run = ground (arith, init, run)

  -- After the initialisation every element of the table is on the free list, in the order of the
  -- ids, and each has its own id and is unused. The loop ends, and returns 0. The elements are objects
  -- of their own, apart from the head of the list, which is a node.
  pub xy_socket_map_init-IsRing :
      TableLayout sys
      → (w : World) → IsNode w.lists.node sys.free_sock_maps
      → (w' : World) × (xy_socket_map_init sys w ≡ some (pos 0, w'))
        × IsRing w'.lists.node sys.free_sock_maps (elements 0 65536)
        × ((id : ℕ) → id < 65536 → w'.maps (sys.socket_maps id) ≡ unused id)
  xy_socket_map_init-IsRing layout w node =
      let (g, init, ring) = xy_list_init-IsRing w.lists.node sys.free_sock_maps node in
      let (w', run, ring', all) =
        init_loop-IsRing layout 65536 0 65536 (record w { lists = record (w.lists) { node = g } })
          refl (omega arith) ring (λ j lt. absurd (omega arith)) in
      (w', xy_socket_map_init-run w w' g init run, ring', all)
