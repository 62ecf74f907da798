-- ===== src/Epoll/Close.antt =====
-- What `xy_epoll_close_socket` of network/src/xy_epoll.cc frees.
use dpdk_tcp.Prelude.{
  ℕ, zero, suc, ◌<◌, ◌≡◌, ◌≢◌, refl, ◌∙◌, sym, ap, arith, false, leb, pos, Option, none, some, List,
  [], ◌∷◌, length, ◌∉◌, update,
}
use dpdk_tcp.XyList.{Ptr, null, XyListNode}
use dpdk_tcp.XyList.Chain.{IsRing}
use dpdk_tcp.XyList.Delete.{xy_list_take_head-IsRing, xy_list_is_empty-IsRing}
use dpdk_tcp.Port.{xy_max_tcp}
use dpdk_tcp.World.{World, System, XyEventPoll, XyEpollItem, XySocketMap}
use dpdk_tcp.Wnd.Mbuf.{XyMbufStore}
use dpdk_tcp.World.Memory.{on_links, on_lists, load_poll, modify_poll, load_map}
use dpdk_tcp.Manage.{event_poll_of_id, xy_get_event_poll_by_id, map_of_id, free_poll}
use dpdk_tcp.Epoll.Ctl.{remove_from, free_item}
use dpdk_tcp.Epoll.Destroy.{drain_ready, remove_items, epoll_destroy, xy_epoll_close_socket}
use dpdk_tcp.Epoll.Tree.{RbTree, IsOrdered, Above, key, IsOrdered-update}

-- The memory holds none of the items any more.
abbrev pub AllFreed : (Ptr → Option XyEpollItem) → List Ptr → Type 0
AllFreed items [] = Unit
AllFreed items (x ∷ xs) = (items x ≡ none) × AllFreed items xs

-- An item with a smaller id than all others is not among them.
Above-out :
    (items : Ptr → Option XyEpollItem) (x : Ptr) (k : ℕ) (t : List Ptr)
    → key items x ≡ k
    → Above items k t
    → x ∉ t
Above-out items x k [] e above = refl
Above-out items x k (y ∷ t) e (lt, above) =
    let rest = Above-out items x k t e above in
    let other : x ≢ y =
      λ q. (let e' : key items y ≡ k = sym (ap (key items) q) ∙ e in omega arith) in
    ground arith

module _ (sys : System) (ep : Ptr) where
  -- The memory without the first item, and its tree.
  abbrev without : World → XyEventPoll → Ptr → List Ptr → World
  without w p x t = record w {
    polls = update w.polls ep (some (record p { rb_tree = t }));
    items = update w.items x none;
  }

  remove_items-AllFreed :
      RbTree sys
      → (k : ℕ) (w : World) (p : XyEventPoll) (t : List Ptr) → w.polls ep ≡ some p
      → p.rb_tree ≡ t
      → IsOrdered w.items t
      → length t < k
      → (w' : World) × (remove_items sys k ep w ≡ some (tt, w'))
        × (w'.polls ep ≡ some (record p { rb_tree = [] }))
        × AllFreed w'.items t
        × ((a : Ptr) → a ∉ t → w'.items a ≡ w.items a)
        × (w'.maps ≡ w.maps)
        × (w'.lists ≡ w.lists)
  unfolding remove_items load_poll remove_from modify_poll free_item
  remove_items-AllFreed laws zero w p t e tree ordered lt = ground arith
  remove_items-AllFreed laws (suc k) w p [] e tree ordered lt =
      (w, ground (arith, laws.min_empty), ground arith, tt, (λ a o. refl), refl, refl)
  remove_items-AllFreed laws (suc k) w p (x ∷ t) e tree (item, above, ordered) lt =
      let out = Above-out w.items x (key w.items x) t refl above in
      let first = laws.min_first w.items x t (item, above, ordered) in
      let taken = laws.remove_old w.items (x ∷ t) x (item, above, ordered) (ground arith) in
      let (w', run, poll, freed, others, maps, lists) =
        remove_items-AllFreed laws k (without w p x t) (record p { rb_tree = t }) t (ground arith)
          refl (IsOrdered-update w.items x none t out ordered) (omega arith) in
      (
        w',
        ground (arith, first, taken, run, item.0),
        poll,
        (others x out ∙ ground arith, freed),
        (λ a o. others a (ground arith) ∙ ground arith),
        maps,
        lists,
      )

  drain_ready-empty :
      (k : ℕ) (w : World) (xs : List Ptr)
      → IsRing w.lists.node (sys.ready_list ep) xs
      → length xs < k
      → (g : XyListNode) × (drain_ready sys k ep w
          ≡ some (tt, record w { lists = record (w.lists) { node = g } }))
        × IsRing g (sys.ready_list ep) []
  unfolding drain_ready on_links on_lists
  drain_ready-empty zero w xs ring lt = ground arith
  drain_ready-empty (suc k) w [] ring lt = (
    w.lists.node,
    ground (arith, xy_list_is_empty-IsRing w.lists.node (sys.ready_list ep) [] ring),
    ring,
  )
  drain_ready-empty (suc k) w (x ∷ xs) ring lt =
      let (g, take, ring') = xy_list_take_head-IsRing w.lists.node (sys.ready_list ep) x xs ring in
      let (g', run, empty) =
        drain_ready-empty k (record w { lists = record (w.lists) { node = g } }) xs ring'
          (omega arith) in
      (
        g',
        ground (
          arith,
          xy_list_is_empty-IsRing w.lists.node (sys.ready_list ep) (x ∷ xs) ring,
          take,
          run,
        ),
        empty,
      )

  remove_items-freed : (k : ℕ) (w : World) → w.polls ep ≡ none → remove_items sys k ep w ≡ none
  unfolding remove_items load_poll
  remove_items-freed zero w e = ground arith
  remove_items-freed (suc k) w e = ground arith

  -- Closing a poll ends, whatever is on its ready list and in its tree, within as many rounds as
  -- they are long: it returns 0, every item of the tree is freed, and so is the poll. The table still
  -- has the poll's address for the id: closing the same id again reads memory that was freed. The id
  -- leads to a poll whose tree is in order, and the tree operations do what their library says.
  pub xy_epoll_close_socket-AllFreed :
      RbTree sys
      → (w : World) (id : ℕ) (p : XyEventPoll) (xs : List Ptr) → leb xy_max_tcp id ≡ false
      → (w.maps (sys.socket_maps id)).event_poll ≡ ep
      → ep ≢ null
      → w.polls ep ≡ some p
      → IsOrdered w.items p.rb_tree
      → IsRing w.lists.node (sys.ready_list ep) xs
      → length xs < sys.rounds
      → length p.rb_tree < sys.rounds
      → (w' : World) × (xy_epoll_close_socket sys (pos id) w ≡ some (pos 0, w'))
        × AllFreed w'.items p.rb_tree
        × (w'.polls ep ≡ none)
        × (xy_epoll_close_socket sys (pos id) w' ≡ none)
  unfolding xy_epoll_close_socket event_poll_of_id xy_get_event_poll_by_id map_of_id load_map
      epoll_destroy free_poll
  xy_epoll_close_socket-AllFreed laws w id p xs bound its not_null there ordered ring few few' =
      let (g, run, empty) = drain_ready-empty sys.rounds w xs ring few in
      let v = record w { lists = record (w.lists) { node = g } } in
      let (w', run', poll, freed, others, maps, lists) =
        remove_items-AllFreed laws sys.rounds v p p.rb_tree there refl ordered few' in
      let end = record w' { polls = update w'.polls ep none } in
      let maps' : (w'.maps (sys.socket_maps id)).event_poll ≡ ep =
        ap (λ (m : Ptr → XySocketMap). (m (sys.socket_maps id)).event_poll) maps ∙ its in
      let node : w'.lists.node ≡ g = ap (λ (l : XyMbufStore). l.node) lists in
      let ring' : IsRing w'.lists.node (sys.ready_list ep) [] = rw node empty in
      let few_none : 0 < sys.rounds = omega arith in
      let (g', again, empty') = drain_ready-empty sys.rounds end [] ring' few_none in
      (
        end,
        ground (arith, run, run'),
        freed,
        ground arith,
        ground (
          arith,
          again,
          remove_items-freed sys.rounds (record end { lists = record (end.lists) { node = g' } })
              (ground arith),
        ),
      )
