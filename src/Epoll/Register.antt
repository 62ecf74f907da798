-- ===== src/Epoll/Register.antt =====
-- `xy_epoll_ctl` of network/src/xy_epoll.cc: a socket put into a poll, and taken out again.
use dpdk_tcp.Prelude.{
  ℕ, ◌+◌, ◌<◌, ◌≡◌, ◌≢◌, refl, ◌∙◌, sym, ap, arith, false, leb, pos, Option, none, some, ◌∉◌,
  update,
}
use dpdk_tcp.XyList.{Ptr, null}
use dpdk_tcp.Port.{xy_max_tcp}
use dpdk_tcp.World.{World, System, XyEventPoll, XyEpollItem}
use dpdk_tcp.World.Memory.{load_poll, modify_poll, modify_item, load_map, malloc, put_links}
use dpdk_tcp.Manage.{event_poll_of_id, xy_get_event_poll_by_id, map_of_id}
use dpdk_tcp.Epoll.Ctl.{
  XyEpollEvent, xy_epoll_ctl_add, xy_epoll_ctl_del, find_item, insert_into, remove_from,
  allocate_item, free_item, ctl_add, ctl_del, ctl_op, xy_epoll_ctl,
}
use dpdk_tcp.Epoll.Tree.{
  RbTree, IsOrdered, insert, find_key, key, id_of, IsOrdered-update, IsOrdered-insert,
  find_key-update, find_key-insert, remove-insert, has-insert,
}

-- The id of a poll, which is in the table, and a socket's id.
pub record Addresses (sys : System) (w : World) (id sock : ℕ) (ep : Ptr) (p : XyEventPoll)
    : Type 0 where
  pub in_table : leb xy_max_tcp id ≡ false
  pub its_poll : (w.maps (sys.socket_maps id)).event_poll ≡ ep
  pub not_null : ep ≢ null
  pub a_socket : sock ≢ 0
  pub poll : w.polls ep ≡ some p
  pub ordered : IsOrdered w.items p.rb_tree

-- The socket is not registered, and there is memory for an item at `q`.
pub record IsNew (sys : System) (w : World) (sock : ℕ) (p : XyEventPoll) (q : Ptr) : Type 0 where
  pub int : sock < 2147483648
  pub absent : find_key w.items p.rb_tree sock ≡ null
  pub memory : sys.malloc w.mallocs ≡ q
  pub not_null : q ≢ null
  pub fresh : q ∉ p.rb_tree

module _ (sys : System) (laws : RbTree sys) (w : World) (id sock : ℕ) (ep : Ptr)
    (p : XyEventPoll) where
  abbrev pub item_for : ℕ → XyEpollEvent → XyEpollItem
  item_for s e = record (sys.uninitialised_item) {
    sock_id = s;
    events = e.events;
    event_data = e.event_data;
  }

  -- The items with the new one.
  abbrev with_item : Ptr → XyEpollEvent → Ptr → Option XyEpollItem
  with_item q e = update (update w.items q (some sys.uninitialised_item)) q (some (item_for sock e))

  abbrev pub tree_with : Ptr → XyEpollEvent → XyEventPoll
  tree_with q e = record p { rb_tree = insert (with_item q e) q p.rb_tree; rb_num = p.rb_num + 1 }

  -- The memory after `XY_EPOLL_CTL_ADD`.
  abbrev added : Ptr → XyEpollEvent → World
  added q e = record w {
    items = with_item q e;
    mallocs = w.mallocs + 1;
    lists = record (w.lists) {
      node = record {
        next = update w.lists.node.next q (some sys.uninitialised_link);
        prev = update w.lists.node.prev q (some sys.uninitialised_link);
      };
    };
    polls =
        update
          (update w.polls ep (some (record p { rb_tree = insert (with_item q e) q p.rb_tree }))) ep
          (some (tree_with q e));
  }

  IsOrdered-added :
      (q : Ptr) (e : XyEpollEvent)
      → IsOrdered w.items p.rb_tree
      → q ∉ p.rb_tree
      → IsOrdered (with_item q e) p.rb_tree
  IsOrdered-added q e ordered fresh =
      IsOrdered-update (update w.items q (some sys.uninitialised_item)) q (some (item_for sock e))
        p.rb_tree fresh
        (IsOrdered-update w.items q (some sys.uninitialised_item) p.rb_tree fresh ordered)

  absent-added :
      (q : Ptr) (e : XyEpollEvent)
      → IsNew sys w sock p q
      → find_key (with_item q e) p.rb_tree sock ≡ null
  absent-added q e new =
      find_key-update (update w.items q (some sys.uninitialised_item)) q (some (item_for sock e))
        p.rb_tree sock new.fresh
      ∙ find_key-update w.items q (some sys.uninitialised_item) p.rb_tree sock new.fresh
      ∙ new.absent

  key-added : (q : Ptr) (e : XyEpollEvent) → key (with_item q e) q ≡ sock
  key-added q e =
      let there : with_item q e q ≡ some (item_for sock e) = ground arith in ap id_of there

  insert-added :
      (q : Ptr) (e : XyEpollEvent)
      → Addresses sys w id sock ep p
      → IsNew sys w sock p q
      → sys.rb_insert (with_item q e) p.rb_tree q ≡ (null, insert (with_item q e) q p.rb_tree)
  insert-added q e a new =
      laws.insert_new (with_item q e) p.rb_tree q (IsOrdered-added q e a.ordered new.fresh)
        (new.not_null, (item_for sock e, ground arith, new.int))
        (ap (find_key (with_item q e) p.rb_tree) (key-added q e) ∙ absent-added q e new)

  ctl_add-added :
      (q : Ptr) (e : XyEpollEvent)
      → Addresses sys w id sock ep p
      → IsNew sys w sock p q
      → ctl_add sys ep sock e w ≡ some (pos 0, added q e)
  unfolding ctl_add load_poll find_item allocate_item malloc put_links modify_item insert_into
      modify_poll
  ctl_add-added q e a new =
      ground (arith, laws.find w.items p.rb_tree sock a.ordered, insert-added q e a new, a, new)

  found-added :
      (q : Ptr) (e : XyEpollEvent)
      → Addresses sys w id sock ep p
      → IsNew sys w sock p q
      → IsOrdered (with_item q e) (tree_with q e).rb_tree
        × (find_key (with_item q e) (tree_with q e).rb_tree sock ≡ q)
  found-added q e a new =
      let ordered = IsOrdered-added q e a.ordered new.fresh in
      let absent = ap (find_key (with_item q e) p.rb_tree) (key-added q e) ∙ absent-added q e new in
      (
        IsOrdered-insert (with_item q e) q p.rb_tree
            (new.not_null, (item_for sock e, ground arith, new.int)) ordered absent,
        sym (ap (find_key (with_item q e) (tree_with q e).rb_tree) (key-added q e))
            ∙ find_key-insert (with_item q e) q p.rb_tree ordered absent,
      )

  -- XY_EPOLL_CTL_ADD of a socket that the poll does not hold returns 0 and puts an item for it in:
  -- the tree stays in order, a look-up of the socket finds the item, which has the event of the call,
  -- and rb_num is one more. The ids lead to a poll, malloc has memory that is not an item of the
  -- tree, and the tree operations do what their library says.
  pub xy_epoll_ctl-add :
      (q : Ptr) (e : XyEpollEvent)
      → Addresses sys w id sock ep p
      → IsNew sys w sock p q
      → (w' : World) × (xy_epoll_ctl sys (pos id) xy_epoll_ctl_add sock (some e) w
          ≡ some (pos 0, w'))
        × ((p' : XyEventPoll) × (w'.polls ep ≡ some p')
            × (p'.rb_num ≡ p.rb_num + 1)
            × IsOrdered w'.items p'.rb_tree
            × (find_key w'.items p'.rb_tree sock ≡ q))
        × (w'.items q ≡ some (item_for sock e))
  unfolding xy_epoll_ctl event_poll_of_id xy_get_event_poll_by_id map_of_id load_map ctl_op
  xy_epoll_ctl-add q e a new =
      let (ordered, found) = found-added q e a new in
      (
        added q e,
        ground (arith, a, ctl_add-added q e a new),
        (tree_with q e, ground arith, refl, ordered, found),
        ground arith,
      )

  ctl_del-added :
      (q : Ptr) (e : XyEpollEvent)
      → Addresses sys w id sock ep p
      → IsNew sys w sock p q
      → (w' : World) × (ctl_del sys ep sock (added q e) ≡ some (pos 0, w'))
        × (w'.polls ep ≡ some p)
        × (w'.items ≡ update (with_item q e) q none)
  unfolding ctl_del load_poll find_item remove_from modify_poll free_item
  ctl_del-added q e a new =
      let t = (tree_with q e).rb_tree in
      let (ordered, found) = found-added q e a new in
      let find = laws.find (with_item q e) t sock ordered ∙ found in
      let taken =
        laws.remove_old (with_item q e) t q ordered (has-insert (with_item q e) q p.rb_tree) in
      let back = remove-insert (with_item q e) q p.rb_tree new.fresh in
      (
        record (added q e) {
          polls =
              update
                (update (added q e).polls ep
                  (some (record (tree_with q e) { rb_tree = p.rb_tree })))
                ep (some p);
          items = update (with_item q e) q none;
        },
        ground (arith, find, taken, back, new),
        ground arith,
        refl,
      )

  -- XY_EPOLL_CTL_ADD of a socket that the poll does not hold and then XY_EPOLL_CTL_DEL of it both
  -- return 0 and leave the poll as it was, its tree in the same order and its rb_num included; the
  -- item is freed, and every other item is as before. The ids lead to a poll, malloc has memory that
  -- is not an item of the tree, and the tree operations do what their library says.
  pub xy_epoll_ctl-add-del :
      (q : Ptr) (e : XyEpollEvent) (event : Option XyEpollEvent)
      → Addresses sys w id sock ep p
      → IsNew sys w sock p q
      → (w' : World) × (w'' : World) × (xy_epoll_ctl sys (pos id) xy_epoll_ctl_add sock (some e) w
          ≡ some (pos 0, w'))
        × (xy_epoll_ctl sys (pos id) xy_epoll_ctl_del sock event w' ≡ some (pos 0, w''))
        × (w''.polls ep ≡ some p)
        × (w''.items q ≡ none)
        × ((x : Ptr) → x ≢ q → w''.items x ≡ w.items x)
  unfolding xy_epoll_ctl event_poll_of_id xy_get_event_poll_by_id map_of_id load_map ctl_op
  xy_epoll_ctl-add-del q e none a new =
      let (w'', run, poll, items) = ctl_del-added q e a new in
      (
        added q e,
        w'',
        ground (arith, a, ctl_add-added q e a new),
        ground (arith, a, run),
        poll,
        ground (arith, items),
        λ x d. ground (arith, items),
      )
  xy_epoll_ctl-add-del q e (some f) a new =
      let (w'', run, poll, items) = ctl_del-added q e a new in
      (
        added q e,
        w'',
        ground (arith, a, ctl_add-added q e a new),
        ground (arith, a, run),
        poll,
        ground (arith, items),
        λ x d. ground (arith, items),
      )
