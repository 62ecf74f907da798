-- ===== src/Epoll/Signal.antt =====
-- `epoll_event_callback` of network/src/xy_epoll.cc and the ready list.
use dpdk_tcp.Prelude.{
  ℕ, ◌+◌, ◌≡◌, ◌≢◌, refl, arith, true, false, Bool-cases, inl, inr, leb, ◌==◌, if◌then◌else◌, pos,
  some, List, [], ◌∷◌, Option, update, ◌∉◌, bit_or,
}
use dpdk_tcp.XyList.{Ptr, null}
use dpdk_tcp.XyList.Ring.{IsNode, xy_list_add_head-IsRing}
use dpdk_tcp.Port.{xy_max_tcp}
use dpdk_tcp.World.{World, System, XyEventPoll, XyEpollItem}
use dpdk_tcp.World.Memory.{
  on_links, on_lists, load_poll, modify_poll, load_item, modify_item, load_map,
}
use dpdk_tcp.Manage.{xy_get_event_poll_by_id, map_of_id}
use dpdk_tcp.Epoll.{epoll_event_callback}
use dpdk_tcp.Epoll.Ctl.{find_item}
use dpdk_tcp.Epoll.Ready.{AllReady, IsReady}

-- An item that is not marked is not listed.
idle-out :
    (items : Ptr → Option XyEpollItem) (x : Ptr) (i : XyEpollItem) (xs : List Ptr)
    → items x ≡ some i
    → i.ready ≡ 0
    → AllReady items xs
    → x ∉ xs
idle-out items x i [] e idle all = refl
idle-out items x i (y ∷ xs) e idle ((j, f, r), all) =
    ground (arith, idle-out items x i xs e idle all)

-- The items of the list stay listed when one is marked, whether it is in the list or not.
AllReady-mark :
    (items : Ptr → Option XyEpollItem) (x : Ptr) (i : XyEpollItem) (xs : List Ptr)
    → (i.ready == 0) ≡ false
    → AllReady items xs
    → AllReady (update items x (some i)) xs
AllReady-mark items x i [] r all = tt
AllReady-mark items x i (y ∷ xs) r ((j, e, s), all) = (
  elim (Bool-cases (x == y)) [ inl q ↦ (i, ground arith, r) | inr q ↦ (j, ground arith, s) ],
  AllReady-mark items x i xs r all,
)

-- The socket's id leads to the poll `ep`, and in its tree to the item `epi`.
pub record Registered (sys : System) (w : World) (sock : ℕ) (ep epi : Ptr) (i : XyEpollItem)
    : Type 0 where
  pub in_table : leb xy_max_tcp sock ≡ false
  pub its_poll : (w.maps (sys.socket_maps sock)).event_poll ≡ ep
  pub found : (p : XyEventPoll) × (w.polls ep ≡ some p) × (sys.rb_find w.items p.rb_tree sock ≡ epi)
  pub not_null : epi ≢ null
  pub item : w.items epi ≡ some i

-- The item after an event.
abbrev pub signalled : XyEpollItem → ℕ → XyEpollItem
signalled i event =
    if i.ready == 0 then record i { ready = 1 } else record i { events = bit_or i.events event }

module _ (sys : System) (w : World) (sock event : ℕ) (ep epi : Ptr) (i : XyEpollItem)
    (xs : List Ptr) (r : Registered sys w sock ep epi i) (ready : IsReady sys w ep xs) where
  signal-idle :
      (i.ready == 0) ≡ true
      → IsNode w.lists.node epi
      → epi ≢ sys.ready_list ep
      → (w' : World) × (epoll_event_callback sys sock event w ≡ some (pos 0, w'))
        × IsReady sys w' ep (epi ∷ xs)
        × (w'.items epi ≡ some (record i { ready = 1 }))
  unfolding epoll_event_callback xy_get_event_poll_by_id map_of_id load_map load_poll find_item
      load_item modify_item on_links on_lists modify_poll
  signal-idle idle node own =
      let (p, there, find) = r.found in
      let (q, there', count) = ready.poll in
      let out = idle-out w.items epi i xs r.item (ground arith) ready.items in
      let (g, run, ring, same) =
        xy_list_add_head-IsRing w.lists.node (sys.ready_list ep) epi xs ready.ring node
          (ground arith) in
      (
        record w {
          lists = record (w.lists) { node = g };
          items = update w.items epi (some (record i { ready = 1 }));
          polls = update w.polls ep (some (record p { ready_num = p.ready_num + 1 }));
        },
        ground (arith, run),
        record {
          poll = (record p { ready_num = p.ready_num + 1 }, ground arith, ground arith);
          ring = ring;
          items = (
            (record i { ready = 1 }, ground arith, refl),
            AllReady-mark w.items epi (record i { ready = 1 }) xs refl ready.items,
          );
        },
        ground arith,
      )

  signal-marked :
      (i.ready == 0) ≡ false
      → (w' : World) × (epoll_event_callback sys sock event w ≡ some (pos 1, w'))
        × IsReady sys w' ep xs
        × (w'.items epi ≡ some (record i { events = bit_or i.events event }))
  unfolding epoll_event_callback xy_get_event_poll_by_id map_of_id load_map load_poll find_item
      load_item modify_item
  signal-marked marked =
      let (p, there, find) = r.found in
      let j = record i { events = bit_or i.events event } in
      (
        record w { items = update w.items epi (some j) },
        ground arith,
        record {
          poll = ready.poll;
          ring = ready.ring;
          items = AllReady-mark w.items epi j xs marked ready.items;
        },
        ground arith,
      )

  -- On a socket whose poll holds an item for it, an event ends normally and keeps the ready list,
  -- the marks of its items and ready_num in agreement. An item that is not marked is marked, goes to
  -- the front of the list, and 0 is returned; its events stay as they were registered. An item that
  -- is marked gets the event's bits, the list stays, and 1 is returned.
  pub epoll_event_callback-IsReady :
      IsNode w.lists.node epi
      → epi ≢ sys.ready_list ep
      → (w' : World) × (epoll_event_callback sys sock event w
          ≡ some ((if i.ready == 0 then pos 0 else pos 1), w'))
        × IsReady sys w' ep (if i.ready == 0 then epi ∷ xs else xs)
        × (w'.items epi ≡ some (signalled i event))
  epoll_event_callback-IsReady node own = elim (Bool-cases (i.ready == 0)) [
    | inl q ↦
        let (w', run, ok, item) = signal-idle q node own in
        (w', ground (arith, run), ground (arith, ok), ground (arith, item))
    | inr q ↦
        let (w', run, ok, item) = signal-marked q in
        (w', ground (arith, run), ground (arith, ok), ground (arith, item))
  ]
