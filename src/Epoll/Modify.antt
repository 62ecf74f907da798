-- ===== src/Epoll/Modify.antt =====
-- `xy_epoll_ctl` of network/src/xy_epoll.cc on a socket that a poll holds, and on one that it does not.
use dpdk_tcp.Prelude.{ℕ, ◌≡◌, ◌≢◌, refl, arith, pos, minus_one, none, some, Option, update, bit_or}
use dpdk_tcp.XyList.{Ptr, null}
use dpdk_tcp.World.{World, System, XyEventPoll, XyEpollItem}
use dpdk_tcp.World.Memory.{load_poll, modify_item, load_map, fail_with}
use dpdk_tcp.Manage.{event_poll_of_id, xy_get_event_poll_by_id, map_of_id}
use dpdk_tcp.Epoll.Ctl.{
  XyEpollEvent, xy_epoll_ctl_add, xy_epoll_ctl_del, xy_epoll_ctl_mod, xy_epollerr, xy_epollhup,
  enoent, minus, find_item, ctl_add, ctl_del, ctl_mod, ctl_op, xy_epoll_ctl,
}
use dpdk_tcp.Epoll.Tree.{RbTree, find_key}
use dpdk_tcp.Epoll.Register.{Addresses}

module _ (sys : System) (laws : RbTree sys) (w : World) (id sock : ℕ) (ep : Ptr) (p : XyEventPoll)
    (a : Addresses sys w id sock ep p) where
  -- The socket is in the poll, with the item at `q`: XY_EPOLL_CTL_ADD of it returns -1 and changes
  -- nothing, not even errno; XY_EPOLL_CTL_MOD of it returns 0, puts the new events and the two that
  -- always count into that item, and changes no other item, no poll, and in the item neither the
  -- socket nor the data. The ids lead to a poll, and the tree operations do what their library says.
  pub xy_epoll_ctl-registered :
      (q : Ptr) (item : XyEpollItem) (e : XyEpollEvent)
      → find_key w.items p.rb_tree sock ≡ q
      → q ≢ null
      → w.items q ≡ some item
      → (w' : World) × (xy_epoll_ctl sys (pos id) xy_epoll_ctl_add sock (some e) w
          ≡ some (minus_one, w))
        × (xy_epoll_ctl sys (pos id) xy_epoll_ctl_mod sock (some e) w ≡ some (pos 0, w'))
        × (w'.items q
            ≡ some (record item { events = bit_or e.events (bit_or xy_epollerr xy_epollhup) }))
        × ((x : Ptr) → x ≢ q → w'.items x ≡ w.items x)
        × (w'.polls ≡ w.polls)
        × (w'.errno ≡ w.errno)
  unfolding xy_epoll_ctl event_poll_of_id xy_get_event_poll_by_id map_of_id load_map ctl_op ctl_add
      ctl_mod load_poll find_item modify_item
  xy_epoll_ctl-registered q item e found there its =
      let find = laws.find w.items p.rb_tree sock a.ordered in
      (
        record w {
          items =
              update w.items q
                (some (record item { events = bit_or e.events (bit_or xy_epollerr xy_epollhup) }));
        },
        ground (arith, a, find),
        ground (arith, a, find),
        ground arith,
        λ x d. ground arith,
        refl,
        refl,
      )

  -- The socket is not in the poll: XY_EPOLL_CTL_DEL of it returns -1 and changes nothing, and
  -- XY_EPOLL_CTL_MOD of it returns -1 and sets errno to -ENOENT. The ids lead to a poll, and the
  -- tree operations do what their library says.
  pub xy_epoll_ctl-absent :
      (event : Option XyEpollEvent) (e : XyEpollEvent)
      → find_key w.items p.rb_tree sock ≡ null
      → (xy_epoll_ctl sys (pos id) xy_epoll_ctl_del sock event w ≡ some (minus_one, w))
        × (xy_epoll_ctl sys (pos id) xy_epoll_ctl_mod sock (some e) w
            ≡ some (minus_one, record w { errno = minus enoent }))
  unfolding xy_epoll_ctl event_poll_of_id xy_get_event_poll_by_id map_of_id load_map ctl_op ctl_del
      ctl_mod load_poll find_item fail_with
  xy_epoll_ctl-absent none e gone =
      let find = laws.find w.items p.rb_tree sock a.ordered in
      (ground (arith, a, find), ground (arith, a, find))
  xy_epoll_ctl-absent (some f) e gone =
      let find = laws.find w.items p.rb_tree sock a.ordered in
      (ground (arith, a, find), ground (arith, a, find))
