-- ===== src/Tests/Modify.antt =====
-- The poll 5 at 600 holds the socket 7, with the item 701.
use dpdk_tcp.Prelude.{◌≡◌, ◌≢◌, refl, arith, pos, minus_one, some}
use dpdk_tcp.XyList.{Ptr}
use dpdk_tcp.World.{World}
use dpdk_tcp.Epoll.Ctl.{XyEpollEvent, xy_epoll_ctl_add, xy_epoll_ctl_mod, xy_epoll_ctl}
use dpdk_tcp.Epoll.Register.{Addresses}
use dpdk_tcp.Epoll.Modify.{xy_epoll_ctl-registered}
use dpdk_tcp.Tests.{sys}
use dpdk_tcp.Tests.Epoll.{ready, poll, item, sys-RbTree}

seven-Addresses : Addresses sys ready 5 7 600 (poll 1)
seven-Addresses = record {
  in_table = refl;
  its_poll = refl;
  not_null = ground arith;
  a_socket = ground arith;
  poll = refl;
  ordered = (
    (ground arith, (item 7 1, refl, omega arith)),
    (omega arith, tt),
    ((ground arith, (item 8 0, refl, omega arith)), tt, tt),
  );
}

abbrev output : XyEpollEvent
output = record { events = 4; event_data = 90 }

xy_epoll_ctl-registered_example :
    (w' : World) × (xy_epoll_ctl sys (pos 5) xy_epoll_ctl_add 7 (some output) ready
      ≡ some (minus_one, ready))
    × (xy_epoll_ctl sys (pos 5) xy_epoll_ctl_mod 7 (some output) ready ≡ some (pos 0, w'))
    × (w'.items 701 ≡ some (record (item 7 1) { events = 0x1c }))
    × ((x : Ptr) → x ≢ 701 → w'.items x ≡ ready.items x)
    × (w'.polls ≡ ready.polls)
    × (w'.errno ≡ ready.errno)
xy_epoll_ctl-registered_example =
    xy_epoll_ctl-registered sys sys-RbTree ready 5 7 600 (poll 1) seven-Addresses 701 (item 7 1)
      output refl (ground arith) refl
