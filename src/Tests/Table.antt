-- ===== src/Tests/Table.antt =====
-- The socket table at small inputs.
use dpdk_tcp.Prelude.{ℕ, ◌+◌, ◌<◌, ◌≡◌, refl, arith, pos, some, none, [], ◌∷◌}
use dpdk_tcp.XyList.{Ptr}
use dpdk_tcp.XyList.Chain.{IsRing}
use dpdk_tcp.Socket.{tcp_established, zero_tcp_socket}
use dpdk_tcp.World.{World}
use dpdk_tcp.Manage.{
  unused, xy_socket_map_init, xy_allocate_tcp_socket, xy_get_tcp_socket_by_id,
  xy_deallocate_tcp_socket,
}
use dpdk_tcp.Manage.Table.{TableLayout, elements, xy_socket_map_init-IsRing}
use dpdk_tcp.Manage.Reuse.{CanAllocate, xy_allocate_tcp_socket-xy_deallocate_tcp_socket}
use dpdk_tcp.Tests.{sys, world, frame}

abbrev start : World
start = world tcp_established (frame 0x10 11)

sys-TableLayout : TableLayout sys
sys-TableLayout = record { apart = λ i j lt lt' e. omega arith; own = λ i lt e. omega arith }

xy_socket_map_init-IsRing_example :
    (w' : World) × (xy_socket_map_init sys start ≡ some (pos 0, w'))
    × IsRing w'.lists.node 4 (elements sys 0 65536)
    × ((id : ℕ) → id < 65536 → w'.maps (10000 + id) ≡ unused id)
xy_socket_map_init-IsRing_example = xy_socket_map_init-IsRing sys sys-TableLayout start (refl, refl)

-- The element 0 is free, and memory is at 5000.
abbrev free : World
free = record start { maps = λ (p : Ptr). unused 0 }

free-CanAllocate : CanAllocate sys free 0 5000 []
free-CanAllocate = record {
  in_table = refl;
  free_ring = ground arith;
  is_unused = refl;
  new = refl;
  not_null = refl;
  own = refl;
  own_rcv = refl;
  own_snd = refl;
}

xy_allocate_tcp_socket-xy_deallocate_tcp_socket_example :
    (w1 : World) × (w2 : World) × (xy_allocate_tcp_socket sys free ≡ some (5000, w1))
    × (w1.socks 5000 ≡ some (record zero_tcp_socket { id = 0 }))
    × (xy_get_tcp_socket_by_id sys 0 w1 ≡ some (5000, w1))
    × IsRing w1.lists.node 4 []
    × (xy_deallocate_tcp_socket sys 0 w1 ≡ some (tt, w2))
    × (w2.socks 5000 ≡ none)
    × (w2.maps 10000 ≡ unused 0)
    × IsRing w2.lists.node 4 (10000 ∷ [])
xy_allocate_tcp_socket-xy_deallocate_tcp_socket_example =
    xy_allocate_tcp_socket-xy_deallocate_tcp_socket sys free 0 5000 [] free-CanAllocate
