-- ===== src/Tcp/Listen/Allocate.antt =====
-- `xy_allocate_tcp_socket` of network/src/xy_manage.cc, as `state_tcp_listen` uses it.
use dpdk_tcp.Prelude.{◌+◌, ◌≡◌, refl, arith, false, some, List, ◌∷◌, ◌==◌, update}
use dpdk_tcp.XyList.{Ptr, null, XyListNode}
use dpdk_tcp.XyList.Chain.{IsRing}
use dpdk_tcp.XyList.Delete.{xy_list_is_empty-IsRing}
use dpdk_tcp.XyList.Ring.{IsNode, SameNode}
use dpdk_tcp.XyList.Move.{Apart, xy_list_take_head-Apart}
use dpdk_tcp.Socket.{XyTcpSocket}
use dpdk_tcp.World.{World, System, xy_tcp_sock_tcp}
use dpdk_tcp.Manage.{xy_allocate_tcp_socket}
use dpdk_tcp.Tcp.Listen.Spares.{own, linked, Spares, IsRing-Spares}

-- The new socket and the memory that holds it, in the presence of a list `to`.
pub record Allocated (sys : System) (w : World) (q to : Ptr) (zs es : List Ptr) (w' : World)
    : Type 0 where
  pub sock : (s : XyTcpSocket) × (w'.socks q ≡ some s)
  pub others : (a : Ptr) → (a == q) ≡ false → w'.socks a ≡ w.socks a
  pub free_ring : IsRing w'.lists.node sys.free_sock_maps es
  pub ring : IsRing w'.lists.node to zs
  pub nodes : (a : Ptr) → IsNode w.lists.node a → IsNode w'.lists.node a
  pub frames : w'.frames ≡ w.frames
  pub tx : w'.tx ≡ w.tx
  pub freed : w'.freed ≡ w.freed
  pub rands : w'.rands ≡ w.rands

module _ (sys : System) (w : World) (g : XyListNode) (q e : Ptr) where
  abbrev links : XyListNode
  links =
      let u = sys.uninitialised_link in
      linked (linked (linked g q u u) (sys.rcv_buf_list q) u u) (sys.snd_buf_list q) u u

  -- The memory after the allocation, when `e` was taken off the free list.
  abbrev after : World
  after = record w {
    lists = record (w.lists) { node = links };
    socks =
        update (update w.socks q (some sys.uninitialised)) q
          (some (record (sys.uninitialised) { id = (w.maps e).id }));
    maps = update w.maps e (record (w.maps e) { sock_type = xy_tcp_sock_tcp; tcp_socket = q });
    mallocs = w.mallocs + 1;
  }

  after-Spares : Spares sys q (record w { lists = record (w.lists) { node = g } }) after
  after-Spares = record {
    next = λ a o. ground arith;
    prev = λ a o. ground arith;
    frames = refl;
    tx = refl;
    freed = refl;
    rands = refl;
  }

  IsNode-after : (a : Ptr) → IsNode w.lists.node a → SameNode w.lists.node g a → IsNode links a
  IsNode-after a node same = ground arith

pub xy_allocate_tcp_socket-Allocated :
    (sys : System) (w : World) (q e to : Ptr) (es zs : List Ptr)
    → sys.malloc w.mallocs ≡ q
    → (q == null) ≡ false
    → IsRing w.lists.node sys.free_sock_maps (e ∷ es)
    → IsRing w.lists.node to zs
    → Apart (sys.free_sock_maps ∷ e ∷ es) (to ∷ zs)
    → Apart (own sys q) (sys.free_sock_maps ∷ es)
    → Apart (own sys q) (to ∷ zs)
    → (w' : World) × (xy_allocate_tcp_socket sys w ≡ some (q, w')) × Allocated sys w q to zs es w'
unfolding xy_allocate_tcp_socket
xy_allocate_tcp_socket-Allocated sys w q e to es zs new ne free ring apart own_free own_to =
    let (g, take, free', ring', same) =
      xy_list_take_head-Apart w.lists.node sys.free_sock_maps to e es zs free ring apart in
    let mid : World = record w { lists = record (w.lists) { node = g } } in
    let s = after-Spares sys w g q e in
    (
      after sys w g q e,
      ground (arith, take, xy_list_is_empty-IsRing w.lists.node sys.free_sock_maps (e ∷ es)),
      record {
        sock = (record (sys.uninitialised) { id = (w.maps e).id }, ground arith);
        others = λ a o. ground arith;
        free_ring =
            IsRing-Spares sys q mid (after sys w g q e) sys.free_sock_maps es s own_free free';
        ring = IsRing-Spares sys q mid (after sys w g q e) to zs s own_to ring';
        nodes = λ a node. IsNode-after sys w g q e a node (same a);
        frames = refl;
        tx = refl;
        freed = refl;
        rands = refl;
      },
    )
