-- ===== src/Manage/Reuse.antt =====
-- An element of the socket table (network/src/xy_manage.cc) given out and taken back.
use dpdk_tcp.Prelude.{
  ℕ, ◌+◌, ◌≡◌, arith, false, leb, ◌==◌, some, none, List, [], ◌∷◌, ◌++◌, ◌∉◌, update,
}
use dpdk_tcp.XyList.{Ptr, null, XyListNode}
use dpdk_tcp.XyList.Chain.{IsRing}
use dpdk_tcp.XyList.Delete.{xy_list_take_head-IsRing, xy_list_is_empty-IsRing}
use dpdk_tcp.Port.{xy_max_tcp}
use dpdk_tcp.World.{World, System, xy_tcp_sock_tcp}
use dpdk_tcp.World.Memory.{on_links, on_lists, put_links, malloc, load_map, modify_map, modify_sock}
use dpdk_tcp.Manage.{
  unused, free_sock, allocate_sock, xy_allocate_tcp_socket, map_of_id, xy_get_tcp_socket_by_id,
  xy_deallocate_tcp_socket,
}
use dpdk_tcp.Manage.Table.{IsRing-put_links, release_map-IsRing}

module _ (sys : System) (w : World) (id : ℕ) (q : Ptr) (es : List Ptr) where
  -- The element of the id is the first free one, and `malloc` returns `q`, whose nodes are not in the
  -- free list.
  pub record CanAllocate : Type 0 where
    pub in_table : leb xy_max_tcp id ≡ false
    pub free_ring : IsRing w.lists.node sys.free_sock_maps (sys.socket_maps id ∷ es)
    pub is_unused : w.maps (sys.socket_maps id) ≡ unused id
    pub new : sys.malloc w.mallocs ≡ q
    pub not_null : (q == null) ≡ false
    pub own : q ∉ sys.free_sock_maps ∷ es
    pub own_rcv : sys.rcv_buf_list q ∉ sys.free_sock_maps ∷ es
    pub own_snd : sys.snd_buf_list q ∉ sys.free_sock_maps ∷ es

  abbrev put : XyListNode → Ptr → XyListNode
  put h p = record {
    next = update h.next p (some sys.uninitialised_link);
    prev = update h.prev p (some sys.uninitialised_link);
  }

  abbrev links : XyListNode → XyListNode
  links g = put (put (put g q) (sys.rcv_buf_list q)) (sys.snd_buf_list q)

  -- The memory with the socket, where `g` is left of the free list.
  abbrev allocated : XyListNode → World
  allocated g = record w {
    lists = record (w.lists) { node = links g };
    socks =
        update (update w.socks q (some sys.uninitialised)) q
          (some (record (sys.uninitialised) { id = id }));
    maps =
        update w.maps (sys.socket_maps id)
          (record (w.maps (sys.socket_maps id)) { sock_type = xy_tcp_sock_tcp; tcp_socket = q });
    mallocs = w.mallocs + 1;
  }

  allocate-links :
      (g : XyListNode)
      → CanAllocate
      → IsRing g sys.free_sock_maps es
      → IsRing (links g) sys.free_sock_maps es
  allocate-links g c ring =
      let u = sys.uninitialised_link in
      let head = sys.free_sock_maps in
      let r1 = IsRing-put_links sys g head q u u es ring c.own in
      let r2 = IsRing-put_links sys (put g q) head (sys.rcv_buf_list q) u u es r1 c.own_rcv in
      IsRing-put_links sys (put (put g q) (sys.rcv_buf_list q)) head (sys.snd_buf_list q) u u es r2
        c.own_snd

  -- A socket allocated and given back: the allocation returns the new socket, with the id of the
  -- first free element, and the id leads to it; the free list has lost that element. After the
  -- release the socket is freed, the element is unused, and it is on the free list again, behind
  -- all others. malloc has memory that is not in the free list.
  pub xy_allocate_tcp_socket-xy_deallocate_tcp_socket :
      CanAllocate
      → (w1 : World) × (w2 : World) × (xy_allocate_tcp_socket sys w ≡ some (q, w1))
        × (w1.socks q ≡ some (record (sys.uninitialised) { id = id }))
        × (xy_get_tcp_socket_by_id sys id w1 ≡ some (q, w1))
        × IsRing w1.lists.node sys.free_sock_maps es
        × (xy_deallocate_tcp_socket sys id w1 ≡ some (tt, w2))
        × (w2.socks q ≡ none)
        × (w2.maps (sys.socket_maps id) ≡ unused id)
        × IsRing w2.lists.node sys.free_sock_maps (es ++ (sys.socket_maps id ∷ []))
  unfolding xy_allocate_tcp_socket on_links on_lists allocate_sock malloc put_links load_map
      modify_map modify_sock xy_get_tcp_socket_by_id map_of_id xy_deallocate_tcp_socket free_sock
  xy_allocate_tcp_socket-xy_deallocate_tcp_socket c =
      let head = sys.free_sock_maps in
      let (g, take, ring) =
        xy_list_take_head-IsRing w.lists.node head (sys.socket_maps id) es c.free_ring in
      let v = allocated g in
      let ring1 = allocate-links g c ring in
      let u = record v { socks = update v.socks q none } in
      let (g2, release, ring2) =
        release_map-IsRing sys u id es ring1 (ground (arith, c.free_ring.1)) in
      (
        v,
        record u {
          lists = record (v.lists) { node = g2 };
          maps = update v.maps (sys.socket_maps id) (unused id);
        },
        ground (
          arith,
          take,
          xy_list_is_empty-IsRing w.lists.node head (sys.socket_maps id ∷ es) c.free_ring,
          c,
        ),
        ground arith,
        ground (arith, c),
        ring1,
        ground (arith, release, c),
        ground arith,
        ground arith,
        ring2,
      )
