-- ===== src/SynApi/Listen.antt =====
-- `xy_syn_listen` of queue/src/xy_syn_api.cc, and the segments that find the listener.
use dpdk_tcp.Prelude.{
  ℕ, ◌+◌, ◌<◌, ◌≡◌, ◌≢◌, refl, arith, false, leb, ltb, ◌==◌, pos, minus_one, some, List, [], ◌∷◌,
  length, ◌∉◌, update,
}
use dpdk_tcp.XyList.{Ptr, null}
use dpdk_tcp.XyList.Chain.{IsRing}
use dpdk_tcp.XyList.Ring.{IsNode, xy_list_add_head-IsRing}
use dpdk_tcp.Port.{xy_max_tcp}
use dpdk_tcp.Socket.{XyTcpSocket, tcp_listen, tcp_close}
use dpdk_tcp.World.{World, System, XySocketOps}
use dpdk_tcp.World.Memory.{load_sock, set_state, on_links, on_lists, load_map}
use dpdk_tcp.Manage.{tcp_socket_of_id, xy_get_tcp_socket_by_id, map_of_id}
use dpdk_tcp.Socks.{listener_tcp_sock_enqueue, listener_tcp_sock_lookup, listens_at}
use dpdk_tcp.Socks.Lookup.{AllListen, find, listener_tcp_sock_lookup-find}
use dpdk_tcp.SynApi.Ops.{load_ops}
use dpdk_tcp.SynApi.Calls.{with_sock, xy_syn_listen}

AllListen-frame :
    (w w' : World) (p : Ptr) (xs : List Ptr)
    → p ∉ xs
    → ((a : Ptr) → a ≢ p → w'.socks a ≡ w.socks a)
    → AllListen w xs
    → AllListen w' xs
AllListen-frame w w' p [] out same all = tt
AllListen-frame w w' p (x ∷ xs) out same ((sk, e, l), all) =
    ((sk, ground (arith, same x), l), AllListen-frame w w' p xs (ground arith) same all)

-- The call names a closed socket `p`, which is in no list.
pub record CanListen (sys : System) (w : World) (call p : Ptr) (o : XySocketOps) (id : ℕ)
    (sk : XyTcpSocket) : Type 0 where
  pub call_there : w.ops call ≡ some o
  pub its_id : o.sock_id ≡ pos id
  pub in_table : leb xy_max_tcp id ≡ false
  pub its_socket : (w.maps (sys.socket_maps id)).tcp_socket ≡ p
  pub not_null : (p == null) ≡ false
  pub there : w.socks p ≡ some sk
  pub small_id : ltb xy_max_tcp sk.id ≡ false
  pub closed : sk.state ≡ tcp_close

-- Listening on a closed socket succeeds: the socket is in LISTEN and heads the list of the
-- listeners, and from then on a segment for the address and the port it is bound to finds it, before
-- any other listener. The call's id leads to the socket, which is in no list, and the other
-- listeners listen.
pub xy_syn_listen-found :
    (sys : System) (w : World) (call p : Ptr) (o : XySocketOps) (id : ℕ) (sk : XyTcpSocket)
    (xs : List Ptr)
    → CanListen sys w call p o id sk
    → IsRing w.lists.node sys.list_listeners xs
    → AllListen w xs
    → IsNode w.lists.node p
    → p ∉ sys.list_listeners ∷ xs
    → length xs + 1 < sys.rounds
    → (w' : World) × (xy_syn_listen sys call w ≡ some (minus_one, w'))
      × (w'.socks p ≡ some (record sk { state = tcp_listen }))
      × IsRing w'.lists.node sys.list_listeners (p ∷ xs)
      × (listener_tcp_sock_lookup sys sk.ip_socket.ip_src sk.port_src w' ≡ some (p, w'))
unfolding xy_syn_listen with_sock load_ops tcp_socket_of_id xy_get_tcp_socket_by_id map_of_id
    load_map load_sock set_state listener_tcp_sock_enqueue on_links on_lists find listens_at
xy_syn_listen-found sys w call p o id sk xs c ring all node out few =
    let (g, add, ring', same) =
      xy_list_add_head-IsRing w.lists.node sys.list_listeners p xs ring node out in
    let w' = record w {
      lists = record (w.lists) { node = g };
      socks = update w.socks p (some (record sk { state = tcp_listen }));
    } in
    let there' : w'.socks p ≡ some (record sk { state = tcp_listen }) = ground arith in
    let listen' : AllListen w' (p ∷ xs) = (
      (record sk { state = tcp_listen }, there', refl),
      AllListen-frame w w' p xs (ground arith) (λ a d. ground arith) all,
    ) in
    let found =
      listener_tcp_sock_lookup-find sys w' (p ∷ xs) (omega arith) sk.ip_socket.ip_src sk.port_src
        ring' listen' in
    let first : find w' (listens_at sk.ip_socket.ip_src sk.port_src) (p ∷ xs) ≡ p = ground arith in
    (w', ground (arith, add, c), there', ring', ground (arith, found, first))
