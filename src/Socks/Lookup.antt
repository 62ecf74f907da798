-- ===== src/Socks/Lookup.antt =====
-- What the lookups of network/src/xy_socks.cc and queue/src/xy_syn_socks.cc find.
use dpdk_tcp.Prelude.{
  ℕ, zero, suc, ◌<◌, ◌≡◌, ◌≢◌, refl, arith, Bool, none, some, ◌>>=◌, if◌then◌else◌, List, [], ◌∷◌,
  length, ◌∉◌,
}
use dpdk_tcp.XyList.{Ptr, XyListNode, null, load_next}
use dpdk_tcp.XyList.Chain.{Chain, IsRing}
use dpdk_tcp.Socket.{XyTcpSocket, tcp_listen}
use dpdk_tcp.World.{World, System}
use dpdk_tcp.World.Memory.{load_sock, on_links}
use dpdk_tcp.Socks.{
  walk, listener_tcp_sock_lookup, syn_rcvd_tcp_sock_lookup, established_tcp_sock_look_up,
  listens_at, connects, assert_listen,
}

-- Every listed address holds a socket.
abbrev pub AllSocks : World → List Ptr → Type 0
AllSocks w [] = Unit
AllSocks w (x ∷ xs) = ((sk : XyTcpSocket) × (w.socks x ≡ some sk)) × AllSocks w xs

-- The first of the listed sockets that passes the test, or `null`.
unfoldable pub find : World → (XyTcpSocket → Bool) → List Ptr → Ptr
find w test [] = null
find w test (x ∷ xs) = elim (w.socks x) [
  | none ↦ null
  | some sk ↦ if test sk then x else find w test xs
]

Chain-next :
    (h : XyListNode) (e p : Ptr) (xs : List Ptr) → Chain h p xs e → (q : Ptr) × (h.next p ≡ some q)
Chain-next h e p [] c = (e, c.0)
Chain-next h e p (x ∷ xs) c = (x, c.0.0)

walk-find :
    (w : World) (head : Ptr) (test : XyTcpSocket → Bool) (xs : List Ptr) (k p pos : ℕ)
    → Chain w.lists.node p xs head
    → w.lists.node.next p ≡ some pos
    → head ∉ xs
    → AllSocks w xs
    → length xs < k
    → walk k head test pos w ≡ some (find w test xs, w)
unfolding walk find load_sock on_links load_next
walk-find w head test xs zero p pos c e out all h = absurd (omega arith)
walk-find w head test [] (suc k) p pos c e out all h = ground (arith, c)
walk-find w head test (x ∷ xs) (suc k) p pos (edge, c) e out ((sk, ok), all) h =
    let (q, next) = Chain-next w.lists.node head x xs c in
    ground (arith, edge, walk-find w head test xs k x q c next)

-- Every listed socket listens.
abbrev pub AllListen : World → List Ptr → Type 0
AllListen w [] = Unit
AllListen w (x ∷ xs) =
    ((sk : XyTcpSocket) × (w.socks x ≡ some sk) × (sk.state ≡ tcp_listen)) × AllListen w xs

AllListen-AllSocks : (w : World) (xs : List Ptr) → AllListen w xs → AllSocks w xs
AllListen-AllSocks w [] all = tt
AllListen-AllSocks w (x ∷ xs) ((sk, ok, l), all) = ((sk, ok), AllListen-AllSocks w xs all)

assert_listen-find :
    (w : World) (test : XyTcpSocket → Bool) (xs : List Ptr)
    → AllListen w xs
    → assert_listen (find w test xs) w ≡ some (find w test xs, w)
unfolding assert_listen find
assert_listen-find w test [] all = refl
assert_listen-find w test (x ∷ xs) ((sk, ok, l), all) =
    ground (arith, assert_listen-find w test xs all)

module _ (sys : System) (w : World) (xs : List Ptr) (few : length xs < sys.rounds) where
  -- On the list of the sockets in handshake, `syn_rcvd_tcp_sock_lookup` returns the first that passes
  -- its test, or `NULL`, and changes nothing, if the bound on rounds is above the list's length.
  pub syn_rcvd_tcp_sock_lookup-find :
      (dst_ip dst_port src_ip src_port : ℕ)
      → IsRing w.lists.node sys.list_syn_recved xs
      → AllSocks w xs
      → syn_rcvd_tcp_sock_lookup sys dst_ip dst_port src_ip src_port w
        ≡ some (find w (connects dst_ip dst_port src_ip src_port) xs, w)
  unfolding syn_rcvd_tcp_sock_lookup
  syn_rcvd_tcp_sock_lookup-find dst_ip dst_port src_ip src_port (c, d) all =
      let (q, next) = Chain-next w.lists.node sys.list_syn_recved sys.list_syn_recved xs c in
      rw (next, ◌>>=◌)
        (walk-find w sys.list_syn_recved (connects dst_ip dst_port src_ip src_port) xs sys.rounds
          sys.list_syn_recved q c next d.0 all few)

  -- On the list of the connected sockets, `established_tcp_sock_look_up` returns the first that
  -- passes its test, or `NULL`, and changes nothing, if the bound on rounds is above the list's
  -- length.
  pub established_tcp_sock_look_up-find :
      (dst_ip dst_port src_ip src_port : ℕ)
      → IsRing w.lists.node sys.list_established xs
      → AllSocks w xs
      → established_tcp_sock_look_up sys dst_ip dst_port src_ip src_port w
        ≡ some (find w (connects dst_ip dst_port src_ip src_port) xs, w)
  unfolding established_tcp_sock_look_up
  established_tcp_sock_look_up-find dst_ip dst_port src_ip src_port (c, d) all =
      let (q, next) = Chain-next w.lists.node sys.list_established sys.list_established xs c in
      rw (next, ◌>>=◌)
        (walk-find w sys.list_established (connects dst_ip dst_port src_ip src_port) xs sys.rounds
          sys.list_established q c next d.0 all few)

  -- On the list of the listeners, each of which listens, `listener_tcp_sock_lookup` returns the
  -- first that passes its test, or `NULL`, and changes nothing, if the bound on rounds is above
  -- the list's length.
  pub listener_tcp_sock_lookup-find :
      (dst_ip dst_port : ℕ)
      → IsRing w.lists.node sys.list_listeners xs
      → AllListen w xs
      → listener_tcp_sock_lookup sys dst_ip dst_port w
        ≡ some (find w (listens_at dst_ip dst_port) xs, w)
  unfolding listener_tcp_sock_lookup
  listener_tcp_sock_lookup-find dst_ip dst_port (c, d) all =
      let (q, next) = Chain-next w.lists.node sys.list_listeners sys.list_listeners xs c in
      let found =
        walk-find w sys.list_listeners (listens_at dst_ip dst_port) xs sys.rounds sys.list_listeners
          q c next d.0 (AllListen-AllSocks w xs all) few in
      ground (arith, found, next, assert_listen-find w (listens_at dst_ip dst_port) xs all)

-- The test of the lookups by connection tells no two local ports apart: a socket passes it for every
-- destination port but 0, or for none.
pub connects_any_port :
    (dst_ip src_ip src_port p q : ℕ) (node : XyTcpSocket)
    → p ≢ 0
    → q ≢ 0
    → connects dst_ip p src_ip src_port node ≡ connects dst_ip q src_ip src_port node
unfolding connects
connects_any_port dst_ip src_ip src_port p q node hp hq = ground arith
