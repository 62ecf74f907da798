-- ===== src/SynSocks/Accept.antt =====
-- The order in which `established_take_next` of queue/src/xy_syn_socks.cc hands the connected sockets
-- to the application.
use dpdk_tcp.Prelude.{
  ℕ, zero, suc, ◌<◌, ◌≡◌, arith, false, ◌==◌, some, List, [], ◌∷◌, ◌++◌, ◌∉◌, has-append, Distinct,
  M,
}
use dpdk_tcp.XyList.{Ptr, XyListNode, load_prev}
use dpdk_tcp.XyList.Chain.{Chain, IsRing}
use dpdk_tcp.XyList.Ring.{IsNode, front, xy_list_add_head-IsRing}
use dpdk_tcp.World.{World, System}
use dpdk_tcp.World.Memory.{on_links, on_lists}
use dpdk_tcp.Socks.{established_tcp_sock_enqueue}
use dpdk_tcp.SynSocks.{load_cur, store_cur, take_next, established_take_next}

-- The back link of what follows a node leads to it.
prev-front :
    (h : XyListNode) (e p x : Ptr) (xs ys : List Ptr)
    → Chain h p (xs ++ (x ∷ ys)) e
    → h.prev (front e ys) ≡ some x
prev-front h e p x [] [] (edge, edge') = ground (arith, edge')
prev-front h e p x [] (y ∷ ys) (edge, (edge', c)) = ground (arith, edge')
prev-front h e p x (z ∷ xs) ys (edge, c) = prev-front h e z x xs ys c

-- A socket of the list is not its head.
head-out :
    (head x : Ptr) (xs ys : List Ptr) → Distinct (head ∷ xs ++ (x ∷ ys)) → (x == head) ≡ false
head-out head x xs ys d = ground (arith, has-append head xs (x ∷ ys))

take_next-oldest :
    (sys : System) (others : M World (Unit {0})) (w : World) (k : ℕ) (xs ys : List Ptr) (x : Ptr)
    → IsRing w.lists.node sys.list_established (xs ++ (x ∷ ys))
    → w.cur ≡ front sys.list_established ys
    → 0 < k
    → take_next sys k others w ≡ some (x, record w { cur = x })
unfolding take_next load_cur store_cur on_links on_lists load_prev
take_next-oldest sys others w zero xs ys x ring at lt = ground arith
take_next-oldest sys others w (suc k) xs ys x (c, d) at lt = ground (
  arith,
  at,
  prev-front w.lists.node sys.list_established sys.list_established x xs ys c,
  head-out sys.list_established x xs ys d,
)

module _ (sys : System) (others : M World (Unit {0})) (w : World) where
  -- The connected sockets stand in their list newest first, and the last one handed out (at first
  -- the head of the list) is followed by those handed out before. Then the next call hands out the
  -- oldest socket that has not been handed out, at once, and remembers it; nothing else changes.
  pub established_take_next-oldest :
      (xs ys : List Ptr) (x : Ptr)
      → IsRing w.lists.node sys.list_established (xs ++ (x ∷ ys))
      → w.cur ≡ front sys.list_established ys
      → 0 < sys.rounds
      → established_take_next sys others w ≡ some (x, record w { cur = x })
  unfolding established_take_next
  established_take_next-oldest xs ys x ring at some_round =
      take_next-oldest sys others w sys.rounds xs ys x ring at some_round

-- A socket that joins the list when all others have been handed out is handed out by the next
-- call, which also finds a list that has it. The socket is a node outside the list.
pub established_tcp_sock_enqueue-established_take_next :
    (sys : System) (others : M World (Unit {0})) (w : World) (x : Ptr) (ys : List Ptr)
    → IsRing w.lists.node sys.list_established ys
    → w.cur ≡ front sys.list_established ys
    → IsNode w.lists.node x
    → x ∉ sys.list_established ∷ ys
    → 0 < sys.rounds
    → (w1 : World) × (established_tcp_sock_enqueue sys x w ≡ some (tt, w1))
      × (established_take_next sys others w1 ≡ some (x, record w1 { cur = x }))
      × IsRing w1.lists.node sys.list_established (x ∷ ys)
unfolding established_tcp_sock_enqueue on_links on_lists
established_tcp_sock_enqueue-established_take_next sys others w x ys ring at node out some_round =
    let (g, run, ring', same) =
      xy_list_add_head-IsRing w.lists.node sys.list_established x ys ring node out in
    let w1 = record w { lists = record (w.lists) { node = g } } in
    (
      w1,
      ground (arith, run),
      established_take_next-oldest sys others w1 [] ys x ring' at some_round,
      ring',
    )
