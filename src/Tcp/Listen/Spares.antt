-- ===== src/Tcp/Listen/Spares.antt =====
-- What the steps of `state_tcp_listen` that fill the new socket leave alone.
use dpdk_tcp.Prelude.{
  ◌≡◌, refl, ◌∙◌, arith, some, Option-cases, inl, inr, List, [], ◌∷◌, ◌∉◌, update, has-append,
}
use dpdk_tcp.XyList.{Ptr, XyListNode}
use dpdk_tcp.XyList.Chain.{IsRing, Chain-frame}
use dpdk_tcp.XyList.Ring.{IsNode}
use dpdk_tcp.XyList.Move.{Apart, Apart-right}
use dpdk_tcp.Socket.{XyTcpSocket, Tcb}
use dpdk_tcp.World.{World, System}
use dpdk_tcp.World.Memory.{assign_sock, assign_tcb, copy_sock}

-- The three nodes that lie in a socket.
abbrev pub own : System → Ptr → List Ptr
own sys q = q ∷ sys.rcv_buf_list q ∷ sys.snd_buf_list q ∷ []

-- Nothing but the socket `q` and the nodes in it has changed.
pub record Spares (sys : System) (q : Ptr) (w w' : World) : Type 0 where
  pub next : (a : Ptr) → a ∉ own sys q → w'.lists.node.next a ≡ w.lists.node.next a
  pub prev : (a : Ptr) → a ∉ own sys q → w'.lists.node.prev a ≡ w.lists.node.prev a
  pub frames : w'.frames ≡ w.frames
  pub tx : w'.tx ≡ w.tx
  pub freed : w'.freed ≡ w.freed
  pub rands : w'.rands ≡ w.rands

pub Spares-trans :
    {sys : System} {q : Ptr} {u v w : World}
    → Spares sys q u v
    → Spares sys q v w
    → Spares sys q u w
Spares-trans s t = record {
  next = λ a o. t.next a o ∙ s.next a o;
  prev = λ a o. t.prev a o ∙ s.prev a o;
  frames = t.frames ∙ s.frames;
  tx = t.tx ∙ s.tx;
  freed = t.freed ∙ s.freed;
  rands = t.rands ∙ s.rands;
}

-- A list that shares no node with the socket stays as it is.
pub IsRing-Spares :
    (sys : System) (q : Ptr) (w w' : World) (head : Ptr) (xs : List Ptr)
    → Spares sys q w w'
    → Apart (own sys q) (head ∷ xs)
    → IsRing w.lists.node head xs
    → IsRing w'.lists.node head xs
IsRing-Spares sys q w w' head xs s apart (c, d) = (
  Chain-frame w.lists.node w'.lists.node head head xs c
      (λ a mem. s.next a (Apart-right (own sys q) (head ∷ xs) a apart mem))
      (λ a mem. s.prev a (
        Apart-right (own sys q) (head ∷ xs) a apart (ground (arith, has-append a xs (head ∷ []))))),
  d,
)

-- Both links of a node written.
abbrev pub linked : XyListNode → Ptr → Ptr → Ptr → XyListNode
linked h a n v = record { next = update h.next a (some n); prev = update h.prev a (some v) }

-- The memory with the socket and the links of its nodes written.
abbrev filled : World → Ptr → XyTcpSocket → XyListNode → World
filled w q sk h = record w {
  lists = record (w.lists) { node = h };
  socks = update w.socks q (some sk);
}

-- A socket's node has links.
pub node-links :
    (h : XyListNode) (a : Ptr)
    → IsNode h a
    → (n : Ptr) × (v : Ptr) × (h.next a ≡ some n) × (h.prev a ≡ some v)
node-links h a (hn, hv) = elim (Option-cases (h.next a)) [
  | inl e ↦ absurd (ground (arith, e))
  | inr (n, e) ↦ elim (Option-cases (h.prev a)) [
    | inl f ↦ absurd (ground (arith, f))
    | inr (v, f) ↦ (n, v, e, f)
  ]
]

module _ (sys : System) (w : World) (q : Ptr) (s : XyTcpSocket) (here : w.socks q ≡ some s) where
  abbrev cleared : XyListNode
  cleared = linked (linked w.lists.node (sys.rcv_buf_list q) 0 0) (sys.snd_buf_list q) 0 0

  Spares-filled :
      (sk : XyTcpSocket) (h : XyListNode)
      → ((a : Ptr) → a ∉ own sys q → h.next a ≡ w.lists.node.next a)
      → ((a : Ptr) → a ∉ own sys q → h.prev a ≡ w.lists.node.prev a)
      → Spares sys q w (filled w q sk h)
  Spares-filled sk h n v = record {
    next = n;
    prev = v;
    frames = refl;
    tx = refl;
    freed = refl;
    rands = refl;
  }

  abbrev cleared_all : XyListNode
  cleared_all =
      linked (linked (linked w.lists.node q 0 0) (sys.rcv_buf_list q) 0 0) (sys.snd_buf_list q) 0 0

  pub assign_sock_lem :
      (sk : XyTcpSocket)
      → (w' : World) × (assign_sock sys q sk w ≡ some (tt, w'))
        × Spares sys q w w'
        × (w'.socks q ≡ some sk)
        × IsNode w'.lists.node q
  unfolding assign_sock
  assign_sock_lem sk = (
    filled w q sk cleared_all,
    ground arith,
    Spares-filled sk cleared_all (λ a o. ground arith) (λ a o. ground arith),
    ground arith,
    (ground arith, ground arith),
  )

  pub assign_tcb_lem :
      (t : Tcb)
      → IsNode w.lists.node q
      → (w' : World) × (assign_tcb sys q t w ≡ some (tt, w'))
        × Spares sys q w w'
        × (w'.socks q ≡ some (record s { tcb = t }))
        × IsNode w'.lists.node q
  unfolding assign_tcb
  assign_tcb_lem t node = (
    filled w q (record s { tcb = t }) cleared,
    ground arith,
    Spares-filled (record s { tcb = t }) cleared (λ a o. ground arith) (λ a o. ground arith),
    ground arith,
    (ground arith, ground arith),
  )

  -- The source is another socket, with nodes of its own.
  pub copy_sock_lem :
      (p : Ptr) (sk : XyTcpSocket)
      → w.socks p ≡ some sk
      → IsNode w.lists.node p
      → IsNode w.lists.node (sys.rcv_buf_list p)
      → IsNode w.lists.node (sys.snd_buf_list p)
      → Apart (own sys q) (own sys p)
      → (w' : World) × (copy_sock sys q p w ≡ some (tt, w'))
        × Spares sys q w w'
        × (w'.socks q ≡ some sk)
  unfolding copy_sock
  copy_sock_lem p sk there np nr ns apart =
      let h = w.lists.node in
      let (n, v, en, ev) = node-links h p np in
      let (n', v', en', ev') = node-links h (sys.rcv_buf_list p) nr in
      let (n'', v'', en'', ev'') = node-links h (sys.snd_buf_list p) ns in
      let g =
        linked (linked (linked h q n v) (sys.rcv_buf_list q) n' v') (sys.snd_buf_list q) n'' v'' in
      (
        filled w q sk g,
        ground arith,
        Spares-filled sk g (λ a o. ground arith) (λ a o. ground arith),
        ground arith,
      )
