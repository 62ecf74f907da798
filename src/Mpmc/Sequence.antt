-- ===== src/Mpmc/Sequence.antt =====
-- Additions and removals at the list of queue/include/xy_mpmc.h, each of which ends before the next one
-- begins.
use dpdk_tcp.Prelude.{◌≡◌, ◌≢◌, refl, arith, some, M, ◌>>=◌, pure, pos, List, [], ◌∷◌, ◌++◌, ◌∉◌}
use dpdk_tcp.XyList.{Ptr, null, XyListNode}
use dpdk_tcp.XyList.Ring.{IsNode}
use dpdk_tcp.Mpmc.{mpmc_list_add_tail, mpmc_list_del_head}
use dpdk_tcp.Mpmc.Fifo.{
  IsQueue, mpmc_list_add_tail-IsQueue, mpmc_list_del_head-next, mpmc_list_del_head-nil,
}

pub data Op : Type 0 where
  put : Ptr → Op
  take : Op

-- What the removals return.
abbrev pub run_ops : Ptr → Ptr → List Op → M XyListNode (List Ptr)
run_ops head tail [] = pure []
run_ops head tail (put x ∷ ops) = do _ ← mpmc_list_add_tail tail x; run_ops head tail ops
run_ops head tail (take ∷ ops) = do
  x ← mpmc_list_del_head head tail
  xs ← run_ops head tail ops
  pure (x ∷ xs)

-- The same on a plain queue: what the removals return, and what is left.
abbrev pub fifo : List Ptr → List Op → List Ptr × List Ptr
fifo q [] = ([], q)
fifo q (put x ∷ ops) = fifo (q ++ (x ∷ [])) ops
fifo [] (take ∷ ops) = let (out, left) = fifo [] ops in (null ∷ out, left)
fifo (x ∷ q) (take ∷ ops) = let (out, left) = fifo q ops in (x ∷ out, left)

-- An event is added only while it is not in the queue; each is a node apart from the sentinels.
abbrev pub Fits : XyListNode → Ptr → Ptr → List Ptr → List Op → Type 0
Fits h head tail q [] = Unit
Fits h head tail q (put x ∷ ops) =
    (IsNode h x × (x ≢ null) × (x ≢ tail) × (x ∉ head ∷ q)) × Fits h head tail (q ++ (x ∷ [])) ops
Fits h head tail [] (take ∷ ops) = Fits h head tail [] ops
Fits h head tail (x ∷ q) (take ∷ ops) = Fits h head tail q ops

Fits-kept :
    (h g : XyListNode) (head tail : Ptr) (q : List Ptr) (ops : List Op)
    → ((y : Ptr) → IsNode h y → IsNode g y)
    → Fits h head tail q ops
    → Fits g head tail q ops
Fits-kept h g head tail q [] keep f = tt
Fits-kept h g head tail q (put x ∷ ops) keep ((node, a, b, c), fs) =
    ((keep x node, a, b, c), Fits-kept h g head tail (q ++ (x ∷ [])) ops keep fs)
Fits-kept h g head tail [] (take ∷ ops) keep f = Fits-kept h g head tail [] ops keep f
Fits-kept h g head tail (x ∷ q) (take ∷ ops) keep f = Fits-kept h g head tail q ops keep f

-- What the operations do not unmake.
mpmc_list_add_tail-IsNode :
    (h g : XyListNode) (tail x : Ptr)
    → mpmc_list_add_tail tail x h ≡ some (pos 0, g)
    → (y : Ptr) → IsNode h y
    → IsNode g y
unfolding mpmc_list_add_tail
mpmc_list_add_tail-IsNode h g tail x e y node = ground arith

mpmc_list_del_head-IsNode :
    (h g : XyListNode) (head tail x : Ptr)
    → mpmc_list_del_head head tail h ≡ some (x, g)
    → (y : Ptr) → IsNode h y
    → IsNode g y
unfolding mpmc_list_del_head
mpmc_list_del_head-IsNode h g head tail x e y node = ground arith

-- Any sequence of additions and removals, one after the other, is run to its end: the removals
-- return what they would of a plain first-in-first-out queue, `NULL` when that is empty, and the
-- list holds what is left in the queue. An event is added only while it is not in the list, and is
-- a node apart from the sentinels; it may be added again once it is out.
pub run_ops-fifo :
    (h : XyListNode) (head tail : Ptr) (q : List Ptr) (ops : List Op)
    → IsQueue h head tail q
    → Fits h head tail q ops
    → (g : XyListNode) × (run_ops head tail ops h ≡ some ((fifo q ops).0, g))
      × IsQueue g head tail (fifo q ops).1
run_ops-fifo h head tail q [] v f = (h, refl, v)
run_ops-fifo h head tail q (put x ∷ ops) v ((node, a, b, c), fs) =
    let (g, run, v') = mpmc_list_add_tail-IsQueue h head tail x q v node a b c in
    let keep = mpmc_list_add_tail-IsNode h g tail x run in
    let (k, rest, v'') =
      run_ops-fifo g head tail (q ++ (x ∷ [])) ops v'
        (Fits-kept h g head tail (q ++ (x ∷ [])) ops keep fs) in
    (k, ground (arith, run, rest), v'')
run_ops-fifo h head tail [] (take ∷ ops) v f =
    let (k, rest, v') = run_ops-fifo h head tail [] ops v f in
    (k, ground (arith, mpmc_list_del_head-nil h head tail v, rest), v')
run_ops-fifo h head tail (x ∷ q) (take ∷ ops) v f =
    let (g, run, v', _, _) = mpmc_list_del_head-next h head tail x q v in
    let keep = mpmc_list_del_head-IsNode h g head tail x run in
    let (k, rest, v'') = run_ops-fifo g head tail q ops v' (Fits-kept h g head tail q ops keep f) in
    (k, ground (arith, run, rest), v'')
