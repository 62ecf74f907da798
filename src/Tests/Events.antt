-- ===== src/Tests/Events.antt =====
-- The list of events at small inputs: the sentinels are 1 and 9, the event 2 stands between them.
use dpdk_tcp.Prelude.{◌≡◌, refl, arith, some, List, [], ◌∷◌, ◌==◌, if◌then◌else◌, pos}
use dpdk_tcp.XyList.{XyListNode, null, load_prev}
use dpdk_tcp.Mpmc.{add_tail_locked, mpmc_list_del_head}
use dpdk_tcp.Mpmc.Fifo.{IsQueue}
use dpdk_tcp.Mpmc.Race.{add_all, add_tail_locked-lost}
use dpdk_tcp.Mpmc.Sequence.{Op, put, take, run_ops, fifo, run_ops-fifo}

abbrev nodes : XyListNode
nodes = record {
  next = λ a. some (if a == 1 then 2 else if a == 2 then 9 else 0);
  prev = λ a. some (if a == 9 then 2 else if a == 2 then 1 else 0);
}

nodes-IsQueue : IsQueue nodes 1 9 (2 ∷ [])
nodes-IsQueue = record {
  chain = ((refl, refl), (refl, refl));
  apart = (refl, (refl, tt));
  tail_out = refl;
  head_ne = omega arith;
  tail_ne = omega arith;
}

-- 3 is added and both are taken out; 2 is added again.
abbrev ops : List Op
ops = put 3 ∷ take ∷ take ∷ take ∷ put 2 ∷ []

ops_result : fifo (2 ∷ []) ops ≡ (2 ∷ 3 ∷ null ∷ [], 2 ∷ [])
ops_result = refl

run_ops-fifo_example :
    (g : XyListNode) × (run_ops 1 9 ops nodes ≡ some (2 ∷ 3 ∷ null ∷ [], g))
    × IsQueue g 1 9 (2 ∷ [])
run_ops-fifo_example = run_ops-fifo nodes 1 9 (2 ∷ []) ops nodes-IsQueue (ground arith)

-- 3 is added while 2 is taken out; 4 and 5 come later.
add_tail_locked-lost_example :
    (g : XyListNode) × (k : XyListNode) × (j : XyListNode) × (load_prev 9 nodes ≡ some (2, nodes))
    × (mpmc_list_del_head 1 9 nodes ≡ some (2, g))
    × (add_tail_locked 9 2 3 g ≡ some (pos 0, k))
    × (add_all 9 (4 ∷ 5 ∷ []) k ≡ some (tt, j))
    × (mpmc_list_del_head 1 9 j ≡ some (null, j))
add_tail_locked-lost_example =
    add_tail_locked-lost nodes 1 9 2 3 (4 ∷ 5 ∷ []) nodes-IsQueue (ground arith) (omega arith)
