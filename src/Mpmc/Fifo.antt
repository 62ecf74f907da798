-- ===== src/Mpmc/Fifo.antt =====
-- The list of queue/include/xy_mpmc.h is a first-in-first-out queue of events.
use dpdk_tcp.Prelude.{◌≡◌, ◌≢◌, arith, some, List, [], ◌∷◌, ◌++◌, ◌∉◌, has-append, Distinct, pos}
use dpdk_tcp.XyList.{Ptr, null, XyListNode}
use dpdk_tcp.XyList.Chain.{Chain}
use dpdk_tcp.XyList.Ring.{IsNode, between, Chain-between, Distinct-snoc, IsRing-last}
use dpdk_tcp.XyList.Delete.{without, sides, Chain-without}
use dpdk_tcp.Mpmc.{mpmc_list_add_tail, mpmc_list_del_head}

-- Between the two sentinels stand these events, oldest first.
pub record IsQueue (h : XyListNode) (head tail : Ptr) (xs : List Ptr) : Type 0 where
  pub chain : Chain h head xs tail
  pub apart : Distinct (head ∷ xs)
  pub tail_out : tail ∉ head ∷ xs
  pub head_ne : head ≢ null
  pub tail_ne : tail ≢ null

-- `mpmc_list_add_tail` of a new event returns 0 and puts it behind the others.
pub mpmc_list_add_tail-IsQueue :
    (h : XyListNode) (head tail new : Ptr) (xs : List Ptr)
    → IsQueue h head tail xs
    → IsNode h new
    → new ≢ null
    → new ≢ tail
    → new ∉ head ∷ xs
    → (g : XyListNode) × (mpmc_list_add_tail tail new h ≡ some (pos 0, g))
      × IsQueue g head tail (xs ++ (new ∷ []))
unfolding mpmc_list_add_tail
mpmc_list_add_tail-IsQueue h head tail new xs q node ne nt out =
    let (l, v, n, m) = IsRing-last h tail head xs q.chain in
    (
      between h l tail new,
      ground arith,
      record {
        chain = Chain-between h new tail l head xs q.chain v q.apart (ground arith) out nt;
        apart = Distinct-snoc head new xs q.apart out;
        tail_out = ground (arith, q.tail_out, has-append tail xs (new ∷ []));
        head_ne = q.head_ne;
        tail_ne = q.tail_ne;
      },
    )

-- The node taken out keeps its links, and every node but the head its link to the next.
pub mpmc_list_del_head-next :
    (h : XyListNode) (head tail x : Ptr) (xs : List Ptr)
    → IsQueue h head tail (x ∷ xs)
    → (g : XyListNode) × (mpmc_list_del_head head tail h ≡ some (x, g))
      × IsQueue g head tail xs
      × ((a : Ptr) → a ≢ head → g.next a ≡ h.next a)
      × (g.prev x ≡ some head)
unfolding mpmc_list_del_head
mpmc_list_del_head-next h head tail x xs q =
    elim (Chain-without h x tail head [] xs q.chain q.apart (ground (arith, q.tail_out))) [
      | sides a b before after ma mb linked ↦
          let same : a ≡ head = ground (arith, q.chain) in
          let kept : Chain (without h head b) head xs tail = rw same at linked in
          (
            without h head b,
            ground (arith, q.chain, q.tail_out),
            record {
              chain = kept;
              apart = ground (arith, q.apart);
              tail_out = ground (arith, q.tail_out);
              head_ne = q.head_ne;
              tail_ne = q.tail_ne;
            },
            λ c d. ground arith,
            ground (arith, q.chain, q.apart, q.tail_out),
          )
    ]

-- `mpmc_list_del_head` takes the oldest event out and returns it.
pub mpmc_list_del_head-IsQueue :
    (h : XyListNode) (head tail x : Ptr) (xs : List Ptr)
    → IsQueue h head tail (x ∷ xs)
    → (g : XyListNode) × (mpmc_list_del_head head tail h ≡ some (x, g)) × IsQueue g head tail xs
mpmc_list_del_head-IsQueue h head tail x xs q =
    let (g, run, rest, keep, back) = mpmc_list_del_head-next h head tail x xs q in (g, run, rest)

-- On an empty queue it returns `NULL` and changes nothing.
pub mpmc_list_del_head-nil :
    (h : XyListNode) (head tail : Ptr)
    → IsQueue h head tail []
    → mpmc_list_del_head head tail h ≡ some (null, h)
unfolding mpmc_list_del_head
mpmc_list_del_head-nil h head tail q = ground (arith, q.chain)
