-- ===== src/Mpmc.antt =====
-- queue/include/xy_mpmc.h: the list of events between the application's threads and the DPDK thread,
-- with a sentinel at each end. An operation is one step, since a mutex holds no value;
-- Race takes the read before the locks as a step of its own.
pub mod Fifo
pub mod Race
pub mod Sequence
use dpdk_tcp.Prelude.{ℕ, M, ◌>>=◌, ◌>>◌, pure, ◌==◌, ◌||◌, if◌then◌else◌, ℤ, pos, minus_one, some}
use dpdk_tcp.XyList.{Ptr, null, XyListNode, load_next, load_prev, store_next, store_prev}

unfoldable pub mpmc_list_add_head : Ptr → Ptr → M XyListNode ℤ
unfolding load_next store_next store_prev
mpmc_list_add_head head node = if head == null || node == null then pure minus_one else (do
  next ← load_next head
  store_next head node
  store_next node next
  store_prev next node
  store_prev node head
  pure (pos 0))

-- `mpmc_list_add_tail` from the locks of the two nodes on.
unfoldable pub add_tail_locked : Ptr → Ptr → Ptr → M XyListNode ℤ
unfolding store_next store_prev
add_tail_locked tail prev node = do
  store_next prev node
  store_next node tail
  store_prev tail node
  store_prev node prev
  pure (pos 0)

-- `tail->prev` is read before the locks.
unfoldable pub mpmc_list_add_tail : Ptr → Ptr → M XyListNode ℤ
unfolding load_prev add_tail_locked
mpmc_list_add_tail tail node =
    if tail == null || node == null
    then pure minus_one
    else do prev ← load_prev tail; add_tail_locked tail prev node

unfoldable pub mpmc_list_del_head : Ptr → Ptr → M XyListNode Ptr
unfolding load_next store_next store_prev
mpmc_list_del_head head tail = do
  first ← load_next head
  if first == tail
      then pure null
      else (do second ← load_next first; store_next head second; store_prev second head; pure first)
