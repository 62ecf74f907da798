-- ===== src/XyList.antt =====
-- network/include/xy_list.h: intrusive circular doubly linked lists. An address is a number. The
-- store of the nodes has the two link fields of each node; an address without a node is `none`.
pub mod Chain
pub mod Delete
pub mod Move
pub mod Ring
use dpdk_tcp.Prelude.{ℕ, Bool, Option, none, some, M, ◌>>=◌, ◌>>◌, pure, update, ◌==◌}

abbrev pub Ptr : Type 0
Ptr = ℕ

abbrev pub null : Ptr
null = 0

-- `xy_list_node`, for every address at once
pub record XyListNode : Type 0 where
  pub next : Ptr → Option Ptr
  pub prev : Ptr → Option Ptr

-- `p->next` and `p->prev`, read and written
unfoldable pub load_next : Ptr → M XyListNode Ptr
load_next p h = elim (h.next p) [ none ↦ none | some q ↦ some (q, h) ]

unfoldable pub load_prev : Ptr → M XyListNode Ptr
load_prev p h = elim (h.prev p) [ none ↦ none | some q ↦ some (q, h) ]

unfoldable pub store_next : Ptr → Ptr → M XyListNode (Unit {0})
store_next p q h = elim (h.next p) [
  | none ↦ none
  | some _ ↦ some (tt, record h { next = update h.next p (some q) })
]

unfoldable pub store_prev : Ptr → Ptr → M XyListNode (Unit {0})
store_prev p q h = elim (h.prev p) [
  | none ↦ none
  | some _ ↦ some (tt, record h { prev = update h.prev p (some q) })
]

unfoldable pub xy_list_init : Ptr → M XyListNode (Unit {0})
unfolding store_next store_prev
xy_list_init head = do store_next head head; store_prev head head

unfoldable pub xy_list_add_head : Ptr → Ptr → M XyListNode (Unit {0})
unfolding load_next store_next store_prev
xy_list_add_head head new_node = do
  first ← load_next head
  store_prev first new_node
  first ← load_next head
  store_next new_node first
  store_prev new_node head
  store_next head new_node

unfoldable pub xy_list_add_tail : Ptr → Ptr → M XyListNode (Unit {0})
unfolding load_prev store_next store_prev
xy_list_add_tail head new_node = do
  last ← load_prev head
  store_next last new_node
  last ← load_prev head
  store_prev new_node last
  store_next new_node head
  store_prev head new_node

unfoldable pub xy_list_del : Ptr → M XyListNode (Unit {0})
unfolding load_next load_prev store_next store_prev
xy_list_del elem = do
  prev ← load_prev elem
  next ← load_next elem
  store_next prev next
  store_prev next prev

unfoldable pub xy_list_take_head : Ptr → M XyListNode Ptr
unfolding load_next xy_list_del
xy_list_take_head head = do elem ← load_next head; xy_list_del elem; pure elem

unfoldable pub xy_list_take_tail : Ptr → M XyListNode Ptr
unfolding load_prev xy_list_del
xy_list_take_tail head = do elem ← load_prev head; xy_list_del elem; pure elem

unfoldable pub xy_list_is_empty : Ptr → M XyListNode Bool
unfolding load_next
xy_list_is_empty head = do first ← load_next head; pure (first == head)
