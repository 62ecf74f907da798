-- ===== src/Wnd/Mbuf.antt =====
-- network/include/xy_list_mbuf.h: lists of packet buffers. The node of a buffer lies at the start
-- of its packet data, `rte_pktmbuf_mtod`, which is the parameter `mtod`.
pub mod Holds
use dpdk_tcp.Prelude.{ℕ, Option, none, some, M, ◌>>=◌, ◌>>◌, pure, update, if◌then◌else◌, ◌==◌}
use dpdk_tcp.XyList.{Ptr, XyListNode, xy_list_init, xy_list_add_tail, xy_list_take_head}

-- `xy_mbuf_list`, for every address at once: the list node and the field `mbuf`
pub record XyMbufStore : Type 0 where
  pub node : XyListNode
  pub mbuf : Ptr → Ptr

-- A list operation leaves the fields `mbuf` alone.
unfoldable pub on_node : {A : Type 0} → M XyListNode A → M XyMbufStore A
on_node m s = elim (m s.node) [ none ↦ none | some (a, h) ↦ some (a, record s { node = h }) ]

unfoldable pub xy_mbuf_list_init : Ptr → M XyMbufStore (Unit {0})
unfolding on_node
xy_mbuf_list_init head = on_node (xy_list_init head)

store_mbuf : Ptr → Ptr → M XyMbufStore (Unit {0})
store_mbuf p m s = some (tt, record s { mbuf = update s.mbuf p m })

load_mbuf : Ptr → M XyMbufStore Ptr
load_mbuf p s = some (s.mbuf p, s)

module _ (mtod : Ptr → Ptr) where
  unfoldable pub xy_mbuf_list_add_tail : Ptr → Ptr → M XyMbufStore (Unit {0})
  unfolding store_mbuf on_node
  xy_mbuf_list_add_tail head mbuf = do
    store_mbuf (mtod mbuf) mbuf
    on_node (xy_list_add_tail head (mtod mbuf))

unfoldable pub xy_mbuf_list_take_head : Ptr → M XyMbufStore Ptr
unfolding load_mbuf on_node
xy_mbuf_list_take_head head = do entry ← on_node (xy_list_take_head head); load_mbuf entry
