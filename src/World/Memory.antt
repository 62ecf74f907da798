-- ===== src/World/Memory.antt =====
-- Reading and writing the objects of the program's memory.
use dpdk_tcp.Prelude.{ℕ, ℤ, ◌+◌, none, some, ◌∷◌, M, ◌>>=◌, ◌>>◌, update, u32}
use dpdk_tcp.XyList.{Ptr, XyListNode, null, load_next, load_prev}
use dpdk_tcp.Wnd.Mbuf.{XyMbufStore, on_node}
use dpdk_tcp.Packet.{Frame}
use dpdk_tcp.Socket.{XyTcpSocket, Tcb, TcpStates}
use dpdk_tcp.World.{World, System, XyEventPoll, XyEpollItem, XySocketMap}

-- An operation on the lists leaves the rest of the memory alone.
unfoldable pub on_lists : {A : Type 0} → M XyMbufStore A → M World A
on_lists m w = elim (m w.lists) [ none ↦ none | some (a, s) ↦ some (a, record w { lists = s }) ]

unfoldable pub on_links : {A : Type 0} → M XyListNode A → M World A
unfolding on_lists on_node
on_links m = on_lists (on_node m)

unfoldable pub load_sock : Ptr → M World XyTcpSocket
load_sock p w = elim (w.socks p) [ none ↦ none | some sk ↦ some (sk, w) ]

-- A write to fields of a socket that exists.
unfoldable pub modify_sock : Ptr → (XyTcpSocket → XyTcpSocket) → M World (Unit {0})
modify_sock p f w = elim (w.socks p) [
  | none ↦ none
  | some sk ↦ some (tt, record w { socks = update w.socks p (some (f sk)) })
]

unfoldable pub modify_tcb : Ptr → (Tcb → Tcb) → M World (Unit {0})
unfolding modify_sock
modify_tcb p f = modify_sock p (λ sk. record sk { tcb = f sk.tcb })

unfoldable pub set_state : Ptr → TcpStates → M World (Unit {0})
unfolding modify_sock
set_state p s = modify_sock p (λ sk. record sk { state = s })

unfoldable pub load_frame : Ptr → M World Frame
load_frame m w = some (w.frames m, w)

unfoldable pub modify_frame : Ptr → (Frame → Frame) → M World (Unit {0})
modify_frame m f w = some (tt, record w { frames = update w.frames m (f (w.frames m)) })

-- `rte_pktmbuf_free`
unfoldable pub pktmbuf_free : Ptr → M World (Unit {0})
pktmbuf_free m w = some (tt, record w { freed = m ∷ w.freed })

-- Both links of a node written, as a whole-struct assignment or `malloc` does.
unfoldable pub put_links : Ptr → Ptr → Ptr → M World (Unit {0})
put_links p next prev w = some (
  tt,
  record w {
    lists = record (w.lists) {
      node = record {
        next = update w.lists.node.next p (some next);
        prev = update w.lists.node.prev p (some prev);
      };
    };
  },
)

unfoldable pub copy_links : Ptr → Ptr → M World (Unit {0})
unfolding put_links on_links load_next load_prev
copy_links dst src = do
  next ← on_links (load_next src)
  prev ← on_links (load_prev src)
  put_links dst next prev

-- `*p = {…}`: every byte of the socket is written, the three nodes inside it become zero.
unfoldable pub assign_sock : System → Ptr → XyTcpSocket → M World (Unit {0})
unfolding put_links modify_sock
assign_sock sys p sk = do
  modify_sock p (λ _. sk)
  put_links p null null
  put_links (sys.rcv_buf_list p) null null
  put_links (sys.snd_buf_list p) null null

-- `*get_tcb(p) = {…}`, likewise, with the two nodes inside it.
unfoldable pub assign_tcb : System → Ptr → Tcb → M World (Unit {0})
unfolding put_links modify_tcb
assign_tcb sys p tcb = do
  modify_tcb p (λ _. tcb)
  put_links (sys.rcv_buf_list p) null null
  put_links (sys.snd_buf_list p) null null

-- `rte_memcpy(dst, src, sizeof(xy_tcp_socket))`
unfoldable pub copy_sock : System → Ptr → Ptr → M World (Unit {0})
unfolding load_sock modify_sock copy_links
copy_sock sys dst src = do
  sk ← load_sock src
  modify_sock dst (λ _. sk)
  copy_links dst src
  copy_links (sys.rcv_buf_list dst) (sys.rcv_buf_list src)
  copy_links (sys.snd_buf_list dst) (sys.snd_buf_list src)

unfoldable pub rand : System → M World ℕ
rand sys w = some (u32 (sys.rand w.rands), record w { rands = w.rands + 1 })

unfoldable pub malloc : System → M World Ptr
malloc sys w = some (sys.malloc w.mallocs, record w { mallocs = w.mallocs + 1 })

-- `rte_pktmbuf_alloc(buf_pool)`
unfoldable pub pktmbuf_alloc : System → M World Ptr
pktmbuf_alloc sys w = some (sys.pktmbuf_alloc w.allocs, record w { allocs = w.allocs + 1 })

unfoldable pub load_map : Ptr → M World XySocketMap
load_map p w = some (w.maps p, w)

unfoldable pub modify_map : Ptr → (XySocketMap → XySocketMap) → M World (Unit {0})
modify_map p f w = some (tt, record w { maps = update w.maps p (f (w.maps p)) })

unfoldable pub load_poll : Ptr → M World XyEventPoll
load_poll p w = elim (w.polls p) [ none ↦ none | some ep ↦ some (ep, w) ]

unfoldable pub modify_poll : Ptr → (XyEventPoll → XyEventPoll) → M World (Unit {0})
modify_poll p f w = elim (w.polls p) [
  | none ↦ none
  | some ep ↦ some (tt, record w { polls = update w.polls p (some (f ep)) })
]

unfoldable pub load_item : Ptr → M World XyEpollItem
load_item p w = elim (w.items p) [ none ↦ none | some epi ↦ some (epi, w) ]

unfoldable pub modify_item : Ptr → (XyEpollItem → XyEpollItem) → M World (Unit {0})
modify_item p f w = elim (w.items p) [
  | none ↦ none
  | some epi ↦ some (tt, record w { items = update w.items p (some (f epi)) })
]

-- `errno = e; return r;`
unfoldable pub fail_with : ℤ → ℤ → M World ℤ
fail_with e r w = some (r, record w { errno = e })
