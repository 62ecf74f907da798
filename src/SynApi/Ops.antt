-- ===== src/SynApi/Ops.antt =====
-- queue/include/xy_syn_api.h: the object that stands for a call of the application, as the thread
-- that polls the device reads and writes it.
use dpdk_tcp.Prelude.{
  ℕ, ◌+◌, ◌*◌, ◌/◌, ◌%◌, ◌^◌, M, ◌>>=◌, pure, Option, none, some, u32, update, ◌==◌, if◌then◌else◌,
  List, [], ◌∷◌, zero, suc, leb, ltb, ◌&&◌, ◌-◌, Bool, true, false,
}
use dpdk_tcp.XyList.{Ptr, XyListNode, load_next, store_next}
use dpdk_tcp.Socket.{TcpStates, tcp_close, tcp_established}
use dpdk_tcp.World.{World, XySocketOps}

pub data XyOpsType : Type 0 where
  xy_tcp_ops_create xy_tcp_ops_bind xy_tcp_ops_listen xy_tcp_ops_accept xy_tcp_ops_connect :
      XyOpsType
  xy_tcp_ops_close xy_tcp_ops_send xy_tcp_ops_recv xy_epoll_ops_creat : XyOpsType

-- the values of the `enum`
abbrev pub number_of : XyOpsType → ℕ
number_of xy_tcp_ops_create = 0
number_of xy_tcp_ops_bind = 1
number_of xy_tcp_ops_listen = 2
number_of xy_tcp_ops_accept = 3
number_of xy_tcp_ops_connect = 4
number_of xy_tcp_ops_close = 5
number_of xy_tcp_ops_send = 6
number_of xy_tcp_ops_recv = 7
number_of xy_epoll_ops_creat = 8

abbrev pub type_of_number : ℕ → Option XyOpsType
type_of_number n =
    if n == 0
    then some xy_tcp_ops_create
    else if n == 1
    then some xy_tcp_ops_bind
    else if n == 2
    then some xy_tcp_ops_listen
    else if n == 3
    then some xy_tcp_ops_accept
    else if n == 4
    then some xy_tcp_ops_connect
    else if n == 5
    then some xy_tcp_ops_close
    else if n == 6
    then some xy_tcp_ops_send
    else if n == 7
    then some xy_tcp_ops_recv
    else if n == 8
    then some xy_epoll_ops_creat
    else none

abbrev pub is_closed : TcpStates → Bool
is_closed tcp_close = true
is_closed _ = false

abbrev pub is_established : TcpStates → Bool
is_established tcp_established = true
is_established _ = false

unfoldable pub load_ops : Ptr → M World XySocketOps
load_ops p w = elim (w.ops p) [ none ↦ none | some o ↦ some (o, w) ]

unfoldable pub modify_ops : Ptr → (XySocketOps → XySocketOps) → M World (Unit {0})
modify_ops p f w = elim (w.ops p) [
  | none ↦ none
  | some o ↦ some (tt, record w { ops = update w.ops p (some (f o)) })
]

-- An operation on the links of the queue of events.
unfoldable pub on_events : {A : Type 0} → M XyListNode A → M World A
on_events m w = elim (m w.events) [ none ↦ none | some (a, h) ↦ some (a, record w { events = h }) ]

-- `ops->type` and `ops->done` are the octets 0 to 3 and the octet 4 of the object, on a machine that
-- stores the low octet first; the link `next` is the octets 0 to 7.
abbrev pub type_of_link : ℕ → ℕ
type_of_link n = u32 n

abbrev pub done_of_link : ℕ → ℕ
done_of_link n = n / 2 ^ 32 % 2 ^ 8

abbrev pub with_done : ℕ → ℕ
with_done n = n / 2 ^ 40 * 2 ^ 40 + 2 ^ 32 + u32 n

unfoldable pub load_type : Ptr → M World ℕ
unfolding on_events load_next
load_type p = do n ← on_events (load_next p); pure (type_of_link n)

unfoldable pub load_done : Ptr → M World ℕ
unfolding on_events load_next
load_done p = do n ← on_events (load_next p); pure (done_of_link n)

-- `ops->done = 1`
unfoldable pub set_done : Ptr → M World (Unit {0})
unfolding on_events load_next store_next
set_done p = do n ← on_events (load_next p); on_events (store_next p (with_done n))

-- The octets from an address on, and `rte_memcpy` of octets that do not overlap.
abbrev pub octets : (Ptr → ℕ) → Ptr → ℕ → List ℕ
octets b p zero = []
octets b p (suc n) = b p ∷ octets b (p + 1) n

unfoldable pub copy_octets : Ptr → Ptr → ℕ → M World (Unit {0})
copy_octets dst src n w = some (
  tt,
  record w {
    bytes =
        λ (j : ℕ). if leb dst j && ltb j (dst + n) then w.bytes (src + (j - dst)) else w.bytes j;
  },
)
