-- ===== src/Tcp/Others/Acceptable.antt =====
-- The acceptability test of network/include/xy_tcp_state_others.h.
use dpdk_tcp.Prelude.{
  ◌+◌, ◌^◌, ◌≤◌, ◌<◌, ◌≡◌, ◌≢◌, arith, true, false, u32, if◌then◌else◌, ltb, ◌&&◌,
}
use dpdk_tcp.Packet.{TcpHdr}
use dpdk_tcp.Socket.{Tcb}
use dpdk_tcp.Tcp.Others.{acceptable}

-- With an open window whose right edge does not wrap, every segment is acceptable, also one that lies
-- wholly outside the window.
pub acceptable_all :
    (t : Tcb) (h : TcpHdr) → t.rcv_wnd ≢ 0 → t.rcv_nxt + t.rcv_wnd < 2 ^ 32 → acceptable t h ≡ true
unfolding acceptable
acceptable_all t h open_ fits = ground arith

-- With an open window whose right edge wraps, a segment is refused exactly when its sequence number
-- lies between the right edge and the left one.
pub acceptable_wrapped :
    (t : Tcb) (h : TcpHdr)
    → t.rcv_wnd ≢ 0
    → t.rcv_wnd < 2 ^ 32
    → t.rcv_nxt < 2 ^ 32
    → 2 ^ 32 ≤ t.rcv_nxt + t.rcv_wnd
    → acceptable t h ≡ (
        if ltb (u32 (t.rcv_nxt + t.rcv_wnd)) h.sent_seq && ltb h.sent_seq t.rcv_nxt
        then false
        else true)
unfolding acceptable
acceptable_wrapped t h open_ small low wraps = ground arith
