-- ===== src/WndHdl/Receive.antt =====
-- A segment that arrives (network/include/xy_tcp_wnd_hdl.h): the receive window and RCV.NXT.
use dpdk_tcp.Prelude.{
  ℕ, zero, suc, ◌+◌, ◌%◌, ◌^◌, ◌≤◌, ◌<◌, ◌≡◌, ◌≢◌, refl, arith, u32, sub32, pos, some, update, List,
  ◌++◌, length,
}
use dpdk_tcp.XyList.{Ptr, null}
use dpdk_tcp.Socket.{XyTcpSocket}
use dpdk_tcp.Wnd.{XyTcpRcvWnd, xy_rcv_wnd_size, xy_tcp_rcv_wnd_try_put}
use dpdk_tcp.Wnd.Mbuf.Holds.{Holds, Fresh}
use dpdk_tcp.Wnd.Rcv.{rcv_slot-lt}
use dpdk_tcp.Wnd.Rcv.Collect.{ready, ready_from}
use dpdk_tcp.Wnd.Rcv.Deliver.{xy_tcp_rcv_wnd_collect-ready}
use dpdk_tcp.World.{World, System}
use dpdk_tcp.WndHdl.{tcp_recv_window_update}

-- The window with a buffer in the slot at its left edge.
abbrev pub with_next : XyTcpRcvWnd → Ptr → XyTcpRcvWnd
with_next wnd m = record wnd { buffer = update wnd.buffer wnd.head_ m }

try_put-next :
    (wnd : XyTcpRcvWnd) (seq : ℕ) (m : Ptr)
    → wnd.head_ < xy_rcv_wnd_size
    → seq < 2 ^ 32
    → xy_tcp_rcv_wnd_try_put wnd seq seq m ≡ (1, with_next wnd m)
unfolding xy_tcp_rcv_wnd_try_put
try_put-next wnd seq m h k =
    let z : sub32 seq seq ≡ 0 = omega arith in
    let e : (wnd.head_ + 0) % xy_rcv_wnd_size ≡ wnd.head_ = omega arith in
    rw (z, rcv_slot-lt wnd 0 h (omega arith), e) (ground arith)

ready_from-pos : (b : ℕ → Ptr) (k i : ℕ) → 0 < k → b i ≢ null → 1 ≤ length (ready_from b k i)
unfolding ready_from
ready_from-pos b zero i h ne = absurd (omega arith)
ready_from-pos b (suc k) i h ne = ground arith

with_next-head :
    (wnd : XyTcpRcvWnd) (m : Ptr) → m ≢ null → (with_next wnd m).buffer wnd.head_ ≢ null
with_next-head wnd m ne = ground arith

ready-next : (wnd : XyTcpRcvWnd) (m : Ptr) → m ≢ null → 1 ≤ length (ready (with_next wnd m))
ready-next wnd m ne =
    ready_from-pos (with_next wnd m).buffer xy_rcv_wnd_size wnd.head_ (omega arith)
      (with_next-head wnd m ne)

module _ (sys : System) (w : World) (p m : Ptr) (sk : XyTcpSocket) (found : w.socks p ≡ some sk)
    (head_in : sk.tcb.rcv_wnd_buffer.head_ < xy_rcv_wnd_size) where
  -- The segment that is expected next, in a buffer with a node of its own, is put at the left edge of
  -- the window; it and the segments behind it that had arrived go to the end of the list of received
  -- buffers, and RCV.NXT grows by their number, which is at least one.
  pub tcp_recv_window_update-next :
      (ms : List Ptr)
      → m ≢ null
      → (w.frames m).tcp.sent_seq ≡ sk.tcb.rcv_nxt
      → sk.tcb.rcv_nxt < 2 ^ 32
      → Holds sys.pktmbuf_mtod w.lists (sys.rcv_buf_list p) ms
      → Fresh sys.pktmbuf_mtod w.lists
          (sys.rcv_buf_list p)
          ms
          (ready (with_next sk.tcb.rcv_wnd_buffer m))
      → (w' : World) × (sk' : XyTcpSocket) × (tcp_recv_window_update sys p m w ≡ some (pos 0, w'))
        × (w'.socks p ≡ some sk')
        × (sk'.tcb.rcv_nxt
            ≡ u32 (sk.tcb.rcv_nxt + length (ready (with_next sk.tcb.rcv_wnd_buffer m))))
        × (1 ≤ length (ready (with_next sk.tcb.rcv_wnd_buffer m)))
        × Holds sys.pktmbuf_mtod w'.lists
            (sys.rcv_buf_list p)
            (ms ++ ready (with_next sk.tcb.rcv_wnd_buffer m))
        × (w'.tx ≡ w.tx)
  unfolding tcp_recv_window_update
  tcp_recv_window_update-next ms ne seq small holds fresh =
      let wnd = with_next sk.tcb.rcv_wnd_buffer m in
      let (t, wnd', run, holds', _, _) =
        xy_tcp_rcv_wnd_collect-ready sys.pktmbuf_mtod wnd w.lists (sys.rcv_buf_list p) ms head_in
          holds fresh 0 (omega arith) in
      let sk' : XyTcpSocket = record sk {
        tcb = record (sk.tcb) {
          rcv_wnd_buffer = wnd';
          rcv_nxt = u32 (sk.tcb.rcv_nxt + length (ready wnd));
        };
      } in
      (
        record w { socks = update w.socks p (some sk'); lists = t },
        sk',
        ground (arith, try_put-next sk.tcb.rcv_wnd_buffer sk.tcb.rcv_nxt m head_in small, run),
        ground arith,
        refl,
        ready-next sk.tcb.rcv_wnd_buffer m ne,
        holds',
        refl,
      )

  -- A segment that is not the one expected next moves no buffer to the list and leaves RCV.NXT:
  -- `tcp_recv_window_update` returns 0 and changes only the receive window, as
  -- `xy_tcp_rcv_wnd_try_put` says.
  pub tcp_recv_window_update-ahead :
      (w.frames m).tcp.sent_seq ≢ sk.tcb.rcv_nxt
      → tcp_recv_window_update sys p m w
        ≡ some (
          pos 0,
          record w {
            socks = update w.socks p (
                some (record sk {
                  tcb = record (sk.tcb) {
                    rcv_wnd_buffer =
                        (xy_tcp_rcv_wnd_try_put sk.tcb.rcv_wnd_buffer sk.tcb.rcv_nxt
                          (w.frames m).tcp.sent_seq
                          m).1;
                  };
                }));
          },
        )
  unfolding tcp_recv_window_update
  tcp_recv_window_update-ahead other = ground arith
