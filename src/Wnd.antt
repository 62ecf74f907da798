-- ===== src/Wnd.antt =====
-- network/include/xy_tcp_wnd.h: the receive window and the send window of a connection, two rings
-- of packet buffers; and network/include/xy_list_mbuf.h, the lists that buffers are collected in.
pub mod Mbuf
pub mod Rcv
pub mod Snd
use dpdk_tcp.Prelude.{
  ℕ, zero, suc, ◌+◌, ◌-◌, ◌^◌, Bool, true, false, M, ◌>>=◌, ◌>>◌, pure, ltb, leb, ◌==◌,
  if◌then◌else◌, u16, u32, sub32, update, ℤ, pos,
}
use dpdk_tcp.XyList.{Ptr, null}
use dpdk_tcp.Wnd.Mbuf.{XyMbufStore, xy_mbuf_list_add_tail}

abbrev pub xy_rcv_wnd_size : ℕ
xy_rcv_wnd_size = 2 ^ 12

-- The array of buffers is a function of the index.
pub record XyTcpRcvWnd : Type 0 where
  pub head_ : ℕ
  pub buffer : ℕ → Ptr

abbrev pub xy_snd_wnd_size : ℕ
xy_snd_wnd_size = 2 ^ 12

pub record XyTcpSndWnd : Type 0 where
  pub head_ : ℕ
  pub tail_ : ℕ
  pub buffer : ℕ → Ptr

-- The slot that `xy_tcp_rcv_wnd_try_put` writes at an offset from the window's left edge.
unfoldable pub rcv_slot : XyTcpRcvWnd → ℕ → ℕ
rcv_slot window offset =
    let slot = u32 (window.head_ + offset) in
    if leb xy_rcv_wnd_size slot then slot - xy_rcv_wnd_size else slot

-- `offset < 0` is false of a `uint32_t`.
unfoldable pub xy_tcp_rcv_wnd_try_put : XyTcpRcvWnd → ℕ → ℕ → Ptr → ℕ × XyTcpRcvWnd
unfolding rcv_slot
xy_tcp_rcv_wnd_try_put window head_seq seq mbuf =
    let offset = sub32 seq head_seq in
    if ltb xy_rcv_wnd_size offset
    then (0, window)
    else (1, record window { buffer = update window.buffer (rcv_slot window offset) mbuf })

module _ (mtod : Ptr → Ptr) where
  -- One of the two loops of `xy_tcp_rcv_wnd_collect`, from slot `i` for the given rounds. It says
  -- whether it returned from the function, at a slot that holds no buffer.
  unfoldable pub collect_loop :
      ℕ → ℕ → ℕ → Ptr → XyTcpRcvWnd → M XyMbufStore (Bool × ℕ × XyTcpRcvWnd)
  collect_loop zero i count mbuf_list window = pure (false, count, window)
  collect_loop (suc k) i count mbuf_list window =
      let rest =
        xy_mbuf_list_add_tail mtod mbuf_list (window.buffer i)
        >> collect_loop k (i + 1) (u32 (count + 1)) mbuf_list
            (record window { buffer = update window.buffer i null }) in
      if window.buffer i == null then pure (true, count, record window { head_ = u16 i }) else rest

  unfoldable pub xy_tcp_rcv_wnd_collect : XyTcpRcvWnd → Ptr → M XyMbufStore (ℕ × XyTcpRcvWnd)
  unfolding collect_loop
  xy_tcp_rcv_wnd_collect window mbuf_list = do
    (returned, count, window) ←
        collect_loop (xy_rcv_wnd_size - window.head_) window.head_ 0 mbuf_list window
    if returned then pure (count, window) else do
      (_, count, window) ← collect_loop window.head_ 0 count mbuf_list window
      pure (count, window)

unfoldable pub xy_tcp_snd_wnd_erase : XyTcpSndWnd → ℕ → ℕ × XyTcpSndWnd
xy_tcp_snd_wnd_erase window n =
    let head = u32 (window.head_ + n) in
    (
      n,
      record window {
        head_ = u16 (if ltb head xy_snd_wnd_size then head else head - xy_snd_wnd_size);
      },
    )

unfoldable pub xy_tcp_snd_wnd_size : XyTcpSndWnd → ℕ
xy_tcp_snd_wnd_size window = u16 (
    if ltb window.tail_ window.head_
    then xy_snd_wnd_size + window.tail_ - window.head_
    else window.tail_ - window.head_)

unfoldable pub xy_tcp_snd_wnd_add : XyTcpSndWnd → Ptr → ℤ × XyTcpSndWnd
xy_tcp_snd_wnd_add window mbuf =
    let tail = u16 (window.tail_ + 1) in
    (
      pos 0,
      record window {
        buffer = update window.buffer window.tail_ mbuf;
        tail_ = if tail == xy_snd_wnd_size then 0 else tail;
      },
    )
