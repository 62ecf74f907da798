-- ===== src/SynApi/Text.antt =====
-- The calls of queue/src/xy_syn_api.cc that send and receive text.
use dpdk_tcp.Prelude.{
  ℕ, zero, suc, ◌+◌, ◌-◌, ◌^◌, M, ◌>>=◌, ◌>>◌, pure, fault, Bool, true, false, leb, ltb, ◌==◌, ◌||◌,
  if◌then◌else◌, u16, u8, ℤ, minus_one, List, ◌++◌, drop, length,
}
use dpdk_tcp.XyList.{Ptr, null}
use dpdk_tcp.Wnd.Mbuf.{xy_mbuf_list_take_head}
use dpdk_tcp.Packet.{Frame}
use dpdk_tcp.Socket.{XyBufCursor}
use dpdk_tcp.World.{World, System}
use dpdk_tcp.World.Memory.{
  load_sock, modify_tcb, load_frame, modify_frame, pktmbuf_alloc, pktmbuf_free, on_lists,
}
use dpdk_tcp.Net.{sizeof_ether_hdr, sizeof_ipv4_hdr, sizeof_tcp_hdr}
use dpdk_tcp.SynApi.Ops.{load_ops, modify_ops, is_established, octets, copy_octets}
use dpdk_tcp.SynApi.Calls.{with_sock, fill_headers, queue_segment}

abbrev pub rte_ether_mtu : ℕ
rte_ether_mtu = 1500

-- `XY_TCP_MAX_DATA_LEN` of network/include/xy_macros.h
abbrev pub xy_tcp_max_data_len : ℕ
xy_tcp_max_data_len = rte_ether_mtu - sizeof_ipv4_hdr - sizeof_tcp_hdr

-- How much of the text that is left goes into the next segment.
abbrev pub data_len_of : ℕ → ℕ
data_len_of len = u16 (if ltb xy_tcp_max_data_len len then xy_tcp_max_data_len else len)

module _ (sys : System) where
  -- `rte_memcpy(tcp_data, …)`: the text goes to `iph + XY_TCP_HDR_LEN`, which is where the TCP header
  -- begins, so its first octets lie in the header and the others over the payload.
  unfoldable pub write_text : Frame → List ℕ → Frame
  write_text f text = record f {
    tcp = sys.tcp_hdr_with f.tcp text;
    payload = drop sizeof_tcp_hdr text ++ drop (length (drop sizeof_tcp_hdr text)) f.payload;
  }

  -- One round of the loop of `xy_syn_send`, with `data_len` octets from `buf`.
  unfoldable pub send_segment : Ptr → Ptr → ℕ → M World (Unit {0})
  unfolding pktmbuf_alloc load_frame modify_frame copy_octets write_text fill_headers queue_segment
  send_segment tcp_sk buf data_len = do
    m_buf ← pktmbuf_alloc sys
    if m_buf == null then fault else (do
      modify_frame m_buf (λ f. sys.pktmbuf_append f rte_ether_mtu)
      (λ (w : World). modify_frame m_buf (λ f. write_text f (octets w.bytes buf data_len)) w)
      copy_octets (sys.pktmbuf_mtod m_buf + sizeof_ether_hdr + sizeof_tcp_hdr) buf data_len
      let ip_len = u16 (data_len + sizeof_tcp_hdr + sizeof_ipv4_hdr)
      modify_frame m_buf (λ f. record f {
        data_len = u16 (ip_len + sizeof_ipv4_hdr + sizeof_ether_hdr);
        pkt_len = u16 (ip_len + sizeof_ipv4_hdr + sizeof_ether_hdr);
      })
      fill_headers sys tcp_sk m_buf ip_len 0
      queue_segment sys tcp_sk m_buf)

  -- `while (len > 0)`, for at most the given rounds: the number of octets that were taken.
  unfoldable pub send_text : ℕ → Ptr → Ptr → ℕ → M World ℕ
  unfolding send_segment
  send_text zero tcp_sk buf len = fault
  send_text (suc k) tcp_sk buf len =
      let rest = send_text k tcp_sk (buf + data_len_of len) (len - data_len_of len) in
      if len == 0 then pure 0 else (do
        send_segment tcp_sk buf (data_len_of len)
        sent ← rest
        pure (data_len_of len + sent))

  unfoldable pub xy_syn_send : Ptr → M World ℤ
  unfolding with_sock load_ops modify_ops send_text
  xy_syn_send send = with_sock sys is_established send λ tcp_sk. do
    o ← load_ops send
    sent ← send_text (suc o.len) tcp_sk o.buf o.len
    modify_ops send (λ c. record c { ret = sent })
    pure minus_one

  -- The cursor on the text of a buffer.
  unfoldable pub cursor_on : Ptr → Frame → XyBufCursor → XyBufCursor
  cursor_on m_buf f cur =
      let iph_len = u8 (sys.ipv4_hdr_len f.ip) in
      record cur {
        buf = sys.pktmbuf_mtod m_buf + sizeof_ether_hdr + iph_len + sizeof_tcp_hdr;
        left = u16 (f.ip.total_length + 2 ^ 16 - iph_len - sizeof_tcp_hdr);
      }

  -- The first half of a round of `xy_syn_recv`: whether there is a buffer under the cursor.
  unfoldable pub next_cursor : Ptr → M World Bool
  unfolding load_sock modify_tcb load_frame on_lists xy_mbuf_list_take_head cursor_on
  next_cursor tcp_sk = do
    sk ← load_sock tcp_sk
    let cur = sk.tcb.read_cursor
    if (cur.buf == null) || (cur.left == 0)
        then (do
          m_buf ← on_lists (xy_mbuf_list_take_head (sys.snd_buf_list tcp_sk))
          if m_buf == null then pure false else (do
            f ← load_frame m_buf
            modify_tcb tcp_sk (λ t. record t { read_cursor = cursor_on m_buf f t.read_cursor })
            pure true))
        else pure true

  -- `rte_pktmbuf_free`, which does nothing on `NULL`
  unfoldable pub free_if : Ptr → M World (Unit {0})
  unfolding pktmbuf_free
  free_if m = if m == null then pure tt else pktmbuf_free m

  -- `while (true)`, for at most the given rounds: how much was read, and where `buf` stands then. `len`
  -- is the same in every round.
  unfoldable pub recv_text : ℕ → Ptr → Ptr → ℕ → M World (ℕ × Ptr)
  unfolding load_sock modify_tcb copy_octets next_cursor free_if
  recv_text zero tcp_sk buf len = fault
  recv_text (suc k) tcp_sk buf len =
      let again = λ (b : Ptr). recv_text k tcp_sk b len in
      do
        found ← next_cursor tcp_sk
        if found
            then (do
              sk ← load_sock tcp_sk
              let cur = sk.tcb.read_cursor
              if leb len cur.left
                  then (do
                    copy_octets buf cur.buf len
                    modify_tcb tcp_sk (λ t. record t {
                      read_cursor = record cur { buf = cur.buf + len; left = cur.left - len };
                    })
                    pure (len, buf))
                  else (do
                    copy_octets buf cur.buf cur.left
                    modify_tcb tcp_sk
                        (λ t. record t { read_cursor = record cur { buf = null; left = 0 } })
                    free_if cur.mbuf
                    (n, b) ← again (buf + cur.left)
                    pure (cur.left + n, b)))
            else pure (0, buf)

  unfoldable pub xy_syn_recv : Ptr → M World ℤ
  unfolding with_sock load_ops modify_ops recv_text
  xy_syn_recv recv = with_sock sys is_established recv λ tcp_sk. do
    o ← load_ops recv
    (read, buf) ← recv_text sys.rounds tcp_sk o.buf o.len
    modify_ops recv (λ c. record c { len = o.len; buf = buf; ret = read })
    pure minus_one
