-- ===== src/SynApi/Segments.antt =====
-- The segments into which `xy_syn_send` of queue/src/xy_syn_api.cc cuts a text.
use dpdk_tcp.Prelude.{
  ℕ, zero, suc, ◌+◌, ◌-◌, ◌/◌, ◌<◌, ◌≡◌, ◌≢◌, refl, ◌∙◌, arith, false, leb, ltb, ◌==◌, ◌&&◌,
  if◌then◌else◌, u16, some, List, [], ◌∷◌, ◌++◌, update, ◌∉◌,
}
use mathlib.Core.List.{append-nil, append_assoc}
use dpdk_tcp.XyList.{Ptr, null}
use dpdk_tcp.XyList.Ring.{IsNode, SameNode}
use dpdk_tcp.Wnd.Mbuf.Holds.{Holds, Fresh, mtods, not-mem-of-Distinct, xy_mbuf_list_add_tail-Holds}
use dpdk_tcp.Wnd.Rcv.Collect.{AllNodes-mono}
use dpdk_tcp.Socket.{XyTcpSocket}
use dpdk_tcp.World.{World, System}
use dpdk_tcp.World.Memory.{
  load_sock, modify_sock, load_frame, modify_frame, pktmbuf_alloc, on_lists,
}
use dpdk_tcp.Net.{
  eth_setup, ip_setup, tcp_setup, ether_type_ipv4, ipproto_tcp, sizeof_ether_hdr, sizeof_ipv4_hdr,
  sizeof_tcp_hdr,
}
use dpdk_tcp.SynApi.Ops.{octets, copy_octets}
use dpdk_tcp.SynApi.Calls.{fill_headers, queue_segment}
use dpdk_tcp.SynApi.Text.{rte_ether_mtu, data_len_of, write_text, send_segment, send_text}

-- How many segments of at most 1460 octets a text takes.
abbrev pub segments_of : ℕ → ℕ
segments_of len = (len + 1459) / 1460

segments_of_next :
    (len n : ℕ)
    → segments_of len ≡ suc n
    → (segments_of (len - data_len_of len) ≡ n) × (0 < data_len_of len)
segments_of_next len n e = (ground arith, ground arith)

data_len_of_total : (len : ℕ) → data_len_of len + (len - data_len_of len) ≡ len
data_len_of_total len = ground arith

module _ (sys : System) (tcp_sk : Ptr) where
  -- The buffers that the next allocations return.
  abbrev pub next_buffers : ℕ → ℕ → List Ptr
  next_buffers allocs zero = []
  next_buffers allocs (suc n) = sys.pktmbuf_alloc allocs ∷ next_buffers (allocs + 1) n

  abbrev pub AllBuffers : List Ptr → Type 0
  AllBuffers [] = Unit
  AllBuffers (m ∷ ms) = (m ≢ null) × AllBuffers ms

  -- The memory that the headers leave: the packet id of the socket has grown, and the frame has them.
  abbrev numbered : World → XyTcpSocket → Ptr → ℕ → XyTcpSocket
  numbered w sk m ip_len = record sk {
    ip_socket = (ip_setup sys sk.ip_socket (w.frames m).ip ipproto_tcp (sys.cpu_to_be_16 ip_len)).0;
  }

  abbrev with_headers : World → XyTcpSocket → Ptr → ℕ → World
  with_headers w sk m ip_len = record w {
    socks = update w.socks tcp_sk (some (numbered w sk m ip_len));
    frames = update w.frames m (record (w.frames m) {
      eth = eth_setup sk.ip_socket.eth_socket (w.frames m).eth (sys.cpu_to_be_16 ether_type_ipv4);
      ip = (ip_setup sys sk.ip_socket (w.frames m).ip ipproto_tcp (sys.cpu_to_be_16 ip_len)).1;
      tcp = tcp_setup sk (w.frames m).tcp 0;
    });
  }

  -- The memory with the text and the lengths in a frame.
  abbrev with_text : World → Ptr → Ptr → ℕ → World
  with_text w m buf n =
      let w1 = record w {
        frames = update w.frames m (sys.pktmbuf_append (w.frames m) rte_ether_mtu);
      } in
      let w2 = record w1 {
        frames = update w1.frames m (write_text sys (w1.frames m) (octets w1.bytes buf n));
        bytes = λ (j : ℕ).
            if leb (sys.pktmbuf_mtod m + sizeof_ether_hdr + sizeof_tcp_hdr) j
              && ltb j (sys.pktmbuf_mtod m + sizeof_ether_hdr + sizeof_tcp_hdr + n)
            then w.bytes (buf + (j - (sys.pktmbuf_mtod m + sizeof_ether_hdr + sizeof_tcp_hdr)))
            else w.bytes j;
      } in
      let len =
        u16 (u16 (n + sizeof_tcp_hdr + sizeof_ipv4_hdr) + sizeof_ipv4_hdr + sizeof_ether_hdr) in
      record w2 {
        frames = update w2.frames m (record (w2.frames m) { data_len = len; pkt_len = len });
      }

  send_segment-Holds :
      (w : World) (sk : XyTcpSocket) (buf n : ℕ) (ms : List Ptr)
      → w.socks tcp_sk ≡ some sk
      → Holds sys.pktmbuf_mtod w.lists (sys.snd_buf_list tcp_sk) ms
      → sys.pktmbuf_alloc w.allocs ≢ null
      → IsNode w.lists.node (sys.pktmbuf_mtod (sys.pktmbuf_alloc w.allocs))
      → sys.pktmbuf_mtod (sys.pktmbuf_alloc w.allocs)
        ∉ sys.snd_buf_list tcp_sk ∷ mtods sys.pktmbuf_mtod ms
      → (w' : World) × (sk' : XyTcpSocket) × (send_segment sys tcp_sk buf n w ≡ some (tt, w'))
        × Holds sys.pktmbuf_mtod w'.lists
            (sys.snd_buf_list tcp_sk)
            (ms ++ (sys.pktmbuf_alloc w.allocs ∷ []))
        × ((a : Ptr) → SameNode w.lists.node w'.lists.node a)
        × (w'.socks tcp_sk ≡ some sk')
        × (w'.allocs ≡ w.allocs + 1)
        × (w'.tx ≡ w.tx)
  unfolding send_segment pktmbuf_alloc modify_frame copy_octets fill_headers load_sock load_frame
      modify_sock queue_segment on_lists
  send_segment-Holds w sk buf n ms e holds live node out =
      let m = sys.pktmbuf_alloc w.allocs in
      let (t, run, holds', keep) =
        xy_mbuf_list_add_tail-Holds sys.pktmbuf_mtod w.lists (sys.snd_buf_list tcp_sk) m ms holds
          node out in
      let v = with_text (record w { allocs = w.allocs + 1 }) m buf n in
      (
        record (with_headers v sk m (u16 (n + sizeof_tcp_hdr + sizeof_ipv4_hdr))) { lists = t },
        numbered v sk m (u16 (n + sizeof_tcp_hdr + sizeof_ipv4_hdr)),
        ground (arith, e, run, live),
        holds',
        keep,
        ground arith,
        refl,
        refl,
      )

  send_text-Holds :
      (n k : ℕ) (w : World) (sk : XyTcpSocket) (buf len : ℕ) (ms : List Ptr)
      → segments_of len ≡ n
      → n < k
      → w.socks tcp_sk ≡ some sk
      → Holds sys.pktmbuf_mtod w.lists (sys.snd_buf_list tcp_sk) ms
      → Fresh sys.pktmbuf_mtod w.lists (sys.snd_buf_list tcp_sk) ms (next_buffers w.allocs n)
      → AllBuffers (next_buffers w.allocs n)
      → (w' : World) × (send_text sys k tcp_sk buf len w ≡ some (len, w'))
        × Holds sys.pktmbuf_mtod w'.lists (sys.snd_buf_list tcp_sk) (ms ++ next_buffers w.allocs n)
        × (w'.tx ≡ w.tx)
  unfolding send_text
  send_text-Holds n zero w sk buf len ms e lt there holds fresh live = ground arith
  send_text-Holds zero (suc k) w sk buf len ms e lt there holds fresh live =
      (w, ground arith, rw append-nil holds, refl)
  send_text-Holds (suc n) (suc k) w sk buf len ms e lt there holds fresh live =
      let m = sys.pktmbuf_alloc w.allocs in
      let (w1, sk1, run, holds1, keep, there1, allocs, tx) =
        send_segment-Holds w sk buf (data_len_of len) ms there holds live.0 fresh.nodes.0 (
          not-mem-of-Distinct sys.pktmbuf_mtod (sys.snd_buf_list tcp_sk) m ms
            (next_buffers (w.allocs + 1) n) fresh.apart) in
      let fresh1 : Fresh sys.pktmbuf_mtod w1.lists (sys.snd_buf_list tcp_sk) (ms ++ (m ∷ []))
          (next_buffers w1.allocs n) =
        rw allocs (record {
          nodes =
              AllNodes-mono sys.pktmbuf_mtod w.lists w1.lists (next_buffers (w.allocs + 1) n) keep
                fresh.nodes.1;
          apart = rw append_assoc fresh.apart;
        }) in
      let (w2, run2, holds2, tx2) =
        send_text-Holds n k w1 sk1 (buf + data_len_of len) (len - data_len_of len) (ms ++ (m ∷ []))
          (segments_of_next len n e).0 (omega arith) there1 holds1 fresh1 (rw allocs live.1) in
      let total : data_len_of len + (len - data_len_of len) ≡ len = data_len_of_total len in
      let more : (len == 0) ≡ false = ground arith in
      (w2, ground (arith, run, run2, total, more), rw (append_assoc, allocs) at holds2, tx2 ∙ tx)

  -- Cutting a text of len octets into segments ends, whatever len is, within len + 1 rounds, and
  -- takes all of the text: it puts (len + 1459) / 1460 new buffers behind those that wait on the
  -- socket's send list, in the order they were allocated, and sends none. The send list is intact,
  -- the buffers' nodes are no others' and not in it, and no allocation fails.
  pub send_text-queues :
      (w : World) (sk : XyTcpSocket) (buf len : ℕ) (ms : List Ptr)
      → w.socks tcp_sk ≡ some sk
      → Holds sys.pktmbuf_mtod w.lists (sys.snd_buf_list tcp_sk) ms
      → Fresh sys.pktmbuf_mtod w.lists
          (sys.snd_buf_list tcp_sk)
          ms
          (next_buffers w.allocs ((len + 1459) / 1460))
      → AllBuffers (next_buffers w.allocs ((len + 1459) / 1460))
      → (w' : World) × (send_text sys (suc len) tcp_sk buf len w ≡ some (len, w'))
        × Holds sys.pktmbuf_mtod w'.lists
            (sys.snd_buf_list tcp_sk)
            (ms ++ next_buffers w.allocs ((len + 1459) / 1460))
        × (w'.tx ≡ w.tx)
  send_text-queues w sk buf len ms there holds fresh live =
      send_text-Holds (segments_of len) (suc len) w sk buf len ms refl (omega arith) there holds
        fresh live
