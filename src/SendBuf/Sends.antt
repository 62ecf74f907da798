-- ===== src/SendBuf/Sends.antt =====
-- What a connected socket sends of what it has queued (network/src/xy_tcp_send.cc).
use dpdk_tcp.Prelude.{
  ℕ, zero, suc, ◌+◌, ◌-◌, ◌^◌, ◌<◌, ◌≡◌, ◌∙◌, ap, sym, refl, arith, some, List, [], ◌∷◌, ◌++◌,
  length, ltb, if◌then◌else◌, u32, pos, update, Bool-cases, inl, inr,
}
use mathlib.Core.List.{append-nil, append_assoc}
use dpdk_tcp.XyList.{Ptr}
use dpdk_tcp.Wnd.{xy_tcp_snd_wnd_size, xy_tcp_snd_wnd_add, xy_snd_wnd_size}
use dpdk_tcp.Wnd.Mbuf.Holds.{Holds, xy_mbuf_list_take_head-Holds}
use dpdk_tcp.Wnd.Snd.{slots, tail_place, IsSndWnd, in_flight, xy_tcp_snd_wnd_add-in_flight}
use dpdk_tcp.Packet.{Frame}
use dpdk_tcp.Socket.{XyTcpSocket}
use dpdk_tcp.World.{World, System}
use dpdk_tcp.Net.{ip_forward, tcp_ready, ip_setup, eth_setup, ipproto_tcp, ether_type_ipv4}
use dpdk_tcp.Net.Forward.{next_id, tx_result, sent}
use dpdk_tcp.SendBuf.Peer.{
  IsSegment, Sends, SamePeer, same_peer, SamePeer-trans, IsSegment-peer, Sends-peer,
}
use dpdk_tcp.SendBuf.{tcp_send_one_buf, send_loop, tcp_send_buf}

-- What is sent again: the oldest buffer, if there is one.
abbrev pub oldest : List Ptr → List Ptr
oldest [] = []
oldest (m ∷ _) = m ∷ []

oldest-slots : (b : ℕ → Ptr) (i n : ℕ) → oldest (slots b i n) ≡ (if ltb 0 n then b i ∷ [] else [])
oldest-slots b i zero = refl
oldest-slots b i (suc n) = ground arith

module _ (sys : System) (p : Ptr) where
  -- The frame and the socket that `tcp_send_one_buf` makes.
  out : XyTcpSocket → Frame → Frame
  out sk f = record f {
    eth = eth_setup sk.ip_socket.eth_socket f.eth (sys.cpu_to_be_16 ether_type_ipv4);
    ip = (ip_setup sys sk.ip_socket f.ip ipproto_tcp f.ip.total_length).1;
    tcp = tcp_ready sys f.tcp f.ip f.payload sk.tcb.snd_nxt sk.tcb.rcv_nxt;
  }

  stepped : XyTcpSocket → XyTcpSocket
  stepped sk = record sk { tcb = record (sk.tcb) { snd_nxt = u32 (sk.tcb.snd_nxt + 1) } }

  out-IsSegment : (sk : XyTcpSocket) (f : Frame) → IsSegment sys sk sk.tcb.snd_nxt (out sk f)
  unfolding out tcp_ready ip_setup eth_setup
  out-IsSegment sk f = record {
    sent_seq = refl;
    recv_ack = refl;
    src_addr = refl;
    dst_addr = refl;
    d_addr = refl;
  }

  tcp_send_one_buf_lem :
      (w : World) (m : Ptr) (sk : XyTcpSocket)
      → w.socks p ≡ some sk
      → tcp_send_one_buf sys p m w
        ≡ some (tx_result sys w, sent w p (stepped sk) m (out sk (w.frames m)))
  unfolding tcp_send_one_buf ip_forward out stepped next_id sent tx_result ip_setup
  tcp_send_one_buf_lem w m sk e = ground arith

  -- What sending these buffers leaves, with others still queued.
  pub record Sent (w : World) (sk : XyTcpSocket) (again ms rest : List Ptr) (w' : World)
      : Type 0 where
    pub after : XyTcpSocket
    pub there : w'.socks p ≡ some after
    pub same : SamePeer sk after
    pub snd_nxt : after.tcb.snd_nxt ≡ u32 (sk.tcb.snd_nxt + length (again ++ ms))
    pub flight : in_flight after.tcb.snd_wnd_buffer ≡ in_flight sk.tcb.snd_wnd_buffer ++ ms
    pub queued : Holds sys.pktmbuf_mtod w'.lists (sys.snd_buf_list p) rest
    pub sends : Sends sys sk sk.tcb.snd_nxt (again ++ ms) w'.tx w.tx

  -- The socket after one round of the loop.
  next_sock : XyTcpSocket → Ptr → XyTcpSocket
  next_sock sk m = next_id (
      stepped (record sk {
        tcb = record (sk.tcb) { snd_wnd_buffer = (xy_tcp_snd_wnd_add sk.tcb.snd_wnd_buffer m).1 };
      }))

  send_loop-Sent :
      (ms rest : List Ptr) (w : World) (sk : XyTcpSocket)
      → w.socks p ≡ some sk
      → sk.tcb.snd_nxt < 2 ^ 32
      → IsSndWnd sk.tcb.snd_wnd_buffer
      → xy_tcp_snd_wnd_size sk.tcb.snd_wnd_buffer + length ms < xy_snd_wnd_size
      → Holds sys.pktmbuf_mtod w.lists (sys.snd_buf_list p) (ms ++ rest)
      → (w' : World) × (send_loop sys (length ms) p w ≡ some (tt, w')) × Sent w sk [] ms rest w'
  unfolding send_loop sent stepped next_id next_sock out
  send_loop-Sent [] rest w sk found small v room held = (
    w,
    refl,
    record {
      after = sk;
      there = found;
      same = same_peer sk refl refl refl refl;
      snd_nxt = omega arith;
      flight = sym (append-nil _);
      queued = held;
      sends = refl;
    },
  )
  send_loop-Sent (m ∷ ms) rest w sk found small v room held =
      let (t, take, held') =
        xy_mbuf_list_take_head-Holds sys.pktmbuf_mtod w.lists (sys.snd_buf_list p) m (ms ++ rest)
          held in
      let (v', flight, size) =
        xy_tcp_snd_wnd_add-in_flight sk.tcb.snd_wnd_buffer m v (omega arith) in
      let sk1 = record sk {
        tcb = record (sk.tcb) { snd_wnd_buffer = (xy_tcp_snd_wnd_add sk.tcb.snd_wnd_buffer m).1 };
      } in
      let w1 : World = record w { lists = t; socks = update w.socks p (some sk1) } in
      let w2 = sent w1 p (stepped sk1) m (out sk1 (w.frames m)) in
      let (w', run, s) =
        send_loop-Sent ms rest w2 (next_sock sk m) (ground arith) (omega arith) v' (omega arith)
          held' in
      let near : SamePeer sk (next_sock sk m) = same_peer (next_sock sk m) refl refl refl refl in
      (
        w',
        ground (arith, take, tcp_send_one_buf_lem w1 m sk1, run),
        record {
          after = s.after;
          there = s.there;
          same = SamePeer-trans near s.same;
          snd_nxt = omega (arith, s.snd_nxt);
          flight = s.flight ∙ (ap (λ q. q ++ ms) flight ∙ append_assoc _ (m ∷ []) ms);
          queued = s.queued;
          sends = (
            out sk1 (w.frames m),
            IsSegment-peer sys sk sk1 sk.tcb.snd_nxt (out sk1 (w.frames m))
                (same_peer sk1 refl refl refl refl) (out-IsSegment sk1 (w.frames m)),
            Sends-peer sys sk (next_sock sk m) (u32 (sk.tcb.snd_nxt + 1)) ms w'.tx w2.tx near
                s.sends,
          );
        },
      )

  -- `tcp_send_buf`, on a socket whose send window is smaller than the array of what is in flight, and
  -- whose list of queued buffers has the missing ones in it, returns 0. It hands the device the
  -- oldest buffer in flight again, if there is one, and then the first queued buffers in their
  -- order, as many as the window has room for: each once, as a segment for the peer, with
  -- consecutive sequence numbers from SND.NXT on, which counts them all. The new buffers are in
  -- flight behind the old ones, and the other queued buffers stay.
  pub tcp_send_buf-Sent :
      (ms rest : List Ptr) (w : World) (sk : XyTcpSocket)
      → w.socks p ≡ some sk
      → sk.tcb.snd_nxt < 2 ^ 32
      → IsSndWnd sk.tcb.snd_wnd_buffer
      → sk.tcb.snd_wnd < xy_snd_wnd_size
      → sk.tcb.snd_wnd - xy_tcp_snd_wnd_size sk.tcb.snd_wnd_buffer ≡ length ms
      → Holds sys.pktmbuf_mtod w.lists (sys.snd_buf_list p) (ms ++ rest)
      → (w' : World) × (tcp_send_buf sys p w ≡ some (pos 0, w'))
        × Sent w sk (oldest (in_flight sk.tcb.snd_wnd_buffer)) ms rest w'
  unfolding tcp_send_buf sent stepped next_id out
  tcp_send_buf-Sent ms rest w sk found small v fits missing held =
      let b = sk.tcb.snd_wnd_buffer in
      let again = oldest-slots b.buffer b.head_ (xy_tcp_snd_wnd_size b) in
      let (place, few) = tail_place b v in
      elim (Bool-cases (ltb 0 (xy_tcp_snd_wnd_size b))) [
        | inl some_left ↦
            let m = b.buffer b.head_ in
            let sk2 = next_id (stepped sk) in
            let w2 = sent w p (stepped sk) m (out sk (w.frames m)) in
            let (w', run, s) =
              send_loop-Sent ms rest w2 sk2 (ground arith) (omega arith) v (omega arith) held in
            let near : SamePeer sk sk2 = same_peer sk2 refl refl refl refl in
            (
              w',
              ground (arith, tcp_send_one_buf_lem w m sk, run),
              rw (again, some_left)
                  (record {
                    after = s.after;
                    there = s.there;
                    same = SamePeer-trans near s.same;
                    snd_nxt = omega (arith, s.snd_nxt);
                    flight = s.flight;
                    queued = s.queued;
                    sends = (
                      out sk (w.frames m),
                      out-IsSegment sk (w.frames m),
                      Sends-peer sys sk sk2 (u32 (sk.tcb.snd_nxt + 1)) ms w'.tx w2.tx near s.sends,
                    );
                  }),
            )
        | inr none_left ↦
            let (w', run, s) = send_loop-Sent ms rest w sk found small v (omega arith) held in
            (w', ground (arith, run), rw (again, none_left) s)
      ]
