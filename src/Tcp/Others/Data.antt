-- ===== src/Tcp/Others/Data.antt =====
-- Segments on an established connection, and the call of `epoll_event_callback` in
-- `state_tcp_handle_data` (network/include/xy_tcp_state_others.h).
use dpdk_tcp.Prelude.{
  ◌<◌, ◌≡◌, refl, arith, true, false, none, some, update, ltb, ◌||◌, List, ◌∷◌, ◌++◌,
}
use dpdk_tcp.XyList.{Ptr, null}
use dpdk_tcp.XyList.Chain.{IsRing}
use dpdk_tcp.XyList.Move.{Apart, xy_list_del-xy_list_add_head}
use dpdk_tcp.Socket.{XyTcpSocket, tcp_established, tcp_syn_received}
use dpdk_tcp.Port.{xy_max_tcp}
use dpdk_tcp.World.{World, System}
use dpdk_tcp.WndHdl.{ack_update}
use dpdk_tcp.Tcp.Flags.{has_flag, rst_flag, ack_flag, syn_flag}
use dpdk_tcp.Tcp.Others.{
  acceptable, urgent, on_ack, process_segment, state_tcp_handle_data, state_tcp_otherwise,
}

module _ (sys : System) (w : World) (p m : Ptr) (sk : XyTcpSocket) (found : w.socks p ≡ some sk)
    (small : sk.id < xy_max_tcp) (alone : (w.maps (sys.socket_maps sk.id)).event_poll ≡ null)
    (no_poll : w.polls null ≡ none) where
  handle_data-none :
      (v : World) (s : XyTcpSocket)
      → v.socks p ≡ some s
      → s.id ≡ sk.id
      → v.maps ≡ w.maps
      → v.polls ≡ w.polls
      → state_tcp_handle_data sys p m v ≡ none
  unfolding state_tcp_handle_data
  handle_data-none v s here same maps polls = ground arith

  -- The table's element for the socket's id has no event poll, as `xy_allocate_tcp_socket` leaves it,
  -- and no event poll is at `NULL`. Then an acceptable segment with ACK and without RST and SYN for a
  -- socket in ESTABLISHED ends in a fault: the callback reads through the missing poll.
  pub state_tcp_otherwise-established :
      sk.state ≡ tcp_established
      → acceptable sk.tcb (w.frames m).tcp ≡ true
      → has_flag (w.frames m).tcp.tcp_flags rst_flag ≡ false
      → has_flag (w.frames m).tcp.tcp_flags syn_flag ≡ false
      → has_flag (w.frames m).tcp.tcp_flags ack_flag ≡ true
      → state_tcp_otherwise sys p m w ≡ none
  unfolding state_tcp_otherwise on_ack process_segment
  state_tcp_otherwise-established at fits no_rst no_syn acks =
      let h = (w.frames m).tcp in
      let s1 = record sk { tcb = ack_update sys h sk.tcb } in
      let s2 = record s1 { tcb = urgent tcp_established h s1.tcb } in
      let v : World = record w { socks = update (update w.socks p (some s1)) p (some s2) } in
      let faults = handle_data-none v s2 (ground arith) refl refl refl in ground (arith, faults)

  -- The acknowledgment that completes the handshake of a socket in SYN-RECEIVED, in the list of
  -- handshakes, ends in a fault, if the table's element for the socket's id has no event poll, as
  -- `xy_allocate_tcp_socket` leaves it, and no event poll is at `NULL`: the fifth check makes the socket
  -- ESTABLISHED and lets the segment pass, and the callback for its text reads through the missing
  -- poll. The segment is acceptable, without RST and SYN, and acknowledges what was sent.
  pub state_tcp_otherwise-completing :
      (xs ys zs : List Ptr)
      → sk.state ≡ tcp_syn_received
      → acceptable sk.tcb (w.frames m).tcp ≡ true
      → has_flag (w.frames m).tcp.tcp_flags rst_flag ≡ false
      → has_flag (w.frames m).tcp.tcp_flags syn_flag ≡ false
      → has_flag (w.frames m).tcp.tcp_flags ack_flag ≡ true
      → (ltb (w.frames m).tcp.recv_ack sk.tcb.snd_una
          || ltb sk.tcb.snd_nxt (w.frames m).tcp.recv_ack)
        ≡ false
      → IsRing w.lists.node sys.list_syn_recved (xs ++ (p ∷ ys))
      → IsRing w.lists.node sys.list_established zs
      → Apart (sys.list_syn_recved ∷ xs ++ (p ∷ ys)) (sys.list_established ∷ zs)
      → state_tcp_otherwise sys p m w ≡ none
  unfolding state_tcp_otherwise on_ack process_segment
  state_tcp_otherwise-completing xs ys zs at fits no_rst no_syn acks good syn established apart =
      let (g, k, del, add, _, _) =
        xy_list_del-xy_list_add_head w.lists.node sys.list_syn_recved sys.list_established p xs ys
          zs syn established apart in
      let h = (w.frames m).tcp in
      let s1 = record sk { state = tcp_established } in
      let s2 = record s1 { tcb = ack_update sys h sk.tcb } in
      let s3 = record s2 { tcb = urgent tcp_established h s2.tcb } in
      let v : World = record w {
        lists = record (w.lists) { node = k };
        socks = update (update (update w.socks p (some s1)) p (some s2)) p (some s3);
      } in
      let faults = handle_data-none v s3 (ground arith) refl refl refl in
      ground (arith, del, add, faults)
