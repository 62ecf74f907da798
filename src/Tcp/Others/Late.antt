-- ===== src/Tcp/Others/Late.antt =====
-- Segments for a connection that takes no more text (network/include/xy_tcp_state_others.h).
mod Steps
pub use Steps.{
  Late, close_wait, closing, last_ack, time_wait, state_of, after_ack, updates, is_close, acked_tcb,
  all_acked, acked_sock, on_ack-late, Answered, process_segment-late,
}
use dpdk_tcp.Prelude.{
  ℕ, ◌+◌, ◌≡◌, refl, ◌∙◌, ap, arith, Bool, true, false, Bool-cases, inl, inr, ◌∷◌, length, ◌==◌,
  ◌&&◌, not, if◌then◌else◌, ℤ, pos, some, update, Option, u32,
}
use dpdk_tcp.XyList.{Ptr}
use dpdk_tcp.Socket.{
  XyTcpSocket, TcpStates, Tcb, tcp_close, tcp_close_wait, tcp_closing, tcp_last_ack, tcp_time_wait,
}
use dpdk_tcp.World.{World, System}
use dpdk_tcp.Net.Forward.{tcp_forward_lem, segment, sent, tx_result, next_id}
use dpdk_tcp.WndHdl.{ack_update}
use dpdk_tcp.Tcp.Flags.{has_flag, rst_flag, ack_flag, syn_flag, fin_flag}
use dpdk_tcp.Tcp.Others.{
  state_tcp_otherwise, acceptable, on_ack, process_segment, on_fin, fin_state, takes_text,
}

module _ (sys : System) (w : World) (p m : Ptr) (sk : XyTcpSocket) (found : w.socks p ≡ some sk)
    (s : Late) (at : sk.state ≡ state_of s) where
  rcv_nxt-acked : (acked_sock sys w p m sk found s).tcb.rcv_nxt ≡ sk.tcb.rcv_nxt
  unfolding ack_update
  rcv_nxt-acked = ground arith

  otherwise-late_run :
      acceptable sk.tcb (w.frames m).tcp ≡ true
      → has_flag (w.frames m).tcp.tcp_flags rst_flag ≡ false
      → has_flag (w.frames m).tcp.tcp_flags syn_flag ≡ false
      → has_flag (w.frames m).tcp.tcp_flags ack_flag ≡ true
      → (socks' : Ptr → Option XyTcpSocket) × (socks' p ≡ some (acked_sock sys w p m sk found s))
        × (state_tcp_otherwise sys p m w ≡ process_segment sys p m (record w { socks = socks' }))
  unfolding state_tcp_otherwise
  otherwise-late_run fits no_rst no_syn acks =
      let (socks', run, here) = on_ack-late sys w p m sk found s at in
      (socks', here, ground (arith, run))

  -- In CLOSE-WAIT, CLOSING, LAST-ACK and TIME-WAIT an acceptable segment with an ACK and no RST or SYN
  -- is handled to the end. The socket's state becomes `after_ack`; a FIN is answered by one frame and
  -- sets RCV.NXT behind the segment, unless the state has become CLOSED; otherwise nothing is sent
  -- and RCV.NXT stays.
  pub state_tcp_otherwise-late :
      acceptable sk.tcb (w.frames m).tcp ≡ true
      → has_flag (w.frames m).tcp.tcp_flags rst_flag ≡ false
      → has_flag (w.frames m).tcp.tcp_flags syn_flag ≡ false
      → has_flag (w.frames m).tcp.tcp_flags ack_flag ≡ true
      → let final = after_ack s (all_acked sys w p m sk found s) in
        let reply = has_flag (w.frames m).tcp.tcp_flags fin_flag && not (is_close final) in
        (r : ℤ) × (w' : World) × (sk' : XyTcpSocket) × (state_tcp_otherwise sys p m w
          ≡ some (r, w'))
        × (w'.socks p ≡ some sk')
        × (sk'.state ≡ final)
        × (sk'.tcb.rcv_nxt
            ≡ (if reply then u32 ((w.frames m).tcp.sent_seq + 1) else sk.tcb.rcv_nxt))
        × (length w'.tx ≡ length w.tx + (if reply then 1 else 0))
  state_tcp_otherwise-late fits no_rst no_syn acks =
      let (socks', here, run) = otherwise-late_run fits no_rst no_syn acks in
      let (r, w', run', done) =
        process_segment-late sys (record w { socks = socks' }) p m (acked_sock sys w p m sk found s)
          here s (all_acked sys w p m sk found s) refl in
      let (sk', found', state', nxt) = done.state in
      (
        r,
        w',
        sk',
        run ∙ run',
        found',
        state',
        nxt
            ∙ ap
                (λ n.
                  if has_flag (w.frames m).tcp.tcp_flags fin_flag
                    && not (is_close (after_ack s (all_acked sys w p m sk found s)))
                  then u32 ((w.frames m).tcp.sent_seq + 1)
                  else n)
                rcv_nxt-acked,
        done.tx,
      )
