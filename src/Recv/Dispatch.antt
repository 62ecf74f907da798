-- ===== src/Recv/Dispatch.antt =====
-- What every handler of a segment has in common (network/src/xy_tcp_recv.cc and the headers
-- network/include/xy_tcp_state_*.h).
use dpdk_tcp.Prelude.{
  ℕ, ◌≡◌, refl, arith, Bool, true, false, Bool-cases, inl, inr, List, ◌∷◌, ◌++◌, ◌==◌, ◌&&◌, not,
  if◌then◌else◌, ℤ, pos, some, update, Option,
}
use mathlib.Core.Path.{subst}
use dpdk_tcp.XyList.{Ptr}
use dpdk_tcp.XyList.Chain.{IsRing}
use dpdk_tcp.XyList.Delete.{xy_list_del-IsRing}
use dpdk_tcp.Socket.{
  XyTcpSocket, TcpStates, tcp_listen, tcp_syn_sent, tcp_syn_received, tcp_established,
  tcp_fin_wait_1, tcp_fin_wait_2, tcp_close, tcp_close_wait, tcp_closing, tcp_last_ack,
  tcp_time_wait,
}
use dpdk_tcp.World.{World, System}
use dpdk_tcp.Tcp.{has_flag, rst_flag, ack_flag}
use dpdk_tcp.Tcp.SynSent.{state_tcp_syn_sent, bad_ack}
use dpdk_tcp.Tcp.Others.{state_tcp_otherwise, on_rst, acceptable}
use dpdk_tcp.Tcp.Close.{state_tcp_close}
use dpdk_tcp.Tcp.Listen.{state_tcp_listen}
use dpdk_tcp.Recv.{handle}

-- The state after a reset, from the state before, the kind of open, and what the handler finds of the
-- segment: that it acknowledges something, that its acknowledgment is bad, that it is acceptable.
abbrev pub after_rst : TcpStates → ℕ → (acks bad fits : Bool) → TcpStates
after_rst tcp_close passive acks bad fits = tcp_close
after_rst tcp_listen passive acks bad fits = tcp_listen
after_rst tcp_syn_sent passive acks bad fits = if acks && not bad then tcp_close else tcp_syn_sent
after_rst tcp_syn_received passive acks bad fits =
    if fits then (if passive == 0 then tcp_close else tcp_listen) else tcp_syn_received
after_rst tcp_established passive acks bad fits = if fits then tcp_close else tcp_established
after_rst tcp_fin_wait_1 passive acks bad fits = if fits then tcp_close else tcp_fin_wait_1
after_rst tcp_fin_wait_2 passive acks bad fits = if fits then tcp_close else tcp_fin_wait_2
after_rst tcp_close_wait passive acks bad fits = if fits then tcp_close else tcp_close_wait
after_rst tcp_closing passive acks bad fits = if fits then tcp_close else tcp_closing
after_rst tcp_last_ack passive acks bad fits = if fits then tcp_close else tcp_last_ack
after_rst tcp_time_wait passive acks bad fits = if fits then tcp_close else tcp_time_wait

-- What a handled reset leaves: nothing sent, the buffer freed once, the socket as it was but for
-- its state.
pub record Quiet (w : World) (p m : Ptr) (sk : XyTcpSocket) (s : TcpStates) (w' : World)
    : Type 0 where
  pub tx : w'.tx ≡ w.tx
  pub freed : w'.freed ≡ m ∷ w.freed
  pub sock : w'.socks p ≡ some (record sk { state = s })

module _ (sys : System) (w : World) (p m : Ptr) (sk : XyTcpSocket) (found : w.socks p ≡ some sk)
    (rst : has_flag (w.frames m).tcp.tcp_flags rst_flag ≡ true) where
  abbrev pub outcome : TcpStates → TcpStates
  outcome s =
      after_rst s sk.passive (has_flag (w.frames m).tcp.tcp_flags ack_flag)
        (bad_ack sk.tcb (w.frames m).tcp) (acceptable sk.tcb (w.frames m).tcp)

  -- The worlds that a reset leaves: the segment dropped, or the socket closed too.
  abbrev dropped : World
  dropped = record w { freed = m ∷ w.freed }

  abbrev closed : World
  closed = record dropped { socks = update w.socks p (some (record sk { state = tcp_close })) }

  close_rst :
      sk.state ≡ tcp_close
      → (w' : World) × (state_tcp_close sys p m w ≡ some (pos 0, w'))
        × Quiet w p m sk (outcome sk.state) w'
  unfolding state_tcp_close
  close_rst e = (dropped, ground arith, ground arith)

  listen_rst :
      sk.state ≡ tcp_listen
      → (w' : World) × (state_tcp_listen sys p m w ≡ some (pos 0, w'))
        × Quiet w p m sk (outcome sk.state) w'
  unfolding state_tcp_listen
  listen_rst e = (dropped, ground arith, ground arith)

  syn_sent_rst :
      sk.state ≡ tcp_syn_sent
      → (w' : World) × (state_tcp_syn_sent sys p m w ≡ some (pos 0, w'))
        × Quiet w p m sk (outcome sk.state) w'
  unfolding state_tcp_syn_sent
  syn_sent_rst e =
      elim (Bool-cases
        (has_flag (w.frames m).tcp.tcp_flags ack_flag && not (bad_ack sk.tcb (w.frames m).tcp))) [
          | inl c ↦ (closed, ground arith, ground arith)
          | inr d ↦ (dropped, ground arith, ground arith)
        ]

  otherwise_dropped :
      acceptable sk.tcb (w.frames m).tcp ≡ false
      → state_tcp_otherwise sys p m w ≡ some (pos 0, dropped)
  unfolding state_tcp_otherwise
  otherwise_dropped e = ground arith

  otherwise_on_rst :
      acceptable sk.tcb (w.frames m).tcp ≡ true
      → state_tcp_otherwise sys p m w ≡ on_rst sk.state p m w
  unfolding state_tcp_otherwise
  otherwise_on_rst e = ground arith

  -- In a state where an acceptable reset closes the connection.
  otherwise_rst :
      ((acceptable sk.tcb (w.frames m).tcp ≡ true) → on_rst sk.state p m w ≡ some (pos 0, closed))
      → outcome sk.state ≡ (if acceptable sk.tcb (w.frames m).tcp then tcp_close else sk.state)
      → (w' : World) × (state_tcp_otherwise sys p m w ≡ some (pos 0, w'))
        × Quiet w p m sk (outcome sk.state) w'
  otherwise_rst closes e = elim (Bool-cases (acceptable sk.tcb (w.frames m).tcp)) [
    | inl fits ↦ (closed, ground (arith, otherwise_on_rst fits, closes fits), ground arith)
    | inr not_fits ↦ (dropped, ground (arith, otherwise_dropped not_fits), ground arith)
  ]

  -- SYN-RECEIVED, by the kind of open.
  syn_received_rst :
      (xs ys : List Ptr)
      → sk.state ≡ tcp_syn_received
      → IsRing w.lists.node sys.list_syn_recved (xs ++ (p ∷ ys))
      → (w' : World) × (state_tcp_otherwise sys p m w ≡ some (pos 0, w'))
        × Quiet w p m sk (outcome sk.state) w'
  unfolding on_rst
  syn_received_rst xs ys e ring = elim (Bool-cases (sk.passive == 0)) [
    | inl active ↦ otherwise_rst (λ _. ground arith) (ground arith)
    | inr passive ↦ elim (Bool-cases (acceptable sk.tcb (w.frames m).tcp)) [
      | inl fits ↦
          let (g, del, _, _) = xy_list_del-IsRing w.lists.node sys.list_syn_recved p xs ys ring in
          (
            record dropped {
              socks = update w.socks p (some (record sk { state = tcp_listen }));
              lists = record (w.lists) { node = g };
            },
            ground (arith, otherwise_on_rst fits, del),
            ground arith,
          )
      | inr not_fits ↦ (dropped, ground (arith, otherwise_dropped not_fits), ground arith)
    ]
  ]

  -- A handler that runs in the socket's state, with the state written out.
  at_state :
      {r : Option (ℤ × World)} {s : TcpStates}
      → sk.state ≡ s
      → (w' : World) × (r ≡ some (pos 0, w')) × Quiet w p m sk (outcome sk.state) w'
      → (w' : World) × (r ≡ some (pos 0, w')) × Quiet w p m sk (outcome s) w'
  at_state {r} e q =
      subst (λ t. (w' : World) × (r ≡ some (pos 0, w')) × Quiet w p m sk (outcome t) w') e q

  -- No handler answers a segment with the RST bit. On a socket in any state (and, in SYN-RECEIVED,
  -- in the list of handshakes) the handler of that state returns 0, sends nothing, frees the
  -- buffer once, and changes nothing of the socket but its state, to `after_rst`.
  pub handle-rst :
      (xs ys : List Ptr) (s : TcpStates)
      → sk.state ≡ s
      → (s ≡ tcp_syn_received → IsRing w.lists.node sys.list_syn_recved (xs ++ (p ∷ ys)))
      → (w' : World) × (handle sys s p m w ≡ some (pos 0, w')) × Quiet w p m sk (outcome s) w'
  unfolding handle on_rst
  handle-rst xs ys tcp_close e ring = at_state e (close_rst e)
  handle-rst xs ys tcp_listen e ring = at_state e (listen_rst e)
  handle-rst xs ys tcp_syn_sent e ring = at_state e (syn_sent_rst e)
  handle-rst xs ys tcp_syn_received e ring = at_state e (syn_received_rst xs ys e (ring refl))
  handle-rst xs ys _ e ring = at_state e (otherwise_rst (λ _. ground arith) (ground arith))
