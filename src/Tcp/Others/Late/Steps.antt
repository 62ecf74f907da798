-- ===== src/Tcp/Others/Late/Steps.antt =====
-- The checks of `state_tcp_otherwise` one by one, for a connection that takes no more text.
use dpdk_tcp.Prelude.{
  ℕ, ◌+◌, ◌≡◌, refl, arith, Bool, true, false, Bool-cases, inl, inr, ◌∷◌, length, ◌==◌, ◌&&◌, not,
  if◌then◌else◌, ℤ, pos, some, update, Option, u32,
}
use dpdk_tcp.XyList.{Ptr}
use dpdk_tcp.Socket.{
  XyTcpSocket, TcpStates, Tcb, tcp_close, tcp_close_wait, tcp_closing, tcp_last_ack, tcp_time_wait,
}
use dpdk_tcp.World.{World, System}
use dpdk_tcp.Net.Forward.{tcp_forward_lem, segment, sent, tx_result, next_id}
use dpdk_tcp.WndHdl.{ack_update}
use dpdk_tcp.Tcp.Flags.{has_flag, ack_flag, fin_flag}
use dpdk_tcp.Tcp.Others.{on_ack, process_segment, on_fin, fin_state, takes_text}

-- A state of a connection that has received the peer's FIN.
pub data Late : Type 0 where
  close_wait closing last_ack time_wait : Late

abbrev pub state_of : Late → TcpStates
state_of close_wait = tcp_close_wait
state_of closing = tcp_closing
state_of last_ack = tcp_last_ack
state_of time_wait = tcp_time_wait

-- The state after an acknowledgment, by whether all that was sent is acknowledged.
abbrev pub after_ack : Late → Bool → TcpStates
after_ack close_wait acked = if acked then tcp_time_wait else tcp_close_wait
after_ack closing acked = tcp_closing
after_ack last_ack acked = if acked then tcp_close else tcp_last_ack
after_ack time_wait acked = tcp_time_wait

-- Which of these states look at the acknowledgment to update the send window.
abbrev pub updates : Late → Bool
updates close_wait = true
updates closing = true
updates last_ack = false
updates time_wait = false

abbrev pub is_close : TcpStates → Bool
is_close tcp_close = true
is_close _ = false

module _ (sys : System) (w : World) (p m : Ptr) (sk : XyTcpSocket)
    (found : w.socks p ≡ some sk) where
  -- The control block and the acknowledgment test after the fifth check.
  abbrev pub acked_tcb : Late → Tcb
  acked_tcb s = if updates s then ack_update sys (w.frames m).tcp sk.tcb else sk.tcb

  abbrev pub all_acked : Late → Bool
  all_acked s = (w.frames m).tcp.recv_ack == (acked_tcb s).snd_nxt

  abbrev pub acked_sock : Late → XyTcpSocket
  acked_sock s = record sk { tcb = acked_tcb s; state = after_ack s (all_acked s) }

  pub on_ack-late :
      (s : Late)
      → sk.state ≡ state_of s
      → (socks' : Ptr → Option XyTcpSocket) × (on_ack sys (state_of s) p m w
          ≡ some (Option.none, record w { socks = socks' }))
        × (socks' p ≡ some (acked_sock s))
  unfolding on_ack
  on_ack-late close_wait e =
      (update w.socks p (some (acked_sock close_wait)), ground arith, ground arith)
  on_ack-late closing e = (update w.socks p (some (acked_sock closing)), ground arith, ground arith)
  on_ack-late last_ack e = (
    (if all_acked last_ack then update w.socks p (some (acked_sock last_ack)) else w.socks),
    ground arith,
    ground arith,
  )
  on_ack-late time_wait e = (w.socks, ground arith, ground arith)

-- In these states a FIN changes nothing in the socket's state; in CLOSED the buffer is freed.
fin_state-late :
    (sys : System) (p m : Ptr) (s : Late) (a : Bool) (v : World)
    → fin_state sys (after_ack s a) p m v
      ≡ some (
        is_close (after_ack s a),
        (if is_close (after_ack s a) then record v { freed = m ∷ v.freed } else v),
      )
unfolding fin_state
fin_state-late sys p m close_wait true v = refl
fin_state-late sys p m close_wait false v = refl
fin_state-late sys p m closing a v = refl
fin_state-late sys p m last_ack true v = refl
fin_state-late sys p m last_ack false v = refl
fin_state-late sys p m time_wait a v = refl

takes_text-late : (s : Late) (a : Bool) → takes_text (after_ack s a) ≡ false
takes_text-late close_wait true = refl
takes_text-late close_wait false = refl
takes_text-late closing a = refl
takes_text-late last_ack true = refl
takes_text-late last_ack false = refl
takes_text-late time_wait a = refl

-- What a segment leaves behind, by whether its FIN is answered.
pub record Answered (v : World) (p : Ptr) (sk : XyTcpSocket) (seq : ℕ) (reply : Bool) (v' : World)
    : Type 0 where
  pub tx : length v'.tx ≡ length v.tx + (if reply then 1 else 0)
  pub state :
      (sk' : XyTcpSocket) × (v'.socks p ≡ some sk')
      × (sk'.state ≡ sk.state)
      × (sk'.tcb.rcv_nxt ≡ (if reply then u32 (seq + 1) else sk.tcb.rcv_nxt))

module _ (sys : System) (v : World) (p m : Ptr) (sk : XyTcpSocket) (found : v.socks p ≡ some sk)
    (s : Late) (a : Bool) (at : sk.state ≡ after_ack s a) where
  abbrev replies : Bool
  replies = has_flag (v.frames m).tcp.tcp_flags fin_flag && not (is_close (after_ack s a))

  -- The sixth and seventh checks leave the socket as it is.
  same : World
  same = record v { socks = update v.socks p (some sk) }

  process_segment-fin : process_segment sys p m v ≡ (
      if has_flag (v.frames m).tcp.tcp_flags fin_flag
      then on_fin sys (after_ack s a) p m same
      else some (pos 0, same))
  unfolding process_segment same
  process_segment-fin = ground (arith, takes_text-late s a)

  -- The socket that answers a FIN.
  abbrev fin_sock : XyTcpSocket
  fin_sock = record sk { tcb = record (sk.tcb) { rcv_nxt = u32 ((v.frames m).tcp.sent_seq + 1) } }

  abbrev fin_world : World
  fin_world = record same { socks = update same.socks p (some fin_sock) }

  on_fin-reply :
      is_close (after_ack s a) ≡ false
      → on_fin sys (after_ack s a) p m same
        ≡ some (
          tx_result sys fin_world,
          sent fin_world p fin_sock m (
              segment sys fin_sock
                (v.frames m)
                ack_flag
                sk.tcb.snd_nxt
                (u32 ((v.frames m).tcp.sent_seq + 1))
                (v.frames m).ip.total_length),
        )
  unfolding on_fin same
  on_fin-reply open_ = ground (
    arith,
    fin_state-late sys p m s a (record v { socks = update v.socks p (some sk) }),
    tcp_forward_lem sys fin_world p m ack_flag sk.tcb.snd_nxt (u32 ((v.frames m).tcp.sent_seq + 1))
        fin_sock,
  )

  on_fin-closed :
      is_close (after_ack s a) ≡ true
      → on_fin sys (after_ack s a) p m same ≡ some (pos 0, record same { freed = m ∷ same.freed })
  unfolding on_fin same
  on_fin-closed shut =
      ground (arith, fin_state-late sys p m s a (record v { socks = update v.socks p (some sk) }))

  pub process_segment-late :
      (r : ℤ) × (v' : World) × (process_segment sys p m v ≡ some (r, v'))
      × Answered v p sk (v.frames m).tcp.sent_seq replies v'
  unfolding same sent next_id
  process_segment-late = elim (Bool-cases (has_flag (v.frames m).tcp.tcp_flags fin_flag)) [
    | inr none_ ↦ (
      pos 0,
      same,
      ground (arith, process_segment-fin),
      record { tx = ground arith; state = (sk, ground arith, ground arith, ground arith) },
    )
    | inl fin ↦ elim (Bool-cases (is_close (after_ack s a))) [
      | inl shut ↦ (
        pos 0,
        record same { freed = m ∷ same.freed },
        ground (arith, process_segment-fin, on_fin-closed shut),
        record { tx = ground arith; state = (sk, ground arith, ground arith, ground arith) },
      )
      | inr open_ ↦ (
        tx_result sys fin_world,
        sent fin_world p fin_sock m (
            segment sys fin_sock (v.frames m) ack_flag sk.tcb.snd_nxt
              (u32 ((v.frames m).tcp.sent_seq + 1)) (v.frames m).ip.total_length),
        ground (arith, process_segment-fin, on_fin-reply open_),
        record {
          tx = ground arith;
          state = (next_id fin_sock, ground arith, ground arith, ground arith);
        },
      )
    ]
  ]
