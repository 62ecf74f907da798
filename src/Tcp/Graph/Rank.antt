-- ===== src/Tcp/Graph/Rank.antt =====
-- An order of the states in which a segment only moves a connection forward.
use dpdk_tcp.Prelude.{ℕ, Bool, ◌<◌, ◌≡◌, ◌⊎◌, inl, inr, refl, arith}
use dpdk_tcp.Socket.{
  TcpStates, tcp_listen, tcp_syn_sent, tcp_syn_received, tcp_established, tcp_fin_wait_1,
  tcp_fin_wait_2, tcp_close, tcp_close_wait, tcp_closing, tcp_last_ack, tcp_time_wait,
}
use dpdk_tcp.Tcp.Graph.Edges.{
  AckStep, ack_stays, ack_opens, ack_of_fin, ack_in_close_wait, ack_last, FinStep, fin_stays,
  fin_in_established, fin_in_syn_received, fin_crossing, fin_with_ack, fin_after_ack, Becomes,
  stays, handled, closes, refused,
}

-- How far a connection is. A listener is at the end, since a refused handshake leads back to it.
abbrev pub rank : TcpStates → ℕ
rank tcp_syn_sent = 0
rank tcp_syn_received = 1
rank tcp_established = 2
rank tcp_fin_wait_1 = 2
rank tcp_close_wait = 3
rank tcp_fin_wait_2 = 3
rank tcp_closing = 3
rank tcp_last_ack = 3
rank tcp_time_wait = 4
rank tcp_close = 5
rank tcp_listen = 6

-- The same state, or one further on.
abbrev pub Forward : TcpStates → TcpStates → Type 0
Forward s t = (s ≡ t) ⊎ (rank s < rank t)

pub Forward-trans : (s t u : TcpStates) → Forward s t → Forward t u → Forward s u
Forward-trans s t u (inl e) (inl f) = inl (ground arith)
Forward-trans s t u (inl e) (inr m) = inr (ground arith)
Forward-trans s t u (inr l) (inl f) = inr (ground arith)
Forward-trans s t u (inr l) (inr m) = inr (omega arith)

AckStep-Forward : {s t : TcpStates} → AckStep s t → Forward s t
AckStep-Forward (ack_stays s) = inl refl
AckStep-Forward ack_opens = inr (omega arith)
AckStep-Forward ack_of_fin = inr (omega arith)
AckStep-Forward ack_in_close_wait = inr (omega arith)
AckStep-Forward ack_last = inr (omega arith)

FinStep-Forward : {b : Bool} {s t : TcpStates} → FinStep b s t → Forward s t
FinStep-Forward (fin_stays b s) = inl refl
FinStep-Forward fin_in_established = inr (omega arith)
FinStep-Forward fin_in_syn_received = inr (omega arith)
FinStep-Forward fin_crossing = inr (omega arith)
FinStep-Forward fin_with_ack = inr (omega arith)
FinStep-Forward fin_after_ack = inr (omega arith)

-- CLOSE is ahead of every state that is neither itself nor LISTEN.
abbrev pub Connected : TcpStates → Type 0
Connected s = Forward s tcp_close

pub Becomes-Forward : {flags : ℕ} {s t : TcpStates} → Connected s → Becomes flags s t → Forward s t
Becomes-Forward c (stays s) = inl refl
Becomes-Forward c (handled s t u r y k ack fin) =
    Forward-trans s t u (AckStep-Forward ack) (FinStep-Forward fin)
Becomes-Forward c (closes s set) = c
Becomes-Forward c (refused set) = inr (omega arith)
