-- ===== src/Tcp/Graph/Edges.antt =====
-- The edges between the states of a connection that network/include/xy_tcp_state_others.h has.
use dpdk_tcp.Prelude.{ℕ, M, pure, Bool, true, false, ◌≡◌, ◌||◌, Triple, triple_pure}
use dpdk_tcp.XyList.{Ptr}
use dpdk_tcp.Socket.{
  TcpStates, tcp_listen, tcp_syn_received, tcp_established, tcp_fin_wait_1, tcp_fin_wait_2,
  tcp_close, tcp_close_wait, tcp_closing, tcp_last_ack, tcp_time_wait,
}
use dpdk_tcp.World.{World}
use dpdk_tcp.Tcp.Flags.{has_flag, rst_flag, syn_flag, ack_flag, fin_flag}
use dpdk_tcp.Tcp.Graph.Keep.{IsAt}

-- What an acknowledgment does to the state.
pub data AckStep : TcpStates → TcpStates → Type 0 where
  ack_stays : (s : TcpStates) → AckStep s s
  ack_opens : AckStep tcp_syn_received tcp_established
  ack_of_fin : AckStep tcp_fin_wait_1 tcp_fin_wait_2
  ack_in_close_wait : AckStep tcp_close_wait tcp_time_wait
  ack_last : AckStep tcp_last_ack tcp_close

-- What the FIN bit does to it.
pub data FinStep : Bool → TcpStates → TcpStates → Type 0 where
  fin_stays : (fin : Bool) (s : TcpStates) → FinStep fin s s
  fin_in_established : FinStep true tcp_established tcp_close_wait
  fin_in_syn_received : FinStep true tcp_syn_received tcp_close_wait
  fin_crossing : FinStep true tcp_fin_wait_1 tcp_closing
  fin_with_ack : FinStep true tcp_fin_wait_1 tcp_time_wait
  fin_after_ack : FinStep true tcp_fin_wait_2 tcp_time_wait

-- What a segment with these flags does to it: nothing; or, with ACK and neither RST nor SYN, its
-- acknowledgment and then its FIN; or its RST or SYN.
pub data Becomes (flags : ℕ) : TcpStates → TcpStates → Type 0 where
  stays : (s : TcpStates) → Becomes flags s s
  handled :
      (s t u : TcpStates)
      → has_flag flags rst_flag ≡ false
      → has_flag flags syn_flag ≡ false
      → has_flag flags ack_flag ≡ true
      → AckStep s t
      → FinStep (has_flag flags fin_flag) t u
      → Becomes flags s u
  closes :
      (s : TcpStates)
      → (has_flag flags rst_flag || has_flag flags syn_flag) ≡ true
      → Becomes flags s tcp_close
  refused : has_flag flags rst_flag ≡ true → Becomes flags tcp_syn_received tcp_listen

module _ (p : Ptr) where
  -- The socket is in a state to which the relation leads.
  abbrev pub Became : (TcpStates → TcpStates → Type 0) → TcpStates → World → Type 0
  Became Step s w = (t : TcpStates) × IsAt p t w × Step s t

  pub became :
      {A : Type 0} (Step : TcpStates → TcpStates → Type 0) (s t : TcpStates) (a : A)
      → Step s t
      → Triple (IsAt p t) (pure a) (λ _. Became Step s)
  became Step s t a step = triple_pure a (λ w at. (t, at, step))

  -- From any state that the first step leads to.
  pub from_Became :
      {A : Type 0} (Step : TcpStates → TcpStates → Type 0) (s : TcpStates) (m : M World A)
      (Q : A → World → Type 0)
      → ((t : TcpStates) → Step s t → Triple (IsAt p t) m Q)
      → Triple (Became Step s) m Q
  from_Became Step s m Q h = record {
    after = λ w (t, at, step) a w' e. (h t step).after w at a w' e;
  }
