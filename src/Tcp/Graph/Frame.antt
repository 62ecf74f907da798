-- ===== src/Tcp/Graph/Frame.antt =====
-- The frame in the buffer of the segment stays as it is while the fifth check of
-- network/include/xy_tcp_state_others.h runs, if the segment is not answered by it.
use dpdk_tcp.Prelude.{
  M, ◌>>=◌, ◌>>◌, pure, ℤ, pos, some, none, Option, ◌≡◌, sym, arith, Triple, triple_bind,
  triple_seq, triple_pure, triple_if, Option-cases, inl, inr, ◌==◌, ◌||◌, ltb,
}
use dpdk_tcp.XyList.{Ptr, xy_list_del, xy_list_add_head}
use dpdk_tcp.Wnd.Mbuf.{on_node, XyMbufStore}
use dpdk_tcp.Packet.{Frame}
use dpdk_tcp.Socket.{
  XyTcpSocket, TcpStates, tcp_listen, tcp_syn_sent, tcp_syn_received, tcp_established,
  tcp_fin_wait_1, tcp_fin_wait_2, tcp_close, tcp_close_wait, tcp_closing, tcp_last_ack,
  tcp_time_wait,
}
use dpdk_tcp.World.{World, System}
use dpdk_tcp.World.Memory.{
  load_sock, load_frame, modify_sock, modify_tcb, set_state, on_lists, on_links,
}
use dpdk_tcp.Socks.{syn_recv_tcp_sock_dequeue, established_tcp_sock_enqueue}
use dpdk_tcp.WndHdl.{tcp_ack_window_update, ack_update}
use dpdk_tcp.Tcp.Flags.{rst_flag}
use dpdk_tcp.Tcp.Others.{on_ack, advance_if_acked}
use dpdk_tcp.Net.{tcp_forward}

-- Two conditions that are kept are kept together.
pub triple_both :
    {S A : Type 0} {P P' : S → Type 0} {Q Q' : A → S → Type 0} (m : M S A)
    → Triple P m Q
    → Triple P' m Q'
    → Triple (λ s. P s × P' s) m (λ a s. Q a s × Q' a s)
triple_both m h h' = record { after = λ s (p, p') a t e. (h.after s p a t e, h'.after s p' a t e) }

-- The second condition is not needed.
pub triple_first :
    {S A : Type 0} {P P' : S → Type 0} {Q : A → S → Type 0} (m : M S A)
    → Triple P m Q
    → Triple (λ s. P s × P' s) m Q
triple_first m h = record { after = λ s (p, p') a t e. h.after s p a t e }

module _ (m : Ptr) (g : Frame) where
  -- The buffer of the segment holds this frame.
  abbrev pub HasFrame : World → Type 0
  HasFrame w = w.frames m ≡ g

  abbrev pub KeepsFrame : {A : Type 0} → M World A → Type 0
  KeepsFrame c = Triple HasFrame c (λ _. HasFrame)

  modify_sock-KeepsFrame : (q : Ptr) (f : XyTcpSocket → XyTcpSocket) → KeepsFrame (modify_sock q f)
  unfolding modify_sock
  modify_sock-KeepsFrame q f = record {
    after = λ w at a w' e. elim (Option-cases (w.socks q)) [
      | inl n ↦ absurd (ground (arith, e, n))
      | inr (sk, n) ↦ ground (arith, e, n, at)
    ];
  }

  pub load_sock-KeepsFrame : (q : Ptr) → KeepsFrame (load_sock q)
  unfolding load_sock
  load_sock-KeepsFrame q = record {
    after = λ w at a w' e. elim (Option-cases (w.socks q)) [
      | inl n ↦ absurd (ground (arith, e, n))
      | inr (sk, n) ↦ ground (arith, e, n, at)
    ];
  }

  -- The frame that is read is this one.
  pub load_frame-KeepsFrame : Triple HasFrame (load_frame m) (λ f w. HasFrame w × (f ≡ g))
  unfolding load_frame
  load_frame-KeepsFrame = record {
    after = λ w at f w' e. (ground (arith, e, at), ground (arith, e, at));
  }

  -- What holds after code that has read the frame, as the frame that was there.
  pub triple_read :
      {A : Type 0} {P : World → Type 0} (f : Frame) (Q : Frame → A → World → Type 0) (c : M World A)
      → Triple (λ w. P w × (w.frames m ≡ f)) c (Q f)
      → Triple (λ w. P w × (HasFrame w × (f ≡ g))) c (Q g)
  triple_read f Q c h = record {
    after = λ w (p, (k, e)) a w' q. rw (sym e) (h.after w (p, ground (arith, k, e)) a w' q);
  }

  read_frame : KeepsFrame (load_frame m)
  read_frame = record { after = λ w at f w' e. (load_frame-KeepsFrame.after w at f w' e).0 }

  on_lists-KeepsFrame : {A : Type 0} (c : M XyMbufStore A) → KeepsFrame (on_lists c)
  unfolding on_lists
  on_lists-KeepsFrame c = record {
    after = λ w at a w' e. elim (Option-cases (c w.lists)) [
      | inl q ↦ absurd (ground (arith, e, q))
      | inr ((b, t), q) ↦ ground (arith, e, q, at)
    ];
  }

  set_state-KeepsFrame : (q : Ptr) (s : TcpStates) → KeepsFrame (set_state q s)
  unfolding set_state
  set_state-KeepsFrame q s = modify_sock-KeepsFrame q (λ sk. record sk { state = s })

  unchanged : {A : Type 0} (a : A) → KeepsFrame (pure a)
  unchanged a = triple_pure a (λ w at. at)

  module _ (sys : System) (p : Ptr) where
    tcp_ack_window_update-KeepsFrame : KeepsFrame (tcp_ack_window_update sys p m)
    unfolding tcp_ack_window_update modify_tcb
    tcp_ack_window_update-KeepsFrame = triple_bind _ _ read_frame λ f.
        triple_seq _ _
          (modify_sock-KeepsFrame p (λ sk. record sk { tcb = ack_update sys f.tcp sk.tcb }))
          (unchanged (pos 0))

    advance_if_acked-KeepsFrame : (t : TcpStates) → KeepsFrame (advance_if_acked sys p m t)
    unfolding advance_if_acked
    advance_if_acked-KeepsFrame t = triple_bind _ _ (load_sock-KeepsFrame p) λ sk.
        triple_bind _ _ read_frame λ f.
          triple_if (f.tcp.recv_ack == sk.tcb.snd_nxt) _ _ (λ _. set_state-KeepsFrame p t)
            (λ _. unchanged tt)

    -- A return says nothing of the frame.
    abbrev pub FramePost : Option ℤ → World → Type 0
    FramePost (some r) w = Unit
    FramePost none w = HasFrame w

    goes_on : Triple HasFrame (pure none) FramePost
    goes_on = triple_pure none (λ w at. at)

    update_only : Triple HasFrame (do _ ← tcp_ack_window_update sys p m; pure none) FramePost
    update_only = triple_bind _ _ tcp_ack_window_update-KeepsFrame λ _. goes_on

    update_and_advance :
        (t : TcpStates)
        → Triple HasFrame
            (do _ ← tcp_ack_window_update sys p m; advance_if_acked sys p m t; pure none)
            FramePost
    update_and_advance t =
        triple_bind _ _ tcp_ack_window_update-KeepsFrame
          λ _. triple_seq _ _ (advance_if_acked-KeepsFrame t) goes_on

    pub on_ack-KeepsFrame : (s : TcpStates) → Triple HasFrame (on_ack sys s p m) FramePost
    unfolding on_ack syn_recv_tcp_sock_dequeue established_tcp_sock_enqueue on_links
    on_ack-KeepsFrame tcp_syn_received = triple_bind _ _ (load_sock-KeepsFrame p) λ sk.
        triple_bind _ _ read_frame λ f.
          triple_if (ltb f.tcp.recv_ack sk.tcb.snd_una || ltb sk.tcb.snd_nxt f.tcp.recv_ack) _ _
            (λ _.
              triple_bind {Q = λ _ _. Unit} (tcp_forward sys p m rst_flag f.tcp.recv_ack 0) _
                (record { after = λ w at a w' e. tt }) λ r. triple_pure (some r) (λ w at. tt))
            (λ _. triple_seq _ _ (on_lists-KeepsFrame (on_node (xy_list_del p))) (
              triple_seq _ _ (set_state-KeepsFrame p tcp_established) (
                triple_seq _ _
                  (on_lists-KeepsFrame (on_node (xy_list_add_head sys.list_established p)))
                  update_only)))
    on_ack-KeepsFrame tcp_established = update_only
    on_ack-KeepsFrame tcp_fin_wait_1 = update_and_advance tcp_fin_wait_2
    on_ack-KeepsFrame tcp_fin_wait_2 = update_only
    on_ack-KeepsFrame tcp_close_wait = update_and_advance tcp_time_wait
    on_ack-KeepsFrame tcp_closing = update_only
    on_ack-KeepsFrame tcp_last_ack = triple_seq _ _ (advance_if_acked-KeepsFrame tcp_close) goes_on
    on_ack-KeepsFrame tcp_listen = goes_on
    on_ack-KeepsFrame tcp_syn_sent = goes_on
    on_ack-KeepsFrame tcp_close = goes_on
    on_ack-KeepsFrame tcp_time_wait = goes_on
