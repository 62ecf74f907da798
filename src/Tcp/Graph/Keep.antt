-- ===== src/Tcp/Graph/Keep.antt =====
-- The code that leaves the state of a socket alone.
use dpdk_tcp.Prelude.{
  M, some, ◌≡◌, ◌∙◌, ap, refl, arith, ℕ, Triple, Option-cases, inl, inr, Bool-cases, ◌==◌, List,
}
use dpdk_tcp.XyList.{Ptr}
use dpdk_tcp.Wnd.Mbuf.{XyMbufStore}
use dpdk_tcp.Packet.{Frame}
use dpdk_tcp.Socket.{XyTcpSocket, TcpStates, Tcb}
use dpdk_tcp.World.{World, System, XyEventPoll, XyEpollItem}
use dpdk_tcp.Net.{tx_burst}
use dpdk_tcp.Manage.{map_of_id}
use dpdk_tcp.Epoll.Ctl.{find_item}
use dpdk_tcp.World.Memory.{
  load_sock, load_frame, modify_frame, pktmbuf_free, pktmbuf_alloc, modify_tcb, modify_sock,
  set_state, on_lists, load_map, load_poll, modify_poll, load_item, modify_item,
}

pub record IsAt (p : Ptr) (s : TcpStates) (w : World) : Type 0 where
  pub sock : XyTcpSocket
  pub there : w.socks p ≡ some sock
  pub state : sock.state ≡ s

module _ (p : Ptr) (s : TcpStates) where
  -- The code leaves the socket in its state.
  abbrev pub Keeps : {A : Type 0} → M World A → Type 0
  Keeps m = Triple (IsAt p s) m (λ _. IsAt p s)

  pub IsAt-socks : (w w' : World) → w'.socks p ≡ w.socks p → IsAt p s w → IsAt p s w'
  IsAt-socks w w' e at = record { sock = at.sock; there = e ∙ at.there; state = at.state }

  same_state : (w : World) (at : IsAt p s w) (sk : XyTcpSocket) → w.socks p ≡ some sk → sk.state ≡ s
  same_state w at sk n =
      let q : sk ≡ at.sock = ground (arith, n, at.there) in
      ap (λ (k : XyTcpSocket). k.state) q ∙ at.state

  pub load_frame-Keeps : (m : Ptr) → Keeps (load_frame m)
  unfolding load_frame
  load_frame-Keeps m = record { after = λ w at f w' e. IsAt-socks w w' (ground (arith, e)) at }

  pub modify_frame-Keeps : (m : Ptr) (f : Frame → Frame) → Keeps (modify_frame m f)
  unfolding modify_frame
  modify_frame-Keeps m f = record { after = λ w at u w' e. IsAt-socks w w' (ground (arith, e)) at }

  pub pktmbuf_free-Keeps : (m : Ptr) → Keeps (pktmbuf_free m)
  unfolding pktmbuf_free
  pktmbuf_free-Keeps m = record { after = λ w at u w' e. IsAt-socks w w' (ground (arith, e)) at }

  pub on_lists-Keeps : {A : Type 0} (m : M XyMbufStore A) → Keeps (on_lists m)
  unfolding on_lists
  on_lists-Keeps m = record {
    after = λ w at a w' e. elim (Option-cases (m w.lists)) [
      | inl q ↦ absurd (ground (arith, e, q))
      | inr ((b, t), q) ↦ IsAt-socks w w' (ground (arith, e, q)) at
    ];
  }

  pub modify_sock-Keeps :
      (q : Ptr) (f : XyTcpSocket → XyTcpSocket)
      → ((sk : XyTcpSocket) → (f sk).state ≡ sk.state)
      → Keeps (modify_sock q f)
  unfolding modify_sock
  modify_sock-Keeps q f same = record {
    after = λ w at a w' e. elim (Option-cases (w.socks q)) [
      | inl n ↦ absurd (ground (arith, e, n))
      | inr (sk, n) ↦ elim (Bool-cases (q == p)) [
        | inl same_ptr ↦ record {
          sock = f sk;
          there = ground (arith, e, n, same_ptr);
          state = same sk ∙ same_state w at sk (ground (arith, n, same_ptr));
        }
        | inr other ↦ IsAt-socks w w' (ground (arith, e, n, other)) at
      ]
    ];
  }

  pub modify_tcb-Keeps : (q : Ptr) (f : Tcb → Tcb) → Keeps (modify_tcb q f)
  unfolding modify_tcb
  modify_tcb-Keeps q f = modify_sock-Keeps q (λ sk. record sk { tcb = f sk.tcb }) (λ sk. refl)

  -- The state that is read is the state that the socket has.
  pub load_sock-state : Triple (IsAt p s) (load_sock p) (λ sk w. IsAt p s w × (sk.state ≡ s))
  unfolding load_sock
  load_sock-state = record {
    after = λ w at sk w' e. (
      IsAt-socks w w' (ground (arith, e, at.there)) at,
      same_state w at sk (ground (arith, e, at.there)),
    );
  }

  pub load_sock-Keeps : (q : Ptr) → Keeps (load_sock q)
  unfolding load_sock
  load_sock-Keeps q = record {
    after = λ w at a w' e. elim (Option-cases (w.socks q)) [
      | inl n ↦ absurd (ground (arith, e, n))
      | inr (x, n) ↦ IsAt-socks w w' (ground (arith, e, n)) at
    ];
  }

  pub tx_burst-Keeps : (sys : System) (m : Ptr) → Keeps (tx_burst sys m)
  unfolding tx_burst
  tx_burst-Keeps sys m = record { after = λ w at u w' e. IsAt-socks w w' (ground (arith, e)) at }

  pub pktmbuf_alloc-Keeps : (sys : System) → Keeps (pktmbuf_alloc sys)
  unfolding pktmbuf_alloc
  pktmbuf_alloc-Keeps sys = record { after = λ w at u w' e. IsAt-socks w w' (ground (arith, e)) at }

  pub map_of_id-Keeps : (sys : System) (id : ℕ) → Keeps (map_of_id sys id)
  unfolding map_of_id load_map
  map_of_id-Keeps sys id = record { after = λ w at u w' e. IsAt-socks w w' (ground (arith, e)) at }

  pub find_item-Keeps : (sys : System) (t : List Ptr) (sock : ℕ) → Keeps (find_item sys t sock)
  unfolding find_item
  find_item-Keeps sys t sock = record {
    after = λ w at u w' e. IsAt-socks w w' (ground (arith, e)) at;
  }

  pub load_poll-Keeps : (q : Ptr) → Keeps (load_poll q)
  unfolding load_poll
  load_poll-Keeps q = record {
    after = λ w at a w' e. elim (Option-cases (w.polls q)) [
      | inl n ↦ absurd (ground (arith, e, n))
      | inr (x, n) ↦ IsAt-socks w w' (ground (arith, e, n)) at
    ];
  }

  pub modify_poll-Keeps : (q : Ptr) (f : XyEventPoll → XyEventPoll) → Keeps (modify_poll q f)
  unfolding modify_poll
  modify_poll-Keeps q f = record {
    after = λ w at a w' e. elim (Option-cases (w.polls q)) [
      | inl n ↦ absurd (ground (arith, e, n))
      | inr (x, n) ↦ IsAt-socks w w' (ground (arith, e, n)) at
    ];
  }

  pub load_item-Keeps : (q : Ptr) → Keeps (load_item q)
  unfolding load_item
  load_item-Keeps q = record {
    after = λ w at a w' e. elim (Option-cases (w.items q)) [
      | inl n ↦ absurd (ground (arith, e, n))
      | inr (x, n) ↦ IsAt-socks w w' (ground (arith, e, n)) at
    ];
  }

  pub modify_item-Keeps : (q : Ptr) (f : XyEpollItem → XyEpollItem) → Keeps (modify_item q f)
  unfolding modify_item
  modify_item-Keeps q f = record {
    after = λ w at a w' e. elim (Option-cases (w.items q)) [
      | inl n ↦ absurd (ground (arith, e, n))
      | inr (x, n) ↦ IsAt-socks w w' (ground (arith, e, n)) at
    ];
  }

  -- The only code that changes the state.
  pub set_state-IsAt : (s' : TcpStates) → Triple (IsAt p s) (set_state p s') (λ _. IsAt p s')
  unfolding set_state
  set_state-IsAt s' = record {
    after = λ w at a w' e. record {
      sock = record (at.sock) { state = s' };
      there = ground (arith, e, at.there);
      state = refl;
    };
  }
