-- ===== src/SynApi/Serve.antt =====
-- `xy_syn_event_handle` of queue/src/xy_syn_api.cc on the calls that stand in the queue of events.
use dpdk_tcp.Prelude.{
  ℕ, zero, suc, ◌<◌, ◌≡◌, ◌≢◌, refl, arith, u32, minus_one, none, some, List, [], ◌∷◌, false, M,
  update, Option, Option-cases, inl, inr,
}
use dpdk_tcp.XyList.{Ptr, null, load_prev, store_prev}
use dpdk_tcp.XyList.Chain.{Chain}
use dpdk_tcp.World.{World, System, XySocketOps}
use dpdk_tcp.Mpmc.{mpmc_list_del_head}
use dpdk_tcp.Mpmc.Fifo.{IsQueue}
use dpdk_tcp.SynApi.{try_lock, lock_mutex, answer_call, xy_syn_event_handle}
use dpdk_tcp.SynApi.Ops.{on_events}

-- An address whose low 32 bits are not the number of a call.
abbrev pub IsHigh : Ptr → Type 0
IsHigh a = 8 < u32 a

-- Each call exists, and has an address like that.
abbrev pub AllCalls : (Ptr → Option XySocketOps) → List Ptr → Type 0
AllCalls ops [] = Unit
AllCalls ops (x ∷ xs) =
    (((o : XySocketOps) × (ops x ≡ some o)) × IsHigh x × (x ≢ null)) × AllCalls ops xs

-- The mutex of the call at `p` reads as held: the link `prev`, which lies over it, is not 0 in its low
-- 32 bits.
abbrev pub IsHeld : Ptr → World → Type 0
IsHeld p w = (n : ℕ) × (w.events.prev p ≡ some n) × (0 < u32 n)

-- `m` does not release it.
abbrev pub LeavesHeld : Ptr → M World (Unit {0}) → Type 0
LeavesHeld p m = (w w' : World) → IsHeld p w → m w ≡ some (tt, w') → IsHeld p w'

module _ (sys : System) where
  -- A mutex whose low 32 bits are not 0 is held: `lock` does not get it, and does not make it free.
  abbrev pub LockWaits : Type 0
  LockWaits = (n : ℕ) → 0 < u32 n → ((sys.mutex_lock n).0 ≡ false) × (0 < u32 (sys.mutex_lock n).1)

  module _ (waits : LockWaits) (others : M World (Unit {0})) (p : Ptr)
      (keeps : LeavesHeld p others) where
    -- However often the lock of a held mutex is tried, it is not got.
    pub lock_mutex-held : (k : ℕ) (w : World) → IsHeld p w → lock_mutex sys k others p w ≡ none
    unfolding lock_mutex try_lock on_events load_prev store_prev
    lock_mutex-held zero w held = refl
    lock_mutex-held (suc k) w (n, e, low) =
        let (held_on, low') = waits n low in
        let v = record w {
          events = record (w.events) { prev = update w.events.prev p (some (sys.mutex_lock n).1) };
        } in
        let held' : IsHeld p v = ((sys.mutex_lock n).1, ground arith, low') in
        elim (Option-cases (others v)) [
          | inl stuck ↦ ground (arith, held_on, stuck, e)
          | inr ((u, w'), run) ↦
              ground (arith, held_on, run, e, lock_mutex-held k w' (keeps v w' held' run))
        ]

  -- Up to the lock: the call `x` taken out of the queue and answered with -1, its link still leading
  -- on, and the rest of the memory as it was.
  pub record Answered (w : World) (x : Ptr) (o : XySocketOps) (xs : List Ptr) (v : World)
      : Type 0 where
    pub taken : World
    pub take : on_events (mpmc_list_del_head sys.event_head sys.event_tail) w ≡ some (x, taken)
    pub answer : answer_call sys x taken ≡ some (tt, v)
    pub queue : IsQueue v.events sys.event_head sys.event_tail xs
    pub link : v.events.next x ≡ w.events.next x
    pub rest : v ≡ record w {
      ops = update w.ops x (some (record o { err_no = minus_one }));
      events = v.events;
    }
    pub held : IsHeld x v

  abbrev pub Serves : M World (Unit {0}) → World → List Ptr → Type 0
  Serves others w [] = xy_syn_event_handle sys others w ≡ some (tt, w)
  Serves others w (x ∷ xs) =
      (xy_syn_event_handle sys others w ≡ none)
      × ((o : XySocketOps) × (v : World) × (w.ops x ≡ some o)
          × Answered w x o xs v
          × ((k : ℕ) → lock_mutex sys k others x v ≡ none))
