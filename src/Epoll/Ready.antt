-- ===== src/Epoll/Ready.antt =====
-- The ready list of an event poll (network/src/xy_epoll.cc): what `epoll_event_callback` puts in, and
-- what `xy_epoll_wait` takes out.
use dpdk_tcp.Prelude.{
  ℕ, zero, suc, ◌-◌, ◌≡◌, refl, ◌∙◌, arith, false, ◌==◌, some, none, List, [], ◌∷◌, length, drop,
  update, ◌∉◌, Option,
}
use dpdk_tcp.XyList.{Ptr, XyListNode}
use dpdk_tcp.XyList.Chain.{IsRing}
use dpdk_tcp.XyList.Delete.{xy_list_take_head-IsRing, xy_list_is_empty-IsRing}
use dpdk_tcp.World.{World, System, XyEventPoll, XyEpollItem}
use dpdk_tcp.Epoll.Ctl.{XyEpollEvent}
use dpdk_tcp.Epoll.Wait.{take_events}

-- Every listed item exists and is marked as listed.
abbrev pub AllReady : (Ptr → Option XyEpollItem) → List Ptr → Type 0
AllReady items [] = Unit
AllReady items (x ∷ xs) =
    ((i : XyEpollItem) × (items x ≡ some i) × ((i.ready == 0) ≡ false)) × AllReady items xs

abbrev pub AllIdle : (Ptr → Option XyEpollItem) → List Ptr → Type 0
AllIdle items [] = Unit
AllIdle items (x ∷ xs) = ((i : XyEpollItem) × (items x ≡ some i) × (i.ready ≡ 0)) × AllIdle items xs

-- The items on the ready list, first first, counted by `ready_num`.
pub record IsReady (sys : System) (w : World) (ep : Ptr) (xs : List Ptr) : Type 0 where
  pub poll : (p : XyEventPoll) × (w.polls ep ≡ some p) × (p.ready_num ≡ length xs)
  pub ring : IsRing w.lists.node (sys.ready_list ep) xs
  pub items : AllReady w.items xs

abbrev pub event_of : XyEpollItem → XyEpollEvent
event_of i = record { events = i.events; event_data = i.event_data }

-- The events of the first `n` items.
abbrev pub events_of : (Ptr → Option XyEpollItem) → ℕ → List Ptr → List XyEpollEvent
events_of items zero xs = []
events_of items (suc n) [] = []
events_of items (suc n) (x ∷ xs) = elim (items x) [
  | none ↦ events_of items n xs
  | some i ↦ event_of i ∷ events_of items n xs
]

abbrev pub take : ℕ → List Ptr → List Ptr
take zero xs = []
take (suc n) [] = []
take (suc n) (x ∷ xs) = x ∷ take n xs

-- A write to an item outside the list.
AllReady-update :
    (items : Ptr → Option XyEpollItem) (x : Ptr) (v : Option XyEpollItem) (xs : List Ptr)
    → x ∉ xs
    → AllReady items xs
    → AllReady (update items x v) xs
AllReady-update items x v [] out all = tt
AllReady-update items x v (y ∷ xs) out ((i, e, r), all) =
    ((i, ground arith, r), AllReady-update items x v xs (ground arith) all)

events_of-update :
    (items : Ptr → Option XyEpollItem) (x : Ptr) (v : Option XyEpollItem) (n : ℕ) (xs : List Ptr)
    → x ∉ xs
    → events_of (update items x v) n xs ≡ events_of items n xs
events_of-update items x v zero xs out = refl
events_of-update items x v (suc n) [] out = refl
events_of-update items x v (suc n) (y ∷ xs) out = ground (arith, events_of-update items x v n xs)

module _ (sys : System) (ep : Ptr) where
  -- What taking the first `n` items off leaves.
  pub record Taken (w : World) (n : ℕ) (xs : List Ptr) (w' : World) : Type 0 where
    pub rest : IsReady sys w' ep (drop n xs)
    pub idle : AllIdle w'.items (take n xs)
    pub others : (a : Ptr) → a ∉ xs → w'.items a ≡ w.items a

  -- The memory after one round of the loop.
  abbrev after_take : World → XyListNode → XyEventPoll → Ptr → XyEpollItem → World
  after_take w g p x i = record w {
    lists = record (w.lists) { node = g };
    items = update w.items x (some (record i { ready = 0 }));
    polls = update w.polls ep (some (record p { ready_num = p.ready_num - 1 }));
  }

  pub take_events-Taken :
      (n : ℕ) (w : World) (xs : List Ptr)
      → IsReady sys w ep xs
      → (w' : World) × (take_events sys n ep w ≡ some (events_of w.items n xs, w'))
        × Taken w n xs w'
  unfolding take_events
  take_events-Taken zero w xs r = (w, refl, record { rest = r; idle = tt; others = λ a o. refl })
  take_events-Taken (suc n) w [] r = (
    w,
    ground (arith, xy_list_is_empty-IsRing w.lists.node (sys.ready_list ep) [] r.ring),
    record { rest = r; idle = tt; others = λ a o. refl },
  )
  take_events-Taken (suc n) w (x ∷ xs) r =
      let (p, found, count) = r.poll in
      let (i, item, ready) = r.items.0 in
      let (g, run, ring) = xy_list_take_head-IsRing w.lists.node (sys.ready_list ep) x xs r.ring in
      let v = after_take w g p x i in
      let out : x ∉ xs = r.ring.1.1.0 in
      let (w', run', t) = take_events-Taken n v xs (record {
        poll = (record p { ready_num = p.ready_num - 1 }, ground arith, omega arith);
        ring = ring;
        items = AllReady-update w.items x (some (record i { ready = 0 })) xs out r.items.1;
      }) in
      (
        w',
        ground (
          arith,
          xy_list_is_empty-IsRing w.lists.node (sys.ready_list ep) (x ∷ xs) r.ring,
          run,
          run',
          events_of-update w.items x (some (record i { ready = 0 })) n xs,
        ),
        record {
          rest = t.rest;
          idle = ((record i { ready = 0 }, t.others x out ∙ ground arith, refl), t.idle);
          others = λ a o. t.others a (ground arith) ∙ ground arith;
        },
      )
