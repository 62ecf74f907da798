-- ===== src/Epoll/Collect.antt =====
-- The events that `xy_epoll_wait` of network/src/xy_epoll.cc reports once it does not wait.
use dpdk_tcp.Prelude.{
  ℕ, zero, suc, ◌≤◌, ◌≡◌, refl, arith, ltb, if◌then◌else◌, pos, some, List, [], ◌∷◌, length, Option,
}
use dpdk_tcp.XyList.{Ptr}
use dpdk_tcp.World.{World, System, XyEpollItem}
use dpdk_tcp.World.Memory.{load_poll}
use dpdk_tcp.Epoll.Wait.{collect_events}
use dpdk_tcp.Epoll.Ready.{AllReady, IsReady, events_of, Taken, take_events-Taken}

-- `ep->ready_num > max_events ? max_events : ep->ready_num`
abbrev pub fewer : ℕ → ℕ → ℕ
fewer max_events ready_num = if ltb max_events ready_num then max_events else ready_num

length-events_of :
    (items : Ptr → Option XyEpollItem) (n : ℕ) (xs : List Ptr)
    → AllReady items xs
    → n ≤ length xs
    → length (events_of items n xs) ≡ n
length-events_of items zero xs all le = refl
length-events_of items (suc n) [] all le = ground arith
length-events_of items (suc n) (x ∷ xs) ((i, e, r), all) le =
    ground (arith, length-events_of items n xs all (omega arith))

fewer_least : (m n : ℕ) → fewer m n ≤ n
fewer_least m n = ground arith

-- On a poll whose ready list holds the items xs, all marked, counted by ready_num, the code takes
-- the first min(max_events, ready_num) items off the list and reports their events in the list's
-- order; it returns their number. The items taken are no longer marked, no item outside the list
-- changes, and the list, the marks and ready_num agree again on the rest.
pub collect_events-first :
    (sys : System) (ep : Ptr) (w : World) (xs : List Ptr) (max_events : ℕ)
    → IsReady sys w ep xs
    → (w' : World) × (collect_events sys ep max_events w
        ≡ some (
          (pos (fewer max_events (length xs)), events_of w.items (fewer max_events (length xs)) xs),
          w',
        ))
      × Taken sys ep w (fewer max_events (length xs)) xs w'
unfolding collect_events load_poll
collect_events-first sys ep w xs m r =
    let (p, found, count) = r.poll in
    let k = fewer m (length xs) in
    let (w', run, t) = take_events-Taken sys ep k w xs r in
    (w', ground (arith, run, length-events_of w.items k xs r.items (fewer_least m (length xs))), t)
