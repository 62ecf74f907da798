-- ===== src/Epoll/Wait.antt =====
-- `xy_epoll_wait` of network/src/xy_epoll.cc.
use dpdk_tcp.Prelude.{
  ℕ, zero, suc, ◌+◌, ◌-◌, ◌*◌, ◌/◌, M, ◌>>=◌, ◌>>◌, pure, fault, Bool, true, false, ltb, leb, ◌==◌,
  ◌||◌, if◌then◌else◌, ℤ, pos, negsuc, minus_one, List, [], ◌∷◌, length,
}
use dpdk_tcp.XyList.{Ptr, null, xy_list_is_empty, xy_list_take_head}
use dpdk_tcp.World.{World, System}
use dpdk_tcp.World.Memory.{on_links, load_poll, modify_poll, load_item, modify_item, fail_with}
use dpdk_tcp.Manage.{event_poll_of_id}
use dpdk_tcp.Epoll.Ctl.{XyEpollEvent, bad_id, ebadf, einval, minus}

abbrev pub etimedout : ℕ
etimedout = 110

-- `struct timespec`
pub record Timespec : Type 0 where
  pub tv_sec : ℕ
  pub tv_nsec : ℕ

abbrev pub second : ℕ
second = 1000000000

-- The deadline of a timeout in milliseconds that is positive.
unfoldable pub deadline_of : Timespec → ℕ → Timespec
deadline_of now timeout =
    let sec = if leb 1000 timeout then timeout / 1000 else 0 in
    let nsec = now.tv_nsec + (timeout - sec * 1000) * 1000000 in
    if leb second nsec
    then record { tv_sec = now.tv_sec + sec + 1; tv_nsec = nsec - second }
    else record { tv_sec = now.tv_sec + sec; tv_nsec = nsec }

abbrev pub is_zero : ℤ → Bool
is_zero (pos n) = n == 0
is_zero (negsuc n) = false

-- What the thread meets while it waits: the clock, and what `pthread_cond_wait` and
-- `pthread_cond_timedwait` return, with the memory as the other threads leave it then.
pub record Waiting : Type 0 where
  pub clock_gettime : M World Timespec
  pub cond_wait : Ptr → M World ℕ
  pub cond_timedwait : Ptr → Timespec → M World ℕ

module _ (sys : System) where
  -- `while (num != 0 && !xy_list_is_empty(&ep->ready_list))`: the events that are written, in order.
  unfoldable pub take_events : ℕ → Ptr → M World (List XyEpollEvent)
  unfolding on_links load_item modify_item modify_poll
  take_events zero ep = pure []
  take_events (suc num) ep =
      let rest = take_events num ep in
      do
        empty ← on_links (xy_list_is_empty (sys.ready_list ep))
        if empty then pure [] else (do
          epi ← on_links (xy_list_take_head (sys.ready_list ep))
          modify_item epi (λ i. record i { ready = 0 })
          item ← load_item epi
          modify_poll ep (λ p. record p { ready_num = p.ready_num - 1 })
          events ← rest
          pure (record { events = item.events; event_data = item.event_data } ∷ events))

  -- The second half of the function, where it does not wait.
  unfoldable pub collect_events : Ptr → ℕ → M World (ℤ × List XyEpollEvent)
  unfolding load_poll take_events
  collect_events ep max_events = do
    poll ← load_poll ep
    events ← take_events (if ltb max_events poll.ready_num then max_events else poll.ready_num) ep
    pure (pos (length events), events)

module _ (sys : System) (env : Waiting) where
  -- One round of the loop, by the timeout: whether the function goes on, and the timeout of the next
  -- round. If it does not, it returns -1.
  unfoldable pub wait_round : Ptr → ℤ → M World (Bool × ℤ)
  unfolding modify_poll
  wait_round ep (pos n) = do
    modify_poll ep (λ p. record p { waiting = 1 })
    now ← env.clock_gettime
    ret ← env.cond_timedwait ep (deadline_of now n)
    if (ret == 0) || (ret == etimedout)
        then (do modify_poll ep (λ p. record p { waiting = 0 }); pure (true, pos 0))
        else pure (false, pos n)
  wait_round ep (negsuc n) = do
    modify_poll ep (λ p. record p { waiting = 1 })
    ret ← env.cond_wait ep
    if ret == 0
        then (do modify_poll ep (λ p. record p { waiting = 0 }); pure (true, negsuc n))
        else pure (false, negsuc n)

  -- `while (ep->ready_num == 0 && timeout != 0)`, for at most the given rounds. It says whether the
  -- function goes on.
  unfoldable pub wait_loop : ℕ → Ptr → ℤ → M World Bool
  unfolding load_poll wait_round
  wait_loop zero ep timeout = fault
  wait_loop (suc k) ep timeout =
      let again = λ (t : ℤ). wait_loop k ep t in
      do
        poll ← load_poll ep
        if poll.ready_num == 0
            then (if is_zero timeout then pure true else (do
              (goes_on, t) ← wait_round ep timeout
              if goes_on then again t else pure false))
            else pure true

  -- The events stand for what is written to `events`, which is `NULL` where `out` is. A
  -- `pthread_mutex_lock` that fails is a failed assertion.
  unfoldable pub xy_epoll_wait : ℤ → Ptr → ℤ → ℤ → M World (ℤ × List XyEpollEvent)
  unfolding event_poll_of_id fail_with wait_loop collect_events
  xy_epoll_wait epoll_id out max_events timeout =
      if bad_id epoll_id then (do r ← fail_with (pos ebadf) minus_one; pure (r, [])) else (do
        ep ← event_poll_of_id sys epoll_id
        if (ep == null) || (out == null)
            then (do r ← fail_with (minus einval) minus_one; pure (r, []))
            else (elim max_events [
              | negsuc n ↦ (do r ← fail_with (minus einval) minus_one; pure (r, []))
              | pos n ↦
                  if n == 0 then (do r ← fail_with (minus einval) minus_one; pure (r, [])) else (do
                    goes_on ← wait_loop sys.rounds ep timeout
                    if goes_on then collect_events sys ep n else pure (minus_one, []))
            ]))
