-- ===== src/Epoll/Timeout.antt =====
-- A wait of `xy_epoll_wait` of network/src/xy_epoll.cc that has a timeout.
use dpdk_tcp.Prelude.{ℕ, zero, suc, ◌≤◌, ◌≡◌, ◌∙◌, arith, true, ◌==◌, ◌||◌, pos, some, List}
use dpdk_tcp.XyList.{Ptr}
use dpdk_tcp.World.{World, System, XyEventPoll}
use dpdk_tcp.World.Memory.{load_poll, modify_poll}
use dpdk_tcp.Epoll.Wait.{
  Waiting, Timespec, deadline_of, etimedout, wait_round, wait_loop, xy_epoll_wait,
}
use dpdk_tcp.Epoll.Ready.{IsReady}
use dpdk_tcp.Epoll.Collect.{collect_events-first}
use dpdk_tcp.Epoll.Blocking.{with_waiting, Waits, Reports, xy_epoll_wait-goes_on}

-- One wait: the poll has no item ready, the clock says `now`, and `pthread_cond_timedwait` with the
-- deadline of the timeout returns 0 or `ETIMEDOUT` and leaves `w2`.
pub record TimedWait (env : Waiting) (ep : Ptr) (w : World) (timeout : ℕ) (w2 : World)
    : Type 0 where
  pub poll : (p : XyEventPoll) × (w.polls ep ≡ some p) × (p.ready_num ≡ 0)
  pub now : Timespec
  pub w1 : World
  pub clock : env.clock_gettime (with_waiting w ep poll.0 1) ≡ some (now, w1)
  pub ret : ℕ
  pub timedwait : env.cond_timedwait ep (deadline_of now timeout) w1 ≡ some (ret, w2)
  pub ended : ((ret == 0) || (ret == etimedout)) ≡ true

module _ (sys : System) (env : Waiting) (ep : Ptr) where
  wait_loop-TimedWait :
      (rounds timeout : ℕ) (w w2 : World) (p : XyEventPoll)
      → 2 ≤ rounds
      → TimedWait env ep w (suc timeout) w2
      → w2.polls ep ≡ some p
      → wait_loop sys env rounds ep (pos (suc timeout)) w ≡ some (true, with_waiting w2 ep p 0)
  unfolding wait_loop load_poll wait_round modify_poll
  wait_loop-TimedWait zero timeout w w2 p le t e = ground arith
  wait_loop-TimedWait (suc zero) timeout w w2 p le t e = ground arith
  wait_loop-TimedWait (suc (suc n)) timeout w w2 p le t e =
      let (q, e0, none_ready) = t.poll in ground (arith, t.clock, t.timedwait, t.ended)

-- With a positive timeout the call waits at most once: whether pthread_cond_timedwait was signalled
-- or ran into the deadline, the call ends and reports the first events of the ready list that the
-- wait left, at most max_events; none, and 0, where the list is empty. The id leads to a poll
-- with nothing ready, and the output array exists.
pub xy_epoll_wait-TimedWait :
    (sys : System) (env : Waiting) (w w2 : World) (id out : ℕ) (ep : Ptr) (m timeout : ℕ)
    (p : XyEventPoll) (xs : List Ptr)
    → Waits sys w id out ep
    → TimedWait env ep w (suc timeout) w2
    → w2.polls ep ≡ some p
    → 2 ≤ sys.rounds
    → IsReady sys (with_waiting w2 ep p 0) ep xs
    → Reports sys ep xs
        (suc m)
        (xy_epoll_wait sys env (pos id) out (pos (suc m)) (pos (suc timeout)))
        w
        (with_waiting w2 ep p 0)
xy_epoll_wait-TimedWait sys env w w2 id out ep m timeout p xs a t e le r =
    let v = with_waiting w2 ep p 0 in
    let (w', done, taken) = collect_events-first sys ep v xs (suc m) r in
    (
      w',
      xy_epoll_wait-goes_on sys env w v id out ep m (pos (suc timeout)) a
            (wait_loop-TimedWait sys env ep sys.rounds timeout w w2 p le t e)
          ∙ done,
      taken,
    )
