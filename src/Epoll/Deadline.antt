-- ===== src/Epoll/Deadline.antt =====
-- The deadline that `xy_epoll_wait` of network/src/xy_epoll.cc computes from its timeout.
use dpdk_tcp.Prelude.{ℕ, ◌+◌, ◌*◌, ◌<◌, ◌≡◌, arith}
use dpdk_tcp.Epoll.Wait.{Timespec, deadline_of}

-- A point of time in nanoseconds.
abbrev pub nanoseconds : Timespec → ℕ
nanoseconds t = t.tv_sec * 1000000000 + t.tv_nsec

-- The code's whole seconds, its carry from the nanoseconds and its test for a timeout below a second
-- give the point of time that lies the timeout's milliseconds after now, as a `timespec` whose
-- nanoseconds are below a second, provided those of now are.
pub deadline_of-nanoseconds :
    (now : Timespec) (timeout : ℕ)
    → now.tv_nsec < 1000000000
    → (nanoseconds (deadline_of now timeout) ≡ nanoseconds now + timeout * 1000000)
      × ((deadline_of now timeout).tv_nsec < 1000000000)
unfolding deadline_of
deadline_of-nanoseconds now timeout lt = (ground arith, ground arith)
