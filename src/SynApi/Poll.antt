-- ===== src/SynApi/Poll.antt =====
-- `xy_syn_epoll_create` of queue/src/xy_syn_api.cc.
use dpdk_tcp.Prelude.{
  ℕ, M, ◌>>=◌, ◌>>◌, pure, Bool, true, false, ◌==◌, if◌then◌else◌, ℤ, pos, negsuc, minus_one, [],
}
use dpdk_tcp.XyList.{Ptr, null, xy_list_init}
use dpdk_tcp.World.{World, System}
use dpdk_tcp.World.Memory.{on_links, load_poll, modify_poll}
use dpdk_tcp.Manage.{xy_allocate_event_poll, free_poll}
use dpdk_tcp.Epoll.Ctl.{einval}
use dpdk_tcp.SynApi.Ops.{load_ops, modify_ops}
use dpdk_tcp.SynApi.Calls.{code}

abbrev pub eperm : ℕ
eperm = 1

-- `size <= 0`
abbrev pub not_positive : ℤ → Bool
not_positive (pos n) = n == 0
not_positive (negsuc n) = true

module _ (sys : System) where
  -- The initialisation of the two mutexes, the condition variable and the spin lock, in this order:
  -- whether one of them fails.
  unfoldable pub init_locks : Bool
  init_locks =
      if sys.mutex_init 0 == 0
      then if sys.mutex_init 1 == 0
        then if sys.mutex_init 2 == 0 then if sys.mutex_init 3 == 0 then false else true else true
        else true
      else true

  unfoldable pub xy_syn_epoll_create : Ptr → M World ℤ
  unfolding load_ops modify_ops xy_allocate_event_poll load_poll modify_poll on_links free_poll
      init_locks
  xy_syn_epoll_create epoll_create = do
    o ← load_ops epoll_create
    if not_positive o.sock_id then code einval else (do
      ep ← xy_allocate_event_poll sys
      if ep == null then code einval else (do
        modify_poll ep (λ p. record p { rb_num = 0; rb_tree = [] })
        on_links (xy_list_init (sys.ready_list ep))
        if init_locks then (do free_poll ep; code eperm) else (do
          poll ← load_poll ep
          modify_ops epoll_create (λ c. record c { ip = poll.id })
          pure minus_one)))
