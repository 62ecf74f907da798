-- ===== src/Epoll/Ctl.antt =====
-- `xy_epoll_ctl` of network/src/xy_epoll.cc.
use dpdk_tcp.Prelude.{
  ℕ, ◌+◌, ◌-◌, M, ◌>>=◌, ◌>>◌, pure, fault, Bool, true, ltb, ◌==◌, if◌then◌else◌, ℤ, pos, negsuc,
  minus_one, bit_or, Option, none, some, List, update,
}
use dpdk_tcp.XyList.{Ptr, null}
use dpdk_tcp.Port.{xy_max_tcp}
use dpdk_tcp.World.{World, System}
use dpdk_tcp.World.Memory.{load_poll, modify_poll, modify_item, malloc, put_links, fail_with}
use dpdk_tcp.Manage.{event_poll_of_id}

-- the C library's codes
abbrev pub enoent : ℕ
enoent = 2

abbrev pub ebadf : ℕ
ebadf = 9

abbrev pub enomem : ℕ
enomem = 12

abbrev pub einval : ℕ
einval = 22

abbrev pub minus : ℕ → ℤ
minus n = negsuc (n - 1)

abbrev pub xy_epollerr : ℕ
xy_epollerr = 0x0008

abbrev pub xy_epollhup : ℕ
xy_epollhup = 0x0010

abbrev pub xy_epoll_ctl_add : ℕ
xy_epoll_ctl_add = 1

abbrev pub xy_epoll_ctl_del : ℕ
xy_epoll_ctl_del = 2

abbrev pub xy_epoll_ctl_mod : ℕ
xy_epoll_ctl_mod = 3

pub record XyEpollEvent : Type 0 where
  pub events : ℕ
  pub event_data : ℕ

-- `epoll_id < 0 || epoll_id > XY_MAX_TCP`
abbrev pub bad_id : ℤ → Bool
bad_id (pos n) = ltb xy_max_tcp n
bad_id (negsuc n) = true

module _ (sys : System) where
  open sys use {rb_find, rb_insert, rb_remove, uninitialised_item, uninitialised_link}

  -- `RB_FIND` of the item with the socket's id
  unfoldable pub find_item : List Ptr → ℕ → M World Ptr
  find_item rb_tree sock w = some (rb_find w.items rb_tree sock, w)

  -- `RB_INSERT` and `RB_REMOVE` on the tree of a poll
  unfoldable pub insert_into : Ptr → Ptr → M World Ptr
  unfolding load_poll modify_poll
  insert_into ep epi = do
    poll ← load_poll ep
    (λ w.
        (let (r, t) = rb_insert w.items poll.rb_tree epi in
            modify_poll ep (λ p. record p { rb_tree = t }) >> pure r)
          w)

  unfoldable pub remove_from : Ptr → Ptr → M World Ptr
  unfolding load_poll modify_poll
  remove_from ep epi = do
    poll ← load_poll ep
    (λ w.
        (let (r, t) = rb_remove w.items poll.rb_tree epi in
            modify_poll ep (λ p. record p { rb_tree = t }) >> pure r)
          w)

  -- `xy_allocate(xy_epoll_item)`
  unfoldable pub allocate_item : M World Ptr
  unfolding malloc put_links
  allocate_item = do
    p ← malloc sys
    if p == null then pure null else (do
      (λ w. some (tt, record w { items = update w.items p (some uninitialised_item) }))
      put_links p uninitialised_link uninitialised_link
      pure p)

  unfoldable pub free_item : Ptr → M World (Unit {0})
  free_item p w = some (tt, record w { items = update w.items p none })

  unfoldable pub ctl_add : Ptr → ℕ → XyEpollEvent → M World ℤ
  unfolding load_poll modify_poll modify_item fail_with find_item allocate_item insert_into
  ctl_add ep sock event = do
    poll ← load_poll ep
    old ← find_item poll.rb_tree sock
    if old == null
        then (do
          epi ← allocate_item
          if epi == null then fail_with (minus enomem) minus_one else (do
            modify_item epi (λ i. record i {
              sock_id = sock;
              events = event.events;
              event_data = event.event_data;
            })
            epi ← insert_into ep epi
            if epi == null
                then (do modify_poll ep (λ p. record p { rb_num = p.rb_num + 1 }); pure (pos 0))
                else fault))
        else pure minus_one

  unfoldable pub ctl_del : Ptr → ℕ → M World ℤ
  unfolding load_poll modify_poll find_item remove_from free_item
  ctl_del ep sock = do
    poll ← load_poll ep
    epi ← find_item poll.rb_tree sock
    if epi == null then pure minus_one else (do
      epi ← remove_from ep epi
      if epi == null then pure minus_one else (do
        modify_poll ep (λ p. record p { rb_num = p.rb_num - 1 })
        free_item epi
        pure (pos 0)))

  unfoldable pub ctl_mod : Ptr → ℕ → XyEpollEvent → M World ℤ
  unfolding load_poll modify_item fail_with find_item
  ctl_mod ep sock event = do
    poll ← load_poll ep
    epi ← find_item poll.rb_tree sock
    if epi == null then fail_with (minus enoent) minus_one else (do
      modify_item epi
          (λ i. record i { events = bit_or event.events (bit_or xy_epollerr xy_epollhup) })
      pure (pos 0))

  -- The operation on an event that is not `NULL`.
  unfoldable pub ctl_op : ℕ → Ptr → ℕ → XyEpollEvent → M World ℤ
  unfolding ctl_add ctl_del ctl_mod
  ctl_op op ep sock event =
      if op == xy_epoll_ctl_add
      then ctl_add ep sock event
      else if op == xy_epoll_ctl_del
      then ctl_del ep sock
      else if op == xy_epoll_ctl_mod
      then ctl_mod ep sock event
      else fault

  -- `none` is an event pointer that is `NULL`. The socket's id is the bit pattern of the `int`.
  unfoldable pub xy_epoll_ctl : ℤ → ℕ → ℕ → Option XyEpollEvent → M World ℤ
  unfolding event_poll_of_id fail_with ctl_op ctl_del
  xy_epoll_ctl epoll_id op sock event =
      if bad_id epoll_id then fail_with (pos ebadf) minus_one else (do
        ep ← event_poll_of_id sys epoll_id
        if ep == null
            then fail_with (pos ebadf) minus_one
            else if sock == 0
            then fail_with (pos ebadf) minus_one
            else (elim event [
              | none ↦
                  if op == xy_epoll_ctl_del
                  then ctl_del ep sock
                  else fail_with (pos einval) minus_one
              | some e ↦ ctl_op op ep sock e
            ]))
