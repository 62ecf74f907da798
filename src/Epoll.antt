-- ===== src/Epoll.antt =====
-- network/src/xy_epoll.cc: telling an application of an event; the child modules hold its calls.
pub mod Ctl
pub mod Wait
pub mod Ready
pub mod Collect
pub mod Signal
pub mod Deadline
pub mod Blocking
pub mod Timeout
pub mod Tree
pub mod Register
pub mod Modify
pub mod Destroy
pub mod Close
use dpdk_tcp.Prelude.{
  ℕ, ◌+◌, M, ◌>>=◌, ◌>>◌, pure, fault, ◌==◌, if◌then◌else◌, ℤ, pos, bit_or, some, List,
}
use dpdk_tcp.XyList.{Ptr, null, xy_list_add_head}
use dpdk_tcp.World.{World, System}
use dpdk_tcp.World.Memory.{on_links, load_poll, modify_poll, load_item, modify_item}
use dpdk_tcp.Epoll.Ctl.{find_item}
use dpdk_tcp.Manage.{xy_get_event_poll_by_id}

abbrev pub xy_epollin : ℕ
xy_epollin = 0x0001

module _ (sys : System) where
  open sys use {ready_list}

  unfoldable pub epoll_event_callback : ℕ → ℕ → M World ℤ
  unfolding xy_get_event_poll_by_id load_poll find_item load_item modify_item on_links modify_poll
  epoll_event_callback sock event = do
    ep ← xy_get_event_poll_by_id sys sock
    poll ← load_poll ep
    epi ← find_item sys poll.rb_tree sock
    if epi == null then fault else (do
      item ← load_item epi
      if item.ready == 0
          then (do
            modify_item epi (λ i. record i { ready = 1 })
            on_links (xy_list_add_head (ready_list ep) epi)
            modify_poll ep (λ p. record p { ready_num = p.ready_num + 1 })
            pure (pos 0))
          else (do
            modify_item epi (λ i. record i { events = bit_or i.events event })
            pure (pos 1)))
