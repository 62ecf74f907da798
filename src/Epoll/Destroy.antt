-- ===== src/Epoll/Destroy.antt =====
-- `epoll_destroy` and `xy_epoll_close_socket` of network/src/xy_epoll.cc.
use dpdk_tcp.Prelude.{
  ℕ, zero, suc, M, ◌>>=◌, ◌>>◌, pure, fault, ◌==◌, if◌then◌else◌, ℤ, pos, minus_one,
}
use dpdk_tcp.XyList.{Ptr, null, xy_list_is_empty, xy_list_take_head}
use dpdk_tcp.World.{World, System}
use dpdk_tcp.World.Memory.{on_links, load_poll, fail_with}
use dpdk_tcp.Manage.{event_poll_of_id, free_poll}
use dpdk_tcp.Epoll.Ctl.{einval, minus, remove_from, free_item}

module _ (sys : System) where
  -- `while (!xy_list_is_empty(&ep->ready_list))`, for at most the given rounds.
  unfoldable pub drain_ready : ℕ → Ptr → M World (Unit {0})
  unfolding on_links
  drain_ready zero ep = fault
  drain_ready (suc k) ep =
      let rest = drain_ready k ep in
      do
        empty ← on_links (xy_list_is_empty (sys.ready_list ep))
        if empty then pure tt else (do _ ← on_links (xy_list_take_head (sys.ready_list ep)); rest)

  -- `for (;;)`, which removes and frees the least item, for at most the given rounds.
  unfoldable pub remove_items : ℕ → Ptr → M World (Unit {0})
  unfolding load_poll remove_from free_item
  remove_items zero ep = fault
  remove_items (suc k) ep =
      let rest = remove_items k ep in
      do
        poll ← load_poll ep
        if sys.rb_min poll.rb_tree == null
            then pure tt
            else (do epi ← remove_from sys ep (sys.rb_min poll.rb_tree); free_item sys epi; rest)

  unfoldable pub epoll_destroy : Ptr → M World ℤ
  unfolding drain_ready remove_items
  epoll_destroy ep = do drain_ready sys.rounds ep; remove_items sys.rounds ep; pure (pos 0)

  unfoldable pub xy_epoll_close_socket : ℤ → M World ℤ
  unfolding event_poll_of_id fail_with epoll_destroy free_poll
  xy_epoll_close_socket sock = do
    ep ← event_poll_of_id sys sock
    if ep == null
        then fail_with (minus einval) minus_one
        else (do _ ← epoll_destroy ep; free_poll ep; pure (pos 0))
