-- ===== src/Manage.antt =====
-- network/src/xy_manage.cc: the table of the socket ids, and the list of its elements that are free.
pub mod Table
pub mod Reuse
use dpdk_tcp.Prelude.{
  ℕ, zero, suc, ◌+◌, none, some, M, ◌>>=◌, ◌>>◌, pure, fault, update, leb, ◌==◌, if◌then◌else◌, ℤ,
  pos, negsuc,
}
use dpdk_tcp.XyList.{Ptr, null, xy_list_init, xy_list_add_tail, xy_list_take_head, xy_list_is_empty}
use dpdk_tcp.Port.{xy_max_tcp}
use dpdk_tcp.World.{
  World, System, XySocketMap, xy_tcp_sock_unused, xy_tcp_sock_tcp, xy_tcp_sock_epoll,
}
use dpdk_tcp.World.Memory.{
  on_links, put_links, malloc, load_map, modify_map, modify_sock, modify_poll,
}

-- An element of the table that no socket uses.
abbrev pub unused : ℕ → XySocketMap
unused id = record { id = id; sock_type = xy_tcp_sock_unused; event_poll = null; tcp_socket = null }

-- `xy_free`: the memory holds no object any more.
unfoldable pub free_sock : Ptr → M World (Unit {0})
free_sock p w = some (tt, record w { socks = update w.socks p none })

unfoldable pub free_poll : Ptr → M World (Unit {0})
free_poll p w = some (tt, record w { polls = update w.polls p none })

module _ (sys : System) where
  open sys use {
    free_sock_maps, socket_maps, rcv_buf_list, snd_buf_list, ready_list, uninitialised,
    uninitialised_poll, uninitialised_link,
  }

  -- `*sock_map = {.id = …}` and `xy_list_add_tail(&__free_sock_maps, …)`
  unfoldable pub release_map : ℕ → M World (Unit {0})
  unfolding modify_map put_links on_links xy_list_add_tail
  release_map i = do
    modify_map (socket_maps i) (λ _. unused i)
    put_links (socket_maps i) null null
    on_links (xy_list_add_tail free_sock_maps (socket_maps i))

  -- `for (int i = 0; i < XY_MAX_TCP; ++i)`, with the rounds that are left
  unfoldable pub init_loop : ℕ → ℕ → M World (Unit {0})
  unfolding release_map
  init_loop zero i = pure tt
  init_loop (suc k) i = do release_map i; init_loop k (i + 1)

  unfoldable pub xy_socket_map_init : M World ℤ
  unfolding on_links init_loop
  xy_socket_map_init = do
    on_links (xy_list_init free_sock_maps)
    init_loop xy_max_tcp 0
    pure (pos 0)

  -- `xy_allocate(xy_tcp_socket)`: a socket with the nodes inside it, or `NULL`
  unfoldable pub allocate_sock : M World Ptr
  unfolding malloc put_links
  allocate_sock = do
    p ← malloc sys
    if p == null then pure null else (do
      (λ w. some (tt, record w { socks = update w.socks p (some uninitialised) }))
      put_links p uninitialised_link uninitialised_link
      put_links (rcv_buf_list p) uninitialised_link uninitialised_link
      put_links (snd_buf_list p) uninitialised_link uninitialised_link
      pure p)

  unfoldable pub allocate_poll : M World Ptr
  unfolding malloc put_links
  allocate_poll = do
    p ← malloc sys
    if p == null then pure null else (do
      (λ w. some (tt, record w { polls = update w.polls p (some uninitialised_poll) }))
      put_links (ready_list p) uninitialised_link uninitialised_link
      pure p)

  unfoldable pub xy_allocate_tcp_socket : M World Ptr
  unfolding on_links load_map modify_map modify_sock allocate_sock
  xy_allocate_tcp_socket = do
    empty ← on_links (xy_list_is_empty free_sock_maps)
    if empty then pure null else (do
      sock_map ← on_links (xy_list_take_head free_sock_maps)
      tcp_socket ← allocate_sock
      modify_map sock_map (λ m. record m { sock_type = xy_tcp_sock_tcp; tcp_socket = tcp_socket })
      m ← load_map sock_map
      modify_sock tcp_socket (λ sk. record sk { id = m.id })
      pure tcp_socket)

  unfoldable pub xy_allocate_event_poll : M World Ptr
  unfolding on_links load_map modify_map modify_poll allocate_poll
  xy_allocate_event_poll = do
    empty ← on_links (xy_list_is_empty free_sock_maps)
    if empty then pure null else (do
      sock_map ← on_links (xy_list_take_head free_sock_maps)
      event_poll ← allocate_poll
      modify_map sock_map (λ m. record m { sock_type = xy_tcp_sock_epoll; event_poll = event_poll })
      m ← load_map sock_map
      modify_poll event_poll (λ ep. record ep { id = m.id })
      pure event_poll)

  -- An id outside the table is a fault.
  unfoldable pub map_of_id : ℕ → M World XySocketMap
  unfolding load_map
  map_of_id sock_id = if leb xy_max_tcp sock_id then fault else load_map (socket_maps sock_id)

  unfoldable pub xy_deallocate_tcp_socket : ℕ → M World (Unit {0})
  unfolding map_of_id free_sock release_map
  xy_deallocate_tcp_socket sock_id = do
    m ← map_of_id sock_id
    free_sock m.tcp_socket
    release_map sock_id

  unfoldable pub deallocate_event_poll : ℕ → M World (Unit {0})
  unfolding map_of_id free_poll release_map
  deallocate_event_poll sock_id = do
    m ← map_of_id sock_id
    free_poll m.event_poll
    release_map sock_id

  unfoldable pub xy_get_tcp_socket_by_id : ℕ → M World Ptr
  unfolding map_of_id
  xy_get_tcp_socket_by_id sock_id = do m ← map_of_id sock_id; pure m.tcp_socket

  unfoldable pub xy_get_event_poll_by_id : ℕ → M World Ptr
  unfolding map_of_id
  xy_get_event_poll_by_id sock_id = do m ← map_of_id sock_id; pure m.event_poll

  -- The look-ups by an `int`: a negative id is outside the table too.
  unfoldable pub tcp_socket_of_id : ℤ → M World Ptr
  unfolding xy_get_tcp_socket_by_id
  tcp_socket_of_id (pos n) = xy_get_tcp_socket_by_id n
  tcp_socket_of_id (negsuc n) = fault

  unfoldable pub event_poll_of_id : ℤ → M World Ptr
  unfolding xy_get_event_poll_by_id
  event_poll_of_id (pos n) = xy_get_event_poll_by_id n
  event_poll_of_id (negsuc n) = fault
