-- ===== src/SynApi.antt =====
-- queue/src/xy_syn_api.cc: the application's calls, as the thread that polls the device handles them.
pub mod Calls
pub mod Ops
pub mod Listen
pub mod Poll
pub mod Segments
pub mod Serve
pub mod Text
use dpdk_tcp.Prelude.{
  ℕ, zero, suc, Bool, M, ◌>>=◌, ◌>>◌, pure, fault, ◌==◌, if◌then◌else◌, ℤ, minus_one, Option, none,
  some,
}
use dpdk_tcp.XyList.{Ptr, null, load_prev, store_prev}
use dpdk_tcp.World.{World, System}
use dpdk_tcp.Mpmc.{mpmc_list_add_tail, mpmc_list_del_head}
use dpdk_tcp.SynApi.Ops.{
  XyOpsType, xy_tcp_ops_create, xy_tcp_ops_bind, xy_tcp_ops_listen, xy_tcp_ops_accept,
  xy_tcp_ops_connect, xy_tcp_ops_close, xy_tcp_ops_send, xy_tcp_ops_recv, xy_epoll_ops_creat,
  type_of_number, modify_ops, on_events, load_type, load_done, set_done,
}
use dpdk_tcp.SynApi.Calls.{
  xy_syn_socket, xy_syn_bind, xy_syn_listen, xy_syn_connect, xy_syn_accept, xy_syn_close,
}
use dpdk_tcp.SynApi.Text.{xy_syn_send, xy_syn_recv}
use dpdk_tcp.SynApi.Poll.{xy_syn_epoll_create}

module _ (sys : System) where
  -- The handler of a kind of call.
  unfoldable pub handle_call : XyOpsType → Ptr → M World ℤ
  handle_call xy_tcp_ops_create ops = xy_syn_socket sys ops
  handle_call xy_tcp_ops_bind ops = xy_syn_bind sys ops
  handle_call xy_tcp_ops_listen ops = xy_syn_listen sys ops
  handle_call xy_tcp_ops_connect ops = xy_syn_connect sys ops
  handle_call xy_tcp_ops_close ops = xy_syn_close sys ops
  handle_call xy_tcp_ops_accept ops = xy_syn_accept sys ops
  handle_call xy_tcp_ops_send ops = xy_syn_send sys ops
  handle_call xy_tcp_ops_recv ops = xy_syn_recv sys ops
  handle_call xy_epoll_ops_creat ops = xy_syn_epoll_create sys ops

  unfoldable pub xy_syn_event_handle_ops : Ptr → M World ℤ
  unfolding load_type handle_call
  xy_syn_event_handle_ops ops = do
    n ← load_type ops
    elim (type_of_number n) [ none ↦ pure minus_one | some t ↦ handle_call t ops ]

  -- `ops->mutex` starts at the octet 8 of the object, where the node of the queue has its link `prev`.
  unfoldable pub try_lock : Ptr → M World Bool
  unfolding on_events load_prev store_prev
  try_lock ops = do
    n ← on_events (load_prev ops)
    on_events (store_prev ops (sys.mutex_lock n).1)
    pure (sys.mutex_lock n).0

  -- `lock`: an attempt, and while the mutex is held what the other threads do takes its course. A wait
  -- of more than the given attempts is a fault.
  unfoldable pub lock_mutex : ℕ → M World (Unit {0}) → Ptr → M World (Unit {0})
  unfolding try_lock
  lock_mutex zero others ops = fault
  lock_mutex (suc k) others ops =
      let again = lock_mutex k others ops in
      do got ← try_lock ops; if got then pure tt else (do others; again)

  unfoldable pub unlock_mutex : Ptr → M World (Unit {0})
  unfolding on_events load_prev store_prev
  unlock_mutex ops = do
    n ← on_events (load_prev ops)
    on_events (store_prev ops (sys.mutex_unlock n))

  -- `ops->err_no = xy_syn_event_handle_ops(ops)`
  unfoldable pub answer_call : Ptr → M World (Unit {0})
  unfolding modify_ops xy_syn_event_handle_ops
  answer_call ops = do
    err_no ← xy_syn_event_handle_ops ops
    modify_ops ops (λ o. record o { err_no = err_no })

  module _ (others : M World (Unit {0})) where
    -- The body of the loop of `xy_syn_event_handle`. `others` is what the other threads do while it
    -- waits for the mutex.
    unfoldable pub serve_call : Ptr → M World (Unit {0})
    unfolding answer_call lock_mutex set_done unlock_mutex
    serve_call ops = do
      answer_call ops
      lock_mutex sys.rounds others ops
      set_done ops
      unlock_mutex ops

    -- The loop, for at most the given rounds.
    unfoldable pub serve_calls : ℕ → M World (Unit {0})
    unfolding on_events serve_call
    serve_calls zero = fault
    serve_calls (suc k) =
        let rest = serve_calls k in
        do
          node ← on_events (mpmc_list_del_head sys.event_head sys.event_tail)
          if node == null then pure tt else (do serve_call node; rest)

    unfoldable pub xy_syn_event_handle : M World (Unit {0})
    unfolding serve_calls
    xy_syn_event_handle = serve_calls sys.rounds

    -- `ops->cv.wait(…)`, the mutex held: while `done` is 0 it is released, what the other threads do
    -- takes its course, and it is locked again. More than the given rounds are a fault.
    unfoldable pub wait_done : ℕ → Ptr → M World (Unit {0})
    unfolding load_done lock_mutex unlock_mutex
    wait_done zero ops = fault
    wait_done (suc k) ops =
        let again = wait_done k ops in
        do
          done ← load_done ops
          if done == 0
              then (do unlock_mutex ops; others; lock_mutex sys.rounds others ops; again)
              else pure tt

    -- `before` is what the other threads do between the call's being put into the queue and the first
    -- attempt to lock its mutex.
    unfoldable pub xy_syn_event_enqueue : M World (Unit {0}) → Ptr → M World (Unit {0})
    unfolding on_events lock_mutex unlock_mutex wait_done
    xy_syn_event_enqueue before ops = do
      _ ← on_events (mpmc_list_add_tail sys.event_tail ops)
      before
      lock_mutex sys.rounds others ops
      wait_done sys.rounds ops
      unlock_mutex ops
