-- ===== src/Api/Answered.antt =====
-- The calls of network/src/xy_api.cc in the application's thread, the other threads running in any way.
use dpdk_tcp.Prelude.{
  ℕ, ◌<◌, ◌≡◌, ◌≢◌, arith, ℤ, pos, some, none, [], ◌∷◌, ◌∉◌, update, u32, M, Option-cases, inl, inr,
}
use dpdk_tcp.XyList.{Ptr, null}
use dpdk_tcp.World.{World, System, XySocketOps}
use dpdk_tcp.Mpmc.{mpmc_list_add_tail}
use dpdk_tcp.Mpmc.Fifo.{IsQueue, mpmc_list_add_tail-IsQueue}
use dpdk_tcp.SynApi.{xy_syn_event_enqueue}
use dpdk_tcp.SynApi.Ops.{XyOpsType, number_of, on_events}
use dpdk_tcp.SynApi.Serve.{IsHeld, LeavesHeld, LockWaits, lock_mutex-held}
use dpdk_tcp.Api.{
  place_call, call_with, xy_socket, xy_bind, xy_listen, xy_connect, xy_accept, xy_recv, xy_send,
  xy_close, xy_epoll_create,
}

module _ (sys : System) (p : Ptr) where
  -- The memory with the object of a call in it.
  abbrev pub placed : World → XyOpsType → XySocketOps → World
  placed w type ops = record w {
    events = record {
      next = update w.events.next p (some (number_of type));
      prev = update w.events.prev p (some null);
    };
    ops = update w.ops p (some ops);
  }

  -- The object lies on the caller's stack, the queue is empty, and its head does not look like a
  -- mutex that is free.
  pub record CanCall (w : World) : Type 0 where
    pub queue : IsQueue w.events sys.event_head sys.event_tail []
    pub apart : p ∉ sys.event_head ∷ sys.event_tail ∷ []
    pub not_null : p ≢ null
    pub high_head : 0 < u32 sys.event_head

  queue-placed :
      (w : World) (type : XyOpsType) (ops : XySocketOps)
      → CanCall w
      → IsQueue (placed w type ops).events sys.event_head sys.event_tail []
  queue-placed w type ops c = record {
    chain = ground (arith, c.queue.chain, c.apart);
    apart = c.queue.apart;
    tail_out = c.queue.tail_out;
    head_ne = c.queue.head_ne;
    tail_ne = c.queue.tail_ne;
  }

  -- The memory once the call stands in the queue: its mutex reads as held.
  add_tail-IsHeld :
      (w : World) (type : XyOpsType) (ops : XySocketOps)
      → CanCall w
      → (v : World) × (on_events (mpmc_list_add_tail sys.event_tail p) (placed w type ops)
          ≡ some (pos 0, v))
        × IsHeld p v
  unfolding on_events
  add_tail-IsHeld w type ops c =
      let u = placed w type ops in
      let (g, add, queue) =
        mpmc_list_add_tail-IsQueue u.events sys.event_head sys.event_tail p []
          (queue-placed w type ops c) (ground arith) c.not_null (ground (arith, c.apart))
          (ground (arith, c.apart)) in
      (
        record u { events = g },
        ground (arith, add),
        (sys.event_head, ground (arith, queue.chain), omega (arith, c.high_head)),
      )

  module _ (waits : LockWaits sys) (before others : M World (Unit {0}))
      (before_keeps : LeavesHeld p before) (keeps : LeavesHeld p others) where
    xy_syn_event_enqueue-held :
        (w : World) (type : XyOpsType) (ops : XySocketOps)
        → CanCall w
        → xy_syn_event_enqueue sys others before p (placed w type ops) ≡ none
    unfolding xy_syn_event_enqueue
    xy_syn_event_enqueue-held w type ops c =
        let (v, add, held) = add_tail-IsHeld w type ops c in
        elim (Option-cases (before v)) [
          | inl stuck ↦ ground (arith, add, stuck)
          | inr ((u, w'), run) ↦ ground (
            arith,
            add,
            run,
            lock_mutex-held sys waits others p keeps sys.rounds w' (before_keeps v w' held run),
          )
        ]

    call_with-blocks :
        (w : World) (type : XyOpsType) (ops : XySocketOps) (failed : ℤ)
        (rest : XySocketOps → M World ℤ)
        → CanCall w
        → call_with sys before others p type ops failed rest w ≡ none
    unfolding call_with place_call
    call_with-blocks w type ops failed rest c =
        ground (arith, xy_syn_event_enqueue-held w type ops c)

    -- No call of the application comes back. Put into the queue, which held no other call, it waits for
    -- its own mutex, over which the queue's link `prev` lies, and does not get it however often it
    -- tries, in whatever way the other threads run meanwhile. `lock` is taken to wait for a mutex
    -- whose low 32 bits are not 0, and the other threads not to clear them; the call's object is no
    -- end of the queue, and the head's address has low 32 bits other than 0.
    pub calls-Block :
        (w : World) (sock_id : ℤ) (ip port : ℕ) (buf : Ptr) (len : ℕ) (size : ℤ)
        → CanCall w
        → (xy_socket sys before others p w ≡ none)
          × (xy_bind sys before others p sock_id ip port w ≡ none)
          × (xy_listen sys before others p sock_id w ≡ none)
          × (xy_connect sys before others p sock_id w ≡ none)
          × (xy_accept sys before others p sock_id w ≡ none)
          × (xy_recv sys before others p sock_id buf len w ≡ none)
          × (xy_send sys before others p sock_id buf len w ≡ none)
          × (xy_close sys before others p sock_id w ≡ none)
          × (xy_epoll_create sys before others p size w ≡ none)
    unfolding xy_socket xy_bind xy_listen xy_connect xy_accept xy_recv xy_send xy_close
        xy_epoll_create
    calls-Block w sock_id ip port buf len size c = (
      search call_with-blocks,
      search call_with-blocks,
      search call_with-blocks,
      search call_with-blocks,
      search call_with-blocks,
      search call_with-blocks,
      search call_with-blocks,
      search call_with-blocks,
      search call_with-blocks,
    )
