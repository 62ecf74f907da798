-- ===== src/Api.antt =====
-- network/src/xy_api.cc and `xy_epoll_create` of network/src/xy_epoll.cc: the application's side of its
-- calls. `p` is the address of the call's object on the caller's stack, `before` and `others` what the
-- other threads do after the call is put into the queue and while the caller waits.
pub mod Answered
use dpdk_tcp.Prelude.{
  ℕ, M, ◌>>=◌, ◌>>◌, pure, Bool, true, false, Option, some, none, update, if◌then◌else◌, ℤ, pos,
  negsuc, minus_one,
}
use dpdk_tcp.XyList.{Ptr, null}
use dpdk_tcp.World.{World, System, XySocketOps}
use dpdk_tcp.World.Memory.{load_sock, fail_with}
use dpdk_tcp.Manage.{tcp_socket_of_id}
use dpdk_tcp.SynApi.{xy_syn_event_enqueue}
use dpdk_tcp.SynApi.Ops.{
  XyOpsType, xy_tcp_ops_create, xy_tcp_ops_bind, xy_tcp_ops_listen, xy_tcp_ops_accept,
  xy_tcp_ops_connect, xy_tcp_ops_close, xy_tcp_ops_recv, number_of, load_ops,
}
use dpdk_tcp.SynSocks.{established_take_next, established_retrieve}

-- The members that an initialiser does not name.
abbrev pub blank : XySocketOps
blank = record { err_no = pos 0; sock_id = pos 0; ip = 0; port = 0; buf = null; len = 0; ret = 0 }

-- The object made: `type` lies in the low octets of the link, where `done` is 0.
unfoldable pub place_call : Ptr → XyOpsType → XySocketOps → M World (Unit {0})
place_call p type ops w = some (
  tt,
  record w {
    events = record {
      next = update w.events.next p (some (number_of type));
      prev = update w.events.prev p (some null);
    };
    ops = update w.ops p (some ops);
  },
)

abbrev pub is_error : ℤ → Bool
is_error (pos n) = true
is_error (negsuc n) = false

module _ (sys : System) (before others : M World (Unit {0})) (p : Ptr) where
  -- The call handed over, and what follows where it did not fail: `xy_return_errno_if` with the value
  -- `failed`.
  unfoldable pub call_with : XyOpsType → XySocketOps → ℤ → (XySocketOps → M World ℤ) → M World ℤ
  unfolding place_call xy_syn_event_enqueue load_ops fail_with
  call_with type ops failed rest = do
    place_call p type ops
    xy_syn_event_enqueue sys others before p
    o ← load_ops p
    if is_error o.err_no then fail_with o.err_no failed else rest o

  unfoldable pub xy_socket : M World ℤ
  unfolding call_with
  xy_socket = call_with xy_tcp_ops_create blank minus_one λ o. pure o.sock_id

  unfoldable pub xy_bind : ℤ → ℕ → ℕ → M World ℤ
  unfolding call_with
  xy_bind sock_id ip port =
      call_with xy_tcp_ops_bind (record blank { sock_id = sock_id; ip = ip; port = port }) minus_one
        λ o. pure (pos 0)

  unfoldable pub xy_listen : ℤ → M World ℤ
  unfolding call_with
  xy_listen sock_id =
      call_with xy_tcp_ops_listen (record blank { sock_id = sock_id }) minus_one λ o. pure (pos 0)

  -- The pointers to the address and the port, which the handlers do not read, are left out.
  unfoldable pub xy_connect : ℤ → M World ℤ
  unfolding call_with tcp_socket_of_id established_retrieve load_sock
  xy_connect sock_id =
      call_with xy_tcp_ops_connect (record blank { sock_id = sock_id }) minus_one
        λ o. do
          tcp_sk ← tcp_socket_of_id sys sock_id
          connected ← established_retrieve sys others tcp_sk
          sk ← load_sock connected
          pure (pos sk.id)

  unfoldable pub xy_accept : ℤ → M World ℤ
  unfolding call_with established_take_next load_sock
  xy_accept sock_id =
      call_with xy_tcp_ops_accept (record blank { sock_id = sock_id }) minus_one
        λ o. do taken ← established_take_next sys others; sk ← load_sock taken; pure (pos sk.id)

  unfoldable pub xy_recv : ℤ → Ptr → ℕ → M World ℤ
  unfolding call_with
  xy_recv sock_id buf len =
      call_with xy_tcp_ops_recv (record blank { sock_id = sock_id; buf = buf; len = len }) (pos 0)
        λ o. pure (pos o.ret)

  -- The type is that of `xy_recv`.
  unfoldable pub xy_send : ℤ → Ptr → ℕ → M World ℤ
  unfolding call_with
  xy_send sock_id buf len =
      call_with xy_tcp_ops_recv (record blank { sock_id = sock_id; buf = buf; len = len }) (pos 0)
        λ o. pure (pos o.ret)

  unfoldable pub xy_close : ℤ → M World ℤ
  unfolding call_with
  xy_close sock_id =
      call_with xy_tcp_ops_close (record blank { sock_id = sock_id }) minus_one λ o. pure (pos 0)

  -- The type is that of `xy_bind`; `size` lies where `sock_id` does, and the port is not written.
  unfoldable pub xy_epoll_create : ℤ → M World ℤ
  unfolding call_with
  xy_epoll_create size =
      call_with xy_tcp_ops_bind (record blank { sock_id = size; port = sys.uninitialised_port })
        minus_one λ o. pure (pos 0)
