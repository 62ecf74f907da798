-- ===== src/SynSocks.antt =====
-- queue/src/xy_syn_socks.cc: the calls that walk or wait for the list of the connected sockets. Socks
-- has the others. The list is locked for reading in each round; the lock holds no value.
pub mod Accept
use dpdk_tcp.Prelude.{ℕ, zero, suc, M, ◌>>=◌, ◌>>◌, pure, fault, ◌==◌, if◌then◌else◌, some}
use dpdk_tcp.XyList.{Ptr, load_next, load_prev}
use dpdk_tcp.World.{World, System}
use dpdk_tcp.World.Memory.{load_sock, on_links}
use dpdk_tcp.SendBuf.{tcp_send_buf}
use dpdk_tcp.SynApi.Ops.{is_established}

module _ (sys : System) where
  open sys use {list_established, rounds}

  -- `for (pos = head->next; pos != head; pos = pos->next)`, for at most the given rounds.
  unfoldable pub send_walk : ℕ → Ptr → M World (Unit {0})
  unfolding on_links load_next tcp_send_buf
  send_walk zero pos = fault
  send_walk (suc k) pos =
      let rest = λ (next : Ptr). send_walk k next in
      if pos == list_established
      then pure tt
      else (do _ ← tcp_send_buf sys pos; next ← on_links (load_next pos); rest next)

  unfoldable pub established_send_buffers : M World (Unit {0})
  unfolding on_links load_next send_walk
  established_send_buffers = do
    first ← on_links (load_next list_established)
    send_walk rounds first

  -- The static variable `cur`.
  unfoldable pub load_cur : M World Ptr
  load_cur w = some (w.cur, w)

  unfoldable pub store_cur : Ptr → M World (Unit {0})
  store_cur p w = some (tt, record w { cur = p })

  -- `while (true)`, for at most the given rounds. `others` is what other threads do while this one
  -- yields.
  unfoldable pub take_next : ℕ → M World (Unit {0}) → M World Ptr
  unfolding on_links load_prev load_cur store_cur
  take_next zero others = fault
  take_next (suc k) others =
      let again = take_next k others in
      do
        cur ← load_cur
        prev ← on_links (load_prev cur)
        if prev == list_established then (do others; again) else (do store_cur prev; pure prev)

  unfoldable pub established_take_next : M World (Unit {0}) → M World Ptr
  unfolding take_next
  established_take_next others = take_next rounds others

  unfoldable pub retrieve : ℕ → M World (Unit {0}) → Ptr → M World Ptr
  unfolding load_sock
  retrieve zero others tcp_sk = fault
  retrieve (suc k) others tcp_sk =
      let again = retrieve k others tcp_sk in
      do sk ← load_sock tcp_sk; if is_established sk.state then pure tcp_sk else (do others; again)

  unfoldable pub established_retrieve : M World (Unit {0}) → Ptr → M World Ptr
  unfolding retrieve
  established_retrieve others tcp_sk = retrieve rounds others tcp_sk
