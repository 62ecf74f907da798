-- ===== src/Main/Setup.antt =====
-- network/src/xy_init.cc: the set-up of the device and of the memory pool. The calls of DPDK are
-- written down in the order in which the program makes them; their answers are a parameter.
-- What is printed is left out, and `signal`, which the C library keeps.
pub mod Script
use dpdk_tcp.Prelude.{
  ℕ, zero, suc, ◌+◌, ◌*◌, Bool, true, false, ltb, leb, ◌==◌, not, if◌then◌else◌, ℤ, pos, negsuc,
  minus_one, List, [], ◌∷◌, u16,
}
use dpdk_tcp.XyList.{Ptr, null}

-- A call of DPDK with the arguments that vary; the names, the flags and the configuration structs are
-- always the same.
pub data DevCall : Type 0 where
  get_mtu : ℕ → DevCall
  count_avail : DevCall
  configure : ℕ → ℕ → ℕ → DevCall
  adjust_nb_rx_tx_desc : ℕ → ℕ → ℕ → DevCall
  rx_queue_setup : ℕ → ℕ → ℕ → ℤ → Ptr → DevCall
  info_get : ℕ → DevCall
  tx_queue_setup : ℕ → ℕ → ℕ → ℤ → DevCall
  start : ℕ → DevCall
  macaddr_get : ℕ → DevCall
  allmulticast_enable : ℕ → DevCall
  eal_init : DevCall
  count_total : DevCall
  pktmbuf_pool_create : ℕ → ℕ → ℤ → DevCall

-- What a call returns and writes through its pointers, by the list of the calls so far, the last
-- one first.
pub record Dpdk : Type 0 where
  pub ret : List DevCall → ℤ
  -- from the value before, which a call that fails may leave
  pub mtu : List DevCall → ℕ → ℕ
  pub mac : List DevCall → ℕ → ℕ
  pub nb_rxd : List DevCall → ℕ
  pub nb_txd : List DevCall → ℕ
  pub pool : List DevCall → Ptr
  -- `rte_eth_dev_socket_id` and `rte_socket_id`, which do not change
  pub dev_socket_id : ℕ → ℤ
  pub socket_id : ℤ

-- The calls that were made, and the variables that they set.
pub record Device : Type 0 where
  pub calls : List DevCall
  pub xy_mtu : ℕ
  pub eth_addr : ℕ

abbrev pub non_zero : ℤ → Bool
non_zero (pos n) = not (n == 0)
non_zero (negsuc n) = true

abbrev pub negative : ℤ → Bool
negative (pos n) = false
negative (negsuc n) = true

-- A count is unsigned.
abbrev pub count_of : ℤ → ℕ
count_of (pos n) = n
count_of (negsuc n) = 0

abbrev pub calling : DevCall → Device → Device
calling c d = record d { calls = c ∷ d.calls }

module _ (dpdk : Dpdk) (buf_pool : Ptr) (port : ℕ) where
  -- `for (uint16_t q = 0; q < n_rx_q; q++)`, for the queues that are left; `false` is the return
  -- from the loop.
  unfoldable pub rx_queues : ℕ → ℕ → ℕ → Device → Bool × Device
  rx_queues zero q nb_rxd d = (true, d)
  rx_queues (suc left) q nb_rxd d =
      let d' = calling (rx_queue_setup port q nb_rxd (dpdk.dev_socket_id port) buf_pool) d in
      elim (negative (dpdk.ret d'.calls)) [
        | true ↦ (false, d')
        | false ↦ rx_queues left (q + 1) nb_rxd d'
      ]

  unfoldable pub tx_queues : ℕ → ℕ → ℕ → Device → Bool × Device
  tx_queues zero q nb_txd d = (true, d)
  tx_queues (suc left) q nb_txd d =
      let d' = calling (tx_queue_setup port q nb_txd (dpdk.dev_socket_id port)) d in
      elim (negative (dpdk.ret d'.calls)) [
        | true ↦ (false, d')
        | false ↦ tx_queues left (q + 1) nb_txd d'
      ]

  -- From the start of the port on.
  unfoldable pub start_port : Device → ℤ × Device
  start_port d =
      let d1 = calling (start port) d in
      if negative (dpdk.ret d1.calls)
      then (minus_one, d1)
      else let d2 = calling (macaddr_get port) d1 in
        let d3 = record d2 { eth_addr = dpdk.mac d2.calls d2.eth_addr } in
        (pos 0, calling (allmulticast_enable port) d3)

  -- The queues, with the numbers of descriptors that the device has adjusted.
  unfoldable pub setup_queues : ℕ → ℕ → ℕ → ℕ → Device → ℤ × Device
  unfolding rx_queues tx_queues start_port
  setup_queues n_rx_q n_tx_q nb_rxd nb_txd d =
      let (rx_done, d1) = rx_queues n_rx_q 0 nb_rxd d in
      if not rx_done
      then (minus_one, d1)
      else let (tx_done, d2) = tx_queues n_tx_q 0 nb_txd (calling (info_get port) d1) in
        if not tx_done then (minus_one, d2) else start_port d2

  unfoldable pub xy_dev_port_init : ℕ → ℕ → ℕ → ℕ → Device → ℤ × Device
  unfolding setup_queues
  xy_dev_port_init n_rx_q n_tx_q nb_rxd nb_txd d =
      let d0 = calling (get_mtu port) d in
      let d1 = record d0 { xy_mtu = dpdk.mtu d0.calls d0.xy_mtu } in
      let d2 = calling count_avail d1 in
      let d3 = calling (configure port n_rx_q n_tx_q) d2 in
      let d4 = calling (adjust_nb_rx_tx_desc port nb_rxd nb_txd) d3 in
      if non_zero (dpdk.ret d1.calls)
      then (minus_one, d1)
      else if leb (count_of (dpdk.ret d2.calls)) port
      then (minus_one, d2)
      else if non_zero (dpdk.ret d3.calls)
      then (minus_one, d3)
      else if non_zero (dpdk.ret d4.calls)
      then (minus_one, d4)
      else setup_queues n_rx_q n_tx_q (dpdk.nb_rxd d4.calls) (dpdk.nb_txd d4.calls) d4

-- A function that returns, or ends the process with a status.
pub data Exits (A : Type 0) : Type 0 where
  returns : A → Exits A
  exit : ℕ → Exits A

abbrev pub exit_failure : ℕ
exit_failure = 1

-- The handler of SIGHUP and SIGINT.
unfoldable pub sig_handler : ℕ → Exits (Unit {0})
sig_handler sig_num = exit sig_num

module _ (dpdk : Dpdk) where
  unfoldable pub xy_setup : Device → Exits Ptr × Device
  xy_setup d =
      let d1 = calling eal_init d in
      let d2 = calling count_total d1 in
      let nb_ports = u16 (count_of (dpdk.ret d2.calls)) in
      let d3 = calling (pktmbuf_pool_create (8191 * nb_ports) 250 dpdk.socket_id) d2 in
      if negative (dpdk.ret d1.calls)
      then (exit exit_failure, d1)
      else if not (nb_ports == 1)
      then (exit exit_failure, d2)
      else if dpdk.pool d3.calls == null
      then (exit exit_failure, d3)
      else (returns (dpdk.pool d3.calls), d3)
