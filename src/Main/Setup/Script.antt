-- ===== src/Main/Setup/Script.antt =====
-- network/src/xy_init.cc: `xy_dev_port_init` makes the calls of a fixed list, up to the first that
-- fails.
use dpdk_tcp.Prelude.{
  ℕ, zero, suc, ◌+◌, ◌≡◌, refl, arith, Bool, true, false, ltb, not, if◌then◌else◌, ℤ, pos,
  minus_one, List, [], ◌∷◌, ◌++◌,
}
use dpdk_tcp.XyList.{Ptr}
use dpdk_tcp.Main.Setup.{
  DevCall, get_mtu, count_avail, configure, adjust_nb_rx_tx_desc, rx_queue_setup, info_get,
  tx_queue_setup, start, macaddr_get, allmulticast_enable, Dpdk, Device, non_zero, negative,
  count_of, calling, rx_queues, tx_queues, start_port, setup_queues, xy_dev_port_init,
}

module _ (dpdk : Dpdk) (buf_pool : Ptr) (port : ℕ) where
  -- What the documentation of DPDK calls a failure. There has to be a device of the port's number.
  abbrev failed : DevCall → ℤ → Bool
  failed count_avail r = not (ltb port (count_of r))
  failed (get_mtu _) r = non_zero r
  failed (configure _ _ _) r = non_zero r
  failed (adjust_nb_rx_tx_desc _ _ _) r = non_zero r
  failed (rx_queue_setup _ _ _ _ _) r = negative r
  failed (tx_queue_setup _ _ _ _) r = negative r
  failed (start _) r = negative r
  failed _ r = false

  -- Calls made in turn, up to the first that fails: whether none does, and the calls so far.
  abbrev pub perform : List DevCall → List DevCall → Bool × List DevCall
  perform [] made = (true, made)
  perform (c ∷ cs) made =
      if failed c (dpdk.ret (c ∷ made)) then (false, c ∷ made) else perform cs (c ∷ made)

  abbrev pub rx_calls : ℕ → ℕ → ℕ → List DevCall
  rx_calls zero q nb_rxd = []
  rx_calls (suc n) q nb_rxd =
      rx_queue_setup port q nb_rxd (dpdk.dev_socket_id port) buf_pool ∷ rx_calls n (q + 1) nb_rxd

  abbrev pub tx_calls : ℕ → ℕ → ℕ → List DevCall
  tx_calls zero q nb_txd = []
  tx_calls (suc n) q nb_txd =
      tx_queue_setup port q nb_txd (dpdk.dev_socket_id port) ∷ tx_calls n (q + 1) nb_txd

  abbrev start_calls : List DevCall
  start_calls = start port ∷ macaddr_get port ∷ allmulticast_enable port ∷ []

  abbrev first_calls : ℕ → ℕ → ℕ → ℕ → List DevCall
  first_calls n_rx_q n_tx_q nb_rxd nb_txd =
      get_mtu port
      ∷ count_avail
      ∷ configure port n_rx_q n_tx_q
      ∷ adjust_nb_rx_tx_desc port nb_rxd nb_txd
      ∷ []

  -- The receive queues from 0, the device's information, the send queues from 0, the start.
  abbrev queue_calls : ℕ → ℕ → ℕ → ℕ → List DevCall
  queue_calls n_rx_q n_tx_q nb_rxd nb_txd =
      rx_calls n_rx_q 0 nb_rxd ++ (info_get port ∷ (tx_calls n_tx_q 0 nb_txd ++ start_calls))

  -- The whole list. The numbers of descriptors are those that the fourth call has adjusted.
  abbrev pub script : ℕ → ℕ → ℕ → ℕ → List DevCall → List DevCall
  script n_rx_q n_tx_q nb_rxd nb_txd made =
      let adjusted =
        adjust_nb_rx_tx_desc port nb_rxd nb_txd
        ∷ configure port n_rx_q n_tx_q
        ∷ count_avail
        ∷ get_mtu port
        ∷ made in
      first_calls n_rx_q n_tx_q nb_rxd nb_txd
      ++ queue_calls n_rx_q n_tx_q (dpdk.nb_rxd adjusted) (dpdk.nb_txd adjusted)

  perform-append :
      (a b made : List DevCall)
      → perform (a ++ b) made
        ≡ (if (perform a made).0 then perform b (perform a made).1 else perform a made)
  perform-append [] b made = refl
  perform-append (c ∷ a) b made = ground (arith, perform-append a b (c ∷ made))

  rx_queues-perform :
      (n q nb_rxd : ℕ) (d : Device)
      → let (done, d') = rx_queues dpdk buf_pool port n q nb_rxd d in
        (done, d'.calls) ≡ perform (rx_calls n q nb_rxd) d.calls
  unfolding rx_queues
  rx_queues-perform zero q nb_rxd d = refl
  rx_queues-perform (suc n) q nb_rxd d =
      let d' = calling (rx_queue_setup port q nb_rxd (dpdk.dev_socket_id port) buf_pool) d in
      ground (arith, rx_queues-perform n (q + 1) nb_rxd d')

  tx_queues-perform :
      (n q nb_txd : ℕ) (d : Device)
      → let (done, d') = tx_queues dpdk buf_pool port n q nb_txd d in
        (done, d'.calls) ≡ perform (tx_calls n q nb_txd) d.calls
  unfolding tx_queues
  tx_queues-perform zero q nb_txd d = refl
  tx_queues-perform (suc n) q nb_txd d =
      let d' = calling (tx_queue_setup port q nb_txd (dpdk.dev_socket_id port)) d in
      ground (arith, tx_queues-perform n (q + 1) nb_txd d')

  -- What `xy_dev_port_init` makes of whether all calls succeeded.
  abbrev pub status : Bool → ℤ
  status ok = if ok then pos 0 else minus_one

  start_port-perform :
      (d : Device)
      → let (ret, d') = start_port dpdk buf_pool port d in
        let (done, made) = perform start_calls d.calls in (ret ≡ status done) × (d'.calls ≡ made)
  unfolding start_port
  start_port-perform d = (ground arith, ground arith)

  setup_queues-perform :
      (n_rx_q n_tx_q nb_rxd nb_txd : ℕ) (d : Device)
      → let (ret, d') = setup_queues dpdk buf_pool port n_rx_q n_tx_q nb_rxd nb_txd d in
        let (done, made) = perform (queue_calls n_rx_q n_tx_q nb_rxd nb_txd) d.calls in
        (ret ≡ status done) × (d'.calls ≡ made)
  unfolding setup_queues
  setup_queues-perform n_rx_q n_tx_q nb_rxd nb_txd d =
      let d1 = (rx_queues dpdk buf_pool port n_rx_q 0 nb_rxd d).1 in
      let d2 = (tx_queues dpdk buf_pool port n_tx_q 0 nb_txd (calling (info_get port) d1)).1 in
      let sends = tx_calls n_tx_q 0 nb_txd in
      rw
        (perform-append (rx_calls n_rx_q 0 nb_rxd) (info_get port ∷ (sends ++ start_calls)) d.calls)
        (ground (
          arith,
          rx_queues-perform n_rx_q 0 nb_rxd d,
          tx_queues-perform n_tx_q 0 nb_txd (calling (info_get port) d1),
          perform-append sends start_calls (info_get port ∷ d1.calls),
          start_port-perform d2,
        ))

  -- `xy_dev_port_init` makes the calls of the list in turn up to the first that fails: the MTU, the
  -- number of devices, the configuration, each receive queue and each send queue once and in
  -- order, and only then the start. It returns 0 if none fails, and -1 otherwise.
  pub xy_dev_port_init-script :
      (n_rx_q n_tx_q nb_rxd nb_txd : ℕ) (d : Device)
      → let (ret, d') = xy_dev_port_init dpdk buf_pool port n_rx_q n_tx_q nb_rxd nb_txd d in
        let (done, made) = perform (script n_rx_q n_tx_q nb_rxd nb_txd d.calls) d.calls in
        (ret ≡ status done) × (d'.calls ≡ made)
  unfolding xy_dev_port_init
  xy_dev_port_init-script n_rx_q n_tx_q nb_rxd nb_txd d =
      let d0 = calling (get_mtu port) d in
      let d1 = record d0 { xy_mtu = dpdk.mtu d0.calls d0.xy_mtu } in
      let d3 = calling (configure port n_rx_q n_tx_q) (calling count_avail d1) in
      let d4 = calling (adjust_nb_rx_tx_desc port nb_rxd nb_txd) d3 in
      ground
        (arith, setup_queues-perform n_rx_q n_tx_q (dpdk.nb_rxd d4.calls) (dpdk.nb_txd d4.calls) d4)
