-- ===== src/Tests/Setup.antt =====
-- The set-up of a device whose second send queue cannot be set up.
use dpdk_tcp.Prelude.{zero, suc, ◌≡◌, refl, List, [], ◌∷◌, ℤ, pos, minus_one}
use dpdk_tcp.Main.Setup.{
  DevCall, get_mtu, count_avail, configure, adjust_nb_rx_tx_desc, rx_queue_setup, info_get,
  tx_queue_setup, eal_init, count_total, pktmbuf_pool_create, Dpdk, Device, returns, exit,
  exit_failure, xy_dev_port_init, xy_setup,
}
use dpdk_tcp.Main.Setup.Script.{perform, script, status, xy_dev_port_init-script}

abbrev answer : List DevCall → ℤ
answer (count_avail ∷ _) = pos 1
answer (count_total ∷ _) = pos 1
answer (tx_queue_setup _ (suc zero) _ _ ∷ _) = minus_one
answer _ = pos 0

abbrev dpdk : Dpdk
dpdk = record {
  ret = answer;
  mtu = λ _ _. 1500;
  mac = λ _ _. 9;
  nb_rxd = λ _. 256;
  nb_txd = λ _. 512;
  pool = λ _. 7;
  dev_socket_id = λ _. pos 0;
  socket_id = pos 0;
}

abbrev device : Device
device = record { calls = []; xy_mtu = 0; eth_addr = 0 }

two_send_queues : xy_dev_port_init dpdk 7 0 1 2 128 512 device ≡ (
  minus_one,
  record {
    calls =
        tx_queue_setup 0 1 512 (pos 0)
        ∷ tx_queue_setup 0 0 512 (pos 0)
        ∷ info_get 0
        ∷ rx_queue_setup 0 0 256 (pos 0) 7
        ∷ adjust_nb_rx_tx_desc 0 128 512
        ∷ configure 0 1 2
        ∷ count_avail
        ∷ get_mtu 0
        ∷ [];
    xy_mtu = 1500;
    eth_addr = 0;
  },
)
unfolding xy_dev_port_init
two_send_queues = refl

xy_dev_port_init-script_example :
    let (ret, d') = xy_dev_port_init dpdk 7 0 1 2 128 512 device in
    let (done, made) = perform dpdk 7 0 (script dpdk 7 0 1 2 128 512 []) [] in
    (ret ≡ status dpdk 7 0 done) × (d'.calls ≡ made)
xy_dev_port_init-script_example = xy_dev_port_init-script dpdk 7 0 1 2 128 512 device

-- The pool is for 8191 buffers, with a cache of 250.
one_port : xy_setup dpdk device ≡ (
  returns 7,
  record device { calls = pktmbuf_pool_create 8191 250 (pos 0) ∷ count_total ∷ eal_init ∷ [] },
)
unfolding xy_setup
one_port = refl

no_pool : (xy_setup (record dpdk { pool = λ _. 0 }) device).0 ≡ exit exit_failure
unfolding xy_setup
no_pool = refl
