-- ===== src/Main.antt =====
-- network/src/xy_init.cc: the loop of the thread that polls the device. Its output is left out.
pub mod Setup
use dpdk_tcp.Prelude.{M, ◌>>=◌, ◌>>◌, pure, List, [], ◌∷◌, some, update}
use dpdk_tcp.XyList.{Ptr}
use dpdk_tcp.Packet.{Frame}
use dpdk_tcp.World.{World, System}
use dpdk_tcp.Manage.{xy_socket_map_init}
use dpdk_tcp.Recv.{eth_recv}
use dpdk_tcp.SynApi.{xy_syn_event_handle}
use dpdk_tcp.SynSocks.{established_send_buffers}

module _ (sys : System) where
  -- What `rte_eth_rx_burst` returns: the device has written a frame into each buffer.
  unfoldable pub rx_burst : List (Ptr × Frame) → M World (Unit {0})
  rx_burst [] = pure tt
  rx_burst ((m, f) ∷ burst) = do
    (λ (w : World). some (tt, record w { frames = update w.frames m f }))
    rx_burst burst

  -- `for (int i = 0; i < nb_rx; i++) eth_recv(buffers[i])`
  unfoldable pub recv_burst : List (Ptr × Frame) → M World (Unit {0})
  unfolding eth_recv
  recv_burst [] = pure tt
  recv_burst ((m, f) ∷ burst) = do _ ← eth_recv sys m; recv_burst burst

  -- One round of `lcore_main`. `others` is what the threads of the application do while it waits.
  unfoldable pub lcore_round : M World (Unit {0}) → List (Ptr × Frame) → M World (Unit {0})
  unfolding rx_burst recv_burst xy_syn_event_handle established_send_buffers
  lcore_round others burst = do
    rx_burst burst
    recv_burst burst
    xy_syn_event_handle sys others
    established_send_buffers sys

  -- `lcore_main` for as many rounds as there are bursts.
  unfoldable pub lcore_main : M World (Unit {0}) → List (List (Ptr × Frame)) → M World (Unit {0})
  unfolding lcore_round
  lcore_main others [] = pure tt
  lcore_main others (burst ∷ bursts) = do lcore_round others burst; lcore_main others bursts

  unfoldable pub xy_init_socks : M World (Unit {0})
  unfolding xy_socket_map_init
  xy_init_socks = do _ ← xy_socket_map_init sys; pure tt
