-- ===== src/Tests/Segments.antt =====
-- Segments and replies at small inputs.
use dpdk_tcp.Prelude.{◌≡◌, refl, arith, some, [], ◌∷◌, length, ℤ, pos}
use dpdk_tcp.Socket.{XyTcpSocket, tcp_established, tcp_close, tcp_close_wait, tcp_time_wait}
use dpdk_tcp.World.{World}
use dpdk_tcp.Socks.{connects, listens_at}
use dpdk_tcp.Socks.Lookup.{find}
use dpdk_tcp.Tcp.{has_flag}
use dpdk_tcp.Tcp.Others.{state_tcp_otherwise, acceptable}
use dpdk_tcp.Tcp.Others.Late.{close_wait, state_tcp_otherwise-late}
use dpdk_tcp.Recv.{tcp_recv, handle, check_tcp_hdr}
use dpdk_tcp.Recv.Dispatch.{Quiet, handle-rst}
use dpdk_tcp.Recv.Demux.{Tables, demux, tcp_recv_drops, tcp_recv_handles}
use dpdk_tcp.WndHdl.{tcp_recv_window_update}
use dpdk_tcp.Tests.{sock, frame, world, sys}

-- A segment with RST and ACK reaches the connected socket.
abbrev reset : World
reset = world tcp_established (frame 0x14 11)

handle-rst_example :
    (w' : World) × (handle sys tcp_established 100 7 reset ≡ some (pos 0, w'))
    × Quiet reset 100 7 (sock tcp_established) tcp_close w'
unfolding acceptable has_flag
handle-rst_example =
    handle-rst sys reset 100 7 (sock tcp_established) refl refl [] [] tcp_established refl
      (λ e. ground arith)

-- The peer's FIN comes again, with the acknowledgment of all that was sent.
abbrev last_fin : World
last_fin = world tcp_close_wait (frame 0x11 12)

state_tcp_otherwise-late_example :
    (r : ℤ) × (w' : World) × (sk' : XyTcpSocket) × (state_tcp_otherwise sys 100 7 last_fin
      ≡ some (r, w'))
    × (w'.socks 100 ≡ some sk')
    × (sk'.state ≡ tcp_time_wait)
    × (sk'.tcb.rcv_nxt ≡ 51)
    × (length w'.tx ≡ 1)
unfolding acceptable has_flag dpdk_tcp.WndHdl.ack_update
state_tcp_otherwise-late_example =
    state_tcp_otherwise-late sys last_fin 100 7 (sock tcp_close_wait) refl close_wait refl refl refl
      refl refl

abbrev here : World
here = world tcp_established (frame 0x10 11)

here-Tables : Tables sys here (200 ∷ []) (100 ∷ []) (300 ∷ [])
here-Tables = record {
  syn_ring = ground arith;
  syn_socks = ((_, refl), tt);
  syn_few = omega arith;
  established_ring = ground arith;
  established_socks = ((_, refl), tt);
  established_few = omega arith;
  listener_ring = ground arith;
  listener_socks = ((_, refl, refl), tt);
  listener_few = omega arith;
}

-- Ten octets are too few.
tcp_recv_drops_example : tcp_recv sys 7 20 10 here ≡ some (pos 0, here)
tcp_recv_drops_example =
    tcp_recv_drops sys here (200 ∷ []) (100 ∷ []) (300 ∷ []) here-Tables 7 20 10 refl

tcp_recv_handles_example : tcp_recv sys 7 20 54 here ≡ handle sys tcp_established 100 7 here
unfolding demux find connects listens_at check_tcp_hdr
tcp_recv_handles_example =
    tcp_recv_handles sys here (200 ∷ []) (100 ∷ []) (300 ∷ []) here-Tables 7 20 54 100
      (sock tcp_established) refl refl refl refl refl
