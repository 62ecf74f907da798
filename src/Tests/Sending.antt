-- ===== src/Tests/Sending.antt =====
-- A socket with two buffers in flight, 5 and 6, and two that are queued, 20 and 21; the peer has room
-- for three.
use dpdk_tcp.Prelude.{◌≡◌, refl, arith, some, [], ◌∷◌, ◌-◌, ◌==◌, if◌then◌else◌, pos}
use dpdk_tcp.Wnd.{xy_tcp_snd_wnd_size}
use dpdk_tcp.Wnd.Mbuf.{XyMbufStore}
use dpdk_tcp.Wnd.Mbuf.Holds.{Holds}
use dpdk_tcp.Wnd.Snd.{IsSndWnd}
use dpdk_tcp.Socket.{XyTcpSocket, tcp_established}
use dpdk_tcp.World.{World}
use dpdk_tcp.SendBuf.{tcp_send_buf}
use dpdk_tcp.SendBuf.Sends.{Sent, tcp_send_buf-Sent}
use dpdk_tcp.Tests.{control, snd_window, sock, frame, world, sys}

-- The nodes 520 and 521 of the buffers stand in the list 2100 of the socket 100.
abbrev queue : XyMbufStore
queue = record {
  node = record {
    next = λ a. some (if a == 2100 then 520 else if a == 520 then 521 else 2100);
    prev = λ a. some (if a == 2100 then 521 else if a == 521 then 520 else 2100);
  };
  mbuf = λ a. a - 500;
}

abbrev sender : XyTcpSocket
sender = record (sock tcp_established) { tcb = record control { snd_wnd = 3 } }

abbrev sending : World
sending = record (world tcp_established (frame 0x10 11)) { lists = queue; socks = λ p. some sender }

queue-Holds : Holds sys.pktmbuf_mtod queue 2100 (20 ∷ 21 ∷ [])
queue-Holds = record { ring = ground arith; carries = (refl, (refl, tt)) }

snd_window-IsSndWnd : IsSndWnd snd_window
snd_window-IsSndWnd = omega arith

-- 5 is sent again, then 20.
tcp_send_buf-Sent_example :
    (w' : World) × (tcp_send_buf sys 100 sending ≡ some (pos 0, w'))
    × Sent sys 100 sending sender (5 ∷ []) (20 ∷ []) (21 ∷ []) w'
unfolding xy_tcp_snd_wnd_size
tcp_send_buf-Sent_example =
    tcp_send_buf-Sent sys 100 (20 ∷ []) (21 ∷ []) sending sender refl (omega arith)
      snd_window-IsSndWnd (omega arith) refl queue-Holds
