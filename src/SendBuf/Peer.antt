-- ===== src/SendBuf/Peer.antt =====
-- Segments for the peer of a socket, one after the other (network/src/xy_tcp_send.cc).
use dpdk_tcp.Prelude.{ℕ, ◌+◌, ◌≡◌, ◌∙◌, ap, List, [], ◌∷◌, u32}
use dpdk_tcp.XyList.{Ptr}
use dpdk_tcp.Packet.{Frame}
use dpdk_tcp.Socket.{XyTcpSocket}
use dpdk_tcp.World.{System}

-- A frame for the peer of a socket, with a sequence number.
pub record IsSegment (sys : System) (sk : XyTcpSocket) (seq : ℕ) (f : Frame) : Type 0 where
  pub sent_seq : f.tcp.sent_seq ≡ sys.cpu_to_be_32 seq
  pub recv_ack : f.tcp.recv_ack ≡ sys.cpu_to_be_32 sk.tcb.rcv_nxt
  pub src_addr : f.ip.src_addr ≡ sk.ip_socket.ip_src
  pub dst_addr : f.ip.dst_addr ≡ sk.ip_socket.ip_dst
  pub d_addr : f.eth.d_addr ≡ sk.ip_socket.eth_socket.mac_dst

-- After `before` the device was handed these buffers, one after the other, each as a segment with the
-- next sequence number.
abbrev pub Sends :
    System → XyTcpSocket → ℕ → List Ptr → List (Ptr × Frame) → List (Ptr × Frame) → Type 0
Sends sys sk seq [] after before = after ≡ before
Sends sys sk seq (m ∷ ms) after before =
    (f : Frame) × IsSegment sys sk seq f × Sends sys sk (u32 (seq + 1)) ms after ((m, f) ∷ before)

-- The sockets have the same peer and expect the same segment.
pub record SamePeer (sk sk' : XyTcpSocket) : Type 0 where
  pub rcv_nxt : sk'.tcb.rcv_nxt ≡ sk.tcb.rcv_nxt
  pub ip_src : sk'.ip_socket.ip_src ≡ sk.ip_socket.ip_src
  pub ip_dst : sk'.ip_socket.ip_dst ≡ sk.ip_socket.ip_dst
  pub eth_socket : sk'.ip_socket.eth_socket ≡ sk.ip_socket.eth_socket

pub same_peer :
    {sk : XyTcpSocket} (sk' : XyTcpSocket)
    → sk'.tcb.rcv_nxt ≡ sk.tcb.rcv_nxt
    → sk'.ip_socket.ip_src ≡ sk.ip_socket.ip_src
    → sk'.ip_socket.ip_dst ≡ sk.ip_socket.ip_dst
    → sk'.ip_socket.eth_socket ≡ sk.ip_socket.eth_socket
    → SamePeer sk sk'
same_peer sk' a b c d = record { rcv_nxt = a; ip_src = b; ip_dst = c; eth_socket = d }

pub SamePeer-trans : {a b c : XyTcpSocket} → SamePeer a b → SamePeer b c → SamePeer a c
SamePeer-trans {a} {b} {c} r s =
    same_peer c (s.rcv_nxt ∙ r.rcv_nxt) (s.ip_src ∙ r.ip_src) (s.ip_dst ∙ r.ip_dst)
      (s.eth_socket ∙ r.eth_socket)

module _ (sys : System) where
  pub IsSegment-peer :
      (sk sk' : XyTcpSocket) (seq : ℕ) (f : Frame)
      → SamePeer sk sk'
      → IsSegment sys sk' seq f
      → IsSegment sys sk seq f
  IsSegment-peer sk sk' seq f same s = record {
    sent_seq = s.sent_seq;
    recv_ack = s.recv_ack ∙ ap sys.cpu_to_be_32 same.rcv_nxt;
    src_addr = s.src_addr ∙ same.ip_src;
    dst_addr = s.dst_addr ∙ same.ip_dst;
    d_addr = s.d_addr ∙ ap (λ e. e.mac_dst) same.eth_socket;
  }

  pub Sends-peer :
      (sk sk' : XyTcpSocket) (seq : ℕ) (ms : List Ptr) (after before : List (Ptr × Frame))
      → SamePeer sk sk'
      → Sends sys sk' seq ms after before
      → Sends sys sk seq ms after before
  Sends-peer sk sk' seq [] after before same s = s
  Sends-peer sk sk' seq (m ∷ ms) after before same (f, s, rest) = (
    f,
    IsSegment-peer sk sk' seq f same s,
    Sends-peer sk sk' (u32 (seq + 1)) ms after ((m, f) ∷ before) same rest,
  )
