-- ===== src/Socket.antt =====
-- network/include/xy_struct.h: the state of a connection.
use dpdk_tcp.Prelude.{ℕ}
use dpdk_tcp.XyList.{Ptr}
use dpdk_tcp.Wnd.{XyTcpRcvWnd, XyTcpSndWnd}

pub record XyBufCursor : Type 0 where
  pub left : ℕ
  pub buf : Ptr
  pub mbuf : Ptr

-- `struct tcb`. The heads `rcv_buf_list` and `snd_buf_list` are nodes of the list store, at addresses
-- inside the socket.
pub record Tcb : Type 0 where
  pub snd_una : ℕ
  pub snd_nxt : ℕ
  pub snd_wnd : ℕ
  pub snd_up : ℕ
  pub snd_wl1 : ℕ
  pub snd_wl2 : ℕ
  pub iss : ℕ
  pub rcv_nxt : ℕ
  pub rcv_wnd : ℕ
  pub rcv_up : ℕ
  pub irs : ℕ
  pub read_cursor : XyBufCursor
  pub rcv_wnd_buffer : XyTcpRcvWnd
  pub snd_wnd_buffer : XyTcpSndWnd

pub data TcpStates : Type 0 where
  tcp_listen tcp_syn_sent tcp_syn_received tcp_established tcp_fin_wait_1 : TcpStates
  tcp_fin_wait_2 tcp_close tcp_close_wait tcp_closing tcp_last_ack tcp_time_wait : TcpStates

pub record XyEthSocket : Type 0 where
  pub mac_src : ℕ
  pub mac_dst : ℕ

pub record XyIpSocket : Type 0 where
  pub id : ℕ
  pub ip_src : ℕ
  pub ip_dst : ℕ
  pub eth_socket : XyEthSocket

-- `xy_tcp_socket`. Its first member, the list node, lies in the list store, at the socket's address.
pub record XyTcpSocket : Type 0 where
  pub id : ℕ
  pub ref_cnt : ℕ
  pub passive : ℕ
  pub state : TcpStates
  pub port_src : ℕ
  pub port_dst : ℕ
  pub ip_socket : XyIpSocket
  pub tcb : Tcb

-- All fields zero, as `memset` and an initialiser leave those that are not named.
unfoldable pub zero_tcb : Tcb
zero_tcb = record {
  snd_una = 0;
  snd_nxt = 0;
  snd_wnd = 0;
  snd_up = 0;
  snd_wl1 = 0;
  snd_wl2 = 0;
  iss = 0;
  rcv_nxt = 0;
  rcv_wnd = 0;
  rcv_up = 0;
  irs = 0;
  read_cursor = record { left = 0; buf = 0; mbuf = 0 };
  rcv_wnd_buffer = record { head_ = 0; buffer = λ _. 0 };
  snd_wnd_buffer = record { head_ = 0; tail_ = 0; buffer = λ _. 0 };
}

unfoldable pub zero_tcp_socket : XyTcpSocket
unfolding zero_tcb
zero_tcp_socket = record {
  id = 0;
  ref_cnt = 0;
  passive = 0;
  state = tcp_listen;
  port_src = 0;
  port_dst = 0;
  ip_socket = record {
    id = 0;
    ip_src = 0;
    ip_dst = 0;
    eth_socket = record { mac_src = 0; mac_dst = 0 };
  };
  tcb = zero_tcb;
}
