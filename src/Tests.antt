-- ===== src/Tests.antt =====
-- A small system and its memory, for the tests: three lists with one socket each, and one received
-- frame.
mod Handshake
mod Windows
mod Segments
mod Queues
mod Epoll
mod Calls
mod Table
mod Setup
mod Interleaved
mod Events
mod Sending
mod Answers
mod Wire
mod Modify
use dpdk_tcp.Prelude.{
  ℕ, pos, Bool, true, false, Option, List, ◌∷◌, ◌+◌, ◌*◌, ◌/◌, ◌%◌, none, some, [], ◌==◌,
  if◌then◌else◌, update, u32, ◌^◌,
}
use dpdk_tcp.XyList.{Ptr, XyListNode}
use dpdk_tcp.Wnd.{XyTcpRcvWnd, XyTcpSndWnd}
use dpdk_tcp.Wnd.Mbuf.{XyMbufStore}
use dpdk_tcp.Packet.{TcpHdr, Frame}
use dpdk_tcp.Socket.{
  XyTcpSocket, Tcb, TcpStates, tcp_listen, tcp_syn_received, zero_tcp_socket, XyIpSocket,
}
use dpdk_tcp.Epoll.Tree.{find_key, key, insert, remove}
use dpdk_tcp.World.{World, System, XyEpollItem, xy_tcp_sock_unused}

-- the order of a little-endian machine
abbrev pub swap_16 : ℕ → ℕ
swap_16 n = (n % 256) * 256 + n / 256 % 256

-- Every address is the node of a list of its own.
abbrev pub alone : XyListNode
alone = record { next = λ a. some a; prev = λ a. some a }

-- The list of head 1 has the nodes 2 and 3.
abbrev pub two_nodes : XyListNode
two_nodes = record {
  next = update (update (update alone.next 1 (some 2)) 2 (some 3)) 3 (some 1);
  prev = update (update (update alone.prev 1 (some 3)) 2 (some 1)) 3 (some 2);
}

-- Each of the heads 1, 2, 3 and 4 has one node, 300, 200, 100 and 10000.
abbrev pub partner : Ptr → Ptr
partner a =
    if a == 1
    then 300
    else if a == 300
    then 1
    else if a == 2
    then 200
    else if a == 200
    then 2
    else if a == 3
    then 100
    else if a == 100
    then 3
    else if a == 4
    then 10000
    else if a == 10000
    then 4
    else a

abbrev pub store : XyMbufStore
store = record {
  node = record { next = λ a. some (partner a); prev = λ a. some (partner a) };
  mbuf = λ a. a;
}

-- Room from slot 4094 on: the buffer 8 waits behind the left edge, 9 behind it round the end.
abbrev pub rcv_window : XyTcpRcvWnd
rcv_window = record { head_ = 4094; buffer = λ i. if i == 4095 then 8 else if i == 0 then 9 else 0 }

-- Two buffers are not acknowledged, the second at the start of the array.
abbrev pub snd_window : XyTcpSndWnd
snd_window = record {
  head_ = 4095;
  tail_ = 1;
  buffer = λ i. if i == 4095 then 5 else if i == 0 then 6 else 0;
}

abbrev pub control : Tcb
control = record {
  snd_una = 10;
  snd_nxt = 12;
  snd_wnd = 4096;
  snd_up = 0;
  snd_wl1 = 49;
  snd_wl2 = 10;
  iss = 9;
  rcv_nxt = 50;
  rcv_wnd = 4096;
  rcv_up = 0;
  irs = 40;
  read_cursor = record { left = 0; buf = 0; mbuf = 0 };
  rcv_wnd_buffer = rcv_window;
  snd_wnd_buffer = snd_window;
}

abbrev pub sock : TcpStates → XyTcpSocket
sock s = record {
  id = 1;
  ref_cnt = 1;
  passive = 1;
  state = s;
  port_src = 80;
  port_dst = 4000;
  ip_socket = record {
    id = 3;
    ip_src = 11;
    ip_dst = 22;
    eth_socket = record { mac_src = 1; mac_dst = 2 };
  };
  tcb = control;
}

-- The segment has the given flags and acknowledgment, and is the one expected next.
abbrev pub frame : ℕ → ℕ → Frame
frame flags ack = record {
  eth = record { d_addr = 1; s_addr = 2; ether_type = swap_16 0x0800 };
  ip = record {
    version_ihl = 0x45;
    type_of_service = 0;
    total_length = swap_16 40;
    packet_id = 0;
    fragment_offset = 0;
    time_to_live = 64;
    next_proto_id = 6;
    hdr_checksum = 0;
    src_addr = 22;
    dst_addr = 11;
  };
  tcp = record {
    src_port = 4000;
    dst_port = 80;
    sent_seq = 50;
    recv_ack = ack;
    data_off = 0x50;
    tcp_flags = flags;
    rx_win = swap_16 100;
    cksum = 0;
    tcp_urp = 0;
  };
  arp = record { arp_opcode = 0; arp_sha = 0; arp_sip = 0; arp_tha = 0; arp_tip = 0 };
  icmp = record { icmp_type = 0; icmp_code = 0; icmp_cksum = 0 };
  data_len = 54;
  pkt_len = 54;
  payload = [];
}

-- Socket 100 is connected and in the given state, 200 is in handshake, 300 listens; 7 is the frame.
abbrev pub world : TcpStates → Frame → World
world s f = record {
  lists = store;
  socks = λ p.
      if p == 300
      then some (record (sock tcp_listen) { port_src = 81 })
      else if p == 200
      then some (record (sock tcp_syn_received) { port_dst = 4001 })
      else if p == 100
      then some (sock s)
      else none;
  frames = λ m. f;
  maps = λ p. record { id = 0; sock_type = xy_tcp_sock_unused; event_poll = 0; tcp_socket = 0 };
  polls = λ p. none;
  items = λ p. none;
  bytes = λ p. p % 256;
  ports = λ i. 0;
  events = alone;
  ops = λ p. none;
  errno = pos 0;
  cur = 3;
  freed = [];
  tx = [];
  rands = 0;
  mallocs = 0;
  allocs = 0;
}

-- A tree of items as a list.
abbrev pub insert_item : (Ptr → Option XyEpollItem) → List Ptr → Ptr → Ptr × List Ptr
insert_item items t p =
    if find_key items t (key items p) == 0
    then (0, insert items p t)
    else (find_key items t (key items p), t)

abbrev pub remove_item : (Ptr → Option XyEpollItem) → List Ptr → Ptr → Ptr × List Ptr
remove_item items t p = (p, remove p t)

abbrev pub min_item : List Ptr → Ptr
min_item [] = 0
min_item (x ∷ xs) = x

-- Memory is handed out from fixed addresses on, checksums are 0, the device takes every frame.
abbrev pub sys : System
sys = record {
  cpu_to_be_16 = swap_16;
  cpu_to_be_32 = λ n. swap_16 (n % 65536) * 65536 + swap_16 (n / 65536);
  be_to_cpu_16 = swap_16;
  ipv4_cksum = λ h. 0;
  udptcp_cksum = λ h t p. 0;
  raw_cksum = λ h p n. 0;
  ipv4_hdr_len = λ h. (h.version_ihl % 16) * 4;
  pktmbuf_mtod = λ m. m + 500;
  pktmbuf_alloc = λ n. 20 + n;
  eth_tx_burst = λ n. 1;
  rand = λ n. 77;
  malloc = λ n. 5000 + n;
  uninitialised = zero_tcp_socket;
  uninitialised_poll = record { id = 0; ready_num = 0; rb_tree = []; rb_num = 0; waiting = 0 };
  uninitialised_link = 0;
  rb_find = find_key;
  rb_insert = insert_item;
  rb_remove = remove_item;
  rb_min = min_item;
  uninitialised_item = record { ready = 0; sock_id = 0; events = 0; event_data = 0 };
  uninitialised_port = 0;
  pktmbuf_append = λ f n. record f { data_len = f.data_len + n };
  tcp_hdr_with = λ h bs. h;
  mutex_init = λ n. 0;
  mutex_lock = λ n. if u32 n == 0 then (true, n + 1) else (false, n / 2 ^ 32 * 2 ^ 32 + 2);
  mutex_unlock = λ n. n / 2 ^ 32 * 2 ^ 32;
  event_head = 50;
  event_tail = 51;
  ttl = 64;
  xy_this_ip = 11;
  xy_this_mac = 1;
  list_listeners = 1;
  list_syn_recved = 2;
  list_established = 3;
  free_sock_maps = 4;
  rcv_buf_list = λ p. p + 1000;
  snd_buf_list = λ p. p + 2000;
  ready_list = λ p. p + 3000;
  socket_maps = λ i. 10000 + i;
  rounds = 10;
}
