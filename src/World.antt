-- ===== src/World.antt =====
-- The memory of the program, and what it takes from the system: DPDK, the C library, the linker.
pub mod Memory
use dpdk_tcp.Prelude.{Bool, ℕ, ℤ, List, Option}
use dpdk_tcp.XyList.{Ptr, XyListNode}
use dpdk_tcp.Port.{PortsOccupied}
use dpdk_tcp.Wnd.Mbuf.{XyMbufStore}
use dpdk_tcp.Packet.{Ipv4Hdr, TcpHdr, IcmpHdr, Frame}
use dpdk_tcp.Socket.{XyTcpSocket}

-- network/include/xy_manage.h, `socket_type`
pub data SocketType : Type 0 where
  xy_tcp_sock_unused xy_tcp_sock_tcp xy_tcp_sock_epoll : SocketType

-- `xy_socket_map`; its list node lies in the list store, at its address.
pub record XySocketMap : Type 0 where
  pub id : ℕ
  pub sock_type : SocketType
  pub event_poll : Ptr
  pub tcp_socket : Ptr

-- network/include/xy_epoll.h. A red-black tree is the sequence of its items: its shape is a matter of the
-- library's. The list node of an item and the head of the ready list lie in the list
-- store; the mutexes and the condition variable hold no value.
pub record XyEpollItem : Type 0 where
  pub ready : ℕ
  pub sock_id : ℕ
  pub events : ℕ
  pub event_data : ℕ

pub record XyEventPoll : Type 0 where
  pub id : ℕ
  pub ready_num : ℕ
  pub rb_tree : List Ptr
  pub rb_num : ℕ
  pub waiting : ℕ

-- queue/include/xy_syn_api.h, `xy_socket_ops`. The structs of its union begin with one `int`, the
-- socket's id, which is `size` in `epoll_create_`; its `sock_id` lies where `ip` does. The structs with
-- `buf`, `len` and `ret` agree in all members. `type` and `done` lie in the first octets of the
-- object, where the queue of events has its link `next`; they are read from that link.
pub record XySocketOps : Type 0 where
  pub err_no : ℤ
  pub sock_id : ℤ
  pub ip : ℕ
  pub port : ℕ
  pub buf : Ptr
  pub len : ℕ
  pub ret : ℕ

-- `none` is memory that holds no object of the type. `freed` and `tx` record, latest first, the calls
-- of `rte_pktmbuf_free` and `rte_eth_tx_burst`; the three counters, how often `rand`, `malloc` and
-- `rte_pktmbuf_alloc` were called.
pub record World : Type 0 where
  pub lists : XyMbufStore
  pub socks : Ptr → Option XyTcpSocket
  pub frames : Ptr → Frame
  pub maps : Ptr → XySocketMap
  pub polls : Ptr → Option XyEventPoll
  pub items : Ptr → Option XyEpollItem
  -- the octets of the application's buffers and of the text in packets
  pub bytes : Ptr → ℕ
  -- `xy_ports_occupied`
  pub ports : PortsOccupied
  -- the links of the queue of events, and the calls that stand in it
  pub events : XyListNode
  pub ops : Ptr → Option XySocketOps
  -- `errno`, and the static variable of `established_take_next`
  pub errno : ℤ
  pub cur : Ptr
  pub freed : List Ptr
  pub tx : List (Ptr × Frame)
  pub rands : ℕ
  pub mallocs : ℕ
  pub allocs : ℕ

-- What the code calls and does not define. The functions of the system that may answer differently
-- each time are functions of the number of the call.
pub record System : Type 0 where
  -- rte_byteorder.h
  pub cpu_to_be_16 : ℕ → ℕ
  pub cpu_to_be_32 : ℕ → ℕ
  pub be_to_cpu_16 : ℕ → ℕ
  -- rte_ip.h; a TCP checksum is over the frame's payload too
  pub ipv4_cksum : Ipv4Hdr → ℕ
  pub udptcp_cksum : Ipv4Hdr → TcpHdr → List ℕ → ℕ
  pub raw_cksum : IcmpHdr → List ℕ → ℕ → ℕ
  pub ipv4_hdr_len : Ipv4Hdr → ℕ
  -- rte_mbuf.h: where a buffer's data starts, and the allocator
  pub pktmbuf_mtod : Ptr → Ptr
  pub pktmbuf_alloc : ℕ → Ptr
  -- `rte_pktmbuf_append`, on a buffer that exists; how it sees octets written over a TCP header
  pub pktmbuf_append : Frame → ℕ → Frame
  pub tcp_hdr_with : TcpHdr → List ℕ → TcpHdr
  -- what `pthread_mutex_init`, `pthread_cond_init` and `pthread_spin_init` return
  pub mutex_init : ℕ → ℕ
  -- `std::mutex`, by the first eight octets of the object: whether an attempt of `lock` gets it and
  -- what it leaves there; what `unlock` leaves there
  pub mutex_lock : ℕ → Bool × ℕ
  pub mutex_unlock : ℕ → ℕ
  -- rte_ethdev.h: how many of one frame the n-th call sends
  pub eth_tx_burst : ℕ → ℕ
  -- the C library
  pub rand : ℕ → ℕ
  pub malloc : ℕ → Ptr
  -- what an object holds that `malloc` has just returned
  pub uninitialised : XyTcpSocket
  pub uninitialised_poll : XyEventPoll
  pub uninitialised_item : XyEpollItem
  -- what the octets of a union hold that an initialiser does not write
  pub uninitialised_port : ℕ
  pub uninitialised_link : Ptr
  -- the red-black tree of network/include/xy_rbtree.h, a copy of a library,
  -- with the items that the tree's addresses stand for; `RB_INSERT` and `RB_REMOVE` return a node and
  -- the tree after them
  pub rb_find : (Ptr → Option XyEpollItem) → List Ptr → ℕ → Ptr
  pub rb_insert : (Ptr → Option XyEpollItem) → List Ptr → Ptr → Ptr × List Ptr
  pub rb_remove : (Ptr → Option XyEpollItem) → List Ptr → Ptr → Ptr × List Ptr
  pub rb_min : List Ptr → Ptr
  -- globals that the application sets
  pub ttl : ℕ
  pub xy_this_ip : ℕ
  pub xy_this_mac : ℕ
  -- addresses: the list heads, those inside a socket or a poll, and the elements of `__socket_maps`
  pub list_listeners : Ptr
  pub list_syn_recved : Ptr
  pub list_established : Ptr
  pub free_sock_maps : Ptr
  pub rcv_buf_list : Ptr → Ptr
  pub snd_buf_list : Ptr → Ptr
  pub ready_list : Ptr → Ptr
  pub socket_maps : ℕ → Ptr
  pub event_head : Ptr
  pub event_tail : Ptr
  -- a bound on the rounds of a walk through a list
  pub rounds : ℕ
