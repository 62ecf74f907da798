-- ===== src/Lib.antt =====
-- The user-space TCP/IP stack on DPDK: network/ receives and answers frames, queue/ carries
-- calls between the application's threads and the thread that polls the device.
--
-- A received frame goes through `eth_recv` (network/src/xy_eth.cc) to `ip_recv` (xy_ip.cc),
-- `arp_recv` (xy_arp.cc), `icmp_recv` (xy_icmp.cc) and `tcp_recv` (xy_tcp_recv.cc). `tcp_recv`
-- looks the segment's socket up in three lists (xy_socks.cc, queue/src/xy_syn_socks.cc) and
-- calls the handler of the socket's state (network/include/xy_tcp_state_*.h). A handler changes
-- the socket and its control block (xy_struct.h), its windows (xy_tcp_wnd.h, xy_tcp_wnd_hdl.h) and
-- the lists it stands in (xy_list.h), and answers through `tcp_forward` and `tcp_send`.
--
-- Which file models which part:
--   Prelude     tests on numbers, machine words, lists, and the state monad with faults
--   XyList      network/include/xy_list.h; Chain and Ring hold the abstract view
--   Wnd         xy_tcp_wnd.h; Wnd/Mbuf is xy_list_mbuf.h; Wnd/Rcv and Wnd/Snd are the proofs
--   Port        xy_tcp_port.h
--   Packet      the header structs of DPDK that the program reads and writes
--   Socket      xy_struct.h
--   World       the memory, and as `System` what the program takes from DPDK, libc and the linker
--   Net         network/src/xy_eth.cc, xy_ip.cc, xy_tcp.cc; Net/Reply is xy_arp.cc and xy_icmp.cc
--   Socks       network/src/xy_socks.cc and the connected list of queue/src/xy_syn_socks.cc
--   Manage      network/src/xy_manage.cc
--   Epoll       network/src/xy_epoll.cc; Ctl, Wait and Destroy hold its calls, Tree what it takes
--               from the red-black tree, the other children the proofs
--   WndHdl      xy_tcp_wnd_hdl.h
--   Tcp         xy_tcp_state_close.h, _listen.h, _syn_sent.h, _others.h; Tcp/Graph is the graph of
--               states of the last, over the logic of partial correctness in Prelude/Logic
--   Recv        network/src/xy_tcp_recv.cc, and the receiving half of xy_ip.cc and xy_eth.cc
--   SendBuf     network/src/xy_tcp_send.cc
--   RingBuffer  queue/include/xy_ring.h; Interleaved takes its accesses one at a time
--   Mpmc        queue/include/xy_mpmc.h; Sequence and Race are what several operations do
--   SynApi      queue/src/xy_syn_api.cc: the calls as the polling thread handles them
--   SynSocks    the walks and waits on the connected list of queue/src/xy_syn_socks.cc
--   Api         network/src/xy_api.cc and xy_epoll_create: the calls as the application makes them
--   Main        the loop of network/src/xy_init.cc; Main/Setup is the set-up of devices and memory
--   Tests       small inputs
--
-- A function keeps its name, a struct its name in this notation, a field its name. A pointer is a
-- number; an object lives in a store of its type in `World`, by address. A function that changes
-- memory is a state monad with faults: `none` is a dereference of an address without an object, or
-- a failed assertion. Handlers find the headers in the buffer, where the program passes pointers
-- into it. Words keep their wrap-around. A header field is the number that the program reads, so a
-- conversion of byte order stands where the code calls one. Functions of DPDK and libc, the globals
-- that the application sets and the addresses the linker chooses are fields of `System`; a function
-- that may answer differently each time depends on the number of the call.
--
-- A thread that waits takes an argument that says what the others do meanwhile: the `others` of
-- `xy_syn_event_handle`, of `xy_syn_event_enqueue`, which also has a `before` for what they do until
-- its first attempt to lock, and of the waits on the connected list; the record `Waiting` of
-- `xy_epoll_wait`. An event poll's red-black tree is the sequence of its items; its operations are
-- fields of `System`, and the record `RbTree` (Epoll/Tree) states what their library says of them.
-- A call's object lies in the queue of events by a cast, its members `type` and `done` under the
-- queue's link `next`, its mutex under the link `prev`: they are read from and written to those
-- links, as a 64-bit machine that stores the low octet first has them. What `lock` and `unlock` do
-- to the first eight octets of a mutex are fields of `System`; `LockWaits` (SynApi/Serve) states
-- what their library says of a mutex that is held.
--
-- Walks through lists and trees, waits and the queue of events run for at most `System.rounds`
-- rounds, and end in a fault beyond; their theorems take a list that is shorter than that, or fewer
-- wakes, which is enough to come to the end. `xy_syn_send` has a round for each octet and one more,
-- which is proved to be enough. The other loops have a number of rounds that the code fixes.
--
-- The set-up of Main/Setup writes down the calls of DPDK in the order in which they are made; what
-- they return is a function of the calls so far. RingBuffer/Interleaved has a schedule, a list of
-- turns of its two threads, each turn one load or store.
--
-- Not modelled: the locks and the condition variables, since the operations are taken one after
-- another, but for the mutex of a call, the schedules of RingBuffer/Interleaved and the race of
-- Mpmc/Race; the memory order of atomics, whose accesses are in program order; what is printed;
-- that a buffer's list node overlays its headers, and the mutex of the queue's node the condition
-- variable of a call, which are kept apart here; where IP options put the TCP header; and ready_num,
-- rb_num and the sizes of a poll below 0. network/include/xy_rbtree.h is a copy of the BSD tree
-- macros. The test programs are clients of the library.
pub mod Prelude
pub mod XyList
pub mod Port
pub mod Wnd
pub mod Packet
pub mod Socket
pub mod World
pub mod Net
pub mod Socks
pub mod Manage
pub mod Epoll
pub mod WndHdl
pub mod Tcp
pub mod Recv
pub mod SendBuf
pub mod RingBuffer
pub mod Mpmc
pub mod SynApi
pub mod SynSocks
pub mod Api
pub mod Main
pub mod Tests
