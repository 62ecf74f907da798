-- ===== src/Tcp/Graph.antt =====
-- Which state a segment can leave a connection in (network/include/xy_tcp_state_others.h).
pub mod Keep
pub mod Calls
pub mod Edges
pub mod Rank
pub mod Frame
pub mod Ack
pub mod Fin
pub mod Moves
pub mod Aside
