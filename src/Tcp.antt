-- ===== src/Tcp.antt =====
-- The state machine of a connection: a module for each header network/include/xy_tcp_state_*.h.
mod Flags
pub mod Graph
pub mod Close
pub mod Listen
pub mod SynSent
pub mod Others
unfoldable pub use Flags.*
