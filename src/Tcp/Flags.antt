-- ===== src/Tcp/Flags.antt =====
-- The control bits of a segment (DPDK's rte_tcp.h).
use dpdk_tcp.Prelude.{ℕ, Bool, bit_and, ◌==◌, not}

abbrev pub fin_flag : ℕ
fin_flag = 0x01

abbrev pub syn_flag : ℕ
syn_flag = 0x02

abbrev pub rst_flag : ℕ
rst_flag = 0x04

abbrev pub ack_flag : ℕ
ack_flag = 0x10

abbrev pub urg_flag : ℕ
urg_flag = 0x20

-- `tcp_flags & mask`, as a condition
unfoldable pub has_flag : ℕ → ℕ → Bool
has_flag tcp_flags mask = not (bit_and tcp_flags mask == 0)
