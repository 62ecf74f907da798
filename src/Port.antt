-- ===== src/Port.antt =====
-- network/include/xy_tcp_port.h: which TCP ports are taken.
pub mod Groups
use dpdk_tcp.Prelude.{
  ℕ, ◌+◌, ◌*◌, ◌/◌, ◌%◌, ◌^◌, bit_and, bit_or, ℤ, pos, minus_one, u8, u16, update, ◌==◌,
  if◌then◌else◌,
}

-- `sizeof(port_flag_t)`, where `port_flag_t` is `uint8_t`
abbrev pub sizeof_port_flag_t : ℕ
sizeof_port_flag_t = 1

abbrev pub xy_max_tcp : ℕ
xy_max_tcp = 2 ^ 16

abbrev pub ports_occupied_space : ℕ
ports_occupied_space = xy_max_tcp / (8 * sizeof_port_flag_t)

-- `xy_ports_occupied`, as a function of the index
abbrev pub PortsOccupied : Type 0
PortsOccupied = ℕ → ℕ

unfoldable pub port_flag_index : ℕ → ℕ
port_flag_index port = u16 (port / (8 * sizeof_port_flag_t))

unfoldable pub port_index_mask : ℕ → ℕ
port_index_mask port = u8 (2 ^ u8 (port % sizeof_port_flag_t))

unfoldable pub port_register : ℕ → PortsOccupied → ℤ × PortsOccupied
unfolding port_flag_index port_index_mask
port_register port occupied =
    let index = port_flag_index port in
    let mask = port_index_mask port in
    if bit_and (occupied index) mask == 0
    then (pos 0, update occupied index (u8 (bit_or (occupied index) mask)))
    else (minus_one, occupied)
