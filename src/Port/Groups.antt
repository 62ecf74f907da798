-- ===== src/Port/Groups.antt =====
-- What `port_register` of network/include/xy_tcp_port.h tells apart: groups of eight ports.
use dpdk_tcp.Prelude.{
  ℕ, ◌/◌, ◌%◌, ◌<◌, ◌≡◌, refl, List, [], ◌∷◌, pos, minus_one, if◌then◌else◌, Bool, true, false,
  arith, has,
}
use dpdk_tcp.Port.{
  PortsOccupied, port_register, port_flag_index, port_index_mask, ports_occupied_space, xy_max_tcp,
}

-- `xy_ports_occupied` as the program starts
abbrev pub zeroed : PortsOccupied
zeroed i = 0

-- The array after the calls of `port_register` for the listed ports, the last one first.
unfoldable pub register_all : List ℕ → PortsOccupied
register_all [] = zeroed
register_all (p ∷ ps) = (port_register p (register_all ps)).1

-- The group of eight that a port falls in.
abbrev pub group : ℕ → ℕ
group p = p / 8

abbrev pub groups : List ℕ → List ℕ
groups [] = []
groups (p ∷ ps) = group p ∷ groups ps

mask-eq-one : (p : ℕ) → port_index_mask p ≡ 1
unfolding port_index_mask
mask-eq-one p = let e : p % 1 ≡ 0 = omega arith in rw e refl

abbrev flag_of : Bool → ℕ
flag_of true = 1
flag_of false = 0

abbrev pub AllLow : List ℕ → Type 0
AllLow [] = Unit
AllLow (p ∷ ps) = (p < xy_max_tcp) × AllLow ps

register_all-flag :
    (ps : List ℕ) (i : ℕ) → AllLow ps → register_all ps i ≡ flag_of (has i (groups ps))
unfolding register_all port_register port_flag_index
register_all-flag [] i low = refl
register_all-flag (p ∷ ps) i low =
    ground (arith, mask-eq-one p, register_all-flag ps i, register_all-flag ps (p / 8))

-- After any calls for other ports, each below 65536, `port_register` refuses a port exactly when a
-- port of the same group of eight was asked for before, and it writes inside the array.
pub port_register-groups :
    (p : ℕ) (ps : List ℕ)
    → p < xy_max_tcp
    → AllLow ps
    → ((port_register p (register_all ps)).0
        ≡ (if has (group p) (groups ps) then minus_one else pos 0))
      × (port_flag_index p < ports_occupied_space)
unfolding port_register port_flag_index
port_register-groups p ps h low = ground (arith, mask-eq-one p, register_all-flag ps (p / 8))
