-- ===== src/Tests/Queues.antt =====
-- The table of ports at small inputs.
use dpdk_tcp.Prelude.{◌<◌, ◌≡◌, arith, [], ◌∷◌, minus_one}
use dpdk_tcp.Port.{port_register, port_flag_index, ports_occupied_space}
use dpdk_tcp.Port.Groups.{register_all, port_register-groups}

-- Port 81 is refused because 80, of the same group, was registered.
port_register-groups_example :
    ((port_register 81 (register_all (80 ∷ []))).0 ≡ minus_one)
    × (port_flag_index 81 < ports_occupied_space)
port_register-groups_example = port_register-groups 81 (80 ∷ []) (omega arith) (omega arith, tt)
