-- ===== src/Command/Size.antt =====
-- `commandSizes` and `protocol_command_size` of src/protocol.cpp, with the sizes of the packed
-- structures of include/enetcpp/protocol.h. A read past the table is `none`.
use enetcpp.Base.{ℕ, Option, List, [], ◌∷◌, get_elem?, ◌+◌}
use enetcpp.Command.{command_mask}

-- `sizeof` of the structures that the code names.
abbrev pub protocol_header : ℕ
protocol_header = 4

abbrev pub command_header : ℕ
command_header = 4

abbrev pub acknowledge : ℕ
acknowledge = command_header + 4

abbrev pub connect : ℕ
connect = command_header + 44

abbrev pub verify_connect : ℕ
verify_connect = command_header + 40

abbrev pub disconnect : ℕ
disconnect = command_header + 4

abbrev pub ping : ℕ
ping = command_header

abbrev pub send_reliable : ℕ
send_reliable = command_header + 2

abbrev pub send_unreliable : ℕ
send_unreliable = command_header + 4

abbrev pub send_unsequenced : ℕ
send_unsequenced = command_header + 4

abbrev pub send_fragment : ℕ
send_fragment = command_header + 20

abbrev pub bandwidth_limit : ℕ
bandwidth_limit = command_header + 8

abbrev pub throttle_configure : ℕ
throttle_configure = command_header + 12

abbrev pub command_sizes : List ℕ
command_sizes =
    0 ∷ acknowledge ∷ connect ∷ verify_connect ∷ disconnect ∷ ping ∷ send_reliable ∷ send_unreliable
    ∷ send_fragment ∷ send_unsequenced ∷ bandwidth_limit ∷ throttle_configure ∷ send_fragment ∷ []

unfoldable pub protocol_command_size : ℕ → Option ℕ
protocol_command_size command = get_elem? command_sizes (command_mask command)
