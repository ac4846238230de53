-- ===== src/Command/Limits.antt =====
-- include/enetcpp/protocol.h: the limits of the protocol.
use enetcpp.Base.{ℕ}

abbrev pub minimum_mtu : ℕ
minimum_mtu = 576

abbrev pub maximum_mtu : ℕ
maximum_mtu = 4096

abbrev pub maximum_packet_commands : ℕ
maximum_packet_commands = 32

abbrev pub minimum_window_size : ℕ
minimum_window_size = 4096

abbrev pub maximum_window_size : ℕ
maximum_window_size = 65536

abbrev pub minimum_channel_count : ℕ
minimum_channel_count = 1

abbrev pub maximum_channel_count : ℕ
maximum_channel_count = 255

abbrev pub maximum_peer_id : ℕ
maximum_peer_id = 4095

abbrev pub maximum_fragment_count : ℕ
maximum_fragment_count = 1048576
