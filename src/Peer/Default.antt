-- ===== src/Peer/Default.antt =====
-- include/enetcpp/enetcpp.h: the constants of a peer.
use enetcpp.Base.{ℕ}

abbrev pub default_round_trip_time : ℕ
default_round_trip_time = 500

abbrev pub default_packet_throttle : ℕ
default_packet_throttle = 32

abbrev pub packet_throttle_scale : ℕ
packet_throttle_scale = 32

abbrev pub packet_throttle_counter : ℕ
packet_throttle_counter = 7

abbrev pub packet_throttle_acceleration : ℕ
packet_throttle_acceleration = 2

abbrev pub packet_throttle_deceleration : ℕ
packet_throttle_deceleration = 2

abbrev pub packet_throttle_interval : ℕ
packet_throttle_interval = 5000

abbrev pub packet_loss_scale : ℕ
packet_loss_scale = 65536

abbrev pub packet_loss_interval : ℕ
packet_loss_interval = 10000

abbrev pub window_size_scale : ℕ
window_size_scale = 65536

abbrev pub timeout_limit : ℕ
timeout_limit = 32

abbrev pub timeout_minimum : ℕ
timeout_minimum = 5000

abbrev pub timeout_maximum : ℕ
timeout_maximum = 30000

abbrev pub ping_interval : ℕ
ping_interval = 500

abbrev pub unsequenced_window_size : ℕ
unsequenced_window_size = 1024

abbrev pub free_unsequenced_windows : ℕ
free_unsequenced_windows = 32

abbrev pub reliable_windows : ℕ
reliable_windows = 16

abbrev pub reliable_window_size : ℕ
reliable_window_size = 4096

abbrev pub free_reliable_windows : ℕ
free_reliable_windows = 8
