-- ===== src/Command.antt =====
-- include/enetcpp/protocol.h: the commands of the protocol.
-- A field of 16 or 32 bits is the number that it stands for: each is put into network order once,
-- where a command is made, and taken out of it once, where a command is handled, by functions of
-- the platform. The union `Protocol` is a data type with a constructor for each of its members.
pub mod Number
pub mod Limits
pub mod Size
pub mod Bytes
use enetcpp.Base.{ℕ, ◌+◌, ◌%◌, Bool, has_bit}

-- `command & PROTOCOL_COMMAND_MASK`
abbrev pub command_mask : ℕ → ℕ
command_mask c = c % 16

-- `command & PROTOCOL_COMMAND_FLAG_ACKNOWLEDGE` and `… & PROTOCOL_COMMAND_FLAG_UNSEQUENCED`
abbrev pub flag_acknowledge : ℕ → Bool
flag_acknowledge c = has_bit 128 c

abbrev pub flag_unsequenced : ℕ → Bool
flag_unsequenced c = has_bit 64 c

-- The flags as they are joined to a number by `|`, for a number below 16.
abbrev pub acknowledged : ℕ → ℕ
acknowledged number = number + 128

abbrev pub unsequenced : ℕ → ℕ
unsequenced number = number + 64

pub record CommandHeader : Type 0 where
  pub command : ℕ
  pub channel_id : ℕ
  pub reliable_sequence_number : ℕ

pub record Acknowledge : Type 0 where
  pub header : CommandHeader
  pub received_reliable_sequence_number : ℕ
  pub received_sent_time : ℕ

pub record Connect : Type 0 where
  pub header : CommandHeader
  pub outgoing_peer_id : ℕ
  pub incoming_session_id : ℕ
  pub outgoing_session_id : ℕ
  pub mtu : ℕ
  pub window_size : ℕ
  pub channel_count : ℕ
  pub incoming_bandwidth : ℕ
  pub outgoing_bandwidth : ℕ
  pub packet_throttle_interval : ℕ
  pub packet_throttle_acceleration : ℕ
  pub packet_throttle_deceleration : ℕ
  pub connect_id : ℕ
  pub user_data : ℕ

pub record VerifyConnect : Type 0 where
  pub header : CommandHeader
  pub outgoing_peer_id : ℕ
  pub incoming_session_id : ℕ
  pub outgoing_session_id : ℕ
  pub mtu : ℕ
  pub window_size : ℕ
  pub channel_count : ℕ
  pub incoming_bandwidth : ℕ
  pub outgoing_bandwidth : ℕ
  pub packet_throttle_interval : ℕ
  pub packet_throttle_acceleration : ℕ
  pub packet_throttle_deceleration : ℕ
  pub connect_id : ℕ

pub record BandwidthLimit : Type 0 where
  pub header : CommandHeader
  pub incoming_bandwidth : ℕ
  pub outgoing_bandwidth : ℕ

pub record ThrottleConfigure : Type 0 where
  pub header : CommandHeader
  pub packet_throttle_interval : ℕ
  pub packet_throttle_acceleration : ℕ
  pub packet_throttle_deceleration : ℕ

pub record Disconnect : Type 0 where
  pub header : CommandHeader
  pub user_data : ℕ

pub record Ping : Type 0 where
  pub header : CommandHeader

pub record SendReliable : Type 0 where
  pub header : CommandHeader
  pub data_length : ℕ

pub record SendUnreliable : Type 0 where
  pub header : CommandHeader
  pub unreliable_sequence_number : ℕ
  pub data_length : ℕ

pub record SendUnsequenced : Type 0 where
  pub header : CommandHeader
  pub unsequenced_group : ℕ
  pub data_length : ℕ

pub record SendFragment : Type 0 where
  pub header : CommandHeader
  pub start_sequence_number : ℕ
  pub data_length : ℕ
  pub fragment_count : ℕ
  pub fragment_number : ℕ
  pub total_length : ℕ
  pub fragment_offset : ℕ

-- `union Protocol`. The two kinds of fragment share a member, and are told apart by the number.
pub data Protocol : Type 0 where
  acknowledge : Acknowledge → Protocol
  connect : Connect → Protocol
  verify_connect : VerifyConnect → Protocol
  bandwidth_limit : BandwidthLimit → Protocol
  throttle_configure : ThrottleConfigure → Protocol
  disconnect : Disconnect → Protocol
  ping : Ping → Protocol
  send_reliable : SendReliable → Protocol
  send_unreliable : SendUnreliable → Protocol
  send_unsequenced : SendUnsequenced → Protocol
  send_fragment : SendFragment → Protocol

-- `header` is the common first member.
abbrev pub header : Protocol → CommandHeader
header (acknowledge c) = c.header
header (connect c) = c.header
header (verify_connect c) = c.header
header (bandwidth_limit c) = c.header
header (throttle_configure c) = c.header
header (disconnect c) = c.header
header (ping c) = c.header
header (send_reliable c) = c.header
header (send_unreliable c) = c.header
header (send_unsequenced c) = c.header
header (send_fragment c) = c.header

-- An assignment to `command.header.reliableSequenceNumber`.
abbrev pub numbered : ℕ → CommandHeader → CommandHeader
numbered n h = record h { reliable_sequence_number = n }

abbrev pub set_reliable_sequence_number : ℕ → Protocol → Protocol
set_reliable_sequence_number n (acknowledge c) =
    acknowledge (record c { header = numbered n c.header })
set_reliable_sequence_number n (connect c) = connect (record c { header = numbered n c.header })
set_reliable_sequence_number n (verify_connect c) =
    verify_connect (record c { header = numbered n c.header })
set_reliable_sequence_number n (bandwidth_limit c) =
    bandwidth_limit (record c { header = numbered n c.header })
set_reliable_sequence_number n (throttle_configure c) =
    throttle_configure (record c { header = numbered n c.header })
set_reliable_sequence_number n (disconnect c) =
    disconnect (record c { header = numbered n c.header })
set_reliable_sequence_number n (ping c) = ping (record c { header = numbered n c.header })
set_reliable_sequence_number n (send_reliable c) =
    send_reliable (record c { header = numbered n c.header })
set_reliable_sequence_number n (send_unreliable c) =
    send_unreliable (record c { header = numbered n c.header })
set_reliable_sequence_number n (send_unsequenced c) =
    send_unsequenced (record c { header = numbered n c.header })
set_reliable_sequence_number n (send_fragment c) =
    send_fragment (record c { header = numbered n c.header })

-- An assignment to `command.sendUnreliable.unreliableSequenceNumber`, made for that member only.
abbrev pub set_unreliable_sequence_number : ℕ → Protocol → Protocol
set_unreliable_sequence_number n (send_unreliable c) =
    send_unreliable (record c { unreliable_sequence_number = n })
set_unreliable_sequence_number n p = p

-- An assignment to `command.sendUnsequenced.unsequencedGroup`, made for that member only.
abbrev pub set_unsequenced_group : ℕ → Protocol → Protocol
set_unsequenced_group n (send_unsequenced c) = send_unsequenced (record c { unsequenced_group = n })
set_unsequenced_group n p = p

-- A read of `command->sendUnreliable.unreliableSequenceNumber`: for a fragment these bytes are its
-- `startSequenceNumber`. It is read for these two members only.
abbrev pub unreliable_sequence_number : Protocol → ℕ
unreliable_sequence_number (send_unreliable c) = c.unreliable_sequence_number
unreliable_sequence_number (send_fragment c) = c.start_sequence_number
unreliable_sequence_number p = 0
