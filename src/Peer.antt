-- ===== src/Peer.antt =====
-- include/enetcpp/enetcpp.h: the records of a peer. A `List` of the source is the list of its
-- elements, from `list_begin` on; a bit set in an array of 32-bit words is indexed by its bits.
-- The fields of `Peer` are grouped; `enum PeerFlag` is its two flags.
pub mod State
pub mod Default
pub mod Throttle
pub mod Window
pub mod Connection
pub mod Outgoing
pub mod Send
pub mod Acknowledge
pub mod Dispatch
pub mod Incoming
pub mod Reset
pub mod Receive
pub mod Disconnect
pub mod Counters
pub mod References
use enetcpp.Base.{ℕ, Bool, List, Option}
use enetcpp.Command.{Protocol}
use State.{PeerState}

pub record Address : Type 0 where
  pub host : ℕ
  pub port : ℕ

pub record Acknowledgement : Type 0 where
  pub sent_time : ℕ
  pub command : Protocol

-- `packet` is the address of a packet of the host's store.
pub record OutgoingCommand : Type 0 where
  pub reliable_sequence_number : ℕ
  pub unreliable_sequence_number : ℕ
  pub sent_time : ℕ
  pub round_trip_timeout : ℕ
  pub queue_time : ℕ
  pub fragment_offset : ℕ
  pub fragment_length : ℕ
  pub send_attempts : ℕ
  pub command : Protocol
  pub packet : Option ℕ

-- `address` is where the command was allocated; `fragments` has 32 bits for each word.
pub record IncomingCommand : Type 0 where
  pub address : ℕ
  pub reliable_sequence_number : ℕ
  pub unreliable_sequence_number : ℕ
  pub command : Protocol
  pub fragment_count : ℕ
  pub fragments_remaining : ℕ
  pub fragments : Option (List Bool)
  pub packet : Option ℕ

-- `used_reliable_windows` is indexed by its bits.
pub record Channel : Type 0 where
  pub outgoing_reliable_sequence_number : ℕ
  pub outgoing_unreliable_sequence_number : ℕ
  pub used_reliable_windows : ℕ → Bool
  pub reliable_windows : ℕ → ℕ
  pub incoming_reliable_sequence_number : ℕ
  pub incoming_unreliable_sequence_number : ℕ
  pub incoming_reliable_commands : List IncomingCommand
  pub incoming_unreliable_commands : List IncomingCommand

pub record Bandwidth : Type 0 where
  pub incoming_bandwidth : ℕ
  pub outgoing_bandwidth : ℕ
  pub incoming_bandwidth_throttle_epoch : ℕ
  pub outgoing_bandwidth_throttle_epoch : ℕ
  pub incoming_data_total : ℕ
  pub outgoing_data_total : ℕ

pub record Timing : Type 0 where
  pub last_send_time : ℕ
  pub last_receive_time : ℕ
  pub next_timeout : ℕ
  pub earliest_timeout : ℕ
  pub ping_interval : ℕ
  pub timeout_limit : ℕ
  pub timeout_minimum : ℕ
  pub timeout_maximum : ℕ

pub record Loss : Type 0 where
  pub packet_loss_epoch : ℕ
  pub packets_sent : ℕ
  pub packets_lost : ℕ
  pub packet_loss : ℕ
  pub packet_loss_variance : ℕ

pub record PacketThrottle : Type 0 where
  pub packet_throttle : ℕ
  pub packet_throttle_limit : ℕ
  pub packet_throttle_counter : ℕ
  pub packet_throttle_epoch : ℕ
  pub packet_throttle_acceleration : ℕ
  pub packet_throttle_deceleration : ℕ
  pub packet_throttle_interval : ℕ

pub record RoundTrip : Type 0 where
  pub last_round_trip_time : ℕ
  pub lowest_round_trip_time : ℕ
  pub last_round_trip_time_variance : ℕ
  pub highest_round_trip_time_variance : ℕ
  pub round_trip_time : ℕ
  pub round_trip_time_variance : ℕ

pub record Queues : Type 0 where
  pub acknowledgements : List Acknowledgement
  pub sent_reliable_commands : List OutgoingCommand
  pub outgoing_send_reliable_commands : List OutgoingCommand
  pub outgoing_commands : List OutgoingCommand
  pub dispatched_commands : List IncomingCommand

pub record Peer : Type 0 where
  pub outgoing_peer_id : ℕ
  pub incoming_peer_id : ℕ
  pub connect_id : ℕ
  pub outgoing_session_id : ℕ
  pub incoming_session_id : ℕ
  pub address : Address
  pub state : PeerState
  pub channels : List Channel
  pub channel_count : ℕ
  pub bandwidth : Bandwidth
  pub timing : Timing
  pub loss : Loss
  pub throttle : PacketThrottle
  pub round_trip : RoundTrip
  pub mtu : ℕ
  pub window_size : ℕ
  pub reliable_data_in_transit : ℕ
  pub outgoing_reliable_sequence_number : ℕ
  pub queues : Queues
  pub needs_dispatch : Bool
  pub continue_sending : Bool
  pub incoming_unsequenced_group : ℕ
  pub outgoing_unsequenced_group : ℕ
  pub unsequenced_window : ℕ → Bool
  pub event_data : ℕ
  pub total_waiting_data : ℕ
