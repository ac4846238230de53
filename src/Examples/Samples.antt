-- ===== src/Examples/Samples.antt =====
-- A host with a peer that is connected, and what is in its queues.
use enetcpp.Base.{
  ℕ, true, false, none, some, [], ◌∷◌, replicate, length-replicate, Option, ◌==◌, if◌then◌else◌,
}
use enetcpp.Command.{
  CommandHeader, SendFragment, Connect, Disconnect, BandwidthLimit, Protocol, send_reliable,
  acknowledged,
}
use enetcpp.Command.Number
use enetcpp.Memory.{Allocator}
use enetcpp.Packet.{Packet}
use enetcpp.Packet.Store.{Store}
use enetcpp.Peer.{Peer, Channel, IncomingCommand, OutgoingCommand, RoundTrip, PacketThrottle}
use enetcpp.Peer.State
use enetcpp.Host.{Host, Conn, World}

abbrev pub plenty : Allocator
plenty = record {
  succeeds = λ _. true;
  contents = λ n. replicate n 0;
  length_contents = λ n. length-replicate n 0;
}

abbrev pub header_of : ℕ → ℕ → CommandHeader
header_of command number = record {
  command = command;
  channel_id = 0;
  reliable_sequence_number = number;
}

abbrev pub reliable_command : ℕ → Protocol
reliable_command number =
    send_reliable
      (record { header = header_of (acknowledged Number.send_reliable) number; data_length = 3 })

abbrev pub incoming : ℕ → Option ℕ → IncomingCommand
incoming number packet = record {
  address = number;
  reliable_sequence_number = number;
  unreliable_sequence_number = 0;
  command = reliable_command number;
  fragment_count = 0;
  fragments_remaining = 0;
  fragments = none;
  packet = packet;
}

abbrev pub outgoing : ℕ → Option ℕ → OutgoingCommand
outgoing number packet = record {
  reliable_sequence_number = number;
  unreliable_sequence_number = 0;
  sent_time = 10;
  round_trip_timeout = 500;
  queue_time = 1;
  fragment_offset = 0;
  fragment_length = 3;
  send_attempts = 1;
  command = reliable_command number;
  packet = packet;
}

-- The channel has received 3, and 4, 5 and 7 are in its queue.
abbrev pub channel : Channel
channel = record {
  outgoing_reliable_sequence_number = 9;
  outgoing_unreliable_sequence_number = 0;
  used_reliable_windows = λ _. false;
  reliable_windows = λ _. 0;
  incoming_reliable_sequence_number = 3;
  incoming_unreliable_sequence_number = 0;
  incoming_reliable_commands = incoming 4 none ∷ incoming 5 none ∷ incoming 7 none ∷ [];
  incoming_unreliable_commands = [];
}

abbrev pub round_trip : RoundTrip
round_trip = record {
  last_round_trip_time = 100;
  lowest_round_trip_time = 90;
  last_round_trip_time_variance = 10;
  highest_round_trip_time_variance = 10;
  round_trip_time = 100;
  round_trip_time_variance = 10;
}

abbrev pub throttle : PacketThrottle
throttle = record {
  packet_throttle = 30;
  packet_throttle_limit = 32;
  packet_throttle_counter = 0;
  packet_throttle_epoch = 0;
  packet_throttle_acceleration = 2;
  packet_throttle_deceleration = 2;
  packet_throttle_interval = 5000;
}

-- One packet at address 5, which a sent command and a dispatched one refer to.
abbrev pub message : Packet
message = record { reference_count = 2; flags = 1; bytes = some (1 ∷ 2 ∷ 3 ∷ []); data_length = 3 }

abbrev pub messages : Store
messages a = if a == 5 then some message else none

abbrev pub peer : Peer
peer = record {
  outgoing_peer_id = 0;
  incoming_peer_id = 0;
  connect_id = 77;
  outgoing_session_id = 0;
  incoming_session_id = 0;
  address = record { host = 1; port = 2 };
  state = State.connected;
  channels = channel ∷ [];
  channel_count = 1;
  bandwidth = record {
    incoming_bandwidth = 1000;
    outgoing_bandwidth = 0;
    incoming_bandwidth_throttle_epoch = 0;
    outgoing_bandwidth_throttle_epoch = 0;
    incoming_data_total = 0;
    outgoing_data_total = 0;
  };
  timing = record {
    last_send_time = 0;
    last_receive_time = 0;
    next_timeout = 0;
    earliest_timeout = 0;
    ping_interval = 500;
    timeout_limit = 32;
    timeout_minimum = 5000;
    timeout_maximum = 30000;
  };
  loss = record {
    packet_loss_epoch = 0;
    packets_sent = 0;
    packets_lost = 0;
    packet_loss = 0;
    packet_loss_variance = 0;
  };
  throttle = throttle;
  round_trip = round_trip;
  mtu = 1400;
  window_size = 65536;
  reliable_data_in_transit = 3;
  outgoing_reliable_sequence_number = 0;
  queues = record {
    acknowledgements = [];
    sent_reliable_commands = outgoing 9 (some 5) ∷ [];
    outgoing_send_reliable_commands = [];
    outgoing_commands = [];
    dispatched_commands = incoming 3 (some 5) ∷ [];
  };
  needs_dispatch = true;
  continue_sending = false;
  incoming_unsequenced_group = 0;
  outgoing_unsequenced_group = 0;
  unsequenced_window = λ _. false;
  event_data = 0;
  total_waiting_data = 3;
}

abbrev pub host : Host
host = record {
  incoming_bandwidth = 0;
  outgoing_bandwidth = 0;
  bandwidth_throttle_epoch = 0;
  mtu = 1400;
  random_seed = 1;
  recalculate_bandwidth_limits = false;
  channel_limit = 255;
  service_time = 1000;
  dispatch_queue = 0 ∷ [];
  dispatch_damaged = false;
  total_queued = 0;
  has_checksum = false;
  received_address = record { host = 8; port = 9 };
  received_data = [];
  connected_peers = 1;
  bandwidth_limited_peers = 1;
  duplicate_peers = 4095;
  maximum_packet_size = 33554432;
  maximum_waiting_data = 33554432;
  packets = messages;
  next_packet = 6;
  next_command = 8;
}

abbrev pub conn : Conn
conn = record { host = host; peer = peer }

-- A second peer, which is free.
abbrev pub world : World
world = record { host = host; peers = peer ∷ (record peer { state = State.disconnected }) ∷ [] }

abbrev pub asking : Connect
asking = record {
  header = header_of 130 1;
  outgoing_peer_id = 4;
  incoming_session_id = 255;
  outgoing_session_id = 255;
  mtu = 1200;
  window_size = 65536;
  channel_count = 2;
  incoming_bandwidth = 0;
  outgoing_bandwidth = 0;
  packet_throttle_interval = 5000;
  packet_throttle_acceleration = 2;
  packet_throttle_deceleration = 2;
  connect_id = 99;
  user_data = 0;
}

abbrev pub leaving : Disconnect
leaving = record { header = header_of 132 2; user_data = 7 }

abbrev pub limiting : BandwidthLimit
limiting = record { header = header_of 138 2; incoming_bandwidth = 0; outgoing_bandwidth = 500 }

-- The second of three fragments of a packet of five bytes.
abbrev pub fragment : SendFragment
fragment = record {
  header = header_of 136 5;
  start_sequence_number = 4;
  data_length = 2;
  fragment_count = 3;
  fragment_number = 1;
  total_length = 5;
  fragment_offset = 2;
}
