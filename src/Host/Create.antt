-- ===== src/Host/Create.antt =====
-- src/host.cpp, `host_create`. What a call acquires and gives back is a list of effects; the socket,
-- the allocator and `host_random_seed` are parameters.
pub mod Fresh
pub mod Balance
use enetcpp.Base.{
  Bool, List, Option, [], add32, bit_or, false, if◌then◌else◌, ltb, none, not, some, suc, wrap16,
  wrap32, zero, ◌*◌, ◌++◌, ◌+◌, ◌/◌, ◌^◌, ◌||◌, ◌∷◌, ℕ,
}
use enetcpp.Command.Limits.{maximum_peer_id}
use enetcpp.Memory.{Allocator, host_block, peer_blocks}
use enetcpp.Packet.Store.{Store}
use enetcpp.Peer.{Peer, Address}
use enetcpp.Peer.Default
use enetcpp.Peer.State
use enetcpp.Peer.Reset.{no_commands, peer_reset}
use enetcpp.Host.{Host, World}
use enetcpp.Host.Configure.{limited}

abbrev pub default_mtu : ℕ
default_mtu = 1392

abbrev pub default_maximum_packet_size : ℕ
default_maximum_packet_size = 33554432

abbrev pub default_maximum_waiting_data : ℕ
default_maximum_waiting_data = 33554432

abbrev pub receive_buffer_size : ℕ
receive_buffer_size = 262144

abbrev pub send_buffer_size : ℕ
send_buffer_size = 262144

pub data Resource : Type 0 where
  host_memory peers_memory open_socket : Resource

pub data SocketOption : Type 0 where
  nonblock broadcast receive_buffer send_buffer : SocketOption

pub data Effect : Type 0 where
  acquired released : Resource → Effect
  set_option : SocketOption → ℕ → Effect

-- What the calls outside return: the address at which the host is allocated, the seed, whether a
-- socket is opened and bound, and the address that the socket reports. The packets that are alive are
-- those of the program, and there are some before the host.
pub record Platform : Type 0 where
  pub location : ℕ
  pub seed : ℕ
  pub opens : Bool
  pub binds : Address → Bool
  pub bound_address : Option Address
  pub packets : Store
  pub next_packet : ℕ
  pub next_command : ℕ

-- `peers` after `memset`, with the assignments of the loop before `peer_reset`.
unfoldable pub blank : ℕ → Peer
blank i = record {
  outgoing_peer_id = 0;
  incoming_peer_id = wrap16 i;
  connect_id = 0;
  outgoing_session_id = 0xFF;
  incoming_session_id = 0xFF;
  address = record { host = 0; port = 0 };
  state = State.disconnected;
  channels = [];
  channel_count = 0;
  bandwidth = record {
    incoming_bandwidth = 0;
    outgoing_bandwidth = 0;
    incoming_bandwidth_throttle_epoch = 0;
    outgoing_bandwidth_throttle_epoch = 0;
    incoming_data_total = 0;
    outgoing_data_total = 0;
  };
  timing = record {
    last_send_time = 0;
    last_receive_time = 0;
    next_timeout = 0;
    earliest_timeout = 0;
    ping_interval = 0;
    timeout_limit = 0;
    timeout_minimum = 0;
    timeout_maximum = 0;
  };
  loss = record {
    packet_loss_epoch = 0;
    packets_sent = 0;
    packets_lost = 0;
    packet_loss = 0;
    packet_loss_variance = 0;
  };
  throttle = record {
    packet_throttle = 0;
    packet_throttle_limit = 0;
    packet_throttle_counter = 0;
    packet_throttle_epoch = 0;
    packet_throttle_acceleration = 0;
    packet_throttle_deceleration = 0;
    packet_throttle_interval = 0;
  };
  round_trip = record {
    last_round_trip_time = 0;
    lowest_round_trip_time = 0;
    last_round_trip_time_variance = 0;
    highest_round_trip_time_variance = 0;
    round_trip_time = 0;
    round_trip_time_variance = 0;
  };
  mtu = 0;
  window_size = 0;
  reliable_data_in_transit = 0;
  outgoing_reliable_sequence_number = 0;
  queues = no_commands;
  needs_dispatch = false;
  continue_sending = false;
  incoming_unsequenced_group = 0;
  outgoing_unsequenced_group = 0;
  unsequenced_window = λ _. false;
  event_data = 0;
  total_waiting_data = 0;
}

-- The loop over the peers, from the peer at an index on.
unfoldable pub reset_blank : Host → ℕ → ℕ → World
unfolding blank peer_reset
reset_blank h i zero = record { host = h; peers = [] }
reset_blank h i (suc n) =
    let c = peer_reset (record { host = h; peer = blank i }) in
    let rest = reset_blank c.host (i + 1) n in
    record { host = rest.host; peers = c.peer ∷ rest.peers }

-- `randomSeed`: the halves of the sum change places.
unfoldable pub initial_seed : ℕ → ℕ → ℕ
initial_seed location seed =
    let n = add32 (wrap32 location) (wrap32 seed) in bit_or (wrap32 (n * 2 ^ 16)) (n / 2 ^ 16)

unfoldable pub initial_host : Platform → ℕ → ℕ → ℕ → Host
unfolding initial_seed limited
initial_host platform channel_limit incoming outgoing = record {
  incoming_bandwidth = incoming;
  outgoing_bandwidth = outgoing;
  bandwidth_throttle_epoch = 0;
  mtu = default_mtu;
  random_seed = initial_seed platform.location platform.seed;
  recalculate_bandwidth_limits = false;
  channel_limit = limited channel_limit;
  service_time = 0;
  dispatch_queue = [];
  dispatch_damaged = false;
  total_queued = 0;
  has_checksum = false;
  received_address = record { host = 0; port = 0 };
  received_data = [];
  connected_peers = 0;
  bandwidth_limited_peers = 0;
  duplicate_peers = maximum_peer_id;
  maximum_packet_size = default_maximum_packet_size;
  maximum_waiting_data = default_maximum_waiting_data;
  packets = platform.packets;
  next_packet = platform.next_packet;
  next_command = platform.next_command;
}

-- `host->address`: what the socket reports, or else the address that was asked for.
unfoldable pub own_address : Platform → Option Address → Option Address
own_address platform none = none
own_address platform (some a) = elim platform.bound_address [ none ↦ some a | some b ↦ some b ]

-- `address != nullptr && socket_bind(…) < 0`
abbrev pub bind_fails : Platform → Option Address → Bool
bind_fails platform none = false
bind_fails platform (some a) = not (platform.binds a)

abbrev pub options : List Effect
options =
    set_option nonblock 1
    ∷ set_option broadcast 1
    ∷ set_option receive_buffer receive_buffer_size
    ∷ set_option send_buffer send_buffer_size
    ∷ []

-- What `host_create` did, with the host that it returns and its address.
pub record Created : Type 0 where
  pub effects : List Effect
  pub world : Option World
  pub address : Option Address

abbrev pub refused : List Effect → Created
refused effects = record { effects = effects; world = none; address = none }

unfoldable pub host_create : Allocator → Platform → Option Address → ℕ → ℕ → ℕ → ℕ → Created
unfolding initial_host own_address reset_blank
host_create malloc platform address peer_count channel_limit incoming outgoing =
    if ltb maximum_peer_id peer_count
    then refused []
    else if not (malloc.succeeds host_block)
    then refused []
    else if not (malloc.succeeds peer_blocks)
    then refused (acquired host_memory ∷ released host_memory ∷ [])
    else if not platform.opens || bind_fails platform address
    then refused (
        acquired host_memory
        ∷ acquired peers_memory
        ∷ ((if platform.opens then acquired open_socket ∷ released open_socket ∷ [] else [])
            ++ (released peers_memory ∷ released host_memory ∷ [])))
    else record {
      effects = acquired host_memory ∷ acquired peers_memory ∷ acquired open_socket ∷ options;
      world =
          some (reset_blank (initial_host platform channel_limit incoming outgoing) 0 peer_count);
      address = own_address platform address;
    }
