-- ===== src/Peer/Reset.antt =====
-- src/peer.cpp: `peer_reset_queues`, `peer_reset` and the settings of a peer.
pub mod Queue
use enetcpp.Base.{List, [], false, if◌then◌else◌, none, take, ◌==◌, ◌∷◌, ℕ}
use enetcpp.Command.{Protocol, throttle_configure, ping, acknowledged}
use enetcpp.Command.Number
use enetcpp.Command.Limits.{maximum_peer_id, maximum_window_size}
use enetcpp.Memory.{Allocator}
use enetcpp.Packet.Store.{Store, release}
use enetcpp.Peer.{Peer, Channel, OutgoingCommand, IncomingCommand, Queues}
use enetcpp.Peer.Default
use enetcpp.Peer.State
use enetcpp.Host.{Host, Conn}
use enetcpp.Peer.Connection.{peer_on_disconnect}
use enetcpp.Peer.Dispatch.{remove_incoming_commands}
use enetcpp.Peer.Outgoing.{peer_queue_outgoing_command}

-- `enet_peer_reset_outgoing_commands`: the queue is left empty.
unfoldable pub reset_outgoing_commands : Store → List OutgoingCommand → Store
reset_outgoing_commands s [] = s
reset_outgoing_commands s (o ∷ os) = reset_outgoing_commands (release s o.packet) os

-- `enet_peer_reset_incoming_commands`: the queue is left empty.
unfoldable pub reset_incoming_commands : Store → List IncomingCommand → Store
unfolding remove_incoming_commands
reset_incoming_commands s is = (remove_incoming_commands s is none).0

-- The loop over the channels that are counted.
unfoldable pub reset_channels : Store → List Channel → Store
unfolding reset_incoming_commands
reset_channels s [] = s
reset_channels s (ch ∷ chs) =
    reset_channels
      (reset_incoming_commands (reset_incoming_commands s ch.incoming_reliable_commands)
        ch.incoming_unreliable_commands)
      chs

abbrev pub no_commands : Queues
no_commands = record {
  acknowledgements = [];
  sent_reliable_commands = [];
  outgoing_send_reliable_commands = [];
  outgoing_commands = [];
  dispatched_commands = [];
}

-- `list_remove(peer)` from the dispatch queue; a peer stands in it once.
unfoldable pub remove_peer : ℕ → List ℕ → List ℕ
remove_peer p [] = []
remove_peer p (q ∷ qs) = if q == p then qs else q ∷ remove_peer p qs

unfoldable pub reset_all_commands : Store → Peer → Store
unfolding reset_outgoing_commands reset_channels
reset_all_commands s p =
    reset_channels
      (reset_incoming_commands
        (reset_outgoing_commands
          (reset_outgoing_commands (reset_outgoing_commands s p.queues.sent_reliable_commands)
            p.queues.outgoing_commands)
          p.queues.outgoing_send_reliable_commands)
        p.queues.dispatched_commands)
      (take p.channel_count p.channels)

unfoldable pub peer_reset_queues : Conn → Conn
unfolding reset_all_commands remove_peer
peer_reset_queues c = record {
  host = record c.host {
    dispatch_queue =
        if c.peer.needs_dispatch
        then remove_peer c.peer.incoming_peer_id c.host.dispatch_queue
        else c.host.dispatch_queue;
    packets = reset_all_commands c.host.packets c.peer;
  };
  peer = record c.peer {
    needs_dispatch = false;
    queues = no_commands;
    channels = [];
    channel_count = 0;
  };
}

-- The assignments of `peer_reset` between its two calls.
unfoldable pub reset_fields : Host → Peer → Peer
reset_fields h p = record p {
  outgoing_peer_id = maximum_peer_id;
  connect_id = 0;
  state = State.disconnected;
  bandwidth = record {
    incoming_bandwidth = 0;
    outgoing_bandwidth = 0;
    incoming_bandwidth_throttle_epoch = 0;
    outgoing_bandwidth_throttle_epoch = 0;
    incoming_data_total = 0;
    outgoing_data_total = 0;
  };
  timing = record {
    last_send_time = 0;
    last_receive_time = 0;
    next_timeout = 0;
    earliest_timeout = 0;
    ping_interval = Default.ping_interval;
    timeout_limit = Default.timeout_limit;
    timeout_minimum = Default.timeout_minimum;
    timeout_maximum = Default.timeout_maximum;
  };
  loss = record {
    packet_loss_epoch = 0;
    packets_sent = 0;
    packets_lost = 0;
    packet_loss = 0;
    packet_loss_variance = 0;
  };
  throttle = record {
    packet_throttle = Default.default_packet_throttle;
    packet_throttle_limit = Default.packet_throttle_scale;
    packet_throttle_counter = 0;
    packet_throttle_epoch = 0;
    packet_throttle_acceleration = Default.packet_throttle_acceleration;
    packet_throttle_deceleration = Default.packet_throttle_deceleration;
    packet_throttle_interval = Default.packet_throttle_interval;
  };
  round_trip = record {
    last_round_trip_time = Default.default_round_trip_time;
    lowest_round_trip_time = Default.default_round_trip_time;
    last_round_trip_time_variance = 0;
    highest_round_trip_time_variance = 0;
    round_trip_time = Default.default_round_trip_time;
    round_trip_time_variance = 0;
  };
  mtu = h.mtu;
  reliable_data_in_transit = 0;
  outgoing_reliable_sequence_number = 0;
  window_size = maximum_window_size;
  incoming_unsequenced_group = 0;
  outgoing_unsequenced_group = 0;
  event_data = 0;
  total_waiting_data = 0;
  needs_dispatch = false;
  continue_sending = false;
  unsequenced_window = λ _. false;
}

unfoldable pub peer_reset : Conn → Conn
unfolding peer_on_disconnect reset_fields peer_reset_queues
peer_reset c =
    let left = peer_on_disconnect c in
    peer_reset_queues (record left { peer = reset_fields left.host left.peer })

unfoldable pub peer_ping_interval : Peer → ℕ → Peer
peer_ping_interval p n = record p {
  timing = record p.timing { ping_interval = if n == 0 then Default.ping_interval else n };
}

unfoldable pub peer_timeout : Peer → ℕ → ℕ → ℕ → Peer
peer_timeout p limit minimum maximum = record p {
  timing = record p.timing {
    timeout_limit = if limit == 0 then Default.timeout_limit else limit;
    timeout_minimum = if minimum == 0 then Default.timeout_minimum else minimum;
    timeout_maximum = if maximum == 0 then Default.timeout_maximum else maximum;
  };
}

unfoldable pub peer_throttle_configure : Allocator → Conn → ℕ → ℕ → ℕ → Conn
peer_throttle_configure malloc c interval acceleration deceleration =
    (peer_queue_outgoing_command malloc configured command none 0 0).0
  where
    configured : Conn
    configured = record c {
      peer = record c.peer {
        throttle = record c.peer.throttle {
          packet_throttle_interval = interval;
          packet_throttle_acceleration = acceleration;
          packet_throttle_deceleration = deceleration;
        };
      };
    }

    command : Protocol
    command = throttle_configure (record {
      header = record {
        command = acknowledged Number.throttle_configure;
        channel_id = 255;
        reliable_sequence_number = 0;
      };
      packet_throttle_interval = interval;
      packet_throttle_acceleration = acceleration;
      packet_throttle_deceleration = deceleration;
    })

unfoldable pub peer_ping : Allocator → Conn → Conn
peer_ping malloc c =
    if State.value c.peer.state == State.value State.connected
    then (peer_queue_outgoing_command malloc c command none 0 0).0
    else c
  where
    command : Protocol
    command = ping (record {
      header = record {
        command = acknowledged Number.ping;
        channel_id = 255;
        reliable_sequence_number = 0;
      };
    })
