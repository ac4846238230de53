-- ===== src/Protocol/Control.antt =====
-- src/protocol.cpp: the handlers of pings, bandwidth limits, throttle settings and disconnects.
use enetcpp.Base.{Bool, add64, false, if◌then◌else◌, not, sub64, true, ◌==◌, ℕ}
use enetcpp.Command.{BandwidthLimit, ThrottleConfigure, Disconnect, flag_acknowledge}
use enetcpp.Peer.State
use enetcpp.Peer.State.{PeerState, is_connected, value}
use enetcpp.Peer.Reset.{peer_reset_queues, peer_reset}
use enetcpp.Host.{Conn}
use enetcpp.Protocol.Change.{change_state, dispatch_state, recalculate, with_event_data}
use enetcpp.Protocol.Session.{send_window}

unfoldable pub handle_ping : Conn → Bool
handle_ping c = is_connected c.peer.state

-- The counter of limited peers, as the peer's incoming bandwidth changes.
abbrev pub recount_limited : ℕ → ℕ → ℕ → ℕ
recount_limited n old new = if new == 0 then without else add64 without 1
  where
    without : ℕ
    without = if old == 0 then n else sub64 n 1

unfoldable pub limit_peer : Conn → BandwidthLimit → Conn
unfolding send_window
limit_peer c b = record {
  host = record c.host {
    bandwidth_limited_peers =
        recount_limited c.host.bandwidth_limited_peers c.peer.bandwidth.incoming_bandwidth
          b.incoming_bandwidth;
  };
  peer = record c.peer {
    bandwidth = record c.peer.bandwidth {
      incoming_bandwidth = b.incoming_bandwidth;
      outgoing_bandwidth = b.outgoing_bandwidth;
    };
    window_size = send_window c.host.outgoing_bandwidth b.incoming_bandwidth;
  };
}

unfoldable pub handle_bandwidth_limit : Conn → BandwidthLimit → Conn × Bool
unfolding limit_peer
handle_bandwidth_limit c b =
    if is_connected c.peer.state then (limit_peer c b, true) else (c, false)

unfoldable pub handle_throttle_configure : Conn → ThrottleConfigure → Conn × Bool
handle_throttle_configure c t =
    if is_connected c.peer.state
    then (
      record c {
        peer = record c.peer {
          throttle = record c.peer.throttle {
            packet_throttle_interval = t.packet_throttle_interval;
            packet_throttle_acceleration = t.packet_throttle_acceleration;
            packet_throttle_deceleration = t.packet_throttle_deceleration;
          };
        };
      },
      true,
    )
    else (c, false)

-- `state == DISCONNECTED || state == ZOMBIE || state == ACKNOWLEDGING_DISCONNECT`
abbrev pub is_gone : PeerState → Bool
is_gone State.disconnected = true
is_gone State.zombie = true
is_gone State.acknowledging_disconnect = true
is_gone _ = false

-- `state == CONNECTION_SUCCEEDED || state == DISCONNECTING || state == CONNECTING`
abbrev pub is_reported : PeerState → Bool
is_reported State.connection_succeeded = true
is_reported State.disconnecting = true
is_reported State.connecting = true
is_reported _ = false

-- The chain of tests, once the queues are empty.
unfoldable pub leave : Conn → Disconnect → Conn
leave c d =
    if is_reported c.peer.state
    then dispatch_state c State.zombie
    else if not (is_connected c.peer.state)
    then peer_reset
        (if value c.peer.state == value State.connection_pending then recalculate c else c)
    else if flag_acknowledge d.header.command
    then change_state c State.acknowledging_disconnect
    else dispatch_state c State.zombie

unfoldable pub handle_disconnect : Conn → Disconnect → Conn
unfolding leave
handle_disconnect c d =
    if is_gone c.peer.state
    then c
    else let left = leave (peer_reset_queues c) d in
      if value left.peer.state == value State.disconnected
      then left
      else with_event_data left d.user_data
