-- ===== src/Protocol/Acknowledge.antt =====
-- src/protocol.cpp, `enet_protocol_handle_acknowledge`.
use enetcpp.Base.{
  Bool, Option, false, if◌then◌else◌, leb, ltb, not, true, ◌!=◌, ◌&&◌, ◌==◌, ◌||◌, ℕ,
}
use enetcpp.Time.{time_less, time_difference, maximum}
use enetcpp.Command.{Acknowledge}
use enetcpp.Command.Number
use enetcpp.Memory.{Allocator}
use enetcpp.Peer.{Peer, PacketThrottle}
use enetcpp.Peer.State
use enetcpp.Peer.State.{PeerState, value}
use enetcpp.Peer.Throttle.{peer_throttle}
use enetcpp.Peer.Outgoing.{peer_has_outgoing_commands}
use enetcpp.Peer.Disconnect.{peer_disconnect}
use enetcpp.Host.{Conn}
use enetcpp.Protocol.{Event, Reported}
use enetcpp.Protocol.Change.{notify_connect, notify_disconnect}
use enetcpp.Protocol.Clock.{
  received_sent_time, smooth_round_trip, first_round_trip, track_extremes, next_interval,
}
use enetcpp.Protocol.Sent.{remove_sent_reliable_command}

-- The throttle and the round trip time, after a time has been measured.
unfoldable pub measure : Peer → ℕ → Peer
unfolding peer_throttle smooth_round_trip first_round_trip track_extremes
measure p measured =
    if ltb 0 p.timing.last_receive_time
    then record p {
      throttle = (peer_throttle p.round_trip p.throttle measured).0;
      round_trip = track_extremes (smooth_round_trip p.round_trip measured);
    }
    else record p { round_trip = track_extremes (first_round_trip p.round_trip measured) }

abbrev pub interval_ends : PacketThrottle → ℕ → Bool
interval_ends t service_time =
    t.packet_throttle_epoch == 0
    || leb t.packet_throttle_interval (time_difference service_time t.packet_throttle_epoch)

unfoldable pub end_interval : Peer → ℕ → Peer
unfolding next_interval
end_interval p service_time =
    if interval_ends p.throttle service_time
    then record p {
      round_trip = next_interval p.round_trip;
      throttle = record p.throttle { packet_throttle_epoch = service_time };
    }
    else p

-- `lastReceiveTime` and `earliestTimeout`
abbrev pub heard : Peer → ℕ → Peer
heard p service_time = record p {
  timing = record p.timing { last_receive_time = maximum service_time 1; earliest_timeout = 0 };
}

abbrev pub is_gone : PeerState → Bool
is_gone State.disconnected = true
is_gone State.zombie = true
is_gone _ = false

module _ (host_flush : Conn → Conn) where
  -- The last `switch`, with whether 0 was returned.
  unfoldable pub conclude : Allocator → Conn → Option Event → ℕ → Reported × Bool
  unfolding notify_connect notify_disconnect
  conclude malloc c event number =
      if value c.peer.state == value State.acknowledging_connect
      then if number != Number.verify_connect
        then (record { conn = c; event = event }, false)
        else (notify_connect c event, true)
      else if value c.peer.state == value State.disconnecting
      then if number != Number.disconnect
        then (record { conn = c; event = event }, false)
        else (notify_disconnect c event, true)
      else if value c.peer.state == value State.disconnect_later
          && not (peer_has_outgoing_commands c.peer)
      then (
        record { conn = peer_disconnect host_flush malloc c c.peer.event_data; event = event },
        true,
      )
      else (record { conn = c; event = event }, true)

  unfoldable pub handle_acknowledge :
      Allocator → Conn → Option Event → Acknowledge → Reported × Bool
  unfolding conclude measure end_interval remove_sent_reliable_command
  handle_acknowledge malloc c event a =
      if is_gone c.peer.state || time_less c.host.service_time sent_time
      then (record { conn = c; event = event }, true)
      else let (c', number) =
          remove_sent_reliable_command
            (record c {
              peer =
                  heard (end_interval (measure c.peer measured) c.host.service_time)
                    c.host.service_time;
            })
            a.received_reliable_sequence_number a.header.channel_id in
        conclude malloc c' event number
    where
      sent_time : ℕ
      sent_time = received_sent_time c.host.service_time a.received_sent_time

      measured : ℕ
      measured = maximum (time_difference c.host.service_time sent_time) 1
