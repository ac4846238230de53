-- ===== src/Protocol/Verify.antt =====
-- src/protocol.cpp, `enet_protocol_handle_verify_connect`.
use enetcpp.Base.{Bool, Option, false, if◌then◌else◌, ltb, true, ◌!=◌, ◌||◌}
use enetcpp.Command.{VerifyConnect}
use enetcpp.Command.Limits.{minimum_channel_count, maximum_channel_count}
use enetcpp.Peer.{Peer}
use enetcpp.Peer.State
use enetcpp.Peer.State.{value}
use enetcpp.Host.{Conn}
use enetcpp.Protocol.{Event, Reported}
use enetcpp.Protocol.Change.{dispatch_state, notify_connect, with_event_data}
use enetcpp.Protocol.Sent.{remove_sent_reliable_command}
use enetcpp.Protocol.Session.{agreed_mtu, clamp_window}

-- The test that what comes back is what was asked for.
abbrev pub differs : Peer → VerifyConnect → Bool
differs p v =
    ltb v.channel_count minimum_channel_count
    || ltb maximum_channel_count v.channel_count
    || v.packet_throttle_interval != p.throttle.packet_throttle_interval
    || v.packet_throttle_acceleration != p.throttle.packet_throttle_acceleration
    || v.packet_throttle_deceleration != p.throttle.packet_throttle_deceleration
    || v.connect_id != p.connect_id

-- The assignments to the peer.
unfoldable pub verified : Peer → VerifyConnect → Peer
unfolding agreed_mtu clamp_window
verified p v = record p {
  channel_count = if ltb v.channel_count p.channel_count then v.channel_count else p.channel_count;
  outgoing_peer_id = v.outgoing_peer_id;
  incoming_session_id = v.incoming_session_id;
  outgoing_session_id = v.outgoing_session_id;
  mtu = agreed_mtu p.mtu v.mtu;
  window_size =
      if ltb (clamp_window v.window_size) p.window_size
      then clamp_window v.window_size
      else p.window_size;
  bandwidth = record p.bandwidth {
    incoming_bandwidth = v.incoming_bandwidth;
    outgoing_bandwidth = v.outgoing_bandwidth;
  };
}

-- With whether 0 was returned.
unfoldable pub handle_verify_connect : Conn → Option Event → VerifyConnect → Reported × Bool
unfolding verified dispatch_state remove_sent_reliable_command notify_connect
handle_verify_connect c event v =
    if value c.peer.state != value State.connecting
    then (record { conn = c; event = event }, true)
    else if differs c.peer v
    then (record { conn = dispatch_state (with_event_data c 0) State.zombie; event = event }, false)
    else let (c', removed) = remove_sent_reliable_command c 1 255 in
      (notify_connect (record c' { peer = verified c'.peer v }) event, true)
