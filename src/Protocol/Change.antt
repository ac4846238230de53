-- ===== src/Protocol/Change.antt =====
-- src/protocol.cpp: the changes of a peer's state and the events that they make.
use enetcpp.Base.{Bool, Option, if◌then◌else◌, leb, ltb, none, some, true, ◌!=◌, ◌&&◌, ℕ}
use enetcpp.Peer.State
use enetcpp.Peer.State.{PeerState, is_connected, value}
use enetcpp.Peer.Connection.{peer_on_connect, peer_on_disconnect}
use enetcpp.Peer.Dispatch.{request_dispatch}
use enetcpp.Peer.Disconnect.{with_state}
use enetcpp.Peer.Reset.{peer_reset}
use enetcpp.Host.{Conn}
use enetcpp.Protocol.{Event, EventType, connect, disconnect, Reported}

unfoldable pub change_state : Conn → PeerState → Conn
unfolding peer_on_connect peer_on_disconnect
change_state c s =
    if is_connected s then with_state (peer_on_connect c) s else with_state (peer_on_disconnect c) s

unfoldable pub dispatch_state : Conn → PeerState → Conn
unfolding change_state
dispatch_state c s = request_dispatch (change_state c s)

-- `host->recalculateBandwidthLimits = 1`
abbrev pub recalculate : Conn → Conn
recalculate c = record c { host = record c.host { recalculate_bandwidth_limits = true } }

-- An event of a peer; the other fields stay as they were.
abbrev pub of_peer : Event → EventType → ℕ → ℕ → Event
of_peer e type peer user_data = record e { type = type; peer = some peer; user_data = user_data }

abbrev pub succeeded_or_pending : PeerState → PeerState
succeeded_or_pending State.connecting = State.connection_succeeded
succeeded_or_pending _ = State.connection_pending

unfoldable pub notify_connect : Conn → Option Event → Reported
notify_connect c none = record {
  conn = dispatch_state (recalculate c) (succeeded_or_pending c.peer.state);
  event = none;
}
notify_connect c (some e) = record {
  conn = change_state (recalculate c) State.connected;
  event = some (of_peer e connect c.peer.incoming_peer_id c.peer.event_data);
}

-- `state >= CONNECTION_PENDING`
abbrev pub recalculate_if_pending : Conn → Conn
recalculate_if_pending c =
    if leb (value State.connection_pending) (value c.peer.state) then recalculate c else c

-- `state != CONNECTING && state < CONNECTION_SUCCEEDED`
abbrev pub never_connected : PeerState → Bool
never_connected s =
    value s != value State.connecting && ltb (value s) (value State.connection_succeeded)

abbrev pub with_event_data : Conn → ℕ → Conn
with_event_data c n = record c { peer = record c.peer { event_data = n } }

unfoldable pub report_disconnect : Conn → Option Event → Reported
report_disconnect c none = record {
  conn = dispatch_state (with_event_data c 0) State.zombie;
  event = none;
}
report_disconnect c (some e) = record {
  conn = peer_reset c;
  event = some (of_peer e disconnect c.peer.incoming_peer_id 0);
}

unfoldable pub notify_disconnect : Conn → Option Event → Reported
notify_disconnect c event =
    if never_connected c.peer.state
    then record { conn = peer_reset (recalculate_if_pending c); event = event }
    else report_disconnect (recalculate_if_pending c) event
