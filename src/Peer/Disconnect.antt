-- ===== src/Peer/Disconnect.antt =====
-- src/peer.cpp: the three ways to end a connection. `host_flush` (src/protocol.cpp) sends what is
-- queued for every peer; it is a parameter of the functions that call it.
use enetcpp.Base.{Bool, false, if◌then◌else◌, none, true, ◌&&◌, ◌==◌, ℕ}
use enetcpp.Command.{Protocol, disconnect, acknowledged, unsequenced}
use enetcpp.Command.Number
use enetcpp.Memory.{Allocator}
use enetcpp.Peer.State
use enetcpp.Peer.State.{PeerState, is_connected}
use enetcpp.Host.{Conn}
use enetcpp.Peer.Connection.{peer_on_disconnect}
use enetcpp.Peer.Outgoing.{peer_queue_outgoing_command, peer_has_outgoing_commands}
use enetcpp.Peer.Reset.{peer_reset_queues, peer_reset}

abbrev pub disconnect_command : ℕ → ℕ → Protocol
disconnect_command command user_data = disconnect (record {
  header = record { command = command; channel_id = 255; reliable_sequence_number = 0 };
  user_data = user_data;
})

abbrev pub with_state : Conn → PeerState → Conn
with_state c s = record c { peer = record c.peer { state = s } }

-- `state == DISCONNECTING || state == DISCONNECTED || …`, for which `peer_disconnect` returns.
abbrev pub is_leaving : PeerState → Bool
is_leaving State.disconnecting = true
is_leaving State.disconnected = true
is_leaving State.acknowledging_disconnect = true
is_leaving State.zombie = true
is_leaving _ = false

-- `state == ZOMBIE || state == DISCONNECTING`
abbrev pub needs_no_notice : PeerState → Bool
needs_no_notice State.zombie = true
needs_no_notice State.disconnecting = true
needs_no_notice _ = false

-- The queues are emptied and the command is queued, with its flag.
unfoldable pub announce : Allocator → Conn → ℕ → ℕ → Conn
announce malloc c command user_data =
    (peer_queue_outgoing_command malloc (peer_reset_queues c) (disconnect_command command user_data)
      none 0 0).0

-- The peer was connected: it waits for the acknowledgement.
unfoldable pub disconnect_connected : Allocator → Conn → ℕ → Conn
unfolding announce
disconnect_connected malloc c user_data =
    with_state (peer_on_disconnect (announce malloc c (acknowledged Number.disconnect) user_data))
      State.disconnecting

module _ (host_flush : Conn → Conn) where
  unfoldable pub peer_disconnect : Allocator → Conn → ℕ → Conn
  unfolding disconnect_connected
  peer_disconnect malloc c user_data =
      if is_leaving c.peer.state
      then c
      else if is_connected c.peer.state
      then disconnect_connected malloc c user_data
      else peer_reset (host_flush (announce malloc c (unsequenced Number.disconnect) user_data))

  unfoldable pub peer_disconnect_now : Allocator → Conn → ℕ → Conn
  unfolding announce
  peer_disconnect_now malloc c user_data =
      if State.value c.peer.state == State.value State.disconnected
      then c
      else if needs_no_notice c.peer.state
      then peer_reset c
      else peer_reset (host_flush (announce malloc c (unsequenced Number.disconnect) user_data))

  unfoldable pub peer_disconnect_later : Allocator → Conn → ℕ → Conn
  unfolding peer_disconnect
  peer_disconnect_later malloc c user_data =
      if is_connected c.peer.state && peer_has_outgoing_commands c.peer
      then record c {
        peer = record c.peer { state = State.disconnect_later; event_data = user_data };
      }
      else peer_disconnect malloc c user_data
