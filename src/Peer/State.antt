-- ===== src/Peer/State.antt =====
-- include/enetcpp/enetcpp.h, `enum PeerState`, with the values by which the code compares states.
use enetcpp.Base.{ℕ, Bool, true, false}

pub data PeerState : Type 0 where
  disconnected connecting acknowledging_connect connection_pending : PeerState
  connection_succeeded connected disconnect_later disconnecting : PeerState
  acknowledging_disconnect zombie : PeerState

abbrev pub value : PeerState → ℕ
value disconnected = 0
value connecting = 1
value acknowledging_connect = 2
value connection_pending = 3
value connection_succeeded = 4
value connected = 5
value disconnect_later = 6
value disconnecting = 7
value acknowledging_disconnect = 8
value zombie = 9

-- `state == PEER_STATE_CONNECTED || state == PEER_STATE_DISCONNECT_LATER`, the test by which the
-- code takes a peer for a connected one.
abbrev pub is_connected : PeerState → Bool
is_connected connected = true
is_connected disconnect_later = true
is_connected _ = false
