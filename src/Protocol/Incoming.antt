-- ===== src/Protocol/Incoming.antt =====
-- src/protocol.cpp, `enet_protocol_handle_incoming_commands`: a datagram that has been received.
pub mod Header
pub mod Termination
pub mod Progress
use enetcpp.Base.{
  Bool, List, Option, add32, drop, false, get_elem?, if◌then◌else◌, length, ltb, none, not, set,
  some, suc, true, zero, ℕ, ◌!=◌, ◌&&◌, ◌+◌, ◌==◌, ◌||◌,
}
use enetcpp.Command.{
  Protocol, acknowledge, connect, verify_connect, bandwidth_limit, throttle_configure, disconnect,
  ping, send_reliable, send_unreliable, send_unsequenced, send_fragment, header, command_mask,
  flag_acknowledge,
}
use enetcpp.Command.Number
use enetcpp.Command.Size.{command_header, protocol_command_size}
use enetcpp.Command.Bytes.{byte, read16, decode}
use enetcpp.Memory.{Allocator}
use enetcpp.Peer.{Peer}
use enetcpp.Peer.State
use enetcpp.Peer.State.{PeerState}
use enetcpp.Peer.Acknowledge.{peer_queue_acknowledgement}
use enetcpp.Host.{Conn, World}
use enetcpp.Protocol.{Event, Reported}
use enetcpp.Protocol.Acknowledge.{handle_acknowledge}
use enetcpp.Protocol.Connect.{handle_connect}
use enetcpp.Protocol.Verify.{handle_verify_connect}
use enetcpp.Protocol.Control.{
  handle_ping, handle_bandwidth_limit, handle_throttle_configure, handle_disconnect,
}
use enetcpp.Protocol.Receive.{Handled, handle_send_reliable, handle_send_unreliable}
use enetcpp.Protocol.Unsequenced.{handle_send_unsequenced}
use enetcpp.Protocol.Fragment.{handle_send_fragment, handle_send_unreliable_fragment}
use Header.{
  Readers, Step, go_on, drop_datagram, fault, dropped, unknown, known, addressee, header_size,
  is_compressed, has_sent_time, decompressed, verified,
}

-- The loop's variables: the host with its peers, the index of `peer`, the caller's event and the
-- offset of `currentData`.
pub record Reading : Type 0 where
  pub world : World
  pub peer : Option ℕ
  pub event : Option Event
  pub offset : ℕ

-- What a handler makes of the reading, and whether it went well; `none` is a fault of a fragment.
abbrev pub Handling : Type 0
Handling = Option (Reading × Bool)

abbrev pub store_conn : Reading → ℕ → Conn → Reading
store_conn r i c = record r { world = record { host = c.host; peers = set r.world.peers i c.peer } }

abbrev pub store_report : Reading → ℕ → Reported → Reading
store_report r i report = record (store_conn r i report.conn) { event = report.event }

abbrev pub after_report : Reading → ℕ → Reported × Bool → Handling
after_report r i (report, ok) = some (store_report r i report, ok)

abbrev pub after_conn : Reading → ℕ → Conn × Bool → Handling
after_conn r i (c, ok) = some (store_conn r i c, ok)

abbrev pub after_data : Reading → ℕ → Handled → Handling
after_data r i h = some (record (store_conn r i h.conn) { offset = h.current_data }, h.ok)

abbrev pub after_fragment : Reading → ℕ → Option Handled → Handling
after_fragment r i none = none
after_fragment r i (some h) = after_data r i h

-- `switch (peer->state)`: whether a command is acknowledged.
abbrev pub is_acknowledged : PeerState → ℕ → Bool
is_acknowledged State.disconnecting number = false
is_acknowledged State.acknowledging_connect number = false
is_acknowledged State.disconnected number = false
is_acknowledged State.zombie number = false
is_acknowledged State.acknowledging_disconnect number = number == Number.disconnect
is_acknowledged _ number = true

-- The command at an offset, with its size; `none` where the loop breaks.
unfoldable pub next_command : List ℕ → Bool → ℕ → Option (Protocol × ℕ)
unfolding protocol_command_size decode
next_command bytes has_peer offset =
    let number = command_mask (byte bytes offset) in
    if ltb (length bytes) (offset + command_header)
    then none
    else elim (protocol_command_size number) [
      | none ↦ none
      | some size ↦
          if size == 0 || ltb (length bytes) (offset + size)
          then none
          else if not has_peer && number != Number.connect
          then none
          else elim (decode number (drop offset bytes)) [
            | none ↦ none
            | some command ↦ some (command, size)
          ]
    ]

abbrev pub has_peer : Reading → Bool
has_peer r = elim r.peer [ none ↦ false | some i ↦ true ]

-- `address` and `incomingDataTotal` of the peer that a datagram is from.
abbrev pub received_from : World → ℕ → ℕ → World
received_from w i size = elim (get_elem? w.peers i) [
  | none ↦ w
  | some p ↦ record w {
    peers = set w.peers i (record p {
      address = w.host.received_address;
      bandwidth = record p.bandwidth {
        incoming_data_total = add32 p.bandwidth.incoming_data_total size;
      };
    });
  }
]

abbrev pub with_received : World → List ℕ → World
with_received w bytes = record w { host = record w.host { received_data = bytes } }

abbrev pub unread : World → Option Event → Option Reading
unread w event = some (record { world = w; peer = none; event = event; offset = 0 })

-- `connectID` of the peer, in the place of the checksum.
abbrev pub seed_of : World → Option ℕ → ℕ
seed_of w none = 0
seed_of w (some i) = elim (get_elem? w.peers i) [ none ↦ 0 | some p ↦ p.connect_id ]

module _ (host_flush : Conn → Conn) (malloc : Allocator) where
  -- `switch (commandNumber)`, for a peer.
  unfoldable pub handle_for : Reading → ℕ → Peer → Protocol → Handling
  unfolding handle_acknowledge handle_verify_connect handle_disconnect handle_ping
      handle_send_reliable handle_send_unreliable handle_send_unsequenced handle_send_fragment
      handle_bandwidth_limit handle_throttle_configure handle_send_unreliable_fragment
  handle_for r i p (acknowledge c) =
      after_report r i
        (handle_acknowledge host_flush malloc (record { host = r.world.host; peer = p }) r.event c)
  handle_for r i p (connect c) = some (r, false)
  handle_for r i p (verify_connect c) =
      after_report r i (handle_verify_connect (record { host = r.world.host; peer = p }) r.event c)
  handle_for r i p (disconnect c) =
      some (store_conn r i (handle_disconnect (record { host = r.world.host; peer = p }) c), true)
  handle_for r i p (ping c) = some (r, handle_ping (record { host = r.world.host; peer = p }))
  handle_for r i p (send_reliable c) =
      after_data r i
        (handle_send_reliable malloc (record { host = r.world.host; peer = p }) c r.offset)
  handle_for r i p (send_unreliable c) =
      after_data r i
        (handle_send_unreliable malloc (record { host = r.world.host; peer = p }) c r.offset)
  handle_for r i p (send_unsequenced c) =
      after_data r i
        (handle_send_unsequenced malloc (record { host = r.world.host; peer = p }) c r.offset)
  handle_for r i p (bandwidth_limit c) =
      after_conn r i (handle_bandwidth_limit (record { host = r.world.host; peer = p }) c)
  handle_for r i p (throttle_configure c) =
      after_conn r i (handle_throttle_configure (record { host = r.world.host; peer = p }) c)
  handle_for r i p (send_fragment c) =
      if command_mask c.header.command == Number.send_fragment
      then after_fragment r i
          (handle_send_fragment malloc (record { host = r.world.host; peer = p }) c r.offset)
      else after_fragment r i (
          handle_send_unreliable_fragment malloc (record { host = r.world.host; peer = p }) c
            r.offset)

  -- A datagram without a peer may only ask for a connection.
  unfoldable pub handle_unknown : Reading → Protocol → Handling
  unfolding handle_connect
  handle_unknown r (connect c) =
      let (w, peer) = handle_connect malloc r.world c in
      some (record r { world = w; peer = peer }, elim peer [ none ↦ false | some i ↦ true ])
  handle_unknown r p = some (r, false)

  unfoldable pub handle : Reading → Protocol → Handling
  unfolding handle_for handle_unknown
  handle r command = elim r.peer [
    | none ↦ handle_unknown r command
    | some i ↦ elim (get_elem? r.world.peers i) [
      | none ↦ some (r, false)
      | some p ↦ handle_for r i p command
    ]
  ]

  unfoldable pub queue_acknowledgement : Reading → ℕ → Peer → Protocol → ℕ → Reading
  unfolding peer_queue_acknowledgement
  queue_acknowledgement r i p command sent_time =
      if is_acknowledged p.state (command_mask (header command).command)
      then record r {
        world = record r.world {
          peers = set r.world.peers i (peer_queue_acknowledgement malloc p command sent_time).0;
        };
      }
      else r

  -- With whether the loop goes on: a command that wants an acknowledgement needs the time at which it
  -- was sent.
  unfoldable pub answer : Bool → ℕ → Reading → Protocol → Reading × Bool
  unfolding queue_acknowledgement
  answer timed sent_time r command = elim r.peer [
    | none ↦ (r, true)
    | some i ↦ elim (get_elem? r.world.peers i) [
      | none ↦ (r, true)
      | some p ↦
          if not (flag_acknowledge (header command).command)
          then (r, true)
          else if timed
          then (queue_acknowledgement r i p command sent_time, true)
          else (r, false)
    ]
  ]

  abbrev pub answer_if : Bool → ℕ → Protocol → Handling → Handling
  answer_if timed sent_time command none = none
  answer_if timed sent_time command (some (r, ok)) =
      if ok then some (answer timed sent_time r command) else some (r, false)

  -- One round, with whether the loop goes on.
  unfoldable pub read_command : List ℕ → Bool → ℕ → Reading → Handling
  unfolding next_command handle answer
  read_command bytes timed sent_time r = elim (next_command bytes (has_peer r) r.offset) [
    | none ↦ some (r, false)
    | some (command, size) ↦
        answer_if timed sent_time command (handle (record r { offset = r.offset + size }) command)
  ]

  -- The loop, a command of four bytes at least in each round.
  unfoldable pub read_commands : ℕ → List ℕ → Bool → ℕ → Reading → Option Reading
  unfolding read_command
  read_commands zero bytes timed sent_time r = some r
  read_commands (suc fuel) bytes timed sent_time r =
      if ltb r.offset (length bytes)
      then elim (read_command bytes timed sent_time r) [
        | none ↦ none
        | some (r', more) ↦ elim more [
          | true ↦ read_commands fuel bytes timed sent_time r'
          | false ↦ some r'
        ]
      ]
      else some r

  -- The commands of a datagram that has passed the tests.
  unfoldable pub read_datagram : World → Option ℕ → Option Event → List ℕ → ℕ → Option Reading
  unfolding read_commands
  read_datagram w peer event bytes word =
      read_commands (length bytes) bytes (has_sent_time word) (read16 bytes 2) (record {
        world =
            with_received (elim peer [ none ↦ w | some i ↦ received_from w i (length bytes) ])
              bytes;
        peer = peer;
        event = event;
        offset = header_size word w.host.has_checksum;
      })

  unfoldable pub read_verified :
      Readers → World → Option ℕ → Option Event → List ℕ → ℕ → Step → Option Reading
  unfolding read_datagram verified
  read_verified k w peer event stale word fault = none
  read_verified k w peer event stale word drop_datagram = unread w event
  read_verified k w peer event stale word (go_on bytes) =
      elim (verified k bytes stale (header_size word w.host.has_checksum) (seed_of w peer)) [
        | fault ↦ none
        | drop_datagram ↦ unread w event
        | go_on bytes' ↦ read_datagram w peer event bytes' word
      ]

  unfoldable pub read_for :
      Readers → World → Option ℕ → Option Event → List ℕ → List ℕ → ℕ → Option Reading
  unfolding read_verified decompressed
  read_for k w peer event bytes stale word = read_verified k w peer event stale word (
      if is_compressed word
      then decompressed k bytes (header_size word w.host.has_checksum)
      else go_on bytes)

  -- `none` is a read or a write out of bounds.
  unfoldable pub handle_incoming_commands :
      Readers → World → Option Event → List ℕ → List ℕ → Option Reading
  unfolding read_for addressee
  handle_incoming_commands k w event bytes stale =
      if ltb (length bytes) 2 then unread w event else elim (addressee w (read16 bytes 0)) [
        | dropped ↦ unread w event
        | unknown ↦ read_for k w none event bytes stale (read16 bytes 0)
        | known i ↦ read_for k w (some i) event bytes stale (read16 bytes 0)
      ]
