-- ===== src/Peer/Incoming.antt =====
-- src/peer.cpp: `peer_queue_incoming_command`.
pub mod Place
pub mod Order
pub mod Refusal
pub mod Kept
use enetcpp.Base.{
  not, Bool, List, Option, add64, false, get_elem?, if◌then◌else◌, leb, ltb, none, replicate, some,
  true, wrap16, ◌!=◌, ◌&&◌, ◌*◌, ◌++◌, ◌+◌, ◌/◌, ◌==◌, ◌||◌, ◌∷◌, ℕ,
}
use enetcpp.Command.{Protocol, header, command_mask, unreliable_sequence_number}
use enetcpp.Command.Number
use enetcpp.Command.Limits.{maximum_fragment_count}
use enetcpp.Memory.{Allocator, incoming_command, fragments}
use enetcpp.Packet.{Packet, packet_create}
use enetcpp.Packet.Store.{update, counted, packet_destroy}
use enetcpp.Peer.{Peer, Channel, IncomingCommand}
use enetcpp.Peer.State
use enetcpp.Peer.Window.{outside_window}
use enetcpp.Host.{Host, Conn}
use enetcpp.Peer.Outgoing.{put_channel}
use enetcpp.Peer.Dispatch.{
  peer_dispatch_incoming_reliable_commands, peer_dispatch_incoming_unreliable_commands,
}
use Place.{Spot, discard, reliable, unreliable, spot_of}

-- What is returned: a queued command, by its address; `&dummyCommand`; or a null pointer.
pub data Queued : Type 0 where
  queued : ℕ → Queued
  dummy null : Queued

-- The label `discardCommand`, reached before a packet is created.
abbrev pub discarded : ℕ → Queued
discarded fragment_count = if ltb 0 fragment_count then null else dummy

-- `sizeof(uint32_t)` and 32 bits for each word of `fragments`
abbrev pub bitmap_size : ℕ → ℕ
bitmap_size count = (count + 31) / 32 * 32

-- Whether `fragments` is what it should be: nothing for no fragments, or allocated.
abbrev pub has_fragments : Allocator → ℕ → Bool
has_fragments malloc count =
    if ltb 0 count then leb count maximum_fragment_count && malloc.succeeds fragments else true

abbrev pub new_fragments : ℕ → Option (List Bool)
new_fragments count = if ltb 0 count then some (replicate (bitmap_size count) false) else none

-- `reliableSequenceNumber`, 0 for an unsequenced command
abbrev pub reliable_number : Protocol → ℕ
reliable_number command =
    if command_mask (header command).command == Number.send_unsequenced
    then 0
    else (header command).reliable_sequence_number

-- `unreliableSequenceNumber`, which is read for the unreliable commands only
abbrev pub unreliable_number : Protocol → ℕ
unreliable_number command =
    if command_mask (header command).command == Number.send_unreliable
      || command_mask (header command).command == Number.send_unreliable_fragment
    then unreliable_sequence_number command
    else 0

-- The command as it is inserted.
abbrev pub new_incoming : Host → Protocol → ℕ → IncomingCommand
new_incoming h command fragment_count = record {
  address = h.next_command;
  reliable_sequence_number = (header command).reliable_sequence_number;
  unreliable_sequence_number = wrap16 (unreliable_number command);
  command = command;
  fragment_count = fragment_count;
  fragments_remaining = fragment_count;
  fragments = new_fragments fragment_count;
  packet = some h.next_packet;
}

-- A packet is created: it is alive, with no reference yet.
abbrev pub with_packet : Conn → Packet → Conn
with_packet c packet = record c {
  host = record c.host {
    packets = update c.host.packets c.host.next_packet (some packet);
    next_packet = c.host.next_packet + 1;
  };
}

-- A command is allocated.
abbrev pub with_command : Conn → Conn
with_command c = record c { host = record c.host { next_command = c.host.next_command + 1 } }

-- The label `notifyError`: a packet without references is destroyed.
unfoldable pub notify_error : Conn → Option ℕ → Conn
unfolding packet_destroy
notify_error c none = c
notify_error c (some a) = elim (c.host.packets a) [
  | none ↦ c
  | some packet ↦
      if packet.reference_count == 0
      then record c { host = record c.host { packets = packet_destroy c.host.packets a } }
      else c
]

-- The reference of the command, and the data that waits.
unfoldable pub admit : Conn → ℕ → Packet → Conn
admit c a packet = record c {
  host = record c.host { packets = update c.host.packets a (some (counted packet)) };
  peer = record c.peer { total_waiting_data = add64 c.peer.total_waiting_data packet.data_length };
}

abbrev pub close : ℕ → Conn × Channel → Conn
close channel_id (c, ch) = record c { peer = put_channel c.peer channel_id ch }

-- `list_insert(list_next(currentCommand), incomingCommand)` and the dispatch of its queue.
unfoldable pub insert_incoming : Conn → ℕ → Channel → IncomingCommand → Spot → Conn
insert_incoming c channel_id ch i (reliable before after) = close channel_id (
    peer_dispatch_incoming_reliable_commands c
      (record ch { incoming_reliable_commands = before ++ i ∷ after }) (some i.address))
insert_incoming c channel_id ch i (unreliable before after) = close channel_id (
    peer_dispatch_incoming_unreliable_commands c
      (record ch { incoming_unreliable_commands = before ++ i ∷ after }) (some i.address))
insert_incoming c channel_id ch i discard = c

-- From the test of `maximumWaitingData` on. The memory of a command is freed again if there is none
-- for its fragments; its address is not used another time.
unfoldable pub allocate_incoming :
    Allocator → Conn → ℕ → Channel → Protocol → Option (List ℕ) → ℕ → ℕ → ℕ → Spot → Conn × Queued
unfolding admit notify_error insert_incoming
allocate_incoming malloc c channel_id ch command bytes data_length flags fragment_count spot =
    if leb c.host.maximum_waiting_data c.peer.total_waiting_data
    then (notify_error c none, null)
    else elim (packet_create malloc bytes data_length flags) [
      | none ↦ (notify_error c none, null)
      | some packet ↦
          let created = with_packet c packet in
          if not (malloc.succeeds incoming_command)
          then (notify_error created (some c.host.next_packet), null)
          else if not (has_fragments malloc fragment_count)
          then (notify_error (with_command created) (some c.host.next_packet), null)
          else (
            insert_incoming (admit (with_command created) c.host.next_packet packet) channel_id ch
                (new_incoming c.host command fragment_count) spot,
            queued c.host.next_command,
          )
    ]

-- The window test, which an unsequenced command does not take.
abbrev pub misses_window : Channel → Protocol → Bool
misses_window ch command =
    command_mask (header command).command != Number.send_unsequenced
    && outside_window (header command).reliable_sequence_number ch.incoming_reliable_sequence_number

-- The spot in the queues of the channel.
abbrev pub spot : Channel → Protocol → Spot
spot ch command =
    spot_of ch (command_mask (header command).command) (reliable_number command)
      (unreliable_number command)

-- The packet's bytes are `bytes`, of which there are `data_length`; a fragment brings none yet.
unfoldable pub peer_queue_incoming_command :
    Allocator → Conn → Protocol → Option (List ℕ) → ℕ → ℕ → ℕ → Conn × Queued
unfolding allocate_incoming
peer_queue_incoming_command malloc c command bytes data_length flags fragment_count =
    elim (get_elem? c.peer.channels (header command).channel_id) [
      | none ↦ (c, null)
      | some ch ↦
          if State.value c.peer.state == State.value State.disconnect_later
            || misses_window ch command
          then (c, discarded fragment_count)
          else elim (spot ch command) [
            | discard ↦ (c, discarded fragment_count)
            | s ↦
                allocate_incoming malloc c (header command).channel_id ch command bytes data_length
                  flags fragment_count s
          ]
    ]
