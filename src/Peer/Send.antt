-- ===== src/Peer/Send.antt =====
-- src/peer.cpp: `peer_send`, which cuts a packet that exceeds the MTU into fragments.
pub mod Tiling
use enetcpp.Base.{
  length, Bool, List, [], add16, add32, add64, false, get_elem?, has_bit, if◌then◌else◌, leb, ltb,
  none, not, some, sub64, suc, true, wrap16, wrap32, zero, ◌&&◌, ◌+◌, ◌-◌, ◌/◌, ◌==◌, ◌||◌, ◌∷◌, ℕ,
}
use enetcpp.Command.{
  Protocol, CommandHeader, acknowledged, unsequenced, send_fragment, send_reliable, send_unreliable,
  send_unsequenced,
}
use enetcpp.Command.Number
use enetcpp.Command.Size
use enetcpp.Command.Limits.{maximum_fragment_count}
use enetcpp.Memory.{Allocator, outgoing_command}
use enetcpp.Packet.{Packet, flag_reliable, flag_unsequenced, flag_unreliable_fragment}
use enetcpp.Packet.Store.{Store, update}
use enetcpp.Peer.{Peer, Channel, OutgoingCommand}
use enetcpp.Peer.State
use enetcpp.Host.{Conn}
use enetcpp.Peer.Outgoing.{new_command, peer_setup_outgoing_command, peer_queue_outgoing_command}

-- What a round of the loop puts into a fragment.
pub record Piece : Type 0 where
  pub number : ℕ
  pub offset : ℕ
  pub size : ℕ

-- The loop ends with all fragments, or with none if an allocation fails.
pub data Cut : Type 0 where
  pieces : List Piece → Cut
  no_memory : Cut
  out_of_fuel : Cut

abbrev pub cons : Piece → Cut → Cut
cons p (pieces ps) = pieces (p ∷ ps)
cons p no_memory = no_memory
cons p out_of_fuel = out_of_fuel

-- `if (packet->dataLength - fragmentOffset < fragmentLength) …`
abbrev pub trim : ℕ → ℕ → ℕ → ℕ
trim total fragment_length offset =
    if ltb (total - offset) fragment_length then total - offset else fragment_length

-- The loop on `fragmentNumber` and `fragmentOffset`; a fragment's offset and length are 32 and 16
-- bits wide.
unfoldable pub cut : Allocator → ℕ → ℕ → ℕ → ℕ → ℕ → Cut
cut malloc zero total fragment_length number offset = out_of_fuel
cut malloc (suc fuel) total fragment_length number offset =
    let size = trim total fragment_length offset in
    let rest = cut malloc fuel total size (add32 number 1) (add32 offset size) in
    if ltb offset total
    then if malloc.succeeds (outgoing_command number)
      then cons (record { number = number; offset = offset; size = wrap16 size }) rest
      else no_memory
    else pieces []

-- `peer->mtu - sizeof(ProtocolHeader) - sizeof(ProtocolSendFragment)`, less the checksum
unfoldable pub fragment_size : Conn → ℕ
fragment_size c = if c.host.has_checksum then sub64 plain 4 else plain
  where
    plain : ℕ
    plain = sub64 c.peer.mtu (Size.protocol_header + Size.send_fragment)

-- `(packet->dataLength + fragmentLength - 1) / fragmentLength`, as a `uint32_t`
abbrev pub fragment_count_of : ℕ → ℕ → ℕ
fragment_count_of total fragment_length =
    wrap32 (sub64 (add64 total fragment_length) 1 / fragment_length)

-- `(flags & (RELIABLE | UNRELIABLE_FRAGMENT)) == UNRELIABLE_FRAGMENT && … < 0xFFFF`
abbrev pub sends_unreliable_fragments : Packet → Channel → Bool
sends_unreliable_fragments packet ch =
    not (has_bit flag_reliable packet.flags)
    && has_bit flag_unreliable_fragment packet.flags
    && ltb ch.outgoing_unreliable_sequence_number 65535

-- `commandNumber` and `startSequenceNumber`
unfoldable pub fragment_kind : Packet → Channel → ℕ × ℕ
fragment_kind packet ch =
    if sends_unreliable_fragments packet ch
    then (Number.send_unreliable_fragment, add16 ch.outgoing_unreliable_sequence_number 1)
    else (acknowledged Number.send_fragment, add16 ch.outgoing_reliable_sequence_number 1)

-- The command of a fragment. Its header gets its number when it is queued.
abbrev pub fragment_command : ℕ → ℕ × ℕ → ℕ → ℕ → ℕ → Piece → OutgoingCommand
fragment_command channel_id (command, start) packet total count piece =
    new_command
      (send_fragment (record {
        header = record {
          command = command;
          channel_id = channel_id;
          reliable_sequence_number = 0;
        };
        start_sequence_number = start;
        data_length = piece.size;
        fragment_count = count;
        fragment_number = piece.number;
        total_length = total;
        fragment_offset = piece.offset;
      }))
      (some packet) piece.offset piece.size

-- The loop that queues the fragments in order.
unfoldable pub setup_all : Conn → List OutgoingCommand → Conn
setup_all c [] = c
setup_all c (o ∷ os) = setup_all (peer_setup_outgoing_command c o) os

abbrev pub map_pieces : (Piece → OutgoingCommand) → List Piece → List OutgoingCommand
map_pieces f [] = []
map_pieces f (p ∷ ps) = f p ∷ map_pieces f ps

-- `packet->referenceCount += fragmentNumber`
abbrev pub retain_for : Store → ℕ → Packet → ℕ → Store
retain_for s a packet n =
    update s a (some (record packet { reference_count = add64 packet.reference_count n }))

-- What follows the loop.
unfoldable pub send_cut : Conn → (Piece → OutgoingCommand) → ℕ → Packet → Cut → Conn × Bool
send_cut c make a packet (pieces ps) = (
  setup_all
      (record c {
        host = record c.host { packets = retain_for c.host.packets a packet (length ps) };
      })
      (map_pieces make ps),
  true,
)
send_cut c make a packet no_memory = (c, false)
send_cut c make a packet out_of_fuel = (c, false)

-- A packet in more than one fragment. A round takes at least one byte, so `dataLength` and one rounds
-- are enough.
unfoldable pub send_fragments : Allocator → Conn → ℕ → ℕ → Packet → Channel → Conn × Bool
unfolding cut fragment_kind send_cut
send_fragments malloc c channel_id a packet ch =
    if ltb maximum_fragment_count count
    then (c, false)
    else send_cut c (fragment_command channel_id (fragment_kind packet ch) a total (count)) a packet
        (cut malloc (suc total) total (fragment_size c) 0 0)
  where
    total : ℕ
    total = packet.data_length

    count : ℕ
    count = fragment_count_of total (fragment_size c)

-- The command of a packet that is not cut: unsequenced, reliable or unreliable.
unfoldable pub single_command : ℕ → Packet → Channel → Protocol
single_command channel_id packet ch =
    if not (has_bit flag_reliable packet.flags) && has_bit flag_unsequenced packet.flags
    then send_unsequenced (record {
      header = with_number (unsequenced Number.send_unsequenced);
      unsequenced_group = 0;
      data_length = wrap16 packet.data_length;
    })
    else if has_bit flag_reliable packet.flags || leb 65535 ch.outgoing_unreliable_sequence_number
    then send_reliable (record {
      header = with_number (acknowledged Number.send_reliable);
      data_length = wrap16 packet.data_length;
    })
    else send_unreliable (record {
      header = with_number Number.send_unreliable;
      unreliable_sequence_number = 0;
      data_length = wrap16 packet.data_length;
    })
  where
    with_number : ℕ → CommandHeader
    with_number command = record {
      command = command;
      channel_id = channel_id;
      reliable_sequence_number = 0;
    }

-- `peer_send` of the packet at an address, with whether 0 was returned.
unfoldable pub peer_send : Allocator → Conn → ℕ → ℕ → Packet → Conn × Bool
unfolding send_fragments single_command
peer_send malloc c channel_id a packet =
    if not (State.value c.peer.state == State.value State.connected)
      || leb c.peer.channel_count channel_id
      || ltb c.host.maximum_packet_size packet.data_length
    then (c, false)
    else elim (get_elem? c.peer.channels channel_id) [
      | none ↦ (c, false)
      | some ch ↦
          if ltb (fragment_size c) packet.data_length
          then send_fragments malloc c channel_id a packet ch
          else peer_queue_outgoing_command malloc c (single_command channel_id packet ch) (some a) 0
              (wrap16 packet.data_length)
    ]
