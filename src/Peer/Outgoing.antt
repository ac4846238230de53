-- ===== src/Peer/Outgoing.antt =====
-- src/peer.cpp: `peer_setup_outgoing_command` and `peer_queue_outgoing_command`, by which every
-- command is numbered and put into a queue, and `peer_has_outgoing_commands`.
use enetcpp.Base.{
  Bool, Option, [], add16, add32, false, get_elem?, if◌then◌else◌, is_empty, length, none, not, set,
  some, true, ◌&&◌, ◌++◌, ◌+◌, ◌==◌, ◌∷◌, ℕ,
}
use enetcpp.Command.{
  Protocol, header, command_mask, flag_acknowledge, flag_unsequenced, set_reliable_sequence_number,
  set_unreliable_sequence_number, set_unsequenced_group,
}
use enetcpp.Command.Number
use enetcpp.Command.Size.{protocol_command_size}
use enetcpp.Memory.{Allocator, outgoing_command}
use enetcpp.Packet.Store.{Store, retain}
use enetcpp.Peer.{Peer, Channel, OutgoingCommand}
use enetcpp.Host.{Conn}

-- `protocol_command_size`; no command is made whose number lies past the table.
abbrev pub size_of : ℕ → ℕ
size_of command = elim (protocol_command_size command) [ none ↦ 0 | some n ↦ n ]

-- The two sequence numbers of a command.
abbrev pub with_numbers : OutgoingCommand → ℕ → ℕ → OutgoingCommand
with_numbers o reliable unreliable = record o {
  reliable_sequence_number = reliable;
  unreliable_sequence_number = unreliable;
}

abbrev pub put_channel : Peer → ℕ → Channel → Peer
put_channel p i ch = record p { channels = set p.channels i ch }

-- The numbering on a channel.
unfoldable pub number_on_channel : Peer → OutgoingCommand → Channel → Peer × OutgoingCommand
number_on_channel p o ch =
    if flag_acknowledge command
    then (
      put_channel p channel_id (record ch {
        outgoing_reliable_sequence_number = add16 ch.outgoing_reliable_sequence_number 1;
        outgoing_unreliable_sequence_number = 0;
      }),
      with_numbers o (add16 ch.outgoing_reliable_sequence_number 1) 0,
    )
    else if flag_unsequenced command
    then (
      record p { outgoing_unsequenced_group = add16 p.outgoing_unsequenced_group 1 },
      with_numbers o 0 0,
    )
    else if o.fragment_offset == 0
    then (
      put_channel p channel_id (record ch {
        outgoing_unreliable_sequence_number = add16 ch.outgoing_unreliable_sequence_number 1;
      }),
      with_numbers o ch.outgoing_reliable_sequence_number
          (add16 ch.outgoing_unreliable_sequence_number 1),
    )
    else (
      p,
      with_numbers o ch.outgoing_reliable_sequence_number ch.outgoing_unreliable_sequence_number,
    )
  where
    open (header o.command) use {command, channel_id}

-- Channel 0xFF is the peer itself. The index of any other is below the number of channels.
unfoldable pub number_command : Peer → OutgoingCommand → Peer × OutgoingCommand
unfolding number_on_channel
number_command p o =
    if (header o.command).channel_id == 255
    then (
      record p { outgoing_reliable_sequence_number = add16 p.outgoing_reliable_sequence_number 1 },
      with_numbers o (add16 p.outgoing_reliable_sequence_number 1) 0,
    )
    else elim (get_elem? p.channels (header o.command).channel_id) [
      | none ↦ (p, o)
      | some ch ↦ number_on_channel p o ch
    ]

-- `switch (command & PROTOCOL_COMMAND_MASK)`, after the number of the header.
unfoldable pub fill_command : Peer → OutgoingCommand → Protocol
fill_command p o =
    if command_mask (header o.command).command == Number.send_unreliable
    then set_unreliable_sequence_number o.unreliable_sequence_number numbered
    else if command_mask (header o.command).command == Number.send_unsequenced
    then set_unsequenced_group p.outgoing_unsequenced_group numbered
    else numbered
  where
    numbered : Protocol
    numbered = set_reliable_sequence_number o.reliable_sequence_number o.command

-- The command as it is queued, once numbered.
unfoldable pub prepare : Peer → OutgoingCommand → ℕ → OutgoingCommand
unfolding fill_command
prepare p o queue_time = record o {
  send_attempts = 0;
  sent_time = 0;
  round_trip_timeout = 0;
  command = fill_command p o;
  queue_time = queue_time;
}

-- `list_insert(list_end(…), …)`, into the queue for reliable packets or into the other.
unfoldable pub enqueue : Peer → OutgoingCommand → Peer
enqueue p o =
    if flag_acknowledge (header o.command).command
    then elim o.packet [
      | none ↦ record p {
        queues = record p.queues { outgoing_commands = p.queues.outgoing_commands ++ o ∷ [] };
      }
      | some a ↦ record p {
        queues = record p.queues {
          outgoing_send_reliable_commands = p.queues.outgoing_send_reliable_commands ++ o ∷ [];
        };
      }
    ]
    else record p {
      queues = record p.queues { outgoing_commands = p.queues.outgoing_commands ++ o ∷ [] };
    }

-- `peer->outgoingDataTotal += …`
unfoldable pub count_data : Peer → OutgoingCommand → Peer
count_data p o = record p {
  bandwidth = record p.bandwidth {
    outgoing_data_total =
        add32 p.bandwidth.outgoing_data_total
          (size_of (header o.command).command + o.fragment_length);
  };
}

unfoldable pub peer_setup_outgoing_command : Conn → OutgoingCommand → Conn
unfolding count_data number_command prepare enqueue
peer_setup_outgoing_command c o =
    let (p, numbered) = number_command (count_data c.peer o) o in
    let queue_time = add32 c.host.total_queued 1 in
    record {
      host = record c.host { total_queued = queue_time };
      peer = enqueue p (prepare p numbered queue_time);
    }

-- A command as it is allocated. The fields that are left are all set before it is queued.
abbrev pub new_command : Protocol → Option ℕ → ℕ → ℕ → OutgoingCommand
new_command command packet offset length = record {
  reliable_sequence_number = 0;
  unreliable_sequence_number = 0;
  sent_time = 0;
  round_trip_timeout = 0;
  queue_time = 0;
  fragment_offset = offset;
  fragment_length = length;
  send_attempts = 0;
  command = command;
  packet = packet;
}

-- `if (packet != nullptr) ++packet->referenceCount;`
abbrev pub retain_packet : Store → Option ℕ → Store
retain_packet s none = s
retain_packet s (some a) = retain s a

-- `peer_queue_outgoing_command`, with whether a command was allocated.
unfoldable pub peer_queue_outgoing_command :
    Allocator → Conn → Protocol → Option ℕ → ℕ → ℕ → Conn × Bool
peer_queue_outgoing_command malloc c command packet offset length =
    if malloc.succeeds (outgoing_command 0)
    then (
      peer_setup_outgoing_command
          (record c { host = record c.host { packets = retain_packet c.host.packets packet } })
          (new_command command packet offset length),
      true,
    )
    else (c, false)

unfoldable pub peer_has_outgoing_commands : Peer → Bool
peer_has_outgoing_commands p = not (
    is_empty p.queues.outgoing_commands
    && is_empty p.queues.outgoing_send_reliable_commands
    && is_empty p.queues.sent_reliable_commands)
