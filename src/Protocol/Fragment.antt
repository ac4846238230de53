-- ===== src/Protocol/Fragment.antt =====
-- src/protocol.cpp: the handlers of the fragments of reliable and of unreliable packets.
pub mod Reassembly
pub mod Pieces
pub mod Completion
use enetcpp.Base.{
  ◌&&◌, ◌++◌, ◌+◌, Bool, List, Option, [], add32, false, get_elem?, if◌then◌else◌, leb, ltb, none,
  not, set, some, sub32, take, true, ◌!=◌, ◌-◌, ◌==◌, ◌||◌, ◌∷◌, ℕ,
}
use enetcpp.Command.{
  Protocol, SendFragment, send_fragment, header, command_mask, set_reliable_sequence_number,
}
use enetcpp.Command.Number
use enetcpp.Command.Limits.{maximum_fragment_count}
use enetcpp.Memory.{Allocator, memcpy}
use enetcpp.Packet.{Packet, flag_reliable, flag_unreliable_fragment}
use enetcpp.Packet.Store.{Store, update}
use enetcpp.Peer.{Channel, IncomingCommand}
use enetcpp.Peer.Window.{outside_window}
use enetcpp.Peer.Dispatch.{
  peer_dispatch_incoming_reliable_commands, peer_dispatch_incoming_unreliable_commands,
}
use enetcpp.Peer.Incoming.{Queued, queued, dummy, null, peer_queue_incoming_command, close}
use enetcpp.Peer.Incoming.Place.{Round, go_on, stop, same, judge_reliable, judge_unreliable}
use enetcpp.Host.{Host, Conn}
use enetcpp.Protocol.Receive.{Handled, is_refused, exceeds, payload}

-- The numbers of a fragment that no packet can have.
unfoldable pub malformed : Host → SendFragment → Bool
malformed h f =
    ltb maximum_fragment_count f.fragment_count
    || leb f.fragment_count f.fragment_number
    || ltb h.maximum_packet_size f.total_length
    || leb f.total_length f.fragment_offset
    || ltb (f.total_length - f.fragment_offset) f.data_length

-- What the loop over the queue finds: it is still going towards the front; no command of the
-- packet; a command of the same number that is no fragment of the packet; or the command of the
-- packet, between what stands before and after it.
pub data Start : Type 0 where
  walking absent conflict : Start
  present : List IncomingCommand → IncomingCommand → List IncomingCommand → Start

-- `(command & MASK) != … || totalLength != packet->dataLength || fragmentCount != …`
unfoldable pub is_other : Store → ℕ → SendFragment → IncomingCommand → Bool
is_other s kind f i =
    command_mask (header i.command).command != kind
    || not (has_length i.packet)
    || f.fragment_count != i.fragment_count
  where
    has_length : Option ℕ → Bool
    has_length none = false
    has_length (some a) = elim (s a) [ none ↦ false | some p ↦ f.total_length == p.data_length ]

abbrev pub visit_start :
    (IncomingCommand → Bool) → IncomingCommand → List IncomingCommand → Round → Start
visit_start other i after go_on = walking
visit_start other i after stop = absent
visit_start other i after same = if other i then conflict else present [] i after

abbrev pub step_back :
    (IncomingCommand → Round)
    → (IncomingCommand → Bool)
    → IncomingCommand
    → List IncomingCommand
    → Start
    → Start
step_back judge other i is walking = visit_start other i is (judge i)
step_back judge other i is absent = absent
step_back judge other i is conflict = conflict
step_back judge other i is (present before j after) = present (i ∷ before) j after

-- The loops make the same rounds as those of `peer_queue_incoming_command`.
unfoldable pub find_start :
    (IncomingCommand → Round) → (IncomingCommand → Bool) → List IncomingCommand → Start
find_start judge other [] = walking
find_start judge other (i ∷ is) = step_back judge other i is (find_start judge other is)

-- The bit of a fragment in `fragments`; a read past the end would be a fault.
abbrev pub fragment_bit : IncomingCommand → ℕ → Option Bool
fragment_bit i number = elim i.fragments [ none ↦ none | some bits ↦ get_elem? bits number ]

abbrev pub set_bit : Option (List Bool) → ℕ → Option (List Bool)
set_bit none number = none
set_bit (some bits) number = some (set bits number true)

-- `--fragmentsRemaining` and the bit
abbrev pub mark : IncomingCommand → ℕ → IncomingCommand
mark i number = record i {
  fragments_remaining = sub32 i.fragments_remaining 1;
  fragments = set_bit i.fragments number;
}

-- The bytes of a fragment that are copied, cut where they would exceed the packet.
abbrev pub trimmed : Packet → SendFragment → ℕ
trimmed p f =
    if ltb p.data_length (add32 f.fragment_offset f.data_length)
    then p.data_length - f.fragment_offset
    else f.data_length

-- The copy into the packet; `none` is a fault.
unfoldable pub copy_fragment : Packet → SendFragment → List ℕ → Option Packet
copy_fragment p f bytes = elim p.bytes [
  | none ↦ none
  | some block ↦ elim (memcpy block f.fragment_offset (take (trimmed p f) bytes)) [
    | none ↦ none
    | some block' ↦ some (record p { bytes = some block' })
  ]
]

-- The test and the effects on the command and its packet: nothing for a fragment that has come
-- before.
pub data Applied : Type 0 where
  fault seen : Applied
  marked : IncomingCommand → Packet → Applied

abbrev pub marked_or_fault : IncomingCommand → ℕ → Option Packet → Applied
marked_or_fault i number none = fault
marked_or_fault i number (some p) = marked (mark i number) p

unfoldable pub apply_fragment : IncomingCommand → Packet → SendFragment → List ℕ → Applied
unfolding copy_fragment
apply_fragment i p f bytes = elim (fragment_bit i f.fragment_number) [
  | none ↦ fault
  | some true ↦ seen
  | some false ↦ marked_or_fault i f.fragment_number (copy_fragment p f bytes)
]

-- The two kinds of fragments, by the queue that they wait in.
pub data Kind : Type 0 where
  reliable unreliable : Kind

abbrev pub queue_of : Kind → Channel → List IncomingCommand
queue_of reliable ch = ch.incoming_reliable_commands
queue_of unreliable ch = ch.incoming_unreliable_commands

abbrev pub with_queue : Kind → Channel → List IncomingCommand → Channel
with_queue reliable ch l = record ch { incoming_reliable_commands = l }
with_queue unreliable ch l = record ch { incoming_unreliable_commands = l }

abbrev pub dispatch_kind : Kind → Conn → Channel → Conn × Channel
dispatch_kind reliable c ch = peer_dispatch_incoming_reliable_commands c ch none
dispatch_kind unreliable c ch = peer_dispatch_incoming_unreliable_commands c ch none

-- The command is put back, and its queue dispatched if it was the last fragment.
unfoldable pub put_marked :
    Kind → Conn → ℕ → Channel → List IncomingCommand → IncomingCommand → List IncomingCommand → Conn
put_marked kind c channel_id ch before i after = close channel_id (
    if i.fragments_remaining == 0
    then dispatch_kind kind c (with_queue kind ch (before ++ i ∷ after))
    else (c, with_queue kind ch (before ++ i ∷ after)))

abbrev pub store_packet : Conn → ℕ → Packet → Conn
store_packet c a p = record c {
  host = record c.host { packets = update c.host.packets a (some p) };
}

-- From the test of the bit on; `none` is a fault.
unfoldable pub assemble : Kind → Conn → ℕ → Channel → SendFragment → List ℕ → Start → Option Conn
unfolding apply_fragment put_marked
assemble kind c channel_id ch f bytes (present before i after) = elim i.packet [
  | none ↦ none
  | some a ↦ elim (c.host.packets a) [
    | none ↦ none
    | some p ↦ elim (apply_fragment i p f bytes) [
      | fault ↦ none
      | seen ↦ some c
      | marked i' p' ↦ some (put_marked kind (store_packet c a p') channel_id ch before i' after)
    ]
  ]
]
assemble kind c channel_id ch f bytes walking = none
assemble kind c channel_id ch f bytes absent = none
assemble kind c channel_id ch f bytes conflict = none

-- The command that `peer_queue_incoming_command` returned, in its queue.
unfoldable pub find_queued : ℕ → List IncomingCommand → Start
unfolding find_start
find_queued a = find_start (λ i. if i.address == a then same else go_on) (λ _. false)

abbrev pub finished : ℕ → Option Conn → Option Handled
finished end none = none
finished end (some c) = some (record { conn = c; current_data = end; ok = true })

abbrev pub failed : Conn → ℕ → Option Handled
failed c end = some (record { conn = c; current_data = end; ok = false })

-- After the first fragment has been queued.
unfoldable pub assemble_queued :
    Kind → ℕ → SendFragment → List ℕ → ℕ → Conn × Queued → Option Handled
unfolding assemble find_queued
assemble_queued kind channel_id f bytes end (c, queued a) =
    elim (get_elem? c.peer.channels channel_id) [
      | none ↦ none
      | some ch ↦
          finished end (assemble kind c channel_id ch f bytes (find_queued a (queue_of kind ch)))
    ]
assemble_queued kind channel_id f bytes end (c, dummy) = none
assemble_queued kind channel_id f bytes end (c, null) = failed c end

-- What the handlers share from their loop on: `queue_first` is the call for the first fragment.
unfoldable pub continue_fragment :
    Kind → Conn → Channel → SendFragment → List ℕ → ℕ → Conn × Queued → Start → Option Handled
unfolding assemble_queued
continue_fragment kind c ch f bytes end queue_first walking =
    assemble_queued kind f.header.channel_id f bytes end queue_first
continue_fragment kind c ch f bytes end queue_first absent =
    assemble_queued kind f.header.channel_id f bytes end queue_first
continue_fragment kind c ch f bytes end queue_first conflict = failed c end
continue_fragment kind c ch f bytes end queue_first (present before i after) =
    finished end (assemble kind c f.header.channel_id ch f bytes (present before i after))

-- `hostCommand`, which carries the number of the first fragment
abbrev pub host_command : SendFragment → Protocol
host_command f = set_reliable_sequence_number f.start_sequence_number (send_fragment f)

unfoldable pub ignored : Conn → ℕ → Option Handled
ignored c end = some (record { conn = c; current_data = end; ok = true })

unfoldable pub reliable_fragment : Allocator → Conn → SendFragment → ℕ → Channel → Option Handled
unfolding ignored find_start is_other continue_fragment malformed
reliable_fragment malloc c f start ch =
    if outside_window f.start_sequence_number ch.incoming_reliable_sequence_number
    then ignored c end
    else if malformed c.host f || ltb f.total_length f.fragment_count
    then failed c end
    else continue_fragment reliable c ch f (payload c.host start f.data_length) end
        (peer_queue_incoming_command malloc c (host_command f) none f.total_length flag_reliable
          f.fragment_count)
        (find_start (judge_reliable ch.incoming_reliable_sequence_number f.start_sequence_number)
          (is_other c.host.packets Number.send_fragment f) ch.incoming_reliable_commands)
  where
    end : ℕ
    end = start + f.data_length

-- `none` is a fault.
unfoldable pub handle_send_fragment : Allocator → Conn → SendFragment → ℕ → Option Handled
unfolding reliable_fragment
handle_send_fragment malloc c f start =
    if is_refused c.peer f.header.channel_id
    then failed c start
    else if f.data_length == 0 || exceeds c.host f.data_length (start + f.data_length)
    then failed c (start + f.data_length)
    else elim (get_elem? c.peer.channels f.header.channel_id) [
      | none ↦ none
      | some ch ↦ reliable_fragment malloc c f start ch
    ]

-- A fragment of a packet that has come, or has been passed by.
abbrev pub is_late : Channel → SendFragment → Bool
is_late ch f =
    f.header.reliable_sequence_number == ch.incoming_reliable_sequence_number
    && leb f.start_sequence_number ch.incoming_unreliable_sequence_number

unfoldable pub unreliable_fragment : Allocator → Conn → SendFragment → ℕ → Channel → Option Handled
unfolding ignored find_start is_other continue_fragment malformed
unreliable_fragment malloc c f start ch =
    if outside_window f.header.reliable_sequence_number ch.incoming_reliable_sequence_number
      || is_late ch f
    then ignored c end
    else if malformed c.host f
    then failed c end
    else continue_fragment unreliable c ch f (payload c.host start f.data_length) end
        (peer_queue_incoming_command malloc c (send_fragment f) none f.total_length
          flag_unreliable_fragment f.fragment_count)
        (find_start
          (judge_unreliable Number.send_unreliable_fragment ch.incoming_reliable_sequence_number
            f.header.reliable_sequence_number f.start_sequence_number)
          (is_other c.host.packets Number.send_unreliable_fragment f)
          ch.incoming_unreliable_commands)
  where
    end : ℕ
    end = start + f.data_length

-- `none` is a fault.
unfoldable pub handle_send_unreliable_fragment :
    Allocator → Conn → SendFragment → ℕ → Option Handled
unfolding unreliable_fragment
handle_send_unreliable_fragment malloc c f start =
    if is_refused c.peer f.header.channel_id
    then failed c start
    else if exceeds c.host f.data_length (start + f.data_length)
    then failed c (start + f.data_length)
    else elim (get_elem? c.peer.channels f.header.channel_id) [
      | none ↦ none
      | some ch ↦ unreliable_fragment malloc c f start ch
    ]
