-- ===== src/Peer/Incoming/Refusal.antt =====
-- src/peer.cpp, `peer_queue_incoming_command`: the outcomes.
use enetcpp.Packet.{packet_create}
use enetcpp.Peer.State
use enetcpp.Base.{
  ◌≤◌, ◌⊎◌, false, none, some, true, ◌%◌, ◌+◌, ◌^◌, ◌||◌, ◌==◌, get_elem?, List, Option, ◌<◌, List,
  Option, ◌<◌, ◌≡◌, ℕ,
}
use enetcpp.Command.{Protocol, header}
use enetcpp.Memory.{Allocator, incoming_command}
use enetcpp.Peer.{Channel}
use enetcpp.Peer.Incoming.{Queued, queued, dummy, null, misses_window, spot, has_fragments}
use enetcpp.Peer.Incoming.Place.{discard}
use enetcpp.Host.{Host, Conn}
use enetcpp.Packet.{Packet}
use enetcpp.Packet.Store.{Store}

-- After a failure the peer and the packets that are alive are as they were, and so is all of the host
-- but the addresses that have been used.
pub record IsUndone (c d : Conn) : Type 0 where
  pub same_peer : d.peer ≡ c.peer
  pub same_packets : (a : ℕ) → d.host.packets a ≡ c.host.packets a
  pub same_host : d.host ≡ record c.host {
    packets = d.host.packets;
    next_packet = d.host.next_packet;
    next_command = d.host.next_command;
  }

-- Why a command is discarded: it names no channel, its peer is about to disconnect, it misses the
-- window, or it is not to be placed in its queue.
abbrev pub IsDropped : Conn → Protocol → Type 0
IsDropped c command =
    (get_elem? c.peer.channels (header command).channel_id ≡ none)
    ⊎ ((ch : Channel) × (get_elem? c.peer.channels (header command).channel_id ≡ some ch)
        × ((State.value c.peer.state == State.value State.disconnect_later
                || misses_window ch command
              ≡ true)
            ⊎ (spot ch command ≡ discard)))

-- What is missing for a command that is not queued: the allowance for waiting data, or the memory of
-- its packet, of the command or of its fragments.
pub data IsMissing (malloc : Allocator) (c : Conn) (bytes : Option (List ℕ))
    (data_length flags fragment_count : ℕ) : Type 0 where
  allowance :
      c.host.maximum_waiting_data ≤ c.peer.total_waiting_data
      → IsMissing malloc c bytes data_length flags fragment_count
  packet_memory :
      packet_create malloc bytes data_length flags ≡ none
      → IsMissing malloc c bytes data_length flags fragment_count
  command_memory :
      malloc.succeeds incoming_command ≡ false
      → IsMissing malloc c bytes data_length flags fragment_count
  fragments_memory :
      has_fragments malloc fragment_count ≡ false
      → IsMissing malloc c bytes data_length flags fragment_count

-- What the outcome says of the connection, and why it is that one.
abbrev pub Outcome :
    Allocator → Conn → Protocol → Option (List ℕ) → ℕ → ℕ → ℕ → Conn × Queued → Type 0
Outcome malloc c command bytes data_length flags fragment_count (d, queued a) =
    (a ≡ c.host.next_command)
    × (c.peer.total_waiting_data < c.host.maximum_waiting_data)
    × (d.peer.total_waiting_data ≡ (c.peer.total_waiting_data + data_length) % 2 ^ 64)
    × (d.peer.incoming_unsequenced_group ≡ c.peer.incoming_unsequenced_group)
    × (d.peer.unsequenced_window ≡ c.peer.unsequenced_window)
Outcome malloc c command bytes data_length flags fragment_count (d, dummy) =
    (d ≡ c) × (fragment_count ≡ 0) × IsDropped c command
Outcome malloc c command bytes data_length flags fragment_count (d, null) =
    IsUndone c d
    × (IsMissing malloc c bytes data_length flags fragment_count
        ⊎ (get_elem? c.peer.channels (header command).channel_id ≡ none)
        ⊎ ((0 < fragment_count) × IsDropped c command))
