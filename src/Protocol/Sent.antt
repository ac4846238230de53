-- ===== src/Protocol/Sent.antt =====
-- src/protocol.cpp: the removal of a reliable command that has been acknowledged.
pub mod Laws
use enetcpp.Base.{
  Bool, List, Option, [], add32, false, get_elem?, if◌then◌else◌, ltb, none, not, some, sub32, true,
  ◌&&◌, ◌-◌, ◌/◌, ◌==◌, ◌∷◌, ℕ,
}
use enetcpp.Command.{header, command_mask, flag_acknowledge}
use enetcpp.Command.Number
use enetcpp.Packet.Store.{release}
use enetcpp.Peer.{Peer, Channel, OutgoingCommand, Queues}
use mathlib.Core.Option
use enetcpp.Peer.Default.{reliable_window_size}
use enetcpp.Peer.Outgoing.{put_channel}
use enetcpp.Host.{Conn}

-- A command, and the queue without it.
pub record Taken : Type 0 where
  pub command : OutgoingCommand
  pub rest : List OutgoingCommand

abbrev pub keep : OutgoingCommand → Taken → Taken
keep o t = record t { rest = o ∷ t.rest }

abbrev pub is_numbered : ℕ → ℕ → OutgoingCommand → Bool
is_numbered number channel_id o =
    o.reliable_sequence_number == number && (header o.command).channel_id == channel_id

-- The loop over `sentReliableCommands`.
unfoldable pub take_sent : ℕ → ℕ → List OutgoingCommand → Option Taken
take_sent number channel_id [] = none
take_sent number channel_id (o ∷ os) =
    if is_numbered number channel_id o
    then some (record { command = o; rest = os })
    else Option.map (keep o) (take_sent number channel_id os)

-- `enet_protocol_find_sent_reliable_command`: of the commands that ask for an acknowledgement, up to
-- the first that has not been sent.
unfoldable pub take_resent : ℕ → ℕ → List OutgoingCommand → Option Taken
take_resent number channel_id [] = none
take_resent number channel_id (o ∷ os) =
    let later = Option.map (keep o) (take_resent number channel_id os) in
    if not (flag_acknowledge (header o.command).command)
    then later
    else if ltb o.send_attempts 1
    then none
    else if is_numbered number channel_id o
    then some (record { command = o; rest = os })
    else later

-- The command, the queues without it, and `wasSent`.
pub record Removal : Type 0 where
  pub command : OutgoingCommand
  pub queues : Queues
  pub was_sent : Bool

abbrev pub from_sent : Queues → Taken → Removal
from_sent q t = record {
  command = t.command;
  queues = record q { sent_reliable_commands = t.rest };
  was_sent = true;
}

abbrev pub from_outgoing : Queues → Taken → Removal
from_outgoing q t = record {
  command = t.command;
  queues = record q { outgoing_commands = t.rest };
  was_sent = false;
}

abbrev pub from_send_reliable : Queues → Taken → Removal
from_send_reliable q t = record {
  command = t.command;
  queues = record q { outgoing_send_reliable_commands = t.rest };
  was_sent = false;
}

unfoldable pub find_removal : Queues → ℕ → ℕ → Option Removal
unfolding take_sent take_resent
find_removal q number channel_id = elim (take_sent number channel_id q.sent_reliable_commands) [
  | some t ↦ some (from_sent q t)
  | none ↦ elim (take_resent number channel_id q.outgoing_commands) [
    | some t ↦ some (from_outgoing q t)
    | none ↦
        Option.map (from_send_reliable q)
          (take_resent number channel_id q.outgoing_send_reliable_commands)
  ]
]

-- `reliableWindows` and `usedReliableWindows`, for the window of the number
unfoldable pub leave_window : Channel → ℕ → Channel
leave_window ch window =
    if ltb 0 (ch.reliable_windows window)
    then record ch {
      reliable_windows =
          λ w. if w == window then ch.reliable_windows window - 1 else ch.reliable_windows w;
      used_reliable_windows = λ w.
          if w == window && ch.reliable_windows window == 1
          then false
          else ch.used_reliable_windows w;
    }
    else ch

unfoldable pub leave_channel : Peer → ℕ → ℕ → Peer
unfolding leave_window
leave_channel p channel_id number =
    if ltb channel_id p.channel_count
    then elim (get_elem? p.channels channel_id) [
      | none ↦ p
      | some ch ↦ put_channel p channel_id (leave_window ch (number / reliable_window_size))
    ]
    else p

-- `peer->nextTimeout`, of the command that is now the first
abbrev pub next_timeout : ℕ → List OutgoingCommand → ℕ
next_timeout old [] = old
next_timeout old (o ∷ os) = add32 o.sent_time o.round_trip_timeout

abbrev pub in_transit : ℕ → Removal → ℕ
in_transit n r = elim r.command.packet [
  | none ↦ n
  | some a ↦ if r.was_sent then sub32 n r.command.fragment_length else n
]

unfoldable pub apply_removal : Conn → Removal → Conn
apply_removal c r = record {
  host = record c.host { packets = release c.host.packets r.command.packet };
  peer = record c.peer {
    queues = r.queues;
    reliable_data_in_transit = in_transit c.peer.reliable_data_in_transit r;
    timing = record c.peer.timing {
      next_timeout = next_timeout c.peer.timing.next_timeout r.queues.sent_reliable_commands;
    };
  };
}

-- With the number of the command that is removed, NONE if there is no such command.
unfoldable pub remove_sent_reliable_command : Conn → ℕ → ℕ → Conn × ℕ
unfolding find_removal apply_removal leave_channel
remove_sent_reliable_command c number channel_id =
    elim (find_removal c.peer.queues number channel_id) [
      | none ↦ (c, Number.none)
      | some r ↦ (
        apply_removal (record c { peer = leave_channel c.peer channel_id number }) r,
        command_mask (header r.command.command).command,
      )
    ]
