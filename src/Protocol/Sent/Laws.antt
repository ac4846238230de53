-- ===== src/Protocol/Sent/Laws.antt =====
-- src/protocol.cpp, `enet_protocol_remove_sent_reliable_command`: what is removed, and its reference.
use mathlib.Core.Option
use enetcpp.Base.{
  All, false, if◌then◌else◌, not, ◌⊎◌, ℕ, ◌≡◌, ◌+◌, List, [], ◌∷◌, ◌++◌, none, some, Option, true,
  ltb,
}
use enetcpp.Command.{header, flag_acknowledge}
use enetcpp.Command.Number
use enetcpp.Packet.Laws.{points_to}
use enetcpp.Peer.{Peer, OutgoingCommand, Queues}
use enetcpp.Peer.References.{held_queues}
use enetcpp.Protocol.Sent.{Taken, is_numbered, Removal}

-- A command is taken out of a queue: it has the numbers asked for, and what is left is the queue
-- without it, in order.
pub record IsTaken (number channel_id : ℕ) (queue : List OutgoingCommand) (t : Taken) : Type 0 where
  pub before : List OutgoingCommand
  pub after : List OutgoingCommand
  pub numbered : is_numbered number channel_id t.command ≡ true
  pub whole : before ++ t.command ∷ after ≡ queue
  pub left : before ++ after ≡ t.rest

-- No command of a list has the numbers.
abbrev pub Lacks : ℕ → ℕ → List OutgoingCommand → Type 0
Lacks number channel_id os = All (λ o. is_numbered number channel_id o ≡ false) os

-- The commands of a queue that ask for an acknowledgement, up to the first that has not been sent.
abbrev pub resent_part : List OutgoingCommand → List OutgoingCommand
resent_part [] = []
resent_part (o ∷ os) =
    if not (flag_acknowledge (header o.command).command)
    then resent_part os
    else if ltb o.send_attempts 1
    then []
    else o ∷ resent_part os

abbrev pub AreTaken : Type 0 → ℕ → ℕ → List OutgoingCommand → Option Taken → Type 0
AreTaken Absent number channel_id queue none = Absent
AreTaken Absent number channel_id queue (some t) = IsTaken number channel_id queue t

abbrev pub TakenFrom :
    ℕ → ℕ → OutgoingCommand → List OutgoingCommand → List OutgoingCommand → Type 0
TakenFrom number channel_id o queue rest =
    IsTaken number channel_id queue (record { command = o; rest = rest })

-- A removal takes one command of the numbers out of one of the three queues of outgoing commands, the
-- first that has one; the other queues stay. `was_sent` is said of the first queue.
pub record IsRemoval (number channel_id : ℕ) (q : Queues) (r : Removal) : Type 0 where
  pub numbered : is_numbered number channel_id r.command ≡ true
  pub taken :
      ((r.was_sent ≡ true)
        × TakenFrom number channel_id r.command q.sent_reliable_commands
            r.queues.sent_reliable_commands
        × (r.queues ≡ record q { sent_reliable_commands = r.queues.sent_reliable_commands }))
      ⊎ ((r.was_sent ≡ false)
          × Lacks number channel_id q.sent_reliable_commands
          × TakenFrom number channel_id r.command q.outgoing_commands r.queues.outgoing_commands
          × (r.queues ≡ record q { outgoing_commands = r.queues.outgoing_commands }))
      ⊎ ((r.was_sent ≡ false)
          × Lacks number channel_id q.sent_reliable_commands
          × Lacks number channel_id (resent_part q.outgoing_commands)
          × TakenFrom number channel_id r.command q.outgoing_send_reliable_commands
              r.queues.outgoing_send_reliable_commands
          × (r.queues ≡ record q {
            outgoing_send_reliable_commands = r.queues.outgoing_send_reliable_commands;
          }))
  pub held : (a : ℕ) → held_queues a q ≡ points_to a r.command.packet + held_queues a r.queues

-- None of the three queues has a command of the numbers that may be removed.
abbrev pub IsAbsent : ℕ → ℕ → Queues → Type 0
IsAbsent number channel_id q =
    Lacks number channel_id q.sent_reliable_commands
    × Lacks number channel_id (resent_part q.outgoing_commands)
    × Lacks number channel_id (resent_part q.outgoing_send_reliable_commands)

abbrev pub AreRemovals : ℕ → ℕ → Queues → Option Removal → Type 0
AreRemovals number channel_id q none = IsAbsent number channel_id q
AreRemovals number channel_id q (some r) = IsRemoval number channel_id q r
