-- ===== src/Peer/References.antt =====
-- The references from the queues of a peer to packets, against the reference counts of src/packet.cpp
-- that src/peer.cpp keeps.
pub mod Queueing
pub mod Sending
pub mod Resetting
pub mod Dispatching
pub mod Receiving
use enetcpp.Base.{ℕ, ◌≡◌, ◌+◌, List, [], ◌∷◌, ◌++◌, take, arith}
use enetcpp.Packet.Laws.{references, points_to}
use enetcpp.Peer.{Peer, Queues, Channel, OutgoingCommand}
use enetcpp.Peer.Dispatch.References.{held}
use enetcpp.Host.{Conn}

-- The references that a queue of outgoing commands has to a packet.
abbrev pub held_outgoing : ℕ → List OutgoingCommand → ℕ
held_outgoing a [] = 0
held_outgoing a (o ∷ os) = points_to a o.packet + held_outgoing a os

abbrev pub held_queues : ℕ → Queues → ℕ
held_queues a q =
    held_outgoing a q.sent_reliable_commands
    + held_outgoing a q.outgoing_commands
    + held_outgoing a q.outgoing_send_reliable_commands
    + held a q.dispatched_commands

abbrev pub held_channels : ℕ → List Channel → ℕ
held_channels a [] = 0
held_channels a (ch ∷ chs) =
    held a ch.incoming_reliable_commands
    + held a ch.incoming_unreliable_commands
    + held_channels a chs

-- Of the channels, those that are counted.
abbrev pub held_peer : ℕ → Peer → ℕ
held_peer a p = held_queues a p.queues + held_channels a (take p.channel_count p.channels)

-- The count of every packet is the number of references to it: those of the peer's queues, and those
-- from elsewhere.
abbrev pub IsAccounted : (ℕ → ℕ) → Conn → Type 0
IsAccounted elsewhere c = (a : ℕ) → references c.host.packets a ≡ elsewhere a + held_peer a c.peer

pub held_outgoing-append :
    (a : ℕ) (xs ys : List OutgoingCommand)
    → held_outgoing a (xs ++ ys) ≡ held_outgoing a xs + held_outgoing a ys
held_outgoing-append a [] ys = omega arith
held_outgoing-append a (x ∷ xs) ys = omega (arith, held_outgoing-append a xs ys)
