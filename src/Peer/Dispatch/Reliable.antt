-- ===== src/Peer/Dispatch/Reliable.antt =====
-- What `peer_dispatch_incoming_reliable_commands` hands to the application, and what it leaves.
use enetcpp.Base.{
  ◌⊎◌, All, Bool-cases, List, [], ap, arith, inl, inr, is_empty, refl, true, ◌%◌, ◌++◌, ◌∷◌, ◌≡◌, ℕ,
  ◌+◌,
}
use enetcpp.Peer.{Channel, IncomingCommand}
use enetcpp.Peer.Dispatch.{scan, not_next, last_number}
use enetcpp.Peer.Dispatch.Unreliable.{IsReady}
use enetcpp.Host.{Conn}

-- The commands are complete, each carries the number after the last one of the command before it,
-- and the last one's is `last`.
abbrev pub InSequence : ℕ → List IncomingCommand → ℕ → Type 0
InSequence current [] last = last ≡ current
InSequence current (i ∷ is) last =
    (i.fragments_remaining ≡ 0)
    × (i.reliable_sequence_number ≡ (current + 1) % 65536)
    × InSequence (last_number i) is last

-- The first command is not the next one, or not complete.
abbrev pub Waits : ℕ → List IncomingCommand → Type 0
Waits last [] = Unit
Waits last (i ∷ is) = not_next last i ≡ true

-- The division of a queue by the loop.
pub record IsScanned (current : ℕ) (queue : List IncomingCommand)
    (r : List IncomingCommand × List IncomingCommand × ℕ) : Type 0 where
  pub whole : r.0 ++ r.1 ≡ queue
  pub sequence : InSequence current r.0 r.2
  pub waits : Waits r.2 r.1

pub scan-IsScanned :
    (current : ℕ) (queue : List IncomingCommand) → IsScanned current queue (scan current queue)
unfolding scan
scan-IsScanned current [] = record { whole = refl; sequence = refl; waits = tt }
scan-IsScanned current (i ∷ is) = elim (Bool-cases (not_next current i)) [
  | inl e ↦ rw (scan, e) (record { whole = refl; sequence = refl; waits = e })
  | inr e ↦
      let rest = scan-IsScanned (last_number i) is in
      rw (scan, e)
        (record {
          whole = ap (λ (l : List IncomingCommand). i ∷ l) rest.whole;
          sequence = (ground (arith, e), ground (arith, e), rest.sequence);
          waits = rest.waits;
        })
]

-- What a dispatch does to a channel and to the connection.
pub record IsDispatched (c : Conn) (ch : Channel) (d : Conn) (ch' : Channel) : Type 0 where
  pub passed : List IncomingCommand
  pub more : List IncomingCommand
  pub whole : passed ++ ch'.incoming_reliable_commands ≡ ch.incoming_reliable_commands
  pub sequence :
      InSequence ch.incoming_reliable_sequence_number passed ch'.incoming_reliable_sequence_number
  pub waits : Waits ch'.incoming_reliable_sequence_number ch'.incoming_reliable_commands
  pub delivered :
      d.peer.queues.dispatched_commands ≡ c.peer.queues.dispatched_commands ++ (passed ++ more)
  pub ready : All (IsReady ch'.incoming_reliable_sequence_number) more
  pub requested : (is_empty passed ≡ true) ⊎ (d.peer.needs_dispatch ≡ true)
