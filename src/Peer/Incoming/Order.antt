-- ===== src/Peer/Incoming/Order.antt =====
-- The order of the queue of incoming reliable commands, for `peer_queue_incoming_command` of src/peer.cpp.
use native.Mathlib.Decide.{dec_lt}
use enetcpp.Base.{
  true, ◌||◌, ◌≢◌, inl, inr, refl, ap, arith, Bool-cases, ◌==◌, arith, ◌≡◌, ℕ, ◌<◌, ◌⊎◌, List, [],
  ◌∷◌, ◌++◌, ltb, if◌then◌else◌,
}
use enetcpp.Command.Number
use enetcpp.Peer.{Channel, IncomingCommand}
use enetcpp.Peer.Window.Exact.{ahead}
use enetcpp.Peer.Incoming.Place.{
  go_on, stop, same, Placement, front, duplicate, placed, visit, then_visit, place, judge_reliable,
  Spot, discard, reliable, unreliable, spot_of, reliable_spot,
}

-- The commands are further ahead of the channel's number, one by one, and all by more than `k`.
abbrev pub Above : ℕ → ℕ → List IncomingCommand → Type 0
Above current k [] = Unit
Above current k (i ∷ is) =
    (i.reliable_sequence_number < 65536)
    × (k < ahead i.reliable_sequence_number current)
    × Above current (ahead i.reliable_sequence_number current) is

-- Strictly ordered, and all ahead of the channel's number.
abbrev pub IsOrdered : ℕ → List IncomingCommand → Type 0
IsOrdered current queue = Above current 0 queue

-- A command of the number is in the queue.
abbrev pub Has : ℕ → List IncomingCommand → Type 0
Has number [] = ⊥
Has number (i ∷ is) = (i.reliable_sequence_number ≡ number) ⊎ Has number is

judge_reliable_exact :
    (current number : ℕ) (i : IncomingCommand)
    → current < 65536
    → number < 65536
    → i.reliable_sequence_number < 65536
    → judge_reliable current number i ≡ (
        if ltb (ahead number current) (ahead i.reliable_sequence_number current)
        then go_on
        else if ltb (ahead i.reliable_sequence_number current) (ahead number current)
        then stop
        else same)
unfolding judge_reliable
judge_reliable_exact current number i h k l = ground arith

ahead-injective :
    (current a b : ℕ)
    → current < 65536
    → a < 65536
    → b < 65536
    → ahead a current ≡ ahead b current
    → a ≡ b
ahead-injective current a b h k l e = omega (arith, e)

module _ (current number : ℕ) (h : current < 65536) (l : number < 65536) where
  Nat_cases : (a b : ℕ) → (a < b) ⊎ (b < a) ⊎ (b ≡ a)
  Nat_cases a b = elim (dec_lt a b) [
    | yes h ↦ inl h
    | no m ↦ elim (dec_lt b a) [ yes k ↦ inr (inl k) | no n ↦ inr (inr (omega arith)) ]
  ]

  -- What a place says of the queue.
  abbrev Fits : ℕ → List IncomingCommand → Placement → Type 0
  Fits k queue front = Above current (ahead number current) queue
  Fits k queue duplicate = Has number queue
  Fits k queue (placed before after) =
      (before ++ after ≡ queue)
      × ((i : IncomingCommand)
          → i.reliable_sequence_number ≡ number
          → Above current k (before ++ i ∷ after))

  visit-Fits :
      (k : ℕ) (i : IncomingCommand) (is : List IncomingCommand)
      → Above current k (i ∷ is)
      → Above current (ahead number current) is
      → Fits k (i ∷ is) (visit i is (judge_reliable current number i))
  visit-Fits k i is (small, above, order) later =
      by_distance (Nat_cases (ahead number current) (ahead i.reliable_sequence_number current))
    where
      exact : judge_reliable current number i ≡ (
          if ltb (ahead number current) (ahead i.reliable_sequence_number current)
          then go_on
          else if ltb (ahead i.reliable_sequence_number current) (ahead number current)
          then stop
          else same)
      exact = judge_reliable_exact current number i h l small

      behind_it :
          ahead i.reliable_sequence_number current < ahead number current
          → (j : IncomingCommand) → j.reliable_sequence_number ≡ number
          → Above current (ahead i.reliable_sequence_number current) (j ∷ is)
      behind_it behind j named = (rw named l, rw named behind, rw named later)

      by_distance :
          (ahead number current < ahead i.reliable_sequence_number current)
            ⊎ (ahead i.reliable_sequence_number current < ahead number current)
            ⊎ (ahead i.reliable_sequence_number current ≡ ahead number current)
          → Fits k (i ∷ is) (visit i is (judge_reliable current number i))
      by_distance (inl before) =
          let e : judge_reliable current number i ≡ go_on = ground (arith, exact) in
          rw e (small, before, order)
      by_distance (inr (inl behind)) =
          let e : judge_reliable current number i ≡ stop = ground (arith, exact) in
          rw e (refl, λ j named. (small, above, behind_it behind j named))
      by_distance (inr (inr level)) =
          let e : judge_reliable current number i ≡ same = ground (arith, exact) in
          rw e (inl (ahead-injective current i.reliable_sequence_number number h small l level))

  then_visit-Fits :
      (k : ℕ) (i : IncomingCommand) (is : List IncomingCommand) (p : Placement)
      → Above current k (i ∷ is)
      → Fits (ahead i.reliable_sequence_number current) is p
      → Fits k (i ∷ is) (then_visit (judge_reliable current number) i is p)
  then_visit-Fits k i is front v f = visit-Fits k i is v f
  then_visit-Fits k i is duplicate v f = inr f
  then_visit-Fits k i is (placed before after) (small, above, order) (whole, ordered) =
      (ap (λ (q : List IncomingCommand). i ∷ q) whole, λ j e. (small, above, ordered j e))

  place-Fits :
      (k : ℕ) (queue : List IncomingCommand)
      → Above current k queue
      → Fits k queue (place (judge_reliable current number) queue)
  unfolding place
  place-Fits k [] v = tt
  place-Fits k (i ∷ is) (small, above, order) =
      then_visit-Fits k i is (place (judge_reliable current number) is) (small, above, order)
        (place-Fits (ahead i.reliable_sequence_number current) is order)

-- What a spot promises for a queue of reliable commands and a number: it is refused if it is the
-- channel's own or in the queue, and otherwise the queue is split, in order, around its place.
abbrev IsRightSpot : ℕ → ℕ → List IncomingCommand → Spot → Type 0
IsRightSpot current number queue discard = (number ≡ current) ⊎ Has number queue
IsRightSpot current number queue (unreliable before after) = ⊥
IsRightSpot current number queue (reliable before after) =
    (before ++ after ≡ queue)
    × ((i : IncomingCommand)
        → i.reliable_sequence_number ≡ number
        → IsOrdered current (before ++ i ∷ after))

reliable_spot-IsRight :
    (current number : ℕ) (queue : List IncomingCommand) (p : Placement)
    → (h : current < 65536) → (l : number < 65536) → number ≢ current
    → Fits current number h l 0 queue p
    → IsRightSpot current number queue (reliable_spot queue p)
reliable_spot-IsRight current number queue front h l other f =
    (refl, λ i named. (rw named l, rw named positive, rw named f))
  where
    positive : 0 < ahead number current
    positive = ground (arith, other)
reliable_spot-IsRight current number queue duplicate h l other f = inr f
reliable_spot-IsRight current number queue (placed before after) h l other f = f

spot_of_right :
    (ch : Channel) (command number unreliable_number : ℕ)
    → (command ≡ Number.send_reliable) ⊎ (command ≡ Number.send_fragment)
    → ch.incoming_reliable_sequence_number < 65536
    → number < 65536
    → IsOrdered ch.incoming_reliable_sequence_number ch.incoming_reliable_commands
    → IsRightSpot ch.incoming_reliable_sequence_number number ch.incoming_reliable_commands
        (spot_of ch command number unreliable_number)
unfolding spot_of
spot_of_right ch command number unreliable_number kind h l ordered =
    elim (Bool-cases (number == current)) [
      | inl own ↦ rw (reliably, own) (inl (ground (arith, own)))
      | inr differs ↦
          rw (reliably, differs)
            (reliable_spot-IsRight current number ch.incoming_reliable_commands _ h l
              (ground (arith, differs))
              (place-Fits current number h l 0 ch.incoming_reliable_commands ordered))
    ]
  where
    current : ℕ
    current = ch.incoming_reliable_sequence_number

    reliably : (command == Number.send_fragment || command == Number.send_reliable) ≡ true
    reliably = ground (arith, kind)

-- The same for the command that is inserted: its own number is what the place is for.
abbrev pub IsPlaced : ℕ → IncomingCommand → List IncomingCommand → Spot → Type 0
IsPlaced current i queue discard =
    (i.reliable_sequence_number ≡ current) ⊎ Has i.reliable_sequence_number queue
IsPlaced current i queue (unreliable before after) = ⊥
IsPlaced current i queue (reliable before after) =
    (before ++ after ≡ queue) × IsOrdered current (before ++ i ∷ after)

right-IsPlaced :
    (current : ℕ) (i : IncomingCommand) (queue : List IncomingCommand) (s : Spot)
    → IsRightSpot current i.reliable_sequence_number queue s
    → IsPlaced current i queue s
right-IsPlaced current i queue discard h = h
right-IsPlaced current i queue (unreliable before after) h = h
right-IsPlaced current i queue (reliable before after) (whole, ordered) = (whole, ordered i refl)

-- Where the queue of reliable commands is strictly ordered by the distance ahead of the channel's
-- number, the place that `peer_queue_incoming_command` finds for a reliable command or a reliable
-- fragment keeps it so, round the wrap of the 16-bit numbers too; it is discarded only if its number
-- is the channel's own or one that the queue has.
pub spot_of-IsPlaced :
    (ch : Channel) (command unreliable_number : ℕ) (i : IncomingCommand)
    → (command ≡ Number.send_reliable) ⊎ (command ≡ Number.send_fragment)
    → ch.incoming_reliable_sequence_number < 65536
    → i.reliable_sequence_number < 65536
    → IsOrdered ch.incoming_reliable_sequence_number ch.incoming_reliable_commands
    → IsPlaced ch.incoming_reliable_sequence_number i ch.incoming_reliable_commands
        (spot_of ch command i.reliable_sequence_number unreliable_number)
spot_of-IsPlaced ch command unreliable_number i kind h l ordered =
    right-IsPlaced ch.incoming_reliable_sequence_number i ch.incoming_reliable_commands _
      (spot_of_right ch command i.reliable_sequence_number unreliable_number kind h l ordered)
