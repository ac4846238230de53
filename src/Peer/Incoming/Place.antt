-- ===== src/Peer/Incoming/Place.antt =====
-- src/peer.cpp: where `peer_queue_incoming_command` inserts a command. Its loops go from the end of
-- the queue towards the front.
use enetcpp.Base.{List, [], if◌then◌else◌, leb, ltb, ◌&&◌, ◌==◌, ◌||◌, ◌∷◌, ℕ}
use enetcpp.Command.Number
use enetcpp.Peer.{Channel, IncomingCommand}

-- What a round of the loop does: `continue`, `break`, or `goto discardCommand`.
pub data Round : Type 0 where
  go_on stop same : Round

-- `front`: the loop has run past the first command. `placed`: it stopped at a command, the last of
-- those before the place.
pub data Placement : Type 0 where
  front duplicate : Placement
  placed : List IncomingCommand → List IncomingCommand → Placement

-- One round, at a command that all behind it are passed.
abbrev pub visit : IncomingCommand → List IncomingCommand → Round → Placement
visit i after go_on = front
visit i after stop = placed (i ∷ []) after
visit i after same = duplicate

abbrev pub then_visit :
    (IncomingCommand → Round) → IncomingCommand → List IncomingCommand → Placement → Placement
then_visit judge i after front = visit i after (judge i)
then_visit judge i after duplicate = duplicate
then_visit judge i after (placed b a) = placed (i ∷ b) a

-- The commands behind the first are visited before it.
unfoldable pub place : (IncomingCommand → Round) → List IncomingCommand → Placement
place judge [] = front
place judge (i ∷ is) = then_visit judge i is (place judge is)

-- The loop of the reliable commands.
unfoldable pub judge_reliable : ℕ → ℕ → IncomingCommand → Round
judge_reliable current number i =
    if leb current number
    then if ltb i.reliable_sequence_number current then go_on else compared
    else if leb current i.reliable_sequence_number
    then stop
    else compared
  where
    compared : Round
    compared =
        if leb i.reliable_sequence_number number
        then if ltb i.reliable_sequence_number number then stop else same
        else go_on

-- The loop of the unreliable commands. Its first test is of the command that is inserted.
unfoldable pub judge_unreliable : ℕ → ℕ → ℕ → ℕ → IncomingCommand → Round
judge_unreliable command current number unreliable_number i =
    if command == Number.send_unsequenced
    then go_on
    else if leb current number
    then if ltb i.reliable_sequence_number current then go_on else compared
    else if leb current i.reliable_sequence_number
    then stop
    else compared
  where
    compared : Round
    compared =
        if ltb i.reliable_sequence_number number
        then stop
        else if ltb number i.reliable_sequence_number
        then go_on
        else if leb i.unreliable_sequence_number unreliable_number
        then if ltb i.unreliable_sequence_number unreliable_number then stop else same
        else go_on

-- A place in one of the two queues of a channel, or none.
pub data Spot : Type 0 where
  discard : Spot
  reliable unreliable : List IncomingCommand → List IncomingCommand → Spot

abbrev pub reliable_spot : List IncomingCommand → Placement → Spot
reliable_spot queue front = reliable [] queue
reliable_spot queue duplicate = discard
reliable_spot queue (placed before after) = reliable before after

abbrev pub unreliable_spot : List IncomingCommand → Placement → Spot
unreliable_spot queue front = unreliable [] queue
unreliable_spot queue duplicate = discard
unreliable_spot queue (placed before after) = unreliable before after

-- The first `switch`. The place after `list_end` is the front.
unfoldable pub spot_of : Channel → ℕ → ℕ → ℕ → Spot
spot_of ch command number unreliable_number =
    if command == Number.send_fragment || command == Number.send_reliable
    then if number == current
      then discard
      else reliable_spot ch.incoming_reliable_commands
          (place (judge_reliable current number) ch.incoming_reliable_commands)
    else if command == Number.send_unreliable || command == Number.send_unreliable_fragment
    then if number == current && leb unreliable_number ch.incoming_unreliable_sequence_number
      then discard
      else unreliable_spot ch.incoming_unreliable_commands (
          place (judge_unreliable command current number unreliable_number)
            ch.incoming_unreliable_commands)
    else if command == Number.send_unsequenced
    then unreliable [] ch.incoming_unreliable_commands
    else discard
  where
    current : ℕ
    current = ch.incoming_reliable_sequence_number
