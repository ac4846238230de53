-- ===== src/Peer/Dispatch.antt =====
-- src/peer.cpp: `peer_dispatch_incoming_reliable_commands`,
-- `peer_dispatch_incoming_unreliable_commands` and the removal of incoming commands.
-- An iterator is a place in the list: what stands before it and what stands from it on.
pub mod Reliable
pub mod Unreliable
pub mod References
use enetcpp.Base.{
  Bool, add16, drop, is_empty, length, ltb, take, ◌!=◌, ◌%◌, ◌+◌, ◌-◌, ◌||◌, List, Option, [],
  if◌then◌else◌, none, some, true, ◌++◌, ◌==◌, ◌∷◌, ℕ,
}
use enetcpp.Command.{header, command_mask}
use enetcpp.Command.Number
use enetcpp.Packet.Store.{Store, release}
use enetcpp.Peer.{Peer, Channel, IncomingCommand}
use enetcpp.Peer.Window.{outside_window}
use enetcpp.Host.{Conn, enlist}

abbrev pub with_packets : Conn → Store → Conn
with_packets c s = record c { host = record c.host { packets = s } }

abbrev pub with_dispatched : Peer → List IncomingCommand → Peer
with_dispatched p l = record p { queues = record p.queues { dispatched_commands = l } }

-- `if (!(peer->flags & NEEDS_DISPATCH)) { list_insert(list_end(&host->dispatchQueue), peer); … }`
unfoldable pub request_dispatch : Conn → Conn
request_dispatch c = if c.peer.needs_dispatch then c else record {
  host = enlist c.host c.peer.incoming_peer_id;
  peer = record c.peer { needs_dispatch = true };
}

-- `list_move(list_end(&peer->dispatchedCommands), …)` of the commands of a list, and the request.
unfoldable pub dispatch_all : Conn → List IncomingCommand → Conn
unfolding request_dispatch
dispatch_all c l =
    request_dispatch
      (record c { peer = with_dispatched c.peer (c.peer.queues.dispatched_commands ++ l) })

-- `enet_peer_remove_incoming_commands` of a list that stands before `endCommand`: the packets are
-- released. The command at the excluded address is kept.
unfoldable pub remove_incoming_commands :
    Store → List IncomingCommand → Option ℕ → Store × List IncomingCommand
remove_incoming_commands s [] exclude = (s, [])
remove_incoming_commands s (i ∷ is) exclude =
    let kept = remove_incoming_commands s is exclude in
    let removed = remove_incoming_commands (release s i.packet) is exclude in
    elim exclude [
      | none ↦ removed
      | some a ↦ if i.address == a then (kept.0, i ∷ kept.1) else removed
    ]

-- The loop of `peer_dispatch_incoming_unreliable_commands`: `kept` stands before `startCommand`,
-- `run` from there up to `currentCommand`, and `dropped` is the place of `droppedCommand`. Where the
-- run is moved away, `droppedCommand` is set anew, so it never points into a run that has left.
pub record Sweep : Type 0 where
  pub conn : Conn
  pub channel : Channel
  pub kept : List IncomingCommand
  pub run : List IncomingCommand
  pub dropped : ℕ

-- `continue`
abbrev pub extend : Sweep → IncomingCommand → Sweep
extend s i = record s { run = s.run ++ i ∷ [] }

-- `list_move(…, startCommand, list_previous(currentCommand))`, if there is a run
unfoldable pub flush_run : Sweep → Sweep
unfolding dispatch_all
flush_run s = if is_empty s.run then s else record s { conn = dispatch_all s.conn s.run; run = [] }

-- `startCommand = list_next(currentCommand)`
abbrev pub pass : Sweep → IncomingCommand → ℕ → Sweep
pass s i dropped = record s { kept = s.kept ++ i ∷ []; dropped = dropped }

-- A command of the current reliable number whose fragments are not all there.
unfoldable pub pass_incomplete : Sweep → IncomingCommand → Sweep
unfolding flush_run
pass_incomplete s i = pass (flush_run s) i (
    if is_empty s.run
    then if s.dropped != length s.kept then length s.kept - 1 else s.dropped
    else length s.kept)

-- One round of the loop; `none` is `break`.
unfoldable pub sweep_step : Sweep → IncomingCommand → Option Sweep
unfolding pass_incomplete
sweep_step s i =
    if command_mask (header i.command).command == Number.send_unsequenced
    then some (extend s i)
    else if i.reliable_sequence_number == s.channel.incoming_reliable_sequence_number
    then if i.fragments_remaining == 0
      then some (
          extend
            (record s {
              channel = record s.channel {
                incoming_unreliable_sequence_number = i.unreliable_sequence_number;
              };
            })
            i)
      else some (pass_incomplete s i)
    else if outside_window i.reliable_sequence_number s.channel.incoming_reliable_sequence_number
    then some (pass (flush_run s) i (length s.kept + 1))
    else none

-- The loop, with what stands from `currentCommand` on when it ends.
unfoldable pub sweep : Sweep → List IncomingCommand → Sweep × List IncomingCommand
sweep s [] = (s, [])
sweep s (i ∷ is) = elim (sweep_step s i) [ none ↦ (s, i ∷ is) | some s' ↦ sweep s' is ]

-- What follows the loop: the last run is moved, and all before `droppedCommand` is removed.
unfoldable pub finish : Sweep → List IncomingCommand → Option ℕ → Conn × Channel
unfolding flush_run
finish s rest queued =
    let ended = flush_run s in
    let dropped = if is_empty s.run then s.dropped else length s.kept in
    let left = s.kept ++ rest in
    let (packets, survivors) =
      remove_incoming_commands ended.conn.host.packets (take dropped left) queued in
    (
      with_packets ended.conn packets,
      record ended.channel { incoming_unreliable_commands = survivors ++ drop dropped left },
    )

unfoldable pub peer_dispatch_incoming_unreliable_commands :
    Conn → Channel → Option ℕ → Conn × Channel
peer_dispatch_incoming_unreliable_commands c ch queued =
    let (s, rest) =
      sweep (record { conn = c; channel = ch; kept = []; run = []; dropped = 0 })
        ch.incoming_unreliable_commands in
    finish s rest queued

-- `channel->incomingReliableSequenceNumber` after a command is dispatched
abbrev pub last_number : IncomingCommand → ℕ
last_number i =
    if ltb 0 i.fragment_count
    then (i.reliable_sequence_number + i.fragment_count - 1) % 65536
    else i.reliable_sequence_number

-- The test under which the loop of the reliable commands breaks.
abbrev pub not_next : ℕ → IncomingCommand → Bool
not_next current i = ltb 0 i.fragments_remaining || i.reliable_sequence_number != add16 current 1

-- That loop: the commands that it passes, those from `currentCommand` on, and the channel's number.
unfoldable pub scan : ℕ → List IncomingCommand → List IncomingCommand × List IncomingCommand × ℕ
scan current [] = ([], [], current)
scan current (i ∷ is) =
    let (passed, rest, last) = scan (last_number i) is in
    if not_next current i then ([], i ∷ is, current) else (i ∷ passed, rest, last)

unfoldable pub peer_dispatch_incoming_reliable_commands : Conn → Channel → Option ℕ → Conn × Channel
peer_dispatch_incoming_reliable_commands c ch queued =
    let (passed, rest, last) =
      scan ch.incoming_reliable_sequence_number ch.incoming_reliable_commands in
    let ch' = record ch {
      incoming_reliable_sequence_number = last;
      incoming_unreliable_sequence_number = 0;
      incoming_reliable_commands = rest;
    } in
    if is_empty passed
    then (c, ch)
    else if is_empty ch'.incoming_unreliable_commands
    then (dispatch_all c passed, ch')
    else peer_dispatch_incoming_unreliable_commands (dispatch_all c passed) ch' queued
