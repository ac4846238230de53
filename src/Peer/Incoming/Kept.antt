-- ===== src/Peer/Incoming/Kept.antt =====
-- src/peer.cpp, `peer_queue_incoming_command`: the fields of a peer that inserting and dispatching leave
-- alone.
use enetcpp.Base.{
  ap, arith, get_elem?, leb, ◌||◌, Bool-cases, List, Option, Option-cases, [], inl, inr, is_empty,
  none, refl, some, subst, ◌++◌, ◌==◌, ◌∙◌, ◌∷◌, ◌≡◌, ℕ,
}
use enetcpp.Command.{header, command_mask}
use enetcpp.Command.Number
use enetcpp.Command.{Protocol}
use enetcpp.Memory.{Allocator, incoming_command}
use enetcpp.Packet.{packet_create}
use enetcpp.Peer.State
use enetcpp.Peer.{Peer, Channel, IncomingCommand}
use enetcpp.Peer.Window.{outside_window}
use enetcpp.Peer.Dispatch.{
  request_dispatch, dispatch_all, Sweep, flush_run, pass_incomplete, sweep_step, sweep, finish,
  scan, peer_dispatch_incoming_reliable_commands, peer_dispatch_incoming_unreliable_commands,
}
use enetcpp.Peer.Incoming.{
  Queued, insert_incoming, allocate_incoming, admit, notify_error, with_packet, with_command,
  has_fragments, new_incoming, peer_queue_incoming_command, misses_window, spot, discarded,
}
use enetcpp.Peer.Incoming.Place.{Spot, discard, reliable, unreliable}
use enetcpp.Host.{Conn}

-- The window of unsequenced groups and the data that waits.
pub record IsKept (c d : Conn) : Type 0 where
  pub group : d.peer.incoming_unsequenced_group ≡ c.peer.incoming_unsequenced_group
  pub window : d.peer.unsequenced_window ≡ c.peer.unsequenced_window
  pub waiting : d.peer.total_waiting_data ≡ c.peer.total_waiting_data

pub IsKept-trans : (c d e : Conn) → IsKept c d → IsKept d e → IsKept c e
IsKept-trans c d e v w = record {
  group = w.group ∙ v.group;
  window = w.window ∙ v.window;
  waiting = w.waiting ∙ v.waiting;
}

same-IsKept : (c : Conn) → IsKept c c
same-IsKept c = record { group = refl; window = refl; waiting = refl }

dispatch_all-IsKept : (c : Conn) (l : List IncomingCommand) → IsKept c (dispatch_all c l)
unfolding dispatch_all request_dispatch
dispatch_all-IsKept c l = elim (Bool-cases c.peer.needs_dispatch) [
  | inl e ↦
      rw (dispatch_all, request_dispatch, e)
        (record { group = refl; window = refl; waiting = refl })
  | inr e ↦
      rw (dispatch_all, request_dispatch, e)
        (record { group = refl; window = refl; waiting = refl })
]

flush_run-IsKept : (s : Sweep) → IsKept s.conn (flush_run s).conn
unfolding flush_run
flush_run-IsKept s = elim (Bool-cases (is_empty s.run)) [
  | inl e ↦ rw (flush_run, e) (same-IsKept s.conn)
  | inr e ↦ rw (flush_run, e) (dispatch_all-IsKept s.conn s.run)
]

abbrev StepKeeps : Sweep → Option Sweep → Type 0
StepKeeps s none = Unit
StepKeeps s (some t) = IsKept s.conn t.conn

sweep_step-Keeps : (s : Sweep) (i : IncomingCommand) → StepKeeps s (sweep_step s i)
unfolding sweep_step pass_incomplete
sweep_step-Keeps s i =
    elim (Bool-cases (command_mask (header i.command).command == Number.send_unsequenced)) [
      | inl e ↦ rw (sweep_step, e) (same-IsKept s.conn)
      | inr e ↦
          elim (Bool-cases
            (i.reliable_sequence_number == s.channel.incoming_reliable_sequence_number)) [
              | inl f ↦ elim (Bool-cases (i.fragments_remaining == 0)) [
                | inl g ↦ rw (sweep_step, e, f, g) (same-IsKept s.conn)
                | inr g ↦ rw (sweep_step, e, f, g) (flush_run-IsKept s)
              ]
              | inr f ↦
                  elim (Bool-cases (
                    outside_window i.reliable_sequence_number
                      s.channel.incoming_reliable_sequence_number)) [
                        | inl g ↦ rw (sweep_step, e, f, g) (flush_run-IsKept s)
                        | inr g ↦ rw (sweep_step, e, f, g) tt
                      ]
            ]
    ]

sweep-IsKept : (s : Sweep) (queue : List IncomingCommand) → IsKept s.conn (sweep s queue).0.conn
unfolding sweep
sweep-IsKept s [] = same-IsKept s.conn
sweep-IsKept s (i ∷ is) = elim (Option-cases (sweep_step s i)) [
  | inl e ↦ rw (sweep, e) (same-IsKept s.conn)
  | inr (t, e) ↦
      rw (sweep, e)
        (IsKept-trans s.conn t.conn _ (subst (StepKeeps s) e (sweep_step-Keeps s i))
          (sweep-IsKept t is))
]

unreliable-IsKept :
    (c : Conn) (ch : Channel) (a : Option ℕ)
    → IsKept c (peer_dispatch_incoming_unreliable_commands c ch a).0
unfolding peer_dispatch_incoming_unreliable_commands finish
unreliable-IsKept c ch a =
    let s : Sweep = record { conn = c; channel = ch; kept = []; run = []; dropped = 0 } in
    let t = (sweep s ch.incoming_unreliable_commands).0 in
    let k =
      IsKept-trans c t.conn (flush_run t).conn (sweep-IsKept s ch.incoming_unreliable_commands)
        (flush_run-IsKept t) in
    record { group = k.group; window = k.window; waiting = k.waiting }

reliable-IsKept :
    (c : Conn) (ch : Channel) (a : Option ℕ)
    → IsKept c (peer_dispatch_incoming_reliable_commands c ch a).0
unfolding peer_dispatch_incoming_reliable_commands
reliable-IsKept c ch a =
    let r = scan ch.incoming_reliable_sequence_number ch.incoming_reliable_commands in
    elim (Bool-cases (is_empty r.0)) [
      | inl e ↦ rw (peer_dispatch_incoming_reliable_commands, e) (same-IsKept c)
      | inr e ↦ elim (Bool-cases (is_empty ch.incoming_unreliable_commands)) [
        | inl f ↦ rw (peer_dispatch_incoming_reliable_commands, e, f) (dispatch_all-IsKept c r.0)
        | inr f ↦
            rw (peer_dispatch_incoming_reliable_commands, e, f)
              (IsKept-trans c (dispatch_all c r.0) _ (dispatch_all-IsKept c r.0)
                (unreliable-IsKept (dispatch_all c r.0) _ a))
      ]
    ]

pub insert_incoming-IsKept :
    (c : Conn) (channel_id : ℕ) (ch : Channel) (i : IncomingCommand) (s : Spot)
    → IsKept c (insert_incoming c channel_id ch i s)
unfolding insert_incoming
insert_incoming-IsKept c channel_id ch i discard = same-IsKept c
insert_incoming-IsKept c channel_id ch i (reliable before after) =
    let k =
      reliable-IsKept c (record ch { incoming_reliable_commands = before ++ i ∷ after })
        (some i.address) in
    record { group = k.group; window = k.window; waiting = k.waiting }
insert_incoming-IsKept c channel_id ch i (unreliable before after) =
    let k =
      unreliable-IsKept c (record ch { incoming_unreliable_commands = before ++ i ∷ after })
        (some i.address) in
    record { group = k.group; window = k.window; waiting = k.waiting }

-- Whatever becomes of a command, the window of unsequenced groups stays.
pub record IsSameWindow (c d : Conn) : Type 0 where
  pub group : d.peer.incoming_unsequenced_group ≡ c.peer.incoming_unsequenced_group
  pub window : d.peer.unsequenced_window ≡ c.peer.unsequenced_window

unchanged-IsSameWindow : (c d : Conn) → d.peer ≡ c.peer → IsSameWindow c d
unchanged-IsSameWindow c d e = record {
  group = ap (λ (p : Peer). p.incoming_unsequenced_group) e;
  window = ap (λ (p : Peer). p.unsequenced_window) e;
}

notify_error-peer : (c : Conn) (a : Option ℕ) → (notify_error c a).peer ≡ c.peer
unfolding notify_error
notify_error-peer c none = refl
notify_error-peer c (some a) = ground arith

allocate_incoming-IsSameWindow :
    (malloc : Allocator) (c : Conn) (channel_id : ℕ) (ch : Channel) (command : Protocol)
    (bytes : Option (List ℕ)) (data_length flags fragment_count : ℕ) (s : Spot)
    → IsSameWindow c
        (allocate_incoming malloc c channel_id ch command bytes data_length flags fragment_count
          s).0
unfolding allocate_incoming admit
allocate_incoming-IsSameWindow malloc c channel_id ch command bytes data_length flags fragment_count
      s =
    elim (Bool-cases (leb c.host.maximum_waiting_data c.peer.total_waiting_data)) [
      | inl e ↦ rw (allocate_incoming, e) (unchanged-IsSameWindow c _ (notify_error-peer c none))
      | inr e ↦ elim (Option-cases (packet_create malloc bytes data_length flags)) [
        | inl f ↦
            rw (allocate_incoming, e, f) (unchanged-IsSameWindow c _ (notify_error-peer c none))
        | inr (packet, f) ↦ elim (Bool-cases (malloc.succeeds incoming_command)) [
          | inr g ↦
              rw (allocate_incoming, e, f, g)
                (unchanged-IsSameWindow c _
                  (notify_error-peer (with_packet c packet) (some c.host.next_packet)))
          | inl g ↦ elim (Bool-cases (has_fragments malloc fragment_count)) [
            | inr h ↦
                rw (allocate_incoming, e, f, g, h)
                  (unchanged-IsSameWindow c _ (
                    notify_error-peer (with_command (with_packet c packet))
                      (some c.host.next_packet)))
            | inl h ↦
                let k =
                  insert_incoming-IsKept
                    (admit (with_command (with_packet c packet)) c.host.next_packet packet)
                    channel_id ch (new_incoming c.host command fragment_count) s in
                rw (allocate_incoming, e, f, g, h) (record { group = k.group; window = k.window })
          ]
        ]
      ]
    ]

pub queue_incoming-IsSameWindow :
    (malloc : Allocator) (c : Conn) (command : Protocol) (bytes : Option (List ℕ))
    (data_length flags fragment_count : ℕ)
    → IsSameWindow c
        (peer_queue_incoming_command malloc c command bytes data_length flags fragment_count).0
unfolding peer_queue_incoming_command
queue_incoming-IsSameWindow malloc c command bytes data_length flags fragment_count =
    elim (Option-cases (get_elem? c.peer.channels (header command).channel_id)) [
      | inl e ↦ rw (peer_queue_incoming_command, e) (unchanged-IsSameWindow c c refl)
      | inr (ch, e) ↦
          elim (Bool-cases (
            State.value c.peer.state == State.value State.disconnect_later
            || misses_window ch command)) [
              | inl f ↦ rw (peer_queue_incoming_command, e, f) (unchanged-IsSameWindow c c refl)
              | inr f ↦ rw (peer_queue_incoming_command, e, f) (at_spot ch (spot ch command))
            ]
    ]
  where
    at_spot :
        (ch : Channel) (s : Spot)
        → IsSameWindow c
            (elim s as (λ s. Conn × Queued) [
              | discard ↦ (c, discarded fragment_count)
              | s ↦
                  allocate_incoming malloc c
                    (header command).channel_id
                    ch
                    command
                    bytes
                    data_length
                    flags
                    fragment_count
                    s
            ]).0
    at_spot ch discard = unchanged-IsSameWindow c c refl
    at_spot ch (reliable before after) =
        allocate_incoming-IsSameWindow malloc c _ ch command bytes data_length flags fragment_count
          (reliable before after)
    at_spot ch (unreliable before after) =
        allocate_incoming-IsSameWindow malloc c _ ch command bytes data_length flags fragment_count
          (unreliable before after)
