-- ===== src/Protocol/Incoming/Progress.antt =====
-- src/protocol.cpp, `enet_protocol_handle_incoming_commands`: no handler moves `currentData` back, so the
-- loop ends.
use enetcpp.Base.{
  ap, false, length, suc, zero, ◌-◌, subst, true, ◌<◌, Bool, Bool-cases, ltb, ◌==◌, ◌||◌, List,
  Option-cases, get_elem?, inl, inr, Option, arith, none, refl, some, ℕ, ◌+◌, ◌≡◌, ◌≤◌,
}
use enetcpp.Command.{
  Protocol, SendReliable, SendUnreliable, SendUnsequenced, SendFragment, acknowledge, connect,
  verify_connect, bandwidth_limit, throttle_configure, disconnect, ping, send_reliable,
  send_unreliable, send_unsequenced, send_fragment, command_mask,
}
use enetcpp.Command.Number
use enetcpp.Memory.{Allocator}
use enetcpp.Packet.{flag_reliable, flag_unsequenced, flag_unreliable_fragment}
use enetcpp.Peer.{Peer, Channel}
use enetcpp.Peer.Incoming.{Queued, queued, dummy, null, peer_queue_incoming_command}
use enetcpp.Host.{Conn}
use enetcpp.Peer.Incoming.Place.{judge_reliable, judge_unreliable}
use enetcpp.Peer.Window.{outside_window}
use enetcpp.Protocol.Receive.{
  is_refused, exceeds, payload, Handled, handled, receive_packet, handle_send_reliable,
  handle_send_unreliable,
}
use enetcpp.Protocol.Unsequenced.{handle_send_unsequenced, admit_group, mark_if_ok}
use enetcpp.Protocol.Fragment.{
  Kind, reliable, unreliable, host_command, find_start, is_other, Start, walking, absent, conflict,
  present, finished, assemble_queued, continue_fragment, reliable_fragment, unreliable_fragment,
  ignored, malformed, is_late, handle_send_fragment, handle_send_unreliable_fragment,
}
use enetcpp.Protocol.Incoming.{
  Reading, next_command, read_command, read_commands, handle, handle_for, handle_unknown, answer,
  queue_acknowledgement, has_peer, Handling, after_fragment,
}
use enetcpp.Protocol.Incoming.Termination.{next_command-IsInside}

-- A handler of data leaves `currentData` at what follows the command, or further on.
abbrev IsOnward : ℕ → Option Handled → Type 0
IsOnward start none = Unit
IsOnward start (some h) = start ≤ h.current_data

handled-le : (end : ℕ) (r : Conn × Queued) → (handled end r).current_data ≡ end
handled-le end (c, queued a) = refl
handled-le end (c, dummy) = refl
handled-le end (c, null) = refl

receive_packet-le :
    (malloc : Allocator) (c : Conn) (command : Protocol) (start n flags : ℕ)
    → start ≤ (receive_packet malloc c command start n flags).current_data
unfolding receive_packet
receive_packet-le malloc c command start n flags = omega (arith, handled-le (start + n) _)

reliable-le :
    (malloc : Allocator) (c : Conn) (s : SendReliable) (start : ℕ)
    → start ≤ (handle_send_reliable malloc c s start).current_data
unfolding handle_send_reliable
reliable-le malloc c s start =
    ground (arith, receive_packet-le malloc c (send_reliable s) start s.data_length flag_reliable)

finished-IsOnward :
    (start end : ℕ) (o : Option Conn) → start ≤ end → IsOnward start (finished end o)
finished-IsOnward start end none h = tt
finished-IsOnward start end (some c) h = h

unreliable-le :
    (malloc : Allocator) (c : Conn) (s : SendUnreliable) (start : ℕ)
    → start ≤ (handle_send_unreliable malloc c s start).current_data
unfolding handle_send_unreliable
unreliable-le malloc c s start =
    ground (arith, receive_packet-le malloc c (send_unreliable s) start s.data_length 0)

mark_if_ok-data : (group : ℕ) (h : Handled) → (mark_if_ok group h).current_data ≡ h.current_data
mark_if_ok-data group h = ground arith

unsequenced-le :
    (malloc : Allocator) (c : Conn) (s : SendUnsequenced) (start : ℕ)
    → start ≤ (handle_send_unsequenced malloc c s start).current_data
unfolding handle_send_unsequenced
unsequenced-le malloc c s start = elim (Option-cases (admit_group c.peer s.unsequenced_group)) [
  | inl e ↦ ground (arith, e)
  | inr (p, e) ↦
      let r =
        receive_packet malloc (record c { peer = p }) (send_unsequenced s) start s.data_length
          flag_unsequenced in
      ground (
        arith,
        e,
        mark_if_ok-data s.unsequenced_group r,
        receive_packet-le malloc (record c { peer = p }) (send_unsequenced s) start s.data_length
            flag_unsequenced,
      )
]

module _ (start end : ℕ) (onward : start ≤ end) where
  assemble_queued-IsOnward :
      (kind : Kind) (channel_id : ℕ) (f : SendFragment) (bytes : List ℕ) (r : Conn × Queued)
      → IsOnward start (assemble_queued kind channel_id f bytes end r)
  unfolding assemble_queued
  assemble_queued-IsOnward kind channel_id f bytes (c, queued a) =
      elim (Option-cases (get_elem? c.peer.channels channel_id)) [
        | inl e ↦ rw (assemble_queued, e) tt
        | inr (ch, e) ↦ rw (assemble_queued, e) (finished-IsOnward start end _ onward)
      ]
  assemble_queued-IsOnward kind channel_id f bytes (c, dummy) = tt
  assemble_queued-IsOnward kind channel_id f bytes (c, null) = onward

  continue-IsOnward :
      (kind : Kind) (c : Conn) (ch : Channel) (f : SendFragment) (bytes : List ℕ)
      (first : Conn × Queued) (s : Start)
      → IsOnward start (continue_fragment kind c ch f bytes end first s)
  unfolding continue_fragment
  continue-IsOnward kind c ch f bytes first walking =
      assemble_queued-IsOnward kind f.header.channel_id f bytes first
  continue-IsOnward kind c ch f bytes first absent =
      assemble_queued-IsOnward kind f.header.channel_id f bytes first
  continue-IsOnward kind c ch f bytes first conflict = onward
  continue-IsOnward kind c ch f bytes first (present before i after) =
      finished-IsOnward start end _ onward

reliable_fragment-IsOnward :
    (malloc : Allocator) (c : Conn) (f : SendFragment) (start : ℕ) (ch : Channel)
    → IsOnward start (reliable_fragment malloc c f start ch)
unfolding reliable_fragment ignored
reliable_fragment-IsOnward malloc c f start ch =
    elim (Bool-cases
      (outside_window f.start_sequence_number ch.incoming_reliable_sequence_number)) [
        | inl e ↦ rw (reliable_fragment, e) (omega arith)
        | inr e ↦ elim (Bool-cases (malformed c.host f || ltb f.total_length f.fragment_count)) [
          | inl g ↦ rw (reliable_fragment, e, g) (omega arith)
          | inr g ↦
              rw (reliable_fragment, e, g)
                (continue-IsOnward start (start + f.data_length) (omega arith) reliable c ch f
                  (payload c.host start f.data_length)
                  (peer_queue_incoming_command malloc c (host_command f) none f.total_length
                    flag_reliable f.fragment_count)
                  (find_start
                    (judge_reliable ch.incoming_reliable_sequence_number f.start_sequence_number)
                    (is_other c.host.packets Number.send_fragment f) ch.incoming_reliable_commands))
        ]
      ]

unreliable_fragment-IsOnward :
    (malloc : Allocator) (c : Conn) (f : SendFragment) (start : ℕ) (ch : Channel)
    → IsOnward start (unreliable_fragment malloc c f start ch)
unfolding unreliable_fragment ignored
unreliable_fragment-IsOnward malloc c f start ch =
    elim (Bool-cases (
      outside_window f.header.reliable_sequence_number ch.incoming_reliable_sequence_number
      || is_late ch f)) [
        | inl e ↦ rw (unreliable_fragment, e) (omega arith)
        | inr e ↦ elim (Bool-cases (malformed c.host f)) [
          | inl g ↦ rw (unreliable_fragment, e, g) (omega arith)
          | inr g ↦
              rw (unreliable_fragment, e, g)
                (continue-IsOnward start (start + f.data_length) (omega arith) unreliable c ch f
                  (payload c.host start f.data_length)
                  (peer_queue_incoming_command malloc c (send_fragment f) none f.total_length
                    flag_unreliable_fragment f.fragment_count)
                  (find_start
                    (judge_unreliable Number.send_unreliable_fragment
                      ch.incoming_reliable_sequence_number f.header.reliable_sequence_number
                      f.start_sequence_number)
                    (is_other c.host.packets Number.send_unreliable_fragment f)
                    ch.incoming_unreliable_commands))
        ]
      ]

fragment-IsOnward :
    (malloc : Allocator) (c : Conn) (f : SendFragment) (start : ℕ)
    → IsOnward start (handle_send_fragment malloc c f start)
unfolding handle_send_fragment
fragment-IsOnward malloc c f start = elim (Bool-cases (is_refused c.peer f.header.channel_id)) [
  | inl e ↦ rw (handle_send_fragment, e) (omega arith)
  | inr e ↦
      elim (Bool-cases
        (f.data_length == 0 || exceeds c.host f.data_length (start + f.data_length))) [
          | inl g ↦ rw (handle_send_fragment, e, g) (omega arith)
          | inr g ↦ elim (Option-cases (get_elem? c.peer.channels f.header.channel_id)) [
            | inl h ↦ rw (handle_send_fragment, e, g, h) tt
            | inr (ch, h) ↦
                rw (handle_send_fragment, e, g, h) (reliable_fragment-IsOnward malloc c f start ch)
          ]
        ]
]

unreliable-IsOnward :
    (malloc : Allocator) (c : Conn) (f : SendFragment) (start : ℕ)
    → IsOnward start (handle_send_unreliable_fragment malloc c f start)
unfolding handle_send_unreliable_fragment
unreliable-IsOnward malloc c f start = elim (Bool-cases (is_refused c.peer f.header.channel_id)) [
  | inl e ↦ rw (handle_send_unreliable_fragment, e) (omega arith)
  | inr e ↦ elim (Bool-cases (exceeds c.host f.data_length (start + f.data_length))) [
    | inl g ↦ rw (handle_send_unreliable_fragment, e, g) (omega arith)
    | inr g ↦ elim (Option-cases (get_elem? c.peer.channels f.header.channel_id)) [
      | inl h ↦ rw (handle_send_unreliable_fragment, e, g, h) tt
      | inr (ch, h) ↦
          rw (handle_send_unreliable_fragment, e, g, h)
            (unreliable_fragment-IsOnward malloc c f start ch)
    ]
  ]
]

-- A handler leaves the offset where it is, or further on.
abbrev Advances : ℕ → Handling → Type 0
Advances start none = Unit
Advances start (some (r, ok)) = start ≤ r.offset

after_fragment-Advances :
    (r : Reading) (i : ℕ) (o : Option Handled)
    → IsOnward r.offset o
    → Advances r.offset (after_fragment r i o)
after_fragment-Advances r i none h = tt
after_fragment-Advances r i (some o) h = h

module _ (host_flush : Conn → Conn) (malloc : Allocator) where
  handle_for-Advances :
      (r : Reading) (i : ℕ) (p : Peer) (command : Protocol)
      → Advances r.offset (handle_for host_flush malloc r i p command)
  unfolding handle_for
  handle_for-Advances r i p (acknowledge c) = omega arith
  handle_for-Advances r i p (connect c) = omega arith
  handle_for-Advances r i p (verify_connect c) = omega arith
  handle_for-Advances r i p (disconnect c) = omega arith
  handle_for-Advances r i p (ping c) = omega arith
  handle_for-Advances r i p (send_reliable c) = reliable-le malloc _ c r.offset
  handle_for-Advances r i p (send_unreliable c) = unreliable-le malloc _ c r.offset
  handle_for-Advances r i p (send_unsequenced c) = unsequenced-le malloc _ c r.offset
  handle_for-Advances r i p (bandwidth_limit c) = omega arith
  handle_for-Advances r i p (throttle_configure c) = omega arith
  handle_for-Advances r i p (send_fragment c) =
      elim (Bool-cases (command_mask c.header.command == Number.send_fragment)) [
        | inl e ↦
            rw (handle_for, e)
              (after_fragment-Advances r i _ (fragment-IsOnward malloc _ c r.offset))
        | inr e ↦
            rw (handle_for, e)
              (after_fragment-Advances r i _ (unreliable-IsOnward malloc _ c r.offset))
      ]

  handle_unknown-Advances :
      (r : Reading) (command : Protocol)
      → Advances r.offset (handle_unknown host_flush malloc r command)
  unfolding handle_unknown
  handle_unknown-Advances r (connect c) = omega arith
  handle_unknown-Advances r command = omega arith

  handle-Advances :
      (r : Reading) (command : Protocol) → Advances r.offset (handle host_flush malloc r command)
  unfolding handle
  handle-Advances r command = elim (Option-cases r.peer) [
    | inl e ↦ rw (handle, e) (handle_unknown-Advances r command)
    | inr (i, e) ↦ elim (Option-cases (get_elem? r.world.peers i)) [
      | inl f ↦ rw (handle, e, f) (omega arith)
      | inr (p, f) ↦ rw (handle, e, f) (handle_for-Advances r i p command)
    ]
  ]

  answer-offset :
      (timed : Bool) (sent_time : ℕ) (r : Reading) (command : Protocol)
      → (answer host_flush malloc timed sent_time r command).0.offset ≡ r.offset
  unfolding answer queue_acknowledgement
  answer-offset timed sent_time r command = ground arith

-- A round that goes on has gone forward by the header of a command at least.
read_command-lt :
    (host_flush : Conn → Conn) (malloc : Allocator) (bytes : List ℕ) (timed : Bool) (sent_time : ℕ)
    (r r' : Reading)
    → read_command host_flush malloc bytes timed sent_time r ≡ some (r', true)
    → r.offset < r'.offset
unfolding read_command
read_command-lt host_flush malloc bytes timed sent_time r r' e =
    elim (Option-cases (next_command bytes (has_peer r) r.offset)) [
      | inl f ↦ absurd (ground (arith, e, f))
      | inr ((command, size), f) ↦
          let inside = next_command-IsInside bytes (has_peer r) r.offset (command, size) f in
          let forward : Reading = record r { offset = r.offset + size } in
          elim (Option-cases (handle host_flush malloc forward command)) [
            | inl g ↦ absurd (ground (arith, e, f, g))
            | inr ((next, ok), g) ↦
                let onward : forward.offset ≤ next.offset =
                  subst (Advances forward.offset) g
                    (handle-Advances host_flush malloc forward command) in
                elim (Bool-cases ok) [
                  | inl h ↦
                      let same : (answer host_flush malloc timed sent_time next command).0 ≡ r' =
                        ground (arith, e, f, g, h) in
                      omega (
                        arith,
                        onward,
                        inside.more,
                        answer-offset host_flush malloc timed sent_time next command,
                        ap Reading.offset same,
                      )
                  | inr h ↦ absurd (ground (arith, e, f, g, h))
                ]
          ]
    ]

-- As much fuel as there are bytes left, or more, gives the same result.
read_commands_enough :
    (host_flush : Conn → Conn) (malloc : Allocator) (n m : ℕ) (bytes : List ℕ) (timed : Bool)
    (sent_time : ℕ) (r : Reading)
    → length bytes - r.offset ≤ n
    → length bytes - r.offset ≤ m
    → read_commands host_flush malloc n bytes timed sent_time r
      ≡ read_commands host_flush malloc m bytes timed sent_time r
unfolding read_commands
read_commands_enough host_flush malloc zero zero bytes timed sent_time r h k = refl
read_commands_enough host_flush malloc zero (suc m) bytes timed sent_time r h k =
    let done : ltb r.offset (length bytes) ≡ false = ground arith in rw (read_commands, done) refl
read_commands_enough host_flush malloc (suc n) zero bytes timed sent_time r h k =
    let done : ltb r.offset (length bytes) ≡ false = ground arith in rw (read_commands, done) refl
read_commands_enough host_flush malloc (suc n) (suc m) bytes timed sent_time r h k =
    elim (Bool-cases (ltb r.offset (length bytes))) [
      | inr e ↦ rw (read_commands, e) refl
      | inl e ↦ elim (Option-cases (read_command host_flush malloc bytes timed sent_time r)) [
        | inl f ↦ rw (read_commands, e, f) refl
        | inr ((r', true), f) ↦
            let lt = read_command-lt host_flush malloc bytes timed sent_time r r' f in
            rw (read_commands, e, f)
              (read_commands_enough host_flush malloc n m bytes timed sent_time r'
                (omega (arith, lt, h)) (omega (arith, lt, k)))
        | inr ((r', false), f) ↦ rw (read_commands, e, f) refl
      ]
    ]

-- The loop over the commands of a datagram ends within as many rounds as the datagram has bytes:
-- any greater number of rounds gives the same result, with the same faults.
pub read_commands-length :
    (host_flush : Conn → Conn) (malloc : Allocator) (extra : ℕ) (bytes : List ℕ) (timed : Bool)
    (sent_time : ℕ) (r : Reading)
    → read_commands host_flush malloc (length bytes + extra) bytes timed sent_time r
      ≡ read_commands host_flush malloc (length bytes) bytes timed sent_time r
read_commands-length host_flush malloc extra bytes timed sent_time r =
    read_commands_enough host_flush malloc (length bytes + extra) (length bytes) bytes timed
      sent_time r (omega arith) (omega arith)
