-- ===== src/Protocol/Outgoing/References.antt =====
-- src/protocol.cpp, `enet_protocol_check_outgoing_commands`: the references of the commands that it
-- moves, sends and drops.
use enetcpp.Base.{
  All, false, ◌⊎◌, subst, true, some, ◌∙◌, Bool-cases, List, Option-cases, [], ap, arith, get_elem?,
  inl, inr, ltb, refl, take, ℕ, ◌+◌, ◌<◌, ◌^◌, ◌∷◌, ◌≡◌, ◌≤◌,
}
use enetcpp.Packet.Store.{Store, release}
use enetcpp.Packet.Laws.{references, points_to, references-release}
use enetcpp.Command.{header}
use enetcpp.Peer.{Peer, Channel, Queues, OutgoingCommand}
use enetcpp.Peer.Dispatch.References.{held}
use enetcpp.Peer.References.{held_outgoing, held_channels, held_outgoing-append, IsAccounted}
use enetcpp.Peer.References.Queueing.{held_channels-set}
use enetcpp.Host.{Conn}
use enetcpp.Protocol.Datagram.{Datagram}
use enetcpp.Protocol.Outgoing.{
  Walk, Turn, Verdict, pass_over, hold_reliable, begin_wrap, admit, judge, proceed, drop_packet,
  write, write_reliable, write_unreliable, is_full, no_ping, keep_sent, walk_queues, begin, rounds,
  acknowledges, is_throttled, passed, drop_same, is_same_packet, in_window, channel_of, window_of,
  attempted, requeue, skip_reliable, has_packet, meets_null,
}
use enetcpp.Protocol.Outgoing.Size.{turn-All, proceed-All}
use enetcpp.Protocol.Outgoing.Window.{enter_window}
use enetcpp.Protocol.Outgoing.Progress.{IsTurn, walk_inv}

-- The references of the commands that the loop has in hand.
abbrev in_hand : ℕ → Walk → ℕ
in_hand a w =
    held_outgoing a w.kept
    + held_outgoing a w.left
    + held_outgoing a w.kept_reliable
    + held_outgoing a w.left_reliable
    + held_outgoing a w.conn.peer.queues.sent_reliable_commands
    + held_outgoing a w.sent_unreliable

abbrev in_channels : ℕ → Peer → ℕ
in_channels a p = held_channels a (take p.channel_count p.channels)

-- The commands that are dropped give their references up.
drop_same-held :
    (o : OutgoingCommand) (s : Store) (l : List OutgoingCommand) (a : ℕ)
    → held_outgoing a l ≤ references s a
    → references s a < 2 ^ 64
    → references (drop_same o s l).0 a + held_outgoing a l
      ≡ references s a + held_outgoing a (drop_same o s l).1
unfolding drop_same
drop_same-held o s [] a h b = refl
drop_same-held o s (next ∷ rest) a h b =
    let r = references-release s next.packet a (omega arith) b in
    elim (Bool-cases (is_same_packet o next)) [
      | inl e ↦
          rw (drop_same, e)
            (omega (
              arith,
              r,
              drop_same-held o (release s next.packet) rest a (omega (arith, r, h))
                  (omega (arith, r, b)),
            ))
      | inr e ↦ rw (drop_same, e) refl
    ]

drop_same-fewer :
    (o : OutgoingCommand) (s : Store) (l : List OutgoingCommand) (a : ℕ)
    → held_outgoing a (drop_same o s l).1 ≤ held_outgoing a l
unfolding drop_same
drop_same-fewer o s [] a = omega arith
drop_same-fewer o s (next ∷ rest) a = elim (Bool-cases (is_same_packet o next)) [
  | inl e ↦ rw (drop_same, e) (omega (arith, drop_same-fewer o (release s next.packet) rest a))
  | inr e ↦ rw (drop_same, e) (omega arith)
]

channel_of-get :
    (p : Peer) (o : OutgoingCommand) (ch : Channel)
    → channel_of p o ≡ some ch
    → get_elem? p.channels (header o.command).channel_id ≡ some ch
channel_of-get p o ch e = ground arith

in_window-channels :
    (p : Peer) (o : OutgoingCommand) (a : ℕ) → in_channels a (in_window p o) ≡ in_channels a p
unfolding in_window enter_window
in_window-channels p o a = elim (Option-cases (channel_of p o)) [
  | inl e ↦ rw (in_window, e) refl
  | inr (ch, e) ↦ elim (Bool-cases (ltb o.send_attempts 1)) [
    | inl g ↦
        rw (in_window, e, g)
          (held_channels-set a p.channel_count p.channels (header o.command).channel_id ch
            (enter_window ch (window_of o)) (channel_of-get p o ch e) refl refl)
    | inr g ↦ rw (in_window, e, g) refl
  ]
]

in_window-queues : (p : Peer) (o : OutgoingCommand) → (in_window p o).queues ≡ p.queues
unfolding in_window
in_window-queues p o = ground arith

turn-held :
    (a : ℕ) (w : Walk) (t : Turn)
    → IsTurn w.left w.left_reliable t
    → held_outgoing a w.left + held_outgoing a w.left_reliable
      ≡ points_to a t.command.packet + held_outgoing a t.left + held_outgoing a t.left_reliable
turn-held a w t (inl (s, e, f)) = omega (arith, ap (held_outgoing a) e, ap (held_outgoing a) f)
turn-held a w t (inr (s, e, f)) = omega (arith, ap (held_outgoing a) e, ap (held_outgoing a) f)

-- What a round keeps: the references, less those in hand, and those of the channels.
record IsBalanced (rest channels dispatched a : ℕ) (w : Walk) : Type 0 where
  counted : references w.conn.host.packets a ≡ rest + in_hand a w
  small : references w.conn.host.packets a < 2 ^ 64
  same_channels : in_channels a w.conn.peer ≡ channels
  same_dispatched : held a w.conn.peer.queues.dispatched_commands ≡ dispatched

no_ping-left :
    (w : Walk) (o : OutgoingCommand)
    → ◌≡◌ {A = List OutgoingCommand × List OutgoingCommand}
        (w.left, w.left_reliable)
        ((no_ping w o).left, (no_ping w o).left_reliable)
no_ping-left w o = ground arith

module _ (rest channels dispatched a : ℕ) where
  passed-IsBalanced :
      (w : Walk) (t : Turn)
      → IsTurn w.left w.left_reliable t
      → IsBalanced rest channels dispatched a w
      → IsBalanced rest channels dispatched a (passed w t)
  passed-IsBalanced w t turn h =
      let moved = turn-held a w t turn in
      let k = held_outgoing-append a w.kept (t.command ∷ []) in
      let r = held_outgoing-append a w.kept_reliable (t.command ∷ []) in
      record {
        counted = ground (arith, h.counted, moved, k, r);
        small = ground (arith, h.small);
        same_channels = ground (arith, h.same_channels);
        same_dispatched = ground (arith, h.same_dispatched);
      }

  skip-IsBalanced :
      (w : Walk)
      → IsBalanced rest channels dispatched a w
      → IsBalanced rest channels dispatched a (skip_reliable w)
  skip-IsBalanced w h = record {
    counted = omega (arith, h.counted, held_outgoing-append a w.kept_reliable w.left_reliable);
    small = h.small;
    same_channels = h.same_channels;
    same_dispatched = h.same_dispatched;
  }

  write_reliable-IsBalanced :
      (w : Walk) (t : Turn)
      → IsTurn w.left w.left_reliable t
      → IsBalanced rest channels dispatched a w
      → IsBalanced rest channels dispatched a (write_reliable w t)
  unfolding write_reliable keep_sent
  write_reliable-IsBalanced w t turn h =
      let q = in_window-queues w.conn.peer t.command in
      let k =
        held_outgoing-append a (in_window w.conn.peer t.command).queues.sent_reliable_commands
          (attempted w.conn t.command ∷ []) in
      record {
        counted = omega (
          arith,
          h.counted,
          turn-held a w t turn,
          k,
          ap (λ (q : Queues). held_outgoing a q.sent_reliable_commands) q,
        );
        small = h.small;
        same_channels = in_window-channels w.conn.peer t.command a ∙ h.same_channels;
        same_dispatched = ap (λ (q : Queues). held a q.dispatched_commands) q ∙ h.same_dispatched;
      }

  write_unreliable-IsBalanced :
      (w : Walk) (t : Turn)
      → IsTurn w.left w.left_reliable t
      → IsBalanced rest channels dispatched a w
      → IsBalanced rest channels dispatched a (write_unreliable w t)
  unfolding write_unreliable
  write_unreliable-IsBalanced w t turn h =
      let moved = turn-held a w t turn in
      let k = held_outgoing-append a w.sent_unreliable (t.command ∷ []) in
      record {
        counted = elim (Option-cases t.command.packet) [
          | inl e ↦ ground (arith, e, h.counted, moved)
          | inr (b, e) ↦ ground (arith, e, h.counted, moved, k)
        ];
        small = ground (arith, h.small);
        same_channels = ground (arith, h.same_channels);
        same_dispatched = ground (arith, h.same_dispatched);
      }

  drop_packet-IsBalanced :
      (w : Walk) (t : Turn)
      → IsTurn w.left w.left_reliable t
      → IsBalanced rest channels dispatched a w
      → IsBalanced rest channels dispatched a (drop_packet w t)
  unfolding drop_packet
  drop_packet-IsBalanced w t turn h =
      let moved = turn-held a w t turn in
      let r =
        references-release w.conn.host.packets t.command.packet a (omega (arith, moved, h.counted))
          h.small in
      let d =
        drop_same-held t.command (release w.conn.host.packets t.command.packet) t.left a
          (omega (arith, moved, h.counted, r)) (omega (arith, r, h.small)) in
      record {
        counted = omega (arith, moved, h.counted, r, d);
        small = omega (
          arith,
          moved,
          h.counted,
          h.small,
          r,
          d,
          drop_same-fewer t.command (release w.conn.host.packets t.command.packet) t.left a,
        );
        same_channels = h.same_channels;
        same_dispatched = h.same_dispatched;
      }

  no_ping-IsBalanced :
      (w : Walk) (o : OutgoingCommand)
      → IsBalanced rest channels dispatched a w
      → IsBalanced rest channels dispatched a (no_ping w o)
  no_ping-IsBalanced w o h = ground arith

  write-IsBalanced :
      (w : Walk) (t : Turn)
      → IsTurn w.left w.left_reliable t
      → IsBalanced rest channels dispatched a w
      → IsBalanced rest channels dispatched a (write w t)
  unfolding write
  write-IsBalanced w t turn h = elim (Bool-cases (acknowledges t.command)) [
    | inl e ↦ rw (write, e) (write_reliable-IsBalanced w t turn h)
    | inr e ↦ elim (Bool-cases (is_throttled w.conn t.command)) [
      | inl f ↦ rw (write, e, f) (drop_packet-IsBalanced w t turn h)
      | inr f ↦ rw (write, e, f) (write_unreliable-IsBalanced w t turn h)
    ]
  ]

  proceed-IsBalanced :
      (w : Walk) (t : Turn) (v : Verdict)
      → IsTurn w.left w.left_reliable t
      → IsBalanced rest channels dispatched a w
      → IsBalanced rest channels dispatched a (proceed w t v)
  unfolding proceed
  proceed-IsBalanced w t pass_over turn h = passed-IsBalanced w t turn h
  proceed-IsBalanced w t hold_reliable turn h =
      skip-IsBalanced (passed w t) (passed-IsBalanced w t turn h)
  proceed-IsBalanced w t begin_wrap turn h =
      let k = passed-IsBalanced w t turn h in
      skip-IsBalanced (record (passed w t) { window_wrap = true })
        (record {
          counted = k.counted;
          small = k.small;
          same_channels = k.same_channels;
          same_dispatched = k.same_dispatched;
        })
  proceed-IsBalanced w t admit turn h =
      let k = no_ping-IsBalanced w t.command h in
      elim (Bool-cases (is_full w t.command)) [
        | inl e ↦
            rw (proceed, e)
              (record {
                counted = k.counted;
                small = k.small;
                same_channels = k.same_channels;
                same_dispatched = k.same_dispatched;
              })
        | inr e ↦
            rw (proceed, e)
              (write-IsBalanced (no_ping w t.command) t
                (subst (λ l. IsTurn l.0 l.1 t) (no_ping-left w t.command) turn) k)
      ]

-- The counts of packets, with the queue of unreliable commands that are sent with the datagram.
abbrev pub AreAccounted : (ℕ → ℕ) → Conn → List OutgoingCommand → Type 0
AreAccounted elsewhere c sent_unreliable =
    IsAccounted (λ a. elsewhere a + held_outgoing a sent_unreliable) c

-- A command that has a packet.
abbrev pub HasPacket : OutgoingCommand → Type 0
HasPacket o = has_packet o ≡ true

meets_null-false :
    (o : OutgoingCommand) (l : List OutgoingCommand) → All HasPacket l → meets_null o l ≡ false
meets_null-false o [] h = refl
meets_null-false o (next ∷ rest) (h, hs) = ground (arith, h, meets_null-false o rest hs)

-- No null pointer has been read, and every command that is left has a packet.
abbrev IsSound : Walk → Type 0
IsSound w = (w.faulted ≡ false) × All HasPacket w.left × All HasPacket w.left_reliable

proceed-faulted :
    (w : Walk) (t : Turn) (v : Verdict)
    → All HasPacket t.left
    → w.faulted ≡ false
    → (proceed w t v).faulted ≡ false
unfolding proceed write write_reliable write_unreliable drop_packet
proceed-faulted w t pass_over h e = ground (arith, e)
proceed-faulted w t begin_wrap h e = ground (arith, e)
proceed-faulted w t hold_reliable h e = ground (arith, e)
proceed-faulted w t admit h e = ground (arith, e, meets_null-false t.command t.left h)

walk_queues-IsSound :
    (c : Conn) (d : Datagram) (sent_unreliable : List OutgoingCommand)
    → All HasPacket c.peer.queues.outgoing_commands
    → All HasPacket c.peer.queues.outgoing_send_reliable_commands
    → (walk_queues c d sent_unreliable).faulted ≡ false
unfolding walk_queues begin
walk_queues-IsSound c d sent_unreliable h k =
    let w = begin c d sent_unreliable in
    (walk_inv IsSound
      (λ (w : Walk) (t : Turn) turn v.
        let (l, r) = proceed-All HasPacket w t (judge w t.command) turn (v.1, v.2) in
        (
          proceed-faulted w t (judge w t.command)
              (turn-All HasPacket w.left w.left_reliable t turn v.1 v.2).1 v.0,
          l,
          r,
        ))
      (rounds w) w (refl, h, k)).0

-- After the loop the counts of packets are still the numbers of references to them, of the peer's
-- queues, of its channels and of the unreliable commands that are sent with the datagram: a command
-- keeps its reference when it goes to another queue, and a dropped one gives it up. No count
-- overflows. The loop must not have dropped a command that has no packet along with one that has the
-- same numbers, where the source reads a null pointer; it does not if all queued commands have one.
pub walk_queues-IsAccounted :
    (elsewhere : ℕ → ℕ) (c : Conn) (d : Datagram) (sent_unreliable : List OutgoingCommand)
    → AreAccounted elsewhere c sent_unreliable
    → ((a : ℕ) → references c.host.packets a < 2 ^ 64)
    → ((walk_queues c d sent_unreliable).faulted ≡ false)
      ⊎ (All HasPacket c.peer.queues.outgoing_commands
          × All HasPacket c.peer.queues.outgoing_send_reliable_commands)
    → let w = walk_queues c d sent_unreliable in
      (w.faulted ≡ false)
      × AreAccounted elsewhere (requeue w) w.sent_unreliable
      × ((a : ℕ) → references w.conn.host.packets a < 2 ^ 64)
unfolding walk_queues begin requeue
walk_queues-IsAccounted elsewhere c d sent_unreliable v small sound = (
  elim sound [ inl e ↦ e | inr h ↦ walk_queues-IsSound c d sent_unreliable h.0 h.1 ],
  λ a.
      let h = ends a in
      let w = walk_queues c d sent_unreliable in
      omega (
        arith,
        h.counted,
        h.same_channels,
        h.same_dispatched,
        held_outgoing-append a w.kept w.left,
        held_outgoing-append a w.kept_reliable w.left_reliable,
      ),
  λ a. (ends a).small,
)
  where
    ends :
        (a : ℕ)
        → IsBalanced
            (elsewhere a + in_channels a c.peer + held a c.peer.queues.dispatched_commands)
            (in_channels a c.peer)
            (held a c.peer.queues.dispatched_commands)
            a
            (walk_queues c d sent_unreliable)
    ends a =
        let w = begin c d sent_unreliable in
        walk_inv
          (IsBalanced
            (elsewhere a + in_channels a c.peer + held a c.peer.queues.dispatched_commands)
            (in_channels a c.peer) (held a c.peer.queues.dispatched_commands) a)
          (λ (w : Walk) (t : Turn). proceed-IsBalanced _ _ _ a w t (judge w t.command)) (rounds w) w
          (record {
            counted = omega (arith, v a);
            small = small a;
            same_channels = refl;
            same_dispatched = refl;
          })
