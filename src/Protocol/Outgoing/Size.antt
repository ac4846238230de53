-- ===== src/Protocol/Outgoing/Size.antt =====
-- src/protocol.cpp, `enet_protocol_check_outgoing_commands`: the datagram stays within its bounds, and
-- takes at least one command.
use enetcpp.Base.{
  refl, ◌∙◌, Option-cases, false, true, ℕ, arith, ◌≡◌, All, Bool-cases, List, [], inl, inr, subst,
  ◌+◌, ◌<◌, ◌∷◌,
}
use enetcpp.Packet.Store.{Store, release}
use enetcpp.Peer.{OutgoingCommand}
use enetcpp.Host.{Conn}
use enetcpp.Protocol.Datagram.{Datagram}
use enetcpp.Protocol.Datagram.Fit.{IsFit, put_command-IsFit, put_both-IsFit}
use enetcpp.Protocol.Outgoing.{
  Walk, Turn, Verdict, pass_over, hold_reliable, begin_wrap, admit, judge, proceed, drop_packet,
  drop_same, write, write_reliable, write_unreliable, is_full, no_ping, put, command_size,
  keep_sent, walk_queues, begin, rounds, is_same_packet, acknowledges, is_throttled, passed,
}
use enetcpp.Protocol.Outgoing.Progress.{IsTurn, walk_inv}

-- A command with the bytes of its packet is shorter than 2 ^ 16.
abbrev pub IsShort : OutgoingCommand → Type 0
IsShort o = command_size o + o.fragment_length < 65536

-- The commands that are left for the loop are short.
abbrev pub AreShort : Walk → Type 0
AreShort w = All IsShort w.left × All IsShort w.left_reliable

drop_same-All {ℓ} :
    (P : OutgoingCommand → Type ℓ) (o : OutgoingCommand) (s : Store) (l : List OutgoingCommand)
    → All P l
    → All P (drop_same o s l).1
unfolding drop_same
drop_same-All P o s [] h = tt
drop_same-All P o s (next ∷ rest) h = elim (Bool-cases (is_same_packet o next)) [
  | inl e ↦ rw (drop_same, e) (drop_same-All P o (release s next.packet) rest h.1)
  | inr e ↦ rw (drop_same, e) h
]

-- A predicate of the commands that are left holds of the chosen one and of those left after it.
pub turn-All {ℓ} :
    (P : OutgoingCommand → Type ℓ) (os rs : List OutgoingCommand) (t : Turn)
    → IsTurn os rs t
    → All P os
    → All P rs
    → P t.command × All P t.left × All P t.left_reliable
turn-All P os rs t (inl (s, e, f)) h k =
    let h' = subst (All P) e h in (h'.0, h'.1, subst (All P) f k)
turn-All P os rs t (inr (s, e, f)) h k =
    let k' = subst (All P) f k in (k'.0, subst (All P) e h, k'.1)

-- A predicate of the commands that are left holds after a round.
pub proceed-All {ℓ} :
    (P : OutgoingCommand → Type ℓ) (w : Walk) (t : Turn) (v : Verdict)
    → IsTurn w.left w.left_reliable t
    → All P w.left × All P w.left_reliable
    → All P (proceed w t v).left × All P (proceed w t v).left_reliable
unfolding proceed write write_reliable write_unreliable drop_packet
proceed-All P w t pass_over turn (h, k) =
    let (o, l, r) = turn-All P w.left w.left_reliable t turn h k in ground arith
proceed-All P w t hold_reliable turn (h, k) =
    let (o, l, r) = turn-All P w.left w.left_reliable t turn h k in ground arith
proceed-All P w t begin_wrap turn (h, k) =
    let (o, l, r) = turn-All P w.left w.left_reliable t turn h k in ground arith
proceed-All P w t admit turn (h, k) =
    let (o, l, r) = turn-All P w.left w.left_reliable t turn h k in
    ground
      (arith, drop_same-All P t.command (release w.conn.host.packets t.command.packet) t.left l)

pub proceed-mtu :
    (w : Walk) (t : Turn) (v : Verdict) → (proceed w t v).conn.peer.mtu ≡ w.conn.peer.mtu
unfolding proceed write write_reliable write_unreliable drop_packet keep_sent
proceed-mtu w t pass_over = ground arith
proceed-mtu w t hold_reliable = ground arith
proceed-mtu w t begin_wrap = ground arith
proceed-mtu w t admit = ground arith

passed-datagram : (w : Walk) (t : Turn) → w.datagram ≡ (passed w t).datagram
passed-datagram w t = ground arith

pub no_ping-datagram : (w : Walk) (o : OutgoingCommand) → w.datagram ≡ (no_ping w o).datagram
no_ping-datagram w o = ground arith

module _ (mtu : ℕ) (small : mtu < 65536) where
  -- A command that passes the tests fits with its packet: the tests in 16 bits are exact.
  put-IsFit :
      (w : Walk) (o : OutgoingCommand)
      → w.conn.peer.mtu ≡ mtu
      → IsShort o
      → IsFit mtu w.datagram
      → is_full w o ≡ false
      → IsFit mtu (put w.datagram o)
  put-IsFit w o same short v e = elim (Option-cases o.packet) [
    | inl f ↦ rw f (
        put_command-IsFit mtu w.datagram (omega arith) v o.command (command_size o) (ground arith)
          (ground arith))
    | inr (a, f) ↦ rw f (
        put_both-IsFit mtu w.datagram (omega arith) v o.command (command_size o) a o.fragment_offset
          o.fragment_length (ground arith) (ground arith))
  ]

  -- What holds of the loop: the MTU stays, the commands that are left are short, the datagram fits.
  record IsBounded (w : Walk) : Type 0 where
    same : w.conn.peer.mtu ≡ mtu
    short : AreShort w
    fit : IsFit mtu w.datagram

  flagged-IsFit : (d : Datagram) → IsFit mtu d → IsFit mtu (record d { sent_time_flag = true })
  flagged-IsFit d v = record {
    few_commands = v.few_commands;
    few_buffers = v.few_buffers;
    counted = v.counted;
    within = v.within;
  }

  write-IsFit :
      (w : Walk) (t : Turn)
      → IsFit mtu w.datagram
      → IsFit mtu (put w.datagram t.command)
      → IsFit mtu (write w t).datagram
  unfolding write write_reliable write_unreliable drop_packet
  write-IsFit w t v after = elim (Bool-cases (acknowledges t.command)) [
    | inl e ↦ rw (write, e) (flagged-IsFit (put w.datagram t.command) after)
    | inr e ↦ elim (Bool-cases (is_throttled w.conn t.command)) [
      | inl f ↦ rw (write, e, f) v
      | inr f ↦ rw (write, e, f) after
    ]
  ]

  proceed-IsFit :
      (w : Walk) (t : Turn) (v : Verdict)
      → IsTurn w.left w.left_reliable t
      → IsBounded w
      → IsFit mtu (proceed w t v).datagram
  unfolding proceed
  proceed-IsFit w t pass_over turn h = subst (IsFit mtu) (passed-datagram w t) h.fit
  proceed-IsFit w t hold_reliable turn h = subst (IsFit mtu) (passed-datagram w t) h.fit
  proceed-IsFit w t begin_wrap turn h = subst (IsFit mtu) (passed-datagram w t) h.fit
  proceed-IsFit w t admit turn h = elim (Bool-cases (is_full w t.command)) [
    | inl e ↦ rw (proceed, e) (subst (IsFit mtu) (no_ping-datagram w t.command) h.fit)
    | inr e ↦
        let short = (turn-All IsShort w.left w.left_reliable t turn h.short.0 h.short.1).0 in
        let same = no_ping-datagram w t.command in
        rw (proceed, e)
          (write-IsFit (no_ping w t.command) t (subst (IsFit mtu) same h.fit) (
            subst (λ d. IsFit mtu (put d t.command)) same
              (put-IsFit w t.command h.same short h.fit e)))
  ]

  proceed-IsBounded :
      (w : Walk) (t : Turn)
      → IsTurn w.left w.left_reliable t
      → IsBounded w
      → IsBounded (proceed w t (judge w t.command))
  proceed-IsBounded w t turn h = record {
    same = proceed-mtu w t (judge w t.command) ∙ h.same;
    short = proceed-All IsShort w t (judge w t.command) turn h.short;
    fit = proceed-IsFit w t (judge w t.command) turn h;
  }

-- The datagram fits its arrays and the MTU after the loop, and the size that is counted is the one
-- of its buffers. The MTU and every queued command with its bytes are below 2 ^ 16, and the datagram
-- fits before.
pub walk_queues-IsFit :
    (c : Conn) (d : Datagram) (sent_unreliable : List OutgoingCommand)
    → c.peer.mtu < 65536
    → All IsShort c.peer.queues.outgoing_commands
    → All IsShort c.peer.queues.outgoing_send_reliable_commands
    → IsFit c.peer.mtu d
    → IsFit c.peer.mtu (walk_queues c d sent_unreliable).datagram
unfolding walk_queues begin
walk_queues-IsFit c d sent_unreliable small short short_reliable v =
    let w = begin c d sent_unreliable in
    let h =
      walk_inv (IsBounded c.peer.mtu small) (proceed-IsBounded c.peer.mtu small) (rounds w) w
        (record { same = refl; short = (short, short_reliable); fit = v }) in
    h.fit
