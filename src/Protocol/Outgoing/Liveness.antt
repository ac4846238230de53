-- ===== src/Protocol/Outgoing/Liveness.antt =====
-- src/protocol.cpp, `enet_protocol_check_outgoing_commands`: sending goes on only after a command has
-- been written.
use enetcpp.Base.{
  Bool-cases, List, refl, subst, sym, ◌∙◌, All, Bool, [], arith, false, inl, inr, length,
  length-append, true, ℕ, ◌+◌, ◌<◌, ◌∷◌, ◌≡◌, ◌≤◌, ◌⊎◌,
}
use enetcpp.Command.Size
use enetcpp.Peer.{OutgoingCommand}
use enetcpp.Host.{Conn}
use enetcpp.Protocol.Datagram.{Datagram}
use enetcpp.Protocol.Outgoing.{
  Walk, Turn, Verdict, pass_over, hold_reliable, begin_wrap, admit, judge, proceed, drop_packet,
  write, write_reliable, write_unreliable, is_full, no_ping, put, command_size, keep_sent,
  walk_queues, begin, rounds, acknowledges, is_throttled, passed,
}
use enetcpp.Protocol.Outgoing.Progress.{IsTurn, walk_inv, walk_queues-IsDone}
use enetcpp.Protocol.Outgoing.Size.{turn-All, proceed-All, proceed-mtu, no_ping-datagram}

-- A command that goes into an empty datagram.
abbrev pub IsSendable : ℕ → OutgoingCommand → Type 0
IsSendable mtu o = Size.protocol_header + command_size o + o.fragment_length ≤ mtu

abbrev pub IsUntouched : Datagram → Type 0
IsUntouched d =
    (length d.commands ≡ 0) × (length d.buffers ≡ 0) × (d.packet_size ≡ Size.protocol_header)

put-begun : (d : Datagram) (o : OutgoingCommand) → 0 < length (put d o).commands
put-begun d o = ground (arith, length-append d.commands (o.command ∷ []))

module _ (mtu : ℕ) (small : mtu < 65536) (flag : Bool) where
  -- A datagram that is full has a command, and with it alone the flag has changed.
  record IsLive (w : Walk) : Type 0 where
    same : w.conn.peer.mtu ≡ mtu
    sendable : All (IsSendable mtu) w.left × All (IsSendable mtu) w.left_reliable
    begun : IsUntouched w.datagram ⊎ (0 < length w.datagram.commands)
    goes_on :
        ((w.stopped ≡ false) × (w.conn.peer.continue_sending ≡ flag))
        ⊎ (0 < length w.datagram.commands)

  -- What a round does to the datagram and to the flag of an untouched one.
  full-begun :
      (w : Walk) (o : OutgoingCommand)
      → IsLive w
      → IsSendable mtu o
      → is_full w o ≡ true
      → 0 < length w.datagram.commands
  full-begun w o h s e = elim h.begun [ inl (a, b, n) ↦ absurd (ground arith) | inr n ↦ n ]

-- A round leaves the datagram, the flag and `stopped`, or the datagram has a command after it.
abbrev Idle : Walk → Walk → Type 0
Idle w w' =
    ((w'.datagram ≡ w.datagram)
      × (w'.stopped ≡ w.stopped)
      × (w'.conn.peer.continue_sending ≡ w.conn.peer.continue_sending))
    ⊎ (0 < length w'.datagram.commands)

write-Idle : (w : Walk) (t : Turn) → Idle w (write w t)
unfolding write write_reliable write_unreliable drop_packet keep_sent
write-Idle w t = elim (Bool-cases (acknowledges t.command)) [
  | inl e ↦ rw (write, e) (inr (put-begun w.datagram t.command))
  | inr e ↦ elim (Bool-cases (is_throttled w.conn t.command)) [
    | inl f ↦ rw (write, e, f) (inl (refl, refl, refl))
    | inr f ↦ rw (write, e, f) (inr (put-begun w.datagram t.command))
  ]
]

passed-Idle : (w : Walk) (t : Turn) → Idle w (passed w t)
passed-Idle w t = inl (ground arith)

no_ping-Idle : (w w' : Walk) (o : OutgoingCommand) → Idle (no_ping w o) w' → Idle w w'
no_ping-Idle w w' o h = ground arith

proceed-Idle :
    (mtu : ℕ) (small : mtu < 65536) (flag : Bool) (w : Walk) (t : Turn) (v : Verdict)
    → IsTurn w.left w.left_reliable t
    → IsLive mtu small flag w
    → Idle w (proceed w t v)
unfolding proceed
proceed-Idle mtu small flag w t pass_over turn h = passed-Idle w t
proceed-Idle mtu small flag w t hold_reliable turn h = passed-Idle w t
proceed-Idle mtu small flag w t begin_wrap turn h = passed-Idle w t
proceed-Idle mtu small flag w t admit turn h = elim (Bool-cases (is_full w t.command)) [
  | inl e ↦
      let fits =
        (turn-All (IsSendable mtu) w.left w.left_reliable t turn h.sendable.0 h.sendable.1).0 in
      rw (proceed, e)
        (inr (
          subst (λ d. 0 < length d.commands) (no_ping-datagram w t.command)
            (full-begun mtu small flag w t.command h fits e)))
  | inr e ↦
      rw (proceed, e)
        (no_ping-Idle w (write (no_ping w t.command) t) t.command
          (write-Idle (no_ping w t.command) t))
]

proceed-IsLive :
    (mtu : ℕ) (small : mtu < 65536) (flag : Bool) (w : Walk) (t : Turn)
    → IsTurn w.left w.left_reliable t
    → IsLive mtu small flag w
    → IsLive mtu small flag (proceed w t (judge w t.command))
proceed-IsLive mtu small flag w t turn h =
    elim (proceed-Idle mtu small flag w t (judge w t.command) turn h) [
      | inl (d, s, f) ↦ record {
        same = proceed-mtu w t (judge w t.command) ∙ h.same;
        sendable = proceed-All (IsSendable mtu) w t (judge w t.command) turn h.sendable;
        begun = subst (λ d. IsUntouched d ⊎ (0 < length d.commands)) (sym d) h.begun;
        goes_on = elim h.goes_on [
          | inl (a, b) ↦ inl (s ∙ a, f ∙ b)
          | inr n ↦ inr (subst (λ d. 0 < length d.commands) (sym d) n)
        ];
      }
      | inr n ↦ record {
        same = proceed-mtu w t (judge w t.command) ∙ h.same;
        sendable = proceed-All (IsSendable mtu) w t (judge w t.command) turn h.sendable;
        begun = inr n;
        goes_on = inr n;
      }
    ]

-- If every queued command goes into an empty datagram, and the datagram is empty or has a command,
-- then after the loop it has a command, or all commands have been looked at and the flag by which
-- sending goes on is as it was: a full datagram never goes on without a command in it.
pub walk_queues-progress :
    (c : Conn) (d : Datagram) (sent_unreliable : List OutgoingCommand)
    → c.peer.mtu < 65536
    → All (IsSendable c.peer.mtu) c.peer.queues.outgoing_commands
    → All (IsSendable c.peer.mtu) c.peer.queues.outgoing_send_reliable_commands
    → IsUntouched d ⊎ (0 < length d.commands)
    → let w = walk_queues c d sent_unreliable in
      (0 < length w.datagram.commands)
      ⊎ ((w.left ≡ [])
          × (w.left_reliable ≡ [])
          × (w.conn.peer.continue_sending ≡ c.peer.continue_sending))
unfolding walk_queues begin
walk_queues-progress c d sent_unreliable small fits fits_reliable start =
    let w = begin c d sent_unreliable in
    let h : IsLive c.peer.mtu small c.peer.continue_sending (walk_queues c d sent_unreliable) =
      walk_inv (IsLive c.peer.mtu small c.peer.continue_sending)
        (proceed-IsLive c.peer.mtu small c.peer.continue_sending) (rounds w) w
        (record {
          same = refl;
          sendable = (fits, fits_reliable);
          begun = start;
          goes_on = inl (refl, refl);
        }) in
    elim h.goes_on [
      | inr n ↦ inl n
      | inl (a, b) ↦ elim (walk_queues-IsDone c d sent_unreliable) [
        | inl e ↦ cc
        | inr (e, f) ↦ inr (e, f, b)
      ]
    ]
