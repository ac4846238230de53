-- ===== src/Protocol/Timeout/Partition.antt =====
-- src/protocol.cpp, `enet_protocol_check_timeouts`: where each command goes.
use enetcpp.Base.{
  leb, subst, ◌%◌, ◌*◌, ◌-◌, ◌<◌, ◌==◌, ◌^◌, ◌≤◌, ◌⊎◌, Bool-cases, append-nil, append_assoc, arith,
  if◌then◌else◌, inl, inr, length-append, select, select-append, sym, ◌+◌, ◌∙◌, Bool, List, Option,
  [], ap, false, length, none, not, refl, some, true, ℕ, ◌&&◌, ◌++◌, ◌∷◌, ◌≡◌,
}
use enetcpp.Time.{time_less, time_difference}
use enetcpp.Peer.{OutgoingCommand, Timing}
use enetcpp.Host.{Host, Conn}
use enetcpp.Protocol.{Event, Reported}
use enetcpp.Protocol.Change.{notify_disconnect}
use enetcpp.Protocol.Timeout.{
  Sweep, is_waiting, earliest, gives_up, resent, insert_at, requeue, expire, noted, sweep,
  check_timeouts,
}

-- The commands that have timed out, without and with a packet, as they are sent again.
abbrev pub is_bare : ℕ → OutgoingCommand → Bool
is_bare t o = not (is_waiting t o) && elim o.packet [ none ↦ true | some a ↦ false ]

abbrev pub is_carrying : ℕ → OutgoingCommand → Bool
is_carrying t o = not (is_waiting t o) && elim o.packet [ none ↦ false | some a ↦ true ]

abbrev pub doubled : OutgoingCommand → OutgoingCommand
doubled o = record o { round_trip_timeout = o.round_trip_timeout * 2 % 2 ^ 32 }

abbrev pub resend : (OutgoingCommand → Bool) → List OutgoingCommand → List OutgoingCommand
resend test [] = []
resend test (o ∷ rest) = if test o then doubled o ∷ resend test rest else resend test rest

-- The earliest time at which a command that has timed out was sent, as the loop comes to know it: a
-- time of 0 stands for none.
abbrev pub noted_time : ℕ → ℕ → ℕ
noted_time old sent_time =
    if old == 0 then sent_time else if time_less sent_time old then sent_time else old

abbrev pub next_first : ℕ → ℕ → OutgoingCommand → ℕ
next_first now old o = if is_waiting now o then old else noted_time old o.sent_time

abbrev pub first_timeout : ℕ → ℕ → List OutgoingCommand → ℕ
first_timeout now old [] = old
first_timeout now old (o ∷ os) = first_timeout now (next_first now old o) os

-- The limits of a peer at a command, given that earliest time: the longest time of all, or the
-- attempts together with the shortest time.
abbrev pub IsExceeded : ℕ → Timing → ℕ → OutgoingCommand → Type 0
IsExceeded now t first o =
    (0 < first)
    × ((t.timeout_maximum ≤ time_difference now first)
        ⊎ ((t.timeout_limit ≤ 2 ^ (o.send_attempts - 1))
            × (t.timeout_minimum ≤ time_difference now first)))

-- None of the commands passes the limits at its turn.
abbrev pub NoneExceeds : ℕ → Timing → ℕ → List OutgoingCommand → Type 0
NoneExceeds now t old [] = Unit
NoneExceeds now t old (o ∷ os) =
    ((is_waiting now o ≡ true) ⊎ (¬ IsExceeded now t (next_first now old o) o))
    × NoneExceeds now t (next_first now old o) os

-- Every command stays or goes to the queue that it came from, to the front, in order.
pub record IsSwept (c : Conn) (event : Option Event) (r : Reported) : Type 0 where
  pub sent :
      r.conn.peer.queues.sent_reliable_commands
      ≡ select (is_waiting c.host.service_time) c.peer.queues.sent_reliable_commands
  pub outgoing :
      r.conn.peer.queues.outgoing_commands
      ≡ resend (is_bare c.host.service_time) c.peer.queues.sent_reliable_commands
        ++ c.peer.queues.outgoing_commands
  pub send_reliable :
      r.conn.peer.queues.outgoing_send_reliable_commands
      ≡ resend (is_carrying c.host.service_time) c.peer.queues.sent_reliable_commands
        ++ c.peer.queues.outgoing_send_reliable_commands
  pub none_exceeds :
      NoneExceeds c.host.service_time c.peer.timing c.peer.timing.earliest_timeout
        c.peer.queues.sent_reliable_commands
  pub first :
      r.conn.peer.timing.earliest_timeout
      ≡ first_timeout c.host.service_time c.peer.timing.earliest_timeout
          c.peer.queues.sent_reliable_commands
  pub same_event : r.event ≡ event
  pub same_host : r.conn.host ≡ c.host
  pub same_state : r.conn.peer.state ≡ c.peer.state

-- A command has timed out and the limits are passed: the peer, in its state, is given up.
pub record IsGivenUp (c : Conn) (event : Option Event) (r : Reported) : Type 0 where
  pub before : List OutgoingCommand
  pub command : OutgoingCommand
  pub after : List OutgoingCommand
  pub whole : before ++ command ∷ after ≡ c.peer.queues.sent_reliable_commands
  pub expired : is_waiting c.host.service_time command ≡ false
  pub none_before :
      NoneExceeds c.host.service_time c.peer.timing c.peer.timing.earliest_timeout before
  pub exceeded :
      IsExceeded c.host.service_time c.peer.timing
        (first_timeout c.host.service_time c.peer.timing.earliest_timeout (before ++ command ∷ []))
        command
  pub last : Conn
  pub sent :
      last.peer.queues.sent_reliable_commands
      ≡ select (is_waiting c.host.service_time) before ++ command ∷ after
  pub outgoing :
      last.peer.queues.outgoing_commands
      ≡ resend (is_bare c.host.service_time) before ++ c.peer.queues.outgoing_commands
  pub send_reliable :
      last.peer.queues.outgoing_send_reliable_commands
      ≡ resend (is_carrying c.host.service_time) before
        ++ c.peer.queues.outgoing_send_reliable_commands
  pub same_host : last.host ≡ c.host
  pub same_state : last.peer.state ≡ c.peer.state
  pub reported : r ≡ notify_disconnect last event

first_timeout-append :
    (now old : ℕ) (xs : List OutgoingCommand) (o : OutgoingCommand)
    → first_timeout now old (xs ++ o ∷ []) ≡ next_first now (first_timeout now old xs) o
first_timeout-append now old [] o = refl
first_timeout-append now old (x ∷ xs) o = first_timeout-append now (next_first now old x) xs o

NoneExceeds-append :
    (now : ℕ) (t : Timing) (old : ℕ) (xs : List OutgoingCommand) (o : OutgoingCommand)
    → NoneExceeds now t old xs
    → (is_waiting now o ≡ true)
      ⊎ (¬ IsExceeded now t (next_first now (first_timeout now old xs) o) o)
    → NoneExceeds now t old (xs ++ o ∷ [])
NoneExceeds-append now t old [] o h k = (k, tt)
NoneExceeds-append now t old (x ∷ xs) o (h, hs) k =
    (h, NoneExceeds-append now t (next_first now old x) xs o hs k)

-- The test of the code is that of the limits.
gives_up-IsExceeded :
    (now : ℕ) (t : Timing) (o : OutgoingCommand)
    → gives_up now t o ≡ true
    → IsExceeded now t t.earliest_timeout o
gives_up-IsExceeded now t o e =
    let nonzero : 0 < t.earliest_timeout = ground (arith, e) in
    (
      nonzero,
      elim (Bool-cases (leb t.timeout_maximum (time_difference now t.earliest_timeout))) [
        | inl f ↦ inl (ground (arith, f))
        | inr f ↦ inr (ground (arith, e, f), ground (arith, e, f))
      ],
    )

keeps_on :
    (now : ℕ) (t : Timing) (o : OutgoingCommand)
    → gives_up now t o ≡ false
    → ¬ IsExceeded now t t.earliest_timeout o
keeps_on now t o e (nonzero, inl h) = absurd (ground (arith, e, nonzero, h))
keeps_on now t o e (nonzero, inr (h, k)) = absurd (ground (arith, e, nonzero, h, k))

earliest-noted :
    (t : Timing) (o : OutgoingCommand)
    → (earliest t o).earliest_timeout ≡ noted_time t.earliest_timeout o.sent_time
earliest-noted t o = ground arith

insert_at-append :
    (xs ys : List OutgoingCommand) (o : OutgoingCommand)
    → insert_at (length xs) o (xs ++ ys) ≡ (xs ++ o ∷ []) ++ ys
unfolding insert_at
insert_at-append [] ys o = refl
insert_at-append (x ∷ xs) ys o = ap (λ (l : List OutgoingCommand). x ∷ l) (insert_at-append xs ys o)

resend-append :
    (test : OutgoingCommand → Bool) (xs ys : List OutgoingCommand)
    → resend test (xs ++ ys) ≡ resend test xs ++ resend test ys
resend-append test [] ys = refl
resend-append test (x ∷ xs) ys = elim (Bool-cases (test x)) [
  | inl e ↦ rw e (ap (λ (l : List OutgoingCommand). doubled x ∷ l) (resend-append test xs ys))
  | inr e ↦ rw e (resend-append test xs ys)
]

-- The state of the loop, between what it has passed and what is left of the queue.
record IsUnderway (c : Conn) (passed rest : List OutgoingCommand) (s : Sweep) : Type 0 where
  whole : passed ++ rest ≡ c.peer.queues.sent_reliable_commands
  kept : s.kept ≡ select (is_waiting c.host.service_time) passed
  sent : s.conn.peer.queues.sent_reliable_commands ≡ s.kept ++ rest
  outgoing :
      s.conn.peer.queues.outgoing_commands
      ≡ resend (is_bare c.host.service_time) passed ++ c.peer.queues.outgoing_commands
  moved : s.moved ≡ length (resend (is_bare c.host.service_time) passed)
  send_reliable :
      s.conn.peer.queues.outgoing_send_reliable_commands
      ≡ resend (is_carrying c.host.service_time) passed
        ++ c.peer.queues.outgoing_send_reliable_commands
  moved_reliable : s.moved_reliable ≡ length (resend (is_carrying c.host.service_time) passed)
  same_host : s.conn.host ≡ c.host
  same_state : s.conn.peer.state ≡ c.peer.state
  same_limit : s.conn.peer.timing.timeout_limit ≡ c.peer.timing.timeout_limit
  same_minimum : s.conn.peer.timing.timeout_minimum ≡ c.peer.timing.timeout_minimum
  same_maximum : s.conn.peer.timing.timeout_maximum ≡ c.peer.timing.timeout_maximum
  none_exceeds : NoneExceeds c.host.service_time c.peer.timing c.peer.timing.earliest_timeout passed
  first :
      s.conn.peer.timing.earliest_timeout
      ≡ first_timeout c.host.service_time c.peer.timing.earliest_timeout passed

module _ (c : Conn) (passed : List OutgoingCommand) (o : OutgoingCommand)
    (rest : List OutgoingCommand) (s : Sweep) (v : IsUnderway c passed (o ∷ rest) s) where
  whole_next : (passed ++ o ∷ []) ++ rest ≡ c.peer.queues.sent_reliable_commands
  whole_next = append_assoc passed (o ∷ []) rest ∙ v.whole

  -- What one more command adds to a selection.
  select_next :
      (test : OutgoingCommand → Bool)
      → select test (passed ++ o ∷ []) ≡ select test passed ++ select test (o ∷ [])
  select_next test = select-append test passed (o ∷ [])

  resend_in :
      (test : OutgoingCommand → Bool)
      → test o ≡ true
      → resend test (passed ++ o ∷ []) ≡ resend test passed ++ doubled o ∷ []
  resend_in test e = resend-append test passed (o ∷ []) ∙ rw e refl

  resend_out :
      (test : OutgoingCommand → Bool)
      → test o ≡ false
      → resend test (passed ++ o ∷ []) ≡ resend test passed
  resend_out test e = resend-append test passed (o ∷ []) ∙ rw e (append-nil _)

  first_next :
      first_timeout c.host.service_time c.peer.timing.earliest_timeout (passed ++ o ∷ [])
      ≡ next_first c.host.service_time
          (first_timeout c.host.service_time c.peer.timing.earliest_timeout passed)
          o
  first_next = first_timeout-append c.host.service_time c.peer.timing.earliest_timeout passed o

  noted_first :
      is_waiting c.host.service_time o ≡ false
      → (earliest s.conn.peer.timing o).earliest_timeout
        ≡ next_first c.host.service_time
            (first_timeout c.host.service_time c.peer.timing.earliest_timeout passed)
            o
  noted_first e =
      earliest-noted s.conn.peer.timing o
      ∙ ap (λ (n : ℕ). noted_time n o.sent_time) v.first
      ∙ rw e refl

  wait-IsUnderway :
      is_waiting c.host.service_time o ≡ true
      → IsUnderway c (passed ++ o ∷ []) rest (record s { kept = s.kept ++ o ∷ [] })
  wait-IsUnderway e = record {
    whole = whole_next;
    kept =
        ap (λ (l : List OutgoingCommand). l ++ o ∷ []) v.kept
        ∙ sym (select_next (is_waiting c.host.service_time) ∙ rw e refl);
    sent = v.sent ∙ sym (append_assoc s.kept (o ∷ []) rest);
    outgoing = rw (resend_out (is_bare c.host.service_time) (rw e refl)) v.outgoing;
    moved = rw (resend_out (is_bare c.host.service_time) (rw e refl)) v.moved;
    send_reliable = rw (resend_out (is_carrying c.host.service_time) (rw e refl)) v.send_reliable;
    moved_reliable = rw (resend_out (is_carrying c.host.service_time) (rw e refl)) v.moved_reliable;
    same_host = v.same_host;
    same_state = v.same_state;
    same_limit = v.same_limit;
    same_minimum = v.same_minimum;
    same_maximum = v.same_maximum;
    none_exceeds =
        NoneExceeds-append c.host.service_time c.peer.timing c.peer.timing.earliest_timeout passed o
          v.none_exceeds (inl e);
    first = v.first ∙ sym (first_next ∙ rw e refl);
  }

  -- An insertion at the place that the loop has reached.
  inserted :
      (test : OutgoingCommand → Bool) (n : ℕ) (l old : List OutgoingCommand)
      → l ≡ resend test passed ++ old
      → n ≡ length (resend test passed)
      → test o ≡ true
      → (insert_at n (resent o) l ≡ resend test (passed ++ o ∷ []) ++ old)
        × (n + 1 ≡ length (resend test (passed ++ o ∷ [])))
  inserted test n l old e f g = (
    ap (λ (m : ℕ). insert_at m (resent o) l) f
        ∙ ap (insert_at (length (resend test passed)) (resent o)) e
        ∙ insert_at-append (resend test passed) old (resent o)
        ∙ ap (λ (k : List OutgoingCommand). k ++ old) (sym (resend_in test g)),
    omega (
      arith,
      f,
      ap {B = ℕ} length (resend_in test g),
      length-append (resend test passed) (doubled o ∷ []),
    ),
  )

  noted-same : (noted s o).conn.peer.timing ≡ record s.conn.peer.timing {
    earliest_timeout = (earliest s.conn.peer.timing o).earliest_timeout;
  }
  noted-same = ground arith

  kept_next :
      is_waiting c.host.service_time o ≡ false
      → s.kept ≡ select (is_waiting c.host.service_time) (passed ++ o ∷ [])
  kept_next e =
      v.kept
      ∙ sym (
          select_next (is_waiting c.host.service_time)
          ∙ rw e (append-nil (select (is_waiting c.host.service_time) passed)))

  same_limits :
      (n : ℕ)
      → IsExceeded s.conn.host.service_time (earliest s.conn.peer.timing o) n o
        ≡ IsExceeded c.host.service_time c.peer.timing n o
  same_limits n =
      ap (λ (h : Host). IsExceeded h.service_time (earliest s.conn.peer.timing o) n o) v.same_host
      ∙ ap
          (λ (m : ℕ).
            (0 < n)
            × ((m ≤ time_difference c.host.service_time n)
                ⊎ (((earliest s.conn.peer.timing o).timeout_limit ≤ 2 ^ (o.send_attempts - 1))
                    × ((earliest s.conn.peer.timing o).timeout_minimum
                        ≤ time_difference c.host.service_time n))))
          (ap Timing.timeout_maximum noted-same ∙ v.same_maximum)
      ∙ ap
          (λ (m : ℕ).
            (0 < n)
            × ((c.peer.timing.timeout_maximum ≤ time_difference c.host.service_time n)
                ⊎ ((m ≤ 2 ^ (o.send_attempts - 1))
                    × ((earliest s.conn.peer.timing o).timeout_minimum
                        ≤ time_difference c.host.service_time n))))
          (ap Timing.timeout_limit noted-same ∙ v.same_limit)
      ∙ ap
          (λ (m : ℕ).
            (0 < n)
            × ((c.peer.timing.timeout_maximum ≤ time_difference c.host.service_time n)
                ⊎ ((c.peer.timing.timeout_limit ≤ 2 ^ (o.send_attempts - 1))
                    × (m ≤ time_difference c.host.service_time n))))
          (ap Timing.timeout_minimum noted-same ∙ v.same_minimum)

  none_next :
      is_waiting c.host.service_time o ≡ false
      → gives_up s.conn.host.service_time (earliest s.conn.peer.timing o) o ≡ false
      → NoneExceeds c.host.service_time c.peer.timing c.peer.timing.earliest_timeout
          (passed ++ o ∷ [])
  none_next e g =
      NoneExceeds-append c.host.service_time c.peer.timing c.peer.timing.earliest_timeout passed o
        v.none_exceeds
        (inr (
          subst (λ n. ¬ IsExceeded c.host.service_time c.peer.timing n o) (noted_first e)
            (subst (λ (P : Type 0). ¬ P)
              (same_limits (earliest s.conn.peer.timing o).earliest_timeout)
              (keeps_on s.conn.host.service_time (earliest s.conn.peer.timing o) o g))))

  requeue-IsUnderway :
      (packet : Option ℕ)
      → o.packet ≡ packet
      → is_waiting c.host.service_time o ≡ false
      → gives_up s.conn.host.service_time (earliest s.conn.peer.timing o) o ≡ false
      → IsUnderway c (passed ++ o ∷ []) rest (requeue packet (noted s o) o rest)
  unfolding requeue
  requeue-IsUnderway none f e g =
      let (placed, more) =
        inserted (is_bare c.host.service_time) s.moved _ _ v.outgoing v.moved (rw (e, f) refl) in
      let out = resend_out (is_carrying c.host.service_time) (rw (e, f) refl) in
      record {
        whole = whole_next;
        kept = kept_next e;
        sent = refl;
        outgoing = placed;
        moved = more;
        send_reliable = rw out v.send_reliable;
        moved_reliable = rw out v.moved_reliable;
        same_host = v.same_host;
        same_state = v.same_state;
        same_limit = ap Timing.timeout_limit noted-same ∙ v.same_limit;
        same_minimum = ap Timing.timeout_minimum noted-same ∙ v.same_minimum;
        same_maximum = ap Timing.timeout_maximum noted-same ∙ v.same_maximum;
        none_exceeds = none_next e g;
        first = noted_first e ∙ sym first_next;
      }
  requeue-IsUnderway (some a) f e g =
      let (placed, more) =
        inserted (is_carrying c.host.service_time) s.moved_reliable _ _ v.send_reliable
          v.moved_reliable (rw (e, f) refl) in
      let out = resend_out (is_bare c.host.service_time) (rw (e, f) refl) in
      record {
        whole = whole_next;
        kept = kept_next e;
        sent = refl;
        outgoing = rw out v.outgoing;
        moved = rw out v.moved;
        send_reliable = placed;
        moved_reliable = more;
        same_host = v.same_host;
        same_state = v.same_state;
        same_limit = ap Timing.timeout_limit noted-same ∙ v.same_limit;
        same_minimum = ap Timing.timeout_minimum noted-same ∙ v.same_minimum;
        same_maximum = ap Timing.timeout_maximum noted-same ∙ v.same_maximum;
        none_exceeds = none_next e g;
        first = noted_first e ∙ sym first_next;
      }

  given_up :
      (event : Option Event)
      → is_waiting c.host.service_time o ≡ false
      → gives_up s.conn.host.service_time (earliest s.conn.peer.timing o) o ≡ true
      → IsGivenUp c event (notify_disconnect (noted s o).conn event)
  given_up event e f = record {
    before = passed;
    command = o;
    after = rest;
    whole = v.whole;
    expired = e;
    none_before = v.none_exceeds;
    exceeded =
        subst (λ n. IsExceeded c.host.service_time c.peer.timing n o)
          (noted_first e ∙ sym first_next)
          (subst (λ (P : Type 0). P) (same_limits (earliest s.conn.peer.timing o).earliest_timeout)
            (gives_up-IsExceeded s.conn.host.service_time (earliest s.conn.peer.timing o) o f));
    last = (noted s o).conn;
    sent = v.sent ∙ ap (λ (l : List OutgoingCommand). l ++ o ∷ rest) v.kept;
    outgoing = v.outgoing;
    send_reliable = v.send_reliable;
    same_host = v.same_host;
    same_state = v.same_state;
    reported = refl;
  }

finish-IsSwept :
    (c : Conn) (event : Option Event) (passed : List OutgoingCommand) (s : Sweep)
    → IsUnderway c passed [] s
    → IsSwept c event (record { conn = s.conn; event = event })
finish-IsSwept c event passed s v =
    let all = sym (append-nil passed) ∙ v.whole in
    record {
      sent = v.sent ∙ append-nil s.kept ∙ v.kept ∙ ap (select (is_waiting c.host.service_time)) all;
      outgoing =
          v.outgoing
          ∙ ap
              (λ (l : List OutgoingCommand).
                resend (is_bare c.host.service_time) l ++ c.peer.queues.outgoing_commands)
              all;
      send_reliable =
          v.send_reliable
          ∙ ap
              (λ (l : List OutgoingCommand).
                resend (is_carrying c.host.service_time) l
                ++ c.peer.queues.outgoing_send_reliable_commands)
              all;
      none_exceeds =
          subst
            (λ l. NoneExceeds c.host.service_time c.peer.timing c.peer.timing.earliest_timeout l)
            all v.none_exceeds;
      first = v.first ∙ ap (first_timeout c.host.service_time c.peer.timing.earliest_timeout) all;
      same_event = refl;
      same_host = v.same_host;
      same_state = v.same_state;
    }

abbrev pub Outcome : Conn → Option Event → Reported × Bool → Type 0
Outcome c event r = ((r.1 ≡ false) × IsSwept c event r.0) ⊎ ((r.1 ≡ true) × IsGivenUp c event r.0)

sweep-Outcome :
    (c : Conn) (event : Option Event) (passed rest : List OutgoingCommand) (s : Sweep)
    → IsUnderway c passed rest s
    → Outcome c event (sweep event s rest)
unfolding sweep expire
sweep-Outcome c event passed [] s v = inl (refl, finish-IsSwept c event passed s v)
sweep-Outcome c event passed (o ∷ rest) s v =
    let time = ap Host.service_time v.same_host in
    elim (Bool-cases (is_waiting s.conn.host.service_time o)) [
      | inl e ↦
          rw (sweep, e)
            (sweep-Outcome c event (passed ++ o ∷ []) rest (record s { kept = s.kept ++ o ∷ [] })
              (wait-IsUnderway c passed o rest s v (ap (λ (t : ℕ). is_waiting t o) (sym time) ∙ e)))
      | inr e ↦
          let expired = ap (λ (t : ℕ). is_waiting t o) (sym time) ∙ e in
          elim (Bool-cases (gives_up s.conn.host.service_time (earliest s.conn.peer.timing o) o)) [
            | inl f ↦ rw (sweep, e, f) (inr (refl, given_up c passed o rest s v event expired f))
            | inr f ↦
                rw (sweep, e, f)
                  (sweep-Outcome c event (passed ++ o ∷ []) rest (expire (noted s o) o rest)
                    (requeue-IsUnderway c passed o rest s v o.packet refl expired f))
          ]
    ]

-- Either no command that has timed out passes the peer's limits at its turn, and every one that has
-- timed out goes back to the front of the queue that it came from, in order and with twice its
-- timeout, and every other stays; or the peer is given up at the first command that passes them, as
-- those before it have left its queues. The limits are passed if the earliest time at which one of
-- the commands that have timed out was sent, the one kept from before included, is the longest time
-- ago, or if it is the shortest time ago and the command has been sent often enough; a time of 0
-- stands for none, so that with it they are not passed.
pub check_timeouts-Outcome :
    (c : Conn) (event : Option Event) → Outcome c event (check_timeouts c event)
unfolding check_timeouts
check_timeouts-Outcome c event =
    sweep-Outcome c event [] c.peer.queues.sent_reliable_commands
      (record { conn = c; kept = []; moved = 0; moved_reliable = 0 })
      (record {
        whole = refl;
        kept = refl;
        sent = refl;
        outgoing = refl;
        moved = refl;
        send_reliable = refl;
        moved_reliable = refl;
        same_host = refl;
        same_state = refl;
        same_limit = refl;
        same_minimum = refl;
        same_maximum = refl;
        none_exceeds = tt;
        first = refl;
      })
