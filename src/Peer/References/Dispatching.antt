-- ===== src/Peer/References/Dispatching.antt =====
-- src/peer.cpp: the references of the commands that the dispatch of a channel moves and drops.
use enetcpp.Command.{header, command_mask}
use enetcpp.Command.Number
use enetcpp.Peer.Window.{outside_window}
use enetcpp.Packet.Store.{Store}
use enetcpp.Base.{
  ap, length, if◌then◌else◌, subst, ◌∙◌, ◌==◌, ℕ, ◌≡◌, ◌+◌, ◌≤◌, ◌<◌, ◌^◌, List, [], ◌∷◌, ◌++◌,
  refl, arith, none, some, Option, Option-cases, Bool-cases, inl, inr, is_empty, take, drop,
  take-append-drop,
}
use enetcpp.Packet.Laws.{references, points_to}
use enetcpp.Peer.{Channel, IncomingCommand}
use enetcpp.Peer.Dispatch.{
  request_dispatch, dispatch_all, remove_incoming_commands, Sweep, extend, flush_run, pass,
  pass_incomplete, sweep_step, sweep, finish, scan, peer_dispatch_incoming_unreliable_commands,
  peer_dispatch_incoming_reliable_commands,
}
use enetcpp.Peer.Dispatch.References.{held, references-remove}
use enetcpp.Peer.Dispatch.Reliable.{scan-IsScanned}
use enetcpp.Peer.References.{held_queues}
use enetcpp.Host.{Conn}

held-append : (a : ℕ) (xs ys : List IncomingCommand) → held a (xs ++ ys) ≡ held a xs + held a ys
held-append a [] ys = omega arith
held-append a (x ∷ xs) ys = omega (arith, held-append a xs ys)

dispatch_all-held :
    (a : ℕ) (c : Conn) (l : List IncomingCommand)
    → (held_queues a (dispatch_all c l).peer.queues ≡ held_queues a c.peer.queues + held a l)
      × ((dispatch_all c l).host.packets ≡ c.host.packets)
unfolding dispatch_all request_dispatch
dispatch_all-held a c l =
    (ground (arith, held-append a c.peer.queues.dispatched_commands l), ground arith)

-- The references of the queues and of what the loop holds.
abbrev weight : ℕ → Sweep → ℕ
weight a s = held_queues a s.conn.peer.queues + held a s.kept + held a s.run

record Balances (a : ℕ) (s : Sweep) (more : ℕ) (t : Sweep) : Type 0 where
  moved : weight a t ≡ weight a s + more
  packets : t.conn.host.packets ≡ s.conn.host.packets
  reliable : t.channel.incoming_reliable_commands ≡ s.channel.incoming_reliable_commands

flush_run-Balances : (a : ℕ) (s : Sweep) → Balances a s 0 (flush_run s)
unfolding flush_run
flush_run-Balances a s = elim (Bool-cases (is_empty s.run)) [
  | inl e ↦ rw (flush_run, e) (record { moved = omega arith; packets = refl; reliable = refl })
  | inr e ↦
      let (h, p) = dispatch_all-held a s.conn s.run in
      rw (flush_run, e) (record { moved = omega (arith, h); packets = p; reliable = refl })
]

abbrev BalancesOn : ℕ → Sweep → ℕ → Option Sweep → Type 0
BalancesOn a s more none = Unit
BalancesOn a s more (some t) = Balances a s more t

sweep_step-Balances :
    (a : ℕ) (s : Sweep) (i : IncomingCommand)
    → BalancesOn a s (points_to a i.packet) (sweep_step s i)
unfolding sweep_step pass_incomplete
sweep_step-Balances a s i =
    elim (Bool-cases (command_mask (header i.command).command == Number.send_unsequenced)) [
      | inl e ↦ rw (sweep_step, e) (extended s.channel refl)
      | inr e ↦
          elim (Bool-cases
            (i.reliable_sequence_number == s.channel.incoming_reliable_sequence_number)) [
              | inl f ↦ elim (Bool-cases (i.fragments_remaining == 0)) [
                | inl g ↦ rw (sweep_step, e, f, g) (extended _ refl)
                | inr g ↦ rw (sweep_step, e, f, g) (passed _)
              ]
              | inr f ↦
                  elim (Bool-cases (
                    outside_window i.reliable_sequence_number
                      s.channel.incoming_reliable_sequence_number)) [
                        | inl g ↦ rw (sweep_step, e, f, g) (passed _)
                        | inr g ↦ rw (sweep_step, e, f, g) tt
                      ]
            ]
    ]
  where
    extended :
        (ch : Channel)
        → ch.incoming_reliable_commands ≡ s.channel.incoming_reliable_commands
        → Balances a s (points_to a i.packet) (extend (record s { channel = ch }) i)
    extended ch same = record {
      moved = omega (arith, held-append a s.run (i ∷ []));
      packets = refl;
      reliable = same;
    }

    passed : (n : ℕ) → Balances a s (points_to a i.packet) (pass (flush_run s) i n)
    passed n =
        let b = flush_run-Balances a s in
        record {
          moved = omega (arith, b.moved, held-append a (flush_run s).kept (i ∷ []));
          packets = b.packets;
          reliable = b.reliable;
        }

sweep-Balances :
    (a : ℕ) (s : Sweep) (queue : List IncomingCommand)
    → (weight a (sweep s queue).0 + held a (sweep s queue).1 ≡ weight a s + held a queue)
      × ((sweep s queue).0.conn.host.packets ≡ s.conn.host.packets)
      × ((sweep s queue).0.channel.incoming_reliable_commands
          ≡ s.channel.incoming_reliable_commands)
unfolding sweep
sweep-Balances a s [] = (refl, refl, refl)
sweep-Balances a s (i ∷ is) = elim (Option-cases (sweep_step s i)) [
  | inl e ↦ rw (sweep, e) (refl, refl, refl)
  | inr (t, e) ↦
      let b : Balances a s (points_to a i.packet) t =
        subst (BalancesOn a s (points_to a i.packet)) e (sweep_step-Balances a s i) in
      let (h, p, r) = sweep-Balances a t is in
      rw (sweep, e) (omega (arith, h, b.moved), p ∙ b.packets, r ∙ b.reliable)
]

-- The references of a peer's queues and of one of its channels.
abbrev pub held_side : ℕ → Conn → Channel → ℕ
held_side a c ch =
    held_queues a c.peer.queues
    + held a ch.incoming_reliable_commands
    + held a ch.incoming_unreliable_commands

flush_run_empty : (s : Sweep) → ((flush_run s).run ≡ []) × ((flush_run s).kept ≡ s.kept)
unfolding flush_run
flush_run_empty s = by_run s.run refl
  where
    by_run :
        (l : List IncomingCommand)
        → s.run ≡ l
        → ((flush_run s).run ≡ []) × ((flush_run s).kept ≡ s.kept)
    by_run [] e = (ground (arith, e), ground (arith, e))
    by_run (i ∷ is) e = (ground (arith, e), ground (arith, e))

held-split :
    (a n : ℕ) (xs : List IncomingCommand) → held a (take n xs) + held a (drop n xs) ≡ held a xs
held-split a n xs =
    omega (arith, held-append a (take n xs) (drop n xs), ap (held a) (take-append-drop n xs))

-- The removal of what is dropped, and what is put back.
removal_held :
    (s : Store) (left : List IncomingCommand) (n : ℕ) (queued : Option ℕ) (a : ℕ)
    → held a left ≤ references s a
    → references s a < 2 ^ 64
    → references (remove_incoming_commands s (take n left) queued).0 a + held a left
      ≡ references s a + held a ((remove_incoming_commands s (take n left) queued).1 ++ drop n left)
removal_held s left n queued a covers small = omega (
  arith,
  held-split a n left,
  held-append a (remove_incoming_commands s (take n left) queued).1 (drop n left),
  references-remove s (take n left) queued a (omega (arith, held-split a n left, covers)) small,
)

finish-held :
    (s : Sweep) (rest : List IncomingCommand) (queued : Option ℕ) (a : ℕ)
    → weight a s + held a rest ≤ references s.conn.host.packets a
    → references s.conn.host.packets a < 2 ^ 64
    → references (finish s rest queued).0.host.packets a
        + (weight a s + held a rest + held a s.channel.incoming_reliable_commands)
      ≡ references s.conn.host.packets a
        + held_side a (finish s rest queued).0 (finish s rest queued).1
unfolding finish
finish-held s rest queued a covers small =
    let b = flush_run-Balances a s in
    let (r, k) = flush_run_empty s in
    let n = if is_empty s.run then s.dropped else length s.kept in
    let same = ap (λ (s : Store). references s a) b.packets in
    omega (
      arith,
      b.moved,
      same,
      ap (held a) r,
      ap (held a) k,
      ap (held a) b.reliable,
      held-append a s.kept rest,
      removal_held (flush_run s).conn.host.packets (s.kept ++ rest) n queued a
          (omega (arith, covers, same, held-append a s.kept rest)) (omega (arith, same, small)),
    )

dispatch_unreliable-held :
    (c : Conn) (ch : Channel) (queued : Option ℕ) (a : ℕ)
    → held_side a c ch ≤ references c.host.packets a
    → references c.host.packets a < 2 ^ 64
    → references (peer_dispatch_incoming_unreliable_commands c ch queued).0.host.packets a
        + held_side a c ch
      ≡ references c.host.packets a
        + held_side a
            (peer_dispatch_incoming_unreliable_commands c ch queued).0
            (peer_dispatch_incoming_unreliable_commands c ch queued).1
unfolding peer_dispatch_incoming_unreliable_commands
dispatch_unreliable-held c ch queued a covers small =
    let start : Sweep = record { conn = c; channel = ch; kept = []; run = []; dropped = 0 } in
    let (h, p, r) = sweep-Balances a start ch.incoming_unreliable_commands in
    let (s, rest) = sweep start ch.incoming_unreliable_commands in
    let same = ap (λ (s : Store). references s a) p in
    omega (
      arith,
      h,
      same,
      ap (held a) r,
      finish-held s rest queued a (omega (arith, h, same, covers)) (omega (arith, same, small)),
    )

dispatch_reliable-held :
    (c : Conn) (ch : Channel) (queued : Option ℕ) (a : ℕ)
    → held_side a c ch ≤ references c.host.packets a
    → references c.host.packets a < 2 ^ 64
    → references (peer_dispatch_incoming_reliable_commands c ch queued).0.host.packets a
        + held_side a c ch
      ≡ references c.host.packets a
        + held_side a
            (peer_dispatch_incoming_reliable_commands c ch queued).0
            (peer_dispatch_incoming_reliable_commands c ch queued).1
unfolding peer_dispatch_incoming_reliable_commands
dispatch_reliable-held c ch queued a covers small =
    let current = ch.incoming_reliable_sequence_number in
    let r = scan current ch.incoming_reliable_commands in
    let (h, p) = dispatch_all-held a c r.0 in
    let same = ap (λ (s : Store). references s a) p in
    let split = ap (held a) (scan-IsScanned current ch.incoming_reliable_commands).whole in
    let joined = held-append a r.0 r.1 in
    let renewed : Channel = record ch {
      incoming_reliable_sequence_number = r.2;
      incoming_unreliable_sequence_number = 0;
      incoming_reliable_commands = r.1;
    } in
    elim (Bool-cases (is_empty r.0)) [
      | inl e ↦ rw (peer_dispatch_incoming_reliable_commands, e) refl
      | inr e ↦ elim (Bool-cases (is_empty ch.incoming_unreliable_commands)) [
        | inl f ↦
            rw (peer_dispatch_incoming_reliable_commands, e, f)
              (omega (arith, h, same, split, joined))
        | inr f ↦
            rw (peer_dispatch_incoming_reliable_commands, e, f)
              (omega (
                arith,
                h,
                same,
                split,
                joined,
                dispatch_unreliable-held (dispatch_all c r.0) renewed queued a
                    (omega (arith, h, same, split, joined, covers)) (omega (arith, same, small)),
              ))
      ]
    ]

-- The dispatch of a channel, of its reliable and of its unreliable commands, keeps the counts of
-- packets equal to the references to them: a command that is handed to the application takes its
-- reference along, and one that is dropped gives it up. The counts must cover the references of the
-- peer and the channel.
pub dispatch-held :
    (c : Conn) (ch : Channel) (queued : Option ℕ) (a : ℕ)
    → held_side a c ch ≤ references c.host.packets a
    → references c.host.packets a < 2 ^ 64
    → (references (peer_dispatch_incoming_unreliable_commands c ch queued).0.host.packets a
          + held_side a c ch
        ≡ references c.host.packets a
          + held_side a
              (peer_dispatch_incoming_unreliable_commands c ch queued).0
              (peer_dispatch_incoming_unreliable_commands c ch queued).1)
      × (references (peer_dispatch_incoming_reliable_commands c ch queued).0.host.packets a
            + held_side a c ch
          ≡ references c.host.packets a
            + held_side a
                (peer_dispatch_incoming_reliable_commands c ch queued).0
                (peer_dispatch_incoming_reliable_commands c ch queued).1)
dispatch-held c ch queued a covers small = (
  dispatch_unreliable-held c ch queued a covers small,
  dispatch_reliable-held c ch queued a covers small,
)
