-- ===== src/Protocol/Outgoing/Progress.antt =====
-- src/protocol.cpp, `enet_protocol_check_outgoing_commands`: the rounds of its loop, and its end.
use enetcpp.Base.{
  false, ap, length, true, ◌+◌, ◌<◌, ◌≤◌, Bool-cases, List, Option-cases, [], arith, inl, inr, none,
  refl, some, suc, zero, ℕ, ◌∷◌, ◌≡◌, ◌⊎◌,
}
use enetcpp.Packet.Store.{Store, release}
use enetcpp.Peer.{OutgoingCommand}
use enetcpp.Host.{Conn}
use enetcpp.Protocol.Datagram.{Datagram}
use enetcpp.Protocol.Outgoing.{
  walk_queues, begin, Walk, Turn, Verdict, ordinary, reliable, pass_over, hold_reliable, begin_wrap,
  admit, choose, judge, proceed, drop_packet, drop_same, write, write_reliable, write_unreliable,
  walk, rounds, is_full, no_ping,
}

-- The command of a round is the first of one queue; the other queue stays.
abbrev pub IsTurn : List OutgoingCommand → List OutgoingCommand → Turn → Type 0
IsTurn os rs t =
    ((t.side ≡ ordinary) × (os ≡ t.command ∷ t.left) × (rs ≡ t.left_reliable))
    ⊎ ((t.side ≡ reliable) × (os ≡ t.left) × (rs ≡ t.command ∷ t.left_reliable))

pub choose-IsTurn :
    (os rs : List OutgoingCommand) (t : Turn) → choose os rs ≡ some t → IsTurn os rs t
unfolding choose
choose-IsTurn [] [] t e = cc
choose-IsTurn [] (r ∷ rs) t e = ground arith
choose-IsTurn (o ∷ os) [] t e = ground arith
choose-IsTurn (o ∷ os) (r ∷ rs) t e = ground arith

-- No command is chosen only from empty queues.
choose-none : (os rs : List OutgoingCommand) → choose os rs ≡ none → (os ≡ []) × (rs ≡ [])
unfolding choose
choose-none [] [] e = (refl, refl)
choose-none [] (r ∷ rs) e = cc
choose-none (o ∷ os) [] e = cc
choose-none (o ∷ os) (r ∷ rs) e = ground arith

-- What every round keeps is kept by the loop.
pub walk_inv {ℓ} :
    (P : Walk → Type ℓ)
    → ((w : Walk) (t : Turn)
        → IsTurn w.left w.left_reliable t
        → P w
        → P (proceed w t (judge w t.command)))
    → (fuel : ℕ) (w : Walk) → P w
    → P (walk fuel w)
unfolding walk
walk_inv P keep zero w h = h
walk_inv P keep (suc fuel) w h = elim (Option-cases (choose w.left w.left_reliable)) [
  | inl e ↦ rw (walk, e) h
  | inr (t, e) ↦
      let kept = keep w t (choose-IsTurn w.left w.left_reliable t e) h in
      let w' = proceed w t (judge w t.command) in
      elim (Bool-cases w'.stopped) [
        | inl f ↦ rw (walk, e, f) kept
        | inr f ↦ rw (walk, e, f) (walk_inv P keep fuel w' kept)
      ]
]

drop_same-le :
    (o : OutgoingCommand) (s : Store) (l : List OutgoingCommand)
    → length (drop_same o s l).1 ≤ length l
unfolding drop_same
drop_same-le o s [] = omega arith
drop_same-le o s (next ∷ rest) = ground (arith, drop_same-le o (release s next.packet) rest)

-- The two queues of a round have one command less after it.
turn-lt :
    (w : Walk) (t : Turn)
    → IsTurn w.left w.left_reliable t
    → length t.left + length t.left_reliable < rounds w
turn-lt w t (inl (s, e, f)) = omega (arith, ap {B = ℕ} length e, ap {B = ℕ} length f)
turn-lt w t (inr (s, e, f)) = omega (arith, ap {B = ℕ} length e, ap {B = ℕ} length f)

write-le : (w : Walk) (t : Turn) → rounds (write w t) ≤ length t.left + length t.left_reliable
unfolding write write_reliable write_unreliable drop_packet
write-le w t =
    ground (arith, drop_same-le t.command (release w.conn.host.packets t.command.packet) t.left)

-- The datagram is full, or the two queues have been gone through.
abbrev pub IsDone : Walk → Type 0
IsDone w = (w.stopped ≡ true) ⊎ ((w.left ≡ []) × (w.left_reliable ≡ []))

pub proceed-lt :
    (w : Walk) (t : Turn) (v : Verdict)
    → IsTurn w.left w.left_reliable t
    → ((proceed w t v).stopped ≡ true) ⊎ (rounds (proceed w t v) < rounds w)
unfolding proceed
proceed-lt w t pass_over h = inr (ground (arith, turn-lt w t h))
proceed-lt w t hold_reliable h = inr (ground (arith, turn-lt w t h))
proceed-lt w t begin_wrap h = inr (ground (arith, turn-lt w t h))
proceed-lt w t admit h = elim (Bool-cases (is_full w t.command)) [
  | inl e ↦ rw (proceed, e) (inl refl)
  | inr e ↦ rw (proceed, e) (inr (ground (arith, turn-lt w t h, write-le (no_ping w t.command) t)))
]

fewer :
    (fuel : ℕ) (w : Walk) (t : Turn)
    → rounds w ≤ suc fuel
    → IsTurn w.left w.left_reliable t
    → (proceed w t (judge w t.command)).stopped ≡ false
    → rounds (proceed w t (judge w t.command)) ≤ fuel
fewer fuel w t h turn f = elim (proceed-lt w t (judge w t.command) turn) [
  | inl e ↦ cc
  | inr e ↦ omega arith
]

walk-IsDone : (fuel : ℕ) (w : Walk) → rounds w ≤ fuel → IsDone (walk fuel w)
unfolding walk
walk-IsDone zero w h = elim (Option-cases (choose w.left w.left_reliable)) [
  | inl e ↦ inr (choose-none w.left w.left_reliable e)
  | inr (t, e) ↦ absurd (omega (arith, h, turn-lt w t (choose-IsTurn w.left w.left_reliable t e)))
]
walk-IsDone (suc fuel) w h = elim (Option-cases (choose w.left w.left_reliable)) [
  | inl e ↦ rw (walk, e) (inr (choose-none w.left w.left_reliable e))
  | inr (t, e) ↦
      let w' = proceed w t (judge w t.command) in
      let turn = choose-IsTurn w.left w.left_reliable t e in
      elim (Bool-cases w'.stopped) [
        | inl f ↦ rw (walk, e, f) (inl f)
        | inr f ↦ rw (walk, e, f) (walk-IsDone fuel w' (fewer fuel w t h turn f))
      ]
]

-- The loop ends within as many rounds as there are commands, by the end of both queues or by a full
-- datagram.
pub walk_queues-IsDone :
    (c : Conn) (d : Datagram) (sent_unreliable : List OutgoingCommand)
    → IsDone (walk_queues c d sent_unreliable)
unfolding walk_queues
walk_queues-IsDone c d sent_unreliable = walk-IsDone _ (begin c d sent_unreliable) (omega arith)
