-- ===== src/Peer/Dispatch/References.antt =====
-- The references of the commands that `enet_peer_remove_incoming_commands` drops.
use enetcpp.Base.{
  Bool-cases, arith, inl, inr, none, some, ◌==◌, List, Option, [], refl, ◌<◌, ◌^◌, ◌∷◌, ◌≤◌, ◌≡◌, ℕ,
  ◌+◌,
}
use enetcpp.Packet.Store.{Store, release}
use enetcpp.Packet.Laws.{references, points_to, references-release}
use enetcpp.Peer.{IncomingCommand}
use enetcpp.Peer.Dispatch.{remove_incoming_commands}

-- The references that a queue of incoming commands has to a packet.
abbrev pub held : ℕ → List IncomingCommand → ℕ
held a [] = 0
held a (i ∷ is) = points_to a i.packet + held a is

-- A release leaves what a queue needs.
release_covers :
    (s : Store) (i : IncomingCommand) (is : List IncomingCommand) (a : ℕ)
    → held a (i ∷ is) ≤ references s a
    → references s a < 2 ^ 64
    → (held a is ≤ references (release s i.packet) a)
      × (references (release s i.packet) a < 2 ^ 64)
      × (references (release s i.packet) a + points_to a i.packet ≡ references s a)
release_covers s i is a h k =
    let e = references-release s i.packet a (omega arith) k in
    (omega (arith, e), omega (arith, e), e)

-- No reference is lost and none given up twice: the references that are left in the store and those
-- of the commands that are dropped add up to what was counted, where what was counted covers the
-- queue.
pub references-remove :
    (s : Store) (queue : List IncomingCommand) (exclude : Option ℕ) (a : ℕ)
    → held a queue ≤ references s a
    → references s a < 2 ^ 64
    → references (remove_incoming_commands s queue exclude).0 a + held a queue
      ≡ references s a + held a (remove_incoming_commands s queue exclude).1
unfolding remove_incoming_commands
references-remove s [] exclude a h k = refl
references-remove s (i ∷ is) none a h k =
    let (covers, small, e) = release_covers s i is a h k in
    omega (arith, e, references-remove (release s i.packet) is none a covers small)
references-remove s (i ∷ is) (some b) a h k = elim (Bool-cases (i.address == b)) [
  | inl e ↦ rw e (omega (arith, references-remove s is (some b) a (omega arith) k))
  | inr e ↦
      let (covers, small, f) = release_covers s i is a h k in
      rw e (omega (arith, f, references-remove (release s i.packet) is (some b) a covers small))
]
