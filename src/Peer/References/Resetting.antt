-- ===== src/Peer/References/Resetting.antt =====
-- src/peer.cpp, `peer_reset_queues`: the references of a peer that is reset.
use enetcpp.Base.{ap, ℕ, ◌≡◌, ◌+◌, ◌≤◌, ◌<◌, ◌^◌, List, [], ◌∷◌, take, refl, arith, none}
use enetcpp.Packet.Store.{Store, release}
use enetcpp.Packet.Laws.{references, references-release}
use enetcpp.Peer.{Peer, Channel, OutgoingCommand, IncomingCommand}
use enetcpp.Peer.Dispatch.{remove_incoming_commands}
use enetcpp.Peer.Dispatch.References.{held, references-remove}
use enetcpp.Peer.Reset.{
  reset_outgoing_commands, reset_incoming_commands, reset_channels, reset_all_commands,
  peer_reset_queues,
}
use enetcpp.Peer.References.{held_outgoing, held_channels, held_peer, IsAccounted}
use enetcpp.Host.{Conn}

references-reset_outgoing :
    (s : Store) (os : List OutgoingCommand) (a : ℕ)
    → held_outgoing a os ≤ references s a
    → references s a < 2 ^ 64
    → references (reset_outgoing_commands s os) a + held_outgoing a os ≡ references s a
unfolding reset_outgoing_commands
references-reset_outgoing s [] a h k = omega arith
references-reset_outgoing s (o ∷ os) a h k =
    let e = references-release s o.packet a (omega arith) k in
    omega (
      arith,
      e,
      references-reset_outgoing (release s o.packet) os a (omega (arith, e)) (omega (arith, e)),
    )

none_left : (s : Store) (is : List IncomingCommand) → (remove_incoming_commands s is none).1 ≡ []
unfolding remove_incoming_commands
none_left s [] = refl
none_left s (i ∷ is) = none_left (release s i.packet) is

references-reset_incoming :
    (s : Store) (is : List IncomingCommand) (a : ℕ)
    → held a is ≤ references s a
    → references s a < 2 ^ 64
    → references (reset_incoming_commands s is) a + held a is ≡ references s a
unfolding reset_incoming_commands
references-reset_incoming s is a h k =
    let e = references-remove s is none a h k in
    let f = ap (held a) (none_left s is) in omega (arith, e, f)

references-reset_channels :
    (s : Store) (chs : List Channel) (a : ℕ)
    → held_channels a chs ≤ references s a
    → references s a < 2 ^ 64
    → references (reset_channels s chs) a + held_channels a chs ≡ references s a
unfolding reset_channels
references-reset_channels s [] a h k = omega arith
references-reset_channels s (ch ∷ chs) a h k =
    let s1 = reset_incoming_commands s ch.incoming_reliable_commands in
    let s2 = reset_incoming_commands s1 ch.incoming_unreliable_commands in
    let e1 = references-reset_incoming s ch.incoming_reliable_commands a (omega arith) k in
    let e2 =
      references-reset_incoming s1 ch.incoming_unreliable_commands a (omega (arith, e1))
        (omega (arith, e1)) in
    omega (
      arith,
      e1,
      e2,
      references-reset_channels s2 chs a (omega (arith, e1, e2)) (omega (arith, e1, e2)),
    )

references-reset_all :
    (s : Store) (p : Peer) (a : ℕ)
    → held_peer a p ≤ references s a
    → references s a < 2 ^ 64
    → references (reset_all_commands s p) a + held_peer a p ≡ references s a
unfolding reset_all_commands
references-reset_all s p a h k =
    let s1 = reset_outgoing_commands s p.queues.sent_reliable_commands in
    let s2 = reset_outgoing_commands s1 p.queues.outgoing_commands in
    let s3 = reset_outgoing_commands s2 p.queues.outgoing_send_reliable_commands in
    let s4 = reset_incoming_commands s3 p.queues.dispatched_commands in
    let e1 = references-reset_outgoing s p.queues.sent_reliable_commands a (omega arith) k in
    let e2 =
      references-reset_outgoing s1 p.queues.outgoing_commands a (omega (arith, e1))
        (omega (arith, e1)) in
    let e3 =
      references-reset_outgoing s2 p.queues.outgoing_send_reliable_commands a
        (omega (arith, e1, e2)) (omega (arith, e1, e2)) in
    let e4 =
      references-reset_incoming s3 p.queues.dispatched_commands a (omega (arith, e1, e2, e3))
        (omega (arith, e1, e2, e3)) in
    omega (
      arith,
      e1,
      e2,
      e3,
      e4,
      references-reset_channels s4 (take p.channel_count p.channels) a
          (omega (arith, e1, e2, e3, e4)) (omega (arith, e1, e2, e3, e4)),
    )

-- Where the counts are the numbers of references, `peer_reset_queues` gives up exactly those of the
-- peer's queues: afterwards the peer holds none, and every packet is counted for the references from
-- elsewhere alone.
pub peer_reset_queues-IsAccounted :
    (elsewhere : ℕ → ℕ) (c : Conn)
    → IsAccounted elsewhere c
    → ((a : ℕ) → references c.host.packets a < 2 ^ 64)
    → IsAccounted elsewhere (peer_reset_queues c)
      × ((a : ℕ) → held_peer a (peer_reset_queues c).peer ≡ 0)
      × ((a : ℕ) → references (peer_reset_queues c).host.packets a ≡ elsewhere a)
unfolding peer_reset_queues
peer_reset_queues-IsAccounted elsewhere c v small =
    (λ a. omega (arith, v a, given_up a), λ a. refl, λ a. omega (arith, v a, given_up a))
  where
    given_up :
        (a : ℕ)
        → references (reset_all_commands c.host.packets c.peer) a + held_peer a c.peer
          ≡ references c.host.packets a
    given_up a = references-reset_all c.host.packets c.peer a (omega (arith, v a)) (small a)
