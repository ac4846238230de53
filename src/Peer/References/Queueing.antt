-- ===== src/Peer/References/Queueing.antt =====
-- src/peer.cpp, `peer_setup_outgoing_command`: the reference of a command that is queued.
use enetcpp.Base.{
  ◌==◌, add32, ◌++◌, ℕ, ◌≡◌, ◌+◌, List, [], ◌∷◌, take, refl, arith, some, get_elem?, set, zero, suc,
  Bool-cases, Option-cases, inl, inr,
}
use enetcpp.Command.{header, flag_acknowledge, flag_unsequenced}
use enetcpp.Packet.Laws.{points_to}
use enetcpp.Peer.{Peer, Channel, OutgoingCommand}
use enetcpp.Peer.Outgoing.{
  number_on_channel, number_command, prepare, enqueue, count_data, peer_setup_outgoing_command,
}
use enetcpp.Peer.Send.{setup_all}
use enetcpp.Peer.References.{held_outgoing, held_channels, held_peer, held_outgoing-append}
use enetcpp.Host.{Conn}

-- A channel whose incoming queues stay is the same to the references.
pub held_channels-set :
    (a n : ℕ) (chs : List Channel) (i : ℕ) (ch ch' : Channel)
    → get_elem? chs i ≡ some ch
    → ch'.incoming_reliable_commands ≡ ch.incoming_reliable_commands
    → ch'.incoming_unreliable_commands ≡ ch.incoming_unreliable_commands
    → held_channels a (take n (set chs i ch')) ≡ held_channels a (take n chs)
held_channels-set a zero chs i ch ch' e r u = refl
held_channels-set a (suc n) [] i ch ch' e r u = refl
held_channels-set a (suc n) (x ∷ xs) zero ch ch' e r u = ground (arith, e, r, u)
held_channels-set a (suc n) (x ∷ xs) (suc i) ch ch' e r u =
    omega (arith, held_channels-set a n xs i ch ch' e r u)

-- The parts of a peer and a command that numbering leaves.
record IsNumbered (a : ℕ) (p : Peer) (o : OutgoingCommand) (r : Peer × OutgoingCommand)
    : Type 0 where
  queues : r.0.queues ≡ p.queues
  packet : r.1.packet ≡ o.packet
  channels :
      held_channels a (take r.0.channel_count r.0.channels)
      ≡ held_channels a (take p.channel_count p.channels)

number_on_channel-IsNumbered :
    (a : ℕ) (p : Peer) (o : OutgoingCommand) (ch : Channel)
    → get_elem? p.channels (header o.command).channel_id ≡ some ch
    → IsNumbered a p o (number_on_channel p o ch)
unfolding number_on_channel
number_on_channel-IsNumbered a p o ch e =
    elim (Bool-cases (flag_acknowledge (header o.command).command)) [
      | inl f ↦
          rw (number_on_channel, f)
            (record { queues = refl; packet = refl; channels = put _ refl refl })
      | inr f ↦ elim (Bool-cases (flag_unsequenced (header o.command).command)) [
        | inl g ↦
            rw (number_on_channel, f, g) (record { queues = refl; packet = refl; channels = refl })
        | inr g ↦ elim (Bool-cases (o.fragment_offset == 0)) [
          | inl h ↦
              rw (number_on_channel, f, g, h)
                (record { queues = refl; packet = refl; channels = put _ refl refl })
          | inr h ↦
              rw (number_on_channel, f, g, h)
                (record { queues = refl; packet = refl; channels = refl })
        ]
      ]
    ]
  where
    put :
        (ch' : Channel)
        → ch'.incoming_reliable_commands ≡ ch.incoming_reliable_commands
        → ch'.incoming_unreliable_commands ≡ ch.incoming_unreliable_commands
        → held_channels a (take p.channel_count (set p.channels (header o.command).channel_id ch'))
          ≡ held_channels a (take p.channel_count p.channels)
    put ch' r u =
        held_channels-set a p.channel_count p.channels (header o.command).channel_id ch ch' e r u

number_command-IsNumbered :
    (a : ℕ) (p : Peer) (o : OutgoingCommand) → IsNumbered a p o (number_command p o)
unfolding number_command
number_command-IsNumbered a p o = elim (Bool-cases ((header o.command).channel_id == 255)) [
  | inl e ↦ rw (number_command, e) (record { queues = refl; packet = refl; channels = refl })
  | inr e ↦ elim (Option-cases (get_elem? p.channels (header o.command).channel_id)) [
    | inl f ↦ rw (number_command, e, f) (record { queues = refl; packet = refl; channels = refl })
    | inr (ch, f) ↦ rw (number_command, e, f) (number_on_channel-IsNumbered a p o ch f)
  ]
]

enqueue-held :
    (a : ℕ) (p : Peer) (o : OutgoingCommand)
    → held_peer a (enqueue p o) ≡ held_peer a p + points_to a o.packet
unfolding enqueue
enqueue-held a p o = elim (Bool-cases (flag_acknowledge (header o.command).command)) [
  | inr e ↦ rw (enqueue, e) in_outgoing
  | inl e ↦ elim (Option-cases o.packet) [
    | inl f ↦ ground (arith, e, f, in_outgoing)
    | inr (b, f) ↦
        ground
          (arith, e, f, held_outgoing-append a p.queues.outgoing_send_reliable_commands (o ∷ []))
  ]
]
  where
    in_outgoing :
        held_peer a (record p {
          queues = record p.queues { outgoing_commands = p.queues.outgoing_commands ++ o ∷ [] };
        })
        ≡ held_peer a p + points_to a o.packet
    in_outgoing = omega (arith, held_outgoing-append a p.queues.outgoing_commands (o ∷ []))

pub setup-held :
    (a : ℕ) (c : Conn) (o : OutgoingCommand)
    → held_peer a (peer_setup_outgoing_command c o).peer ≡ held_peer a c.peer + points_to a o.packet
unfolding peer_setup_outgoing_command count_data prepare
setup-held a c o =
    let n = number_command-IsNumbered a (count_data c.peer o) o in
    let e = enqueue-held a (number_command (count_data c.peer o) o).0 (
      prepare (number_command (count_data c.peer o) o).0 (number_command (count_data c.peer o) o).1
        (add32 c.host.total_queued 1)) in
    ground (arith, e, n.queues, n.packet, n.channels)

pub setup-packets :
    (c : Conn) (o : OutgoingCommand)
    → (peer_setup_outgoing_command c o).host.packets ≡ c.host.packets
unfolding peer_setup_outgoing_command
setup-packets c o = refl

pub setup_all-held :
    (a : ℕ) (c : Conn) (os : List OutgoingCommand)
    → (held_peer a (setup_all c os).peer ≡ held_peer a c.peer + held_outgoing a os)
      × ((setup_all c os).host.packets ≡ c.host.packets)
unfolding setup_all peer_setup_outgoing_command
setup_all-held a c [] = (omega arith, refl)
setup_all-held a c (o ∷ os) =
    let (h, s) = setup_all-held a (peer_setup_outgoing_command c o) os in
    (omega (arith, h, setup-held a c o), s)
