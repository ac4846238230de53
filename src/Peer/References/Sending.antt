-- ===== src/Peer/References/Sending.antt =====
-- src/peer.cpp, `peer_send`: the references of the commands that are queued.
use enetcpp.Command.Limits.{maximum_fragment_count}
use enetcpp.Peer.State
use enetcpp.Base.{
  ◌⊎◌, ◌||◌, leb, ltb, not, ◌∙◌, ==_iff, ap, ◌*◌, length, ◌==◌, add32, ℕ, ◌≡◌, ◌+◌, ◌≤◌, ◌<◌, ◌^◌,
  List, [], ◌∷◌, refl, arith, some, get_elem?, zero, suc, Bool-cases, Option-cases, inl, inr, true,
  false,
}
use enetcpp.Command.{Protocol}
use enetcpp.Memory.{Allocator, outgoing_command}
use enetcpp.Packet.{Packet}
use enetcpp.Packet.Store.{Store, retain}
use enetcpp.Packet.Laws.{references, points_to}
use enetcpp.Peer.{Channel, OutgoingCommand}
use enetcpp.Peer.Outgoing.{peer_setup_outgoing_command, peer_queue_outgoing_command, new_command}
use enetcpp.Peer.Send.{
  Piece, Cut, pieces, no_memory, out_of_fuel, map_pieces, retain_for, send_cut, send_fragments,
  peer_send, fragment_command, cut, cons, trim, fragment_size, fragment_kind, fragment_count_of,
}
use enetcpp.Peer.References.{held_outgoing, held_peer, IsAccounted}
use enetcpp.Host.{Conn}
use enetcpp.Peer.References.Queueing.{setup-held, setup-packets, setup_all-held}

held_outgoing-map :
    (a b : ℕ) (make : Piece → OutgoingCommand) (ps : List Piece)
    → ((q : Piece) → (make q).packet ≡ some b)
    → held_outgoing a (map_pieces make ps) ≡ points_to a (some b) * length ps
held_outgoing-map a b make [] h = omega arith
held_outgoing-map a b make (q ∷ qs) h = ground (arith, h q, held_outgoing-map a b make qs h)

references-retain_for :
    (s : Store) (b : ℕ) (packet : Packet) (n a : ℕ)
    → s b ≡ some packet
    → packet.reference_count + n < 2 ^ 64
    → references (retain_for s b packet n) a ≡ references s a + points_to a (some b) * n
references-retain_for s b packet n a e room = elim (Bool-cases (a == b)) [
  | inl f ↦
      let g : (b == a) ≡ true = ground (arith, f) in
      let here : s a ≡ some packet = ap s (((==_iff a b).0) f) ∙ e in
      rw (references, points_to, retain_for, f, g, here) (omega arith)
  | inr f ↦
      let g : (b == a) ≡ false = ground (arith, f) in
      rw (references, points_to, retain_for, f, g) (omega arith)
]

references-retain :
    (s : Store) (b : ℕ) (packet : Packet) (a : ℕ)
    → s b ≡ some packet
    → packet.reference_count + 1 < 2 ^ 64
    → references (retain s b) a ≡ references s a + points_to a (some b)
unfolding retain
references-retain s b packet a e room =
    rw (retain, e) (omega (arith, references-retain_for s b packet 1 a e room))

module _ (elsewhere : ℕ → ℕ) (malloc : Allocator) (c : Conn) (b : ℕ) (packet : Packet)
    (e : c.host.packets b ≡ some packet) (v : IsAccounted elsewhere c) where
  queue_outgoing-IsAccounted :
      (command : Protocol) (offset size : ℕ)
      → packet.reference_count + 1 < 2 ^ 64
      → IsAccounted elsewhere (peer_queue_outgoing_command malloc c command (some b) offset size).0
  unfolding peer_queue_outgoing_command retain
  queue_outgoing-IsAccounted command offset size room a =
      elim (Bool-cases (malloc.succeeds (outgoing_command 0))) [
        | inl f ↦ rw (peer_queue_outgoing_command, f) queued
        | inr f ↦ rw (peer_queue_outgoing_command, f) (v a)
      ]
    where
      retaining : Conn
      retaining = record c { host = record c.host { packets = retain c.host.packets b } }

      added : OutgoingCommand
      added = new_command command (some b) offset size

      once :
          references (retain c.host.packets b) a
          ≡ references c.host.packets a + points_to a (some b)
      once = references-retain c.host.packets b packet a e room

      queued :
          references (peer_setup_outgoing_command retaining added).host.packets a
          ≡ elsewhere a + held_peer a (peer_setup_outgoing_command retaining added).peer
      queued = omega (
        arith,
        once,
        v a,
        setup-held a retaining added,
        ap (λ (s : Store). references s a) (setup-packets retaining added),
      )

  send_cut-IsAccounted :
      (make : Piece → OutgoingCommand) (r : Cut)
      → ((q : Piece) → (make q).packet ≡ some b)
      → ((ps : List Piece) → r ≡ pieces ps → packet.reference_count + length ps < 2 ^ 64)
      → IsAccounted elsewhere (send_cut c make b packet r).0
  unfolding send_cut
  send_cut-IsAccounted make (pieces ps) own room a =
      let retaining = record c {
        host = record c.host { packets = retain_for c.host.packets b packet (length ps) };
      } in
      let (h, s) = setup_all-held a retaining (map_pieces make ps) in
      omega (
        arith,
        h,
        v a,
        ap (λ (s : Store). references s a) s,
        references-retain_for c.host.packets b packet (length ps) a e (room ps refl),
        held_outgoing-map a b make ps own,
      )
  send_cut-IsAccounted make no_memory own room a = v a
  send_cut-IsAccounted make out_of_fuel own room a = v a

  -- A call that does not queue leaves the connection.
  queue_outgoing_failure :
      (command : Protocol) (offset size : ℕ)
      → ((peer_queue_outgoing_command malloc c command (some b) offset size).1 ≡ true)
        ⊎ ((peer_queue_outgoing_command malloc c command (some b) offset size).0 ≡ c)
  unfolding peer_queue_outgoing_command
  queue_outgoing_failure command offset size =
      elim (Bool-cases (malloc.succeeds (outgoing_command 0))) [
        | inl f ↦ rw (peer_queue_outgoing_command, f) (inl refl)
        | inr f ↦ rw (peer_queue_outgoing_command, f) (inr refl)
      ]

  send_cut_failure :
      (make : Piece → OutgoingCommand) (r : Cut)
      → ((send_cut c make b packet r).1 ≡ true) ⊎ ((send_cut c make b packet r).0 ≡ c)
  unfolding send_cut
  send_cut_failure make (pieces ps) = inl refl
  send_cut_failure make no_memory = inr refl
  send_cut_failure make out_of_fuel = inr refl

abbrev pub count_pieces : Cut → ℕ
count_pieces (pieces ps) = length ps
count_pieces no_memory = 0
count_pieces out_of_fuel = 0

count_pieces-cons :
    (fuel : ℕ) (q : Piece) (r : Cut) → count_pieces r ≤ fuel → count_pieces (cons q r) ≤ suc fuel
count_pieces-cons fuel q (pieces qs) h = omega arith
count_pieces-cons fuel q no_memory h = omega arith
count_pieces-cons fuel q out_of_fuel h = omega arith

-- The loop makes at most one fragment for each round.
pub count_pieces-cut :
    (malloc : Allocator) (fuel total limit number offset : ℕ)
    → count_pieces (cut malloc fuel total limit number offset) ≤ fuel
unfolding cut
count_pieces-cut malloc zero total limit number offset = omega arith
count_pieces-cut malloc (suc fuel) total limit number offset =
    let size = trim total limit offset in
    let rest = cut malloc fuel total size (add32 number 1) (add32 offset size) in
    let ih = count_pieces-cut malloc fuel total size (add32 number 1) (add32 offset size) in
    elim (Bool-cases (ltb offset total)) [
      | inl e ↦ elim (Bool-cases (malloc.succeeds (outgoing_command number))) [
        | inl f ↦ rw (cut, e, f) (count_pieces-cons fuel _ rest ih)
        | inr f ↦ rw (cut, e, f) (omega arith)
      ]
      | inr e ↦ rw (cut, e) (omega arith)
    ]

-- `peer_send` keeps the counts of packets equal to the references to them, whether the packet is sent
-- whole, in fragments, or not at all; where it fails, it leaves the peer, its queues and the counts
-- as they were. The packet must be alive, with room in its count for a fragment of every byte.
pub peer_send-IsAccounted :
    (elsewhere : ℕ → ℕ) (malloc : Allocator) (c : Conn) (channel_id b : ℕ) (packet : Packet)
    → c.host.packets b ≡ some packet
    → packet.reference_count + packet.data_length + 1 < 2 ^ 64
    → IsAccounted elsewhere c
    → IsAccounted elsewhere (peer_send malloc c channel_id b packet).0
      × (((peer_send malloc c channel_id b packet).1 ≡ true)
          ⊎ ((peer_send malloc c channel_id b packet).0 ≡ c))
unfolding peer_send send_fragments
peer_send-IsAccounted elsewhere malloc c channel_id b packet e room v =
    elim (Bool-cases (
      not (State.value c.peer.state == State.value State.connected)
      || leb c.peer.channel_count channel_id
      || ltb c.host.maximum_packet_size packet.data_length)) [
        | inl f ↦ rw (peer_send, f) (v, inr refl)
        | inr f ↦ elim (Option-cases (get_elem? c.peer.channels channel_id)) [
          | inl g ↦ rw (peer_send, f, g) (v, inr refl)
          | inr (ch, g) ↦ elim (Bool-cases (ltb (fragment_size c) packet.data_length)) [
            | inl h ↦ rw (peer_send, f, g, h) (in_fragments ch)
            | inr h ↦
                rw (peer_send, f, g, h)
                  (
                    queue_outgoing-IsAccounted elsewhere malloc c b packet e v _ 0 _ (omega arith),
                    queue_outgoing_failure elsewhere malloc c b packet e v _ 0 _,
                  )
          ]
        ]
      ]
  where
    total : ℕ
    total = packet.data_length

    size : ℕ
    size = fragment_size c

    sent : Cut
    sent = cut malloc (suc total) total size 0 0

    room_for : (ps : List Piece) → sent ≡ pieces ps → packet.reference_count + length ps < 2 ^ 64
    room_for ps f =
        omega (arith, room, ap count_pieces f, count_pieces-cut malloc (suc total) total size 0 0)

    in_fragments :
        (ch : Channel)
        → IsAccounted elsewhere (send_fragments malloc c channel_id b packet ch).0
          × (((send_fragments malloc c channel_id b packet ch).1 ≡ true)
              ⊎ ((send_fragments malloc c channel_id b packet ch).0 ≡ c))
    in_fragments ch =
        let make =
          fragment_command channel_id (fragment_kind packet ch) b total
            (fragment_count_of total size) in
        elim (Bool-cases (ltb maximum_fragment_count (fragment_count_of total size))) [
          | inl f ↦ rw (send_fragments, f) (v, inr refl)
          | inr f ↦
              rw (send_fragments, f)
                (
                  send_cut-IsAccounted elsewhere malloc c b packet e v make sent (λ q. refl)
                      room_for,
                  send_cut_failure elsewhere malloc c b packet e v make sent,
                )
        ]
