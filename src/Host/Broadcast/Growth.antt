-- ===== src/Host/Broadcast/Growth.antt =====
-- src/peer.cpp, `peer_send`: how far the count of the packet that is sent can grow.
use enetcpp.Base.{
  Bool-cases, Option-cases, add64, arith, get_elem?, inl, inr, leb, length, ltb, not, refl, some,
  suc, true, ◌+◌, ◌==◌, ◌||◌, ◌≡◌, ◌≤◌, ℕ,
}
use enetcpp.Memory.{Allocator, outgoing_command}
use enetcpp.Packet.{Packet}
use enetcpp.Packet.Store.{Store, update, retain}
use enetcpp.Peer.{OutgoingCommand}
use enetcpp.Command.{Protocol}
use enetcpp.Command.Limits.{maximum_fragment_count}
use enetcpp.Peer.State
use enetcpp.Peer.Outgoing.{peer_setup_outgoing_command, peer_queue_outgoing_command}
use enetcpp.Peer.Send.{
  Piece, Cut, pieces, no_memory, out_of_fuel, map_pieces, retain_for, send_cut, send_fragments,
  peer_send, fragment_command, cut, fragment_size, fragment_kind, fragment_count_of,
}
use enetcpp.Peer.References.Queueing.{setup_all-held}
use enetcpp.Peer.References.Sending.{count_pieces, count_pieces-cut}
use enetcpp.Host.{Conn}

-- A packet of a size stands at the address, with a count of at most `most`.
pub record IsAlive (b size most : ℕ) (s : Store) : Type 0 where
  pub packet : Packet
  pub found : s b ≡ some packet
  pub sized : packet.data_length ≡ size
  pub few : packet.reference_count ≤ most

update_at : (s : Store) (b : ℕ) (p : Packet) → update s b (some p) b ≡ some p
update_at s b p = let e : (b == b) ≡ true = ground arith in rw e refl

-- A count that has grown by at most the size of the packet and one.
abbrev IsGrown : ℕ → Packet → Store → Type 0
IsGrown b packet s =
    IsAlive b packet.data_length (packet.reference_count + packet.data_length + 1) s

retain_for-IsGrown :
    (s : Store) (b : ℕ) (packet : Packet) (n : ℕ)
    → n ≤ packet.data_length + 1
    → IsGrown b packet (retain_for s b packet n)
retain_for-IsGrown s b packet n h = record {
  packet = record packet { reference_count = add64 packet.reference_count n };
  found = update_at s b _;
  sized = refl;
  few = omega arith;
}

module _ (malloc : Allocator) (c : Conn) (b : ℕ) (packet : Packet)
    (e : c.host.packets b ≡ some packet) where
  same : IsGrown b packet c.host.packets
  same = record { packet = packet; found = e; sized = refl; few = omega arith }

  send_cut-IsGrown :
      (make : Piece → OutgoingCommand) (r : Cut)
      → count_pieces r ≤ packet.data_length + 1
      → IsGrown b packet (send_cut c make b packet r).0.host.packets
  unfolding send_cut
  send_cut-IsGrown make no_memory h = same
  send_cut-IsGrown make out_of_fuel h = same
  send_cut-IsGrown make (pieces ps) h =
      let retaining = record c {
        host = record c.host { packets = retain_for c.host.packets b packet (length ps) };
      } in
      rw (setup_all-held 0 retaining (map_pieces make ps)).1
        (retain_for-IsGrown c.host.packets b packet (length ps) h)

  queue_outgoing-IsGrown :
      (command : Protocol) (offset size : ℕ)
      → IsGrown b packet
          (peer_queue_outgoing_command malloc c command (some b) offset size).0.host.packets
  unfolding peer_queue_outgoing_command retain peer_setup_outgoing_command
  queue_outgoing-IsGrown command offset size =
      elim (Bool-cases (malloc.succeeds (outgoing_command 0))) [
        | inl f ↦
            rw (peer_queue_outgoing_command, f, retain, e)
              (retain_for-IsGrown c.host.packets b packet 1 (omega arith))
        | inr f ↦ rw (peer_queue_outgoing_command, f) same
      ]

  -- A call of `peer_send` leaves the packet alive, with its size, and adds at most the size and one
  -- to its count.
  pub peer_send-IsGrown :
      (channel_id : ℕ) → IsGrown b packet (peer_send malloc c channel_id b packet).0.host.packets
  unfolding peer_send send_fragments
  peer_send-IsGrown channel_id =
      elim (Bool-cases (
        not (State.value c.peer.state == State.value State.connected)
        || leb c.peer.channel_count channel_id
        || ltb c.host.maximum_packet_size packet.data_length)) [
          | inl f ↦ rw (peer_send, f) same
          | inr f ↦ elim (Option-cases (get_elem? c.peer.channels channel_id)) [
            | inl g ↦ rw (peer_send, f, g) same
            | inr (ch, g) ↦ elim (Bool-cases (ltb (fragment_size c) packet.data_length)) [
              | inr h ↦ rw (peer_send, f, g, h) (queue_outgoing-IsGrown _ 0 _)
              | inl h ↦
                  elim (Bool-cases (
                    ltb maximum_fragment_count
                      (fragment_count_of packet.data_length (fragment_size c)))) [
                        | inl k ↦ rw (peer_send, f, g, h, send_fragments, k) same
                        | inr k ↦
                            rw (peer_send, f, g, h, send_fragments, k)
                              (send_cut-IsGrown
                                (fragment_command channel_id (fragment_kind packet ch) b
                                  packet.data_length
                                  (fragment_count_of packet.data_length (fragment_size c)))
                                (cut malloc (suc packet.data_length) packet.data_length
                                  (fragment_size c) 0 0)
                                (omega (
                                  arith,
                                  count_pieces-cut malloc (suc packet.data_length)
                                      packet.data_length (fragment_size c) 0 0,
                                )))
                      ]
            ]
          ]
        ]
