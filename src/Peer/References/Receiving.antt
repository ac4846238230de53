-- ===== src/Peer/References/Receiving.antt =====
-- src/peer.cpp, `peer_receive`: the reference of the queue that it takes from.
use enetcpp.Base.{
  Option, none, subst, ==_iff, Bool-cases, ap, false, inl, inr, true, ◌==◌, ◌∙◌, List, arith, refl,
  some, sub64, ℕ, ◌+◌, ◌<◌, ◌^◌, ◌∷◌, ◌≡◌,
}
use enetcpp.Command.{header}
use enetcpp.Packet.{Packet}
use enetcpp.Packet.Store.{uncounted}
use enetcpp.Packet.Laws.{references}
use enetcpp.Peer.{IncomingCommand}
use enetcpp.Peer.Receive.{peer_receive, take_packet, receive_from}
use enetcpp.Peer.References.{IsAccounted, held_peer}
use enetcpp.Host.{Conn}

-- `peer_receive` hands over the packet of the command that was dispatched first, with its channel,
-- and keeps the others in order. The counts stay the numbers of references; the packet stays alive,
-- though its count may be 0 now; and its length no longer counts as waiting.
pub peer_receive-first :
    (elsewhere : ℕ → ℕ) (c : Conn) (i : IncomingCommand) (rest : List IncomingCommand) (b : ℕ)
    (packet : Packet)
    → c.peer.queues.dispatched_commands ≡ i ∷ rest
    → i.packet ≡ some b
    → c.host.packets b ≡ some packet
    → packet.reference_count < 2 ^ 64
    → IsAccounted elsewhere c
    → ((peer_receive c).1
        ≡ some (record { packet = b; channel_id = (header i.command).channel_id }))
      × ((peer_receive c).0.peer.queues.dispatched_commands ≡ rest)
      × ((peer_receive c).0.host.packets b ≡ some (uncounted packet))
      × IsAccounted elsewhere (peer_receive c).0
      × ((peer_receive c).0.peer.total_waiting_data
          ≡ sub64 c.peer.total_waiting_data packet.data_length)
unfolding peer_receive receive_from take_packet
peer_receive-first elsewhere c i rest b packet queue own alive small v =
    rw (peer_receive, receive_from, queue, own, alive)
      (refl, refl, ground arith, λ a. after a, refl)
  where
    count : Option Packet → ℕ
    count none = 0
    count (some p) = p.reference_count

    held_rest : ℕ → ℕ
    held_rest a =
        held_peer a (record c.peer { queues = record c.peer.queues { dispatched_commands = rest } })

    after :
        (a : ℕ)
        → references (take_packet c rest b (header i.command).channel_id packet).0.host.packets a
          ≡ elsewhere a
            + held_peer a (take_packet c rest b (header i.command).channel_id packet).0.peer
    after a = elim (Bool-cases (a == b)) [
      | inl e ↦
          let f : (b == a) ≡ true = ground (arith, e) in
          let here : c.host.packets a ≡ some packet =
            ap c.host.packets (((==_iff a b).0) e) ∙ alive in
          let before : packet.reference_count ≡ elsewhere a + held_peer a c.peer =
            subst (λ (o : Option Packet). count o ≡ elsewhere a + held_peer a c.peer) here (v a) in
          let first : held_peer a c.peer ≡ 1 + held_rest a = ground (arith, queue, own, f) in
          rw (references, take_packet, e) (omega (arith, before, first))
      | inr e ↦
          let f : (b == a) ≡ false = ground (arith, e) in
          let first : held_peer a c.peer ≡ held_rest a = ground (arith, queue, own, f) in
          rw (references, take_packet, e) (omega (arith, v a, first))
    ]
