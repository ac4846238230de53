-- ===== src/Host/Broadcast/Accounting.antt =====
-- src/host.cpp, `host_broadcast`: the references of the commands that are queued for all peers, and the
-- packet that no peer takes.
use enetcpp.Base.{
  ==_iff, Bool-cases, List, [], ap, arith, inl, inr, length, none, not, refl, some, true, ◌*◌, ◌+◌,
  ◌<◌, ◌==◌, ◌^◌, ◌∙◌, ◌∷◌, ◌≡◌, ◌≤◌, ◌⊎◌, ℕ,
}
use enetcpp.Memory.{Allocator}
use enetcpp.Packet.{Packet}
use enetcpp.Packet.Store.{Store, packet_destroy}
use enetcpp.Packet.Laws.{references}
use enetcpp.Peer.{Peer}
use enetcpp.Peer.State
use enetcpp.Peer.Send.{peer_send}
use enetcpp.Peer.References.{held_peer, IsAccounted}
use enetcpp.Peer.References.Sending.{peer_send-IsAccounted}
use enetcpp.Host.{Host, Conn, World}
use enetcpp.Host.Broadcast.{send_to, send_all, destroy_unused, host_broadcast}
use enetcpp.Host.Broadcast.Growth.{IsAlive, peer_send-IsGrown}
use enetcpp.Host.Destroy.References.{held_all, AreCounted}

raise-IsAlive : (b size m n : ℕ) (s : Store) → m ≤ n → IsAlive b size m s → IsAlive b size n s
raise-IsAlive b size m n s h v = record {
  packet = v.packet;
  found = v.found;
  sized = v.sized;
  few = omega (arith, v.few);
}

module _ (malloc : Allocator) (channel_id b size : ℕ) where
  send_to-IsAccounted :
      (elsewhere : ℕ → ℕ) (most : ℕ) (h : Host) (p : Peer)
      → most + size + 1 < 2 ^ 64
      → IsAlive b size most h.packets
      → IsAccounted elsewhere (record { host = h; peer = p })
      → IsAccounted elsewhere (send_to malloc channel_id b h p)
        × IsAlive b size (most + (size + 1)) (send_to malloc channel_id b h p).host.packets
  unfolding send_to
  send_to-IsAccounted elsewhere most h p room alive v =
      elim (Bool-cases (not (State.value p.state == State.value State.connected))) [
        | inl f ↦ rw (send_to, f) (v, raise-IsAlive b size most _ h.packets (omega arith) alive)
        | inr f ↦ rw (send_to, f, alive.found) (sent, grown)
      ]
    where
      here : Conn
      here = record { host = h; peer = p }

      sent : IsAccounted elsewhere (peer_send malloc here channel_id b alive.packet).0
      sent =
          (peer_send-IsAccounted elsewhere malloc here channel_id b alive.packet alive.found
            (omega (arith, alive.few, alive.sized)) v).0

      grown :
          IsAlive b size
            (most + (size + 1))
            (peer_send malloc here channel_id b alive.packet).0.host.packets
      grown =
          let g = peer_send-IsGrown malloc here b alive.packet alive.found channel_id in
          record {
            packet = g.packet;
            found = g.found;
            sized = g.sized ∙ alive.sized;
            few = omega (arith, g.few, alive.few, alive.sized);
          }

  send_all-AreCounted :
      (elsewhere : ℕ → ℕ) (most : ℕ) (h : Host) (ps : List Peer)
      → most + length ps * (size + 1) < 2 ^ 64
      → IsAlive b size most h.packets
      → AreCounted elsewhere (record { host = h; peers = ps })
      → AreCounted elsewhere (send_all malloc channel_id b h ps)
  unfolding send_all
  send_all-AreCounted elsewhere most h [] room alive v = v
  send_all-AreCounted elsewhere most h (p ∷ ps) room alive v =
      let c = send_to malloc channel_id b h p in
      let (e, grown) =
        send_to-IsAccounted (λ a. elsewhere a + held_all a ps) most h p (omega (arith, room)) alive
          (λ a. omega (arith, v a)) in
      let ih =
        send_all-AreCounted (λ a. elsewhere a + held_peer a c.peer) (most + (size + 1)) c.host ps
          (omega (arith, room)) grown (λ a. omega (arith, e a)) in
      λ a. omega (arith, ih a)

  references-destroy_unused :
      (s : Store) (a : ℕ) → references (destroy_unused s b) a ≡ references s a
  unfolding destroy_unused packet_destroy
  references-destroy_unused s a = elim (Bool-cases (a == b)) [
    | inl e ↦ ground (arith, ap s (((==_iff a b).0) e))
    | inr e ↦ ground (arith, e)
  ]

  destroy_unused-Outcome :
      (s : Store) → (destroy_unused s b b ≡ none) ⊎ (0 < references (destroy_unused s b) b)
  unfolding destroy_unused packet_destroy
  destroy_unused-Outcome s = let e : (b == b) ≡ true = ground arith in ground (arith, e)

-- `host_broadcast` keeps the counts of packets equal to the references of all peers to them, and
-- the packet lives on only if one of the queues, or somebody else, refers to it. The packet must be
-- alive, with room in its count for a fragment of every byte to every peer.
pub host_broadcast-AreCounted :
    (elsewhere : ℕ → ℕ) (malloc : Allocator) (w : World) (channel_id b : ℕ) (packet : Packet)
    → w.host.packets b ≡ some packet
    → packet.reference_count + length w.peers * (packet.data_length + 1) < 2 ^ 64
    → AreCounted elsewhere w
    → AreCounted elsewhere (host_broadcast malloc w channel_id b)
      × (((host_broadcast malloc w channel_id b).host.packets b ≡ none)
          ⊎ (0 < elsewhere b + held_all b (host_broadcast malloc w channel_id b).peers))
unfolding host_broadcast
host_broadcast-AreCounted elsewhere malloc w channel_id b packet e room v = (
  kept,
  elim (destroy_unused-Outcome malloc channel_id b packet.data_length sent.host.packets) [
    | inl gone ↦ inl gone
    | inr used ↦ inr (omega (arith, used, kept b))
  ],
)
  where
    sent : World
    sent = send_all malloc channel_id b w.host w.peers

    kept : AreCounted elsewhere (host_broadcast malloc w channel_id b)
    kept a = omega (
      arith,
      references-destroy_unused malloc channel_id b packet.data_length sent.host.packets a,
      send_all-AreCounted malloc channel_id b packet.data_length elsewhere packet.reference_count
          w.host w.peers room
          (record { packet = packet; found = e; sized = refl; few = omega arith }) v a,
    )
