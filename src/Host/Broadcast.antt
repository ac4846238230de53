-- ===== src/Host/Broadcast.antt =====
-- src/host.cpp: `host_broadcast`.
pub mod Growth
pub mod Accounting
use enetcpp.Base.{List, [], if◌then◌else◌, none, not, some, ◌==◌, ◌∷◌, ℕ}
use enetcpp.Memory.{Allocator}
use enetcpp.Packet.Store.{Store, packet_destroy}
use enetcpp.Peer.{Peer}
use enetcpp.Peer.State
use enetcpp.Peer.Send.{peer_send}
use enetcpp.Host.{Host, Conn, World}

-- `peer_send` to a peer that is connected. The packet is read at its address, as each call finds it.
unfoldable pub send_to : Allocator → ℕ → ℕ → Host → Peer → Conn
unfolding peer_send
send_to malloc channel_id a h p =
    let here : Conn = record { host = h; peer = p } in
    if not (State.value p.state == State.value State.connected) then here else elim (h.packets a) [
      | none ↦ here
      | some packet ↦ (peer_send malloc here channel_id a packet).0
    ]

-- The loop over the peers.
unfoldable pub send_all : Allocator → ℕ → ℕ → Host → List Peer → World
unfolding send_to
send_all malloc channel_id a h [] = record { host = h; peers = [] }
send_all malloc channel_id a h (p ∷ ps) =
    let c = send_to malloc channel_id a h p in
    let rest = send_all malloc channel_id a c.host ps in
    record { host = rest.host; peers = c.peer ∷ rest.peers }

-- `if (packet->referenceCount == 0) packet_destroy(packet)`
unfoldable pub destroy_unused : Store → ℕ → Store
unfolding packet_destroy
destroy_unused s a = elim (s a) [
  | none ↦ s
  | some packet ↦ if packet.reference_count == 0 then packet_destroy s a else s
]

unfoldable pub host_broadcast : Allocator → World → ℕ → ℕ → World
unfolding send_all destroy_unused
host_broadcast malloc w channel_id a =
    let sent = send_all malloc channel_id a w.host w.peers in
    record sent { host = record sent.host { packets = destroy_unused sent.host.packets a } }
