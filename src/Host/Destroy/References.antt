-- ===== src/Host/Destroy/References.antt =====
-- The references of all peers of a host, and what `host_destroy` of src/host.cpp leaves of them.
use enetcpp.Base.{some, All, List, [], ap, arith, refl, ◌+◌, ◌<◌, ◌^◌, ◌∷◌, ◌≡◌, ℕ}
use enetcpp.Packet.Store.{Store}
use enetcpp.Packet.Laws.{references}
use enetcpp.Peer.{Peer}
use enetcpp.Peer.State
use enetcpp.Peer.Connection.{peer_on_disconnect}
use enetcpp.Peer.Reset.{peer_reset, peer_reset_queues, reset_fields}
use enetcpp.Peer.References.{held_peer, IsAccounted}
use enetcpp.Peer.References.Resetting.{peer_reset_queues-IsAccounted}
use enetcpp.Host.{Host, Conn, World}
use enetcpp.Host.Destroy.{reset_peers, host_destroy, Compressor}

abbrev pub held_all : ℕ → List Peer → ℕ
held_all a [] = 0
held_all a (p ∷ ps) = held_peer a p + held_all a ps

-- The count of every packet is the number of references to it, of all peers and from elsewhere.
abbrev pub AreCounted : (ℕ → ℕ) → World → Type 0
AreCounted elsewhere w = (a : ℕ) → references w.host.packets a ≡ elsewhere a + held_all a w.peers

-- A peer that has been reset.
pub record IsReset (p : Peer) : Type 0 where
  pub disconnected : p.state ≡ State.disconnected
  pub holds_none : (a : ℕ) → held_peer a p ≡ 0
  pub no_channels : p.channels ≡ []

on_disconnect-packets : (c : Conn) → (peer_on_disconnect c).host.packets ≡ c.host.packets
unfolding peer_on_disconnect
on_disconnect-packets c = ground arith

on_disconnect-peer : (c : Conn) → (peer_on_disconnect c).peer ≡ c.peer
unfolding peer_on_disconnect
on_disconnect-peer c = ground arith

-- `peer_reset` gives up the references of its peer and no other.
pub peer_reset-IsAccounted :
    (elsewhere : ℕ → ℕ) (c : Conn)
    → IsAccounted elsewhere c
    → ((a : ℕ) → references c.host.packets a < 2 ^ 64)
    → ((a : ℕ) → references (peer_reset c).host.packets a ≡ elsewhere a)
      × IsReset (peer_reset c).peer
unfolding peer_reset reset_fields peer_reset_queues
peer_reset-IsAccounted elsewhere c v small =
    let left = peer_on_disconnect c in
    let here : Conn = record left { peer = reset_fields left.host left.peer } in
    let same : (a : ℕ) → references left.host.packets a ≡ references c.host.packets a =
      λ a. ap (λ (s : Store). references s a) (on_disconnect-packets c) in
    let held_same : (a : ℕ) → held_peer a left.peer ≡ held_peer a c.peer =
      λ a. ap (held_peer a) (on_disconnect-peer c) in
    let (kept, none_held, given_up) =
      peer_reset_queues-IsAccounted elsewhere here (λ a. omega (arith, same a, held_same a, v a))
        (λ a. omega (arith, same a, small a)) in
    (given_up, record { disconnected = refl; holds_none = none_held; no_channels = refl })

pub reset_peers-IsReset :
    (elsewhere : ℕ → ℕ) (h : Host) (ps : List Peer)
    → AreCounted elsewhere (record { host = h; peers = ps })
    → ((a : ℕ) → references h.packets a < 2 ^ 64)
    → ((a : ℕ) → references (reset_peers h ps).host.packets a ≡ elsewhere a)
      × All IsReset (reset_peers h ps).peers
unfolding reset_peers
reset_peers-IsReset elsewhere h [] v small = (λ a. omega (arith, v a), tt)
reset_peers-IsReset elsewhere h (p ∷ ps) v small =
    let c = peer_reset (record { host = h; peer = p }) in
    let (e, r) =
      peer_reset-IsAccounted (λ a. elsewhere a + held_all a ps) (record { host = h; peer = p })
        (λ a. omega (arith, v a)) small in
    let (f, rs) =
      reset_peers-IsReset elsewhere c.host ps (λ a. e a) (λ a. omega (arith, e a, v a, small a)) in
    (f, (r, rs))

-- Where the counts are the numbers of references, `host_destroy` resets every peer, which then is
-- disconnected and has no reference and no channel, and every packet is counted for the references
-- from elsewhere alone.
pub host_destroy-released :
    (elsewhere : ℕ → ℕ) (w : World) (k : Compressor)
    → AreCounted elsewhere w
    → ((a : ℕ) → references w.host.packets a < 2 ^ 64)
    → (end : World) × ((host_destroy (some w) k).world ≡ some end)
      × ((a : ℕ) → references end.host.packets a ≡ elsewhere a)
      × All IsReset end.peers
unfolding host_destroy
host_destroy-released elsewhere w k v small =
    let (e, r) = reset_peers-IsReset elsewhere w.host w.peers v small in
    (reset_peers w.host w.peers, refl, e, r)
