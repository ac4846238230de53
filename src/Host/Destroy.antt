-- ===== src/Host/Destroy.antt =====
-- src/host.cpp: `host_destroy`, and `host_compress` with the compressor that it installs.
pub mod References
use enetcpp.Base.{Bool, List, Option, [], if◌then◌else◌, none, some, ◌∷◌, ℕ}
use enetcpp.Peer.{Peer}
use enetcpp.Peer.Reset.{peer_reset}
use enetcpp.Host.{Host, World}
use enetcpp.Host.Create.{Effect, released, host_memory, peers_memory, open_socket}

-- `Compressor`: its context, and whether it has a function `destroy`.
pub record Compressor : Type 0 where
  pub context : Option ℕ
  pub has_destroy : Bool

-- The context that is destroyed, if any.
abbrev pub destroyed_context : Compressor → Option ℕ
destroyed_context k = if k.has_destroy then k.context else none

-- The host's compressor afterwards, and the context that was destroyed.
unfoldable pub host_compress : Compressor → Option Compressor → Compressor × Option ℕ
host_compress k none = (record k { context = none }, destroyed_context k)
host_compress k (some new) = (new, destroyed_context k)

-- The loop over the peers.
unfoldable pub reset_peers : Host → List Peer → World
unfolding peer_reset
reset_peers h [] = record { host = h; peers = [] }
reset_peers h (p ∷ ps) =
    let c = peer_reset (record { host = h; peer = p }) in
    let rest = reset_peers c.host ps in record { host = rest.host; peers = c.peer ∷ rest.peers }

-- What `host_destroy` did: the peers before their memory is given back, and the context destroyed.
pub record Destroyed : Type 0 where
  pub effects : List Effect
  pub world : Option World
  pub context : Option ℕ

unfoldable pub host_destroy : Option World → Compressor → Destroyed
unfolding reset_peers
host_destroy none k = record { effects = []; world = none; context = none }
host_destroy (some w) k = record {
  effects = released open_socket ∷ released peers_memory ∷ released host_memory ∷ [];
  world = some (reset_peers w.host w.peers);
  context = destroyed_context k;
}
