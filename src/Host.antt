-- ===== src/Host.antt =====
-- include/enetcpp/enetcpp.h: the part of `Host` that its peers share, and one peer with it. The
-- array of peers is beside it (`World`); the socket, the buffers and the callbacks are not part
-- of this record.
pub mod Configure
pub mod Recalculate
pub mod Bandwidth
pub mod Create
pub mod Destroy
pub mod Broadcast
use enetcpp.Base.{ℕ, Bool, List, [], ◌∷◌, ◌++◌, ◌||◌, ◌==◌, false}
use enetcpp.Packet.Store.{Store}
use enetcpp.Peer.{Address, Peer}

-- `dispatch_queue` holds the indices of peers; it shows the list of nodes only as long as none of them
-- has been inserted twice, which `dispatch_damaged` tells. `packets` holds the packets that are alive;
-- `next_packet` and `next_command` are addresses that no allocation has used.
pub record Host : Type 0 where
  pub incoming_bandwidth : ℕ
  pub outgoing_bandwidth : ℕ
  pub bandwidth_throttle_epoch : ℕ
  pub mtu : ℕ
  pub random_seed : ℕ
  pub recalculate_bandwidth_limits : Bool
  pub channel_limit : ℕ
  pub service_time : ℕ
  pub dispatch_queue : List ℕ
  pub dispatch_damaged : Bool
  pub total_queued : ℕ
  pub has_checksum : Bool
  pub received_address : Address
  pub received_data : List ℕ
  pub connected_peers : ℕ
  pub bandwidth_limited_peers : ℕ
  pub duplicate_peers : ℕ
  pub maximum_packet_size : ℕ
  pub maximum_waiting_data : ℕ
  pub packets : Store
  pub next_packet : ℕ
  pub next_command : ℕ

abbrev pub stands_in : ℕ → List ℕ → Bool
stands_in p [] = false
stands_in p (q ∷ qs) = q == p || stands_in p qs

-- `list_insert(list_end(&host->dispatchQueue), peer)`, which damages the list if the peer is linked.
abbrev pub enlist : Host → ℕ → Host
enlist h p = record h {
  dispatch_queue = h.dispatch_queue ++ p ∷ [];
  dispatch_damaged = h.dispatch_damaged || stands_in p h.dispatch_queue;
}

-- A peer and its host: `peer` and `peer->host` of the functions on peers.
pub record Conn : Type 0 where
  pub host : Host
  pub peer : Peer

-- A host with the array of its peers.
pub record World : Type 0 where
  pub host : Host
  pub peers : List Peer
