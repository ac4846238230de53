-- ===== src/Protocol/Incoming/Header.antt =====
-- src/protocol.cpp, `enet_protocol_handle_incoming_commands`: the header of a datagram, its peer, and the
-- callbacks of the host.
use enetcpp.Base.{
  Bool, List, Option, drop, get_elem?, has_bit, if◌then◌else◌, is_empty, length, ltb, none, some,
  take, ℕ, ◌!=◌, ◌%◌, ◌&&◌, ◌++◌, ◌+◌, ◌-◌, ◌/◌, ◌==◌, ◌||◌,
}
use enetcpp.Command.Limits.{maximum_peer_id}
use enetcpp.Command.Bytes.{read_native, write_native}
use enetcpp.Peer.{Peer, Address}
use enetcpp.Host.{World}
use enetcpp.Protocol.Acknowledge.{is_gone}

-- `HOST_BROADCAST`
abbrev pub host_broadcast : ℕ
host_broadcast = 4294967295

-- `peerID`, `sessionID` and the two flags of the first field.
abbrev pub peer_of : ℕ → ℕ
peer_of word = word % 4096

abbrev pub session_of : ℕ → ℕ
session_of word = word / 4096 % 4

abbrev pub has_sent_time : ℕ → Bool
has_sent_time word = has_bit 32768 word

abbrev pub is_compressed : ℕ → Bool
is_compressed word = has_bit 16384 word

-- `headerSize`, with the checksum if there is one.
unfoldable pub header_size : ℕ → Bool → ℕ
header_size word has_checksum =
    (if has_sent_time word then 4 else 2) + (if has_checksum then 4 else 0)

-- `address.host != HOST_BROADCAST` and another address than the one received from.
abbrev pub is_elsewhere : Address → Address → Bool
is_elsewhere received own =
    (received.host != own.host || received.port != own.port) && own.host != host_broadcast

abbrev pub is_foreign : Address → Peer → ℕ → Bool
is_foreign received p session =
    is_gone p.state
    || is_elsewhere received p.address
    || (ltb p.outgoing_peer_id maximum_peer_id && session != p.incoming_session_id)

-- The peer of a datagram: the datagram is dropped, or has no peer yet, or the peer at an index.
pub data Addressee : Type 0 where
  dropped unknown : Addressee
  known : ℕ → Addressee

unfoldable pub addressee : World → ℕ → Addressee
addressee w word =
    if peer_of word == maximum_peer_id then unknown else elim (get_elem? w.peers (peer_of word)) [
      | none ↦ dropped
      | some p ↦
          if is_foreign w.host.received_address p (session_of word)
          then dropped
          else known (peer_of word)
    ]

-- The callbacks for what is received: `decompress` of bytes into a room, and the checksum of bytes.
pub record Readers : Type 0 where
  pub decompress : Option (List ℕ → ℕ → List ℕ)
  pub checksum : Option (List ℕ → ℕ)

-- What a step makes of a datagram: it goes on, it is dropped, or it reads out of bounds.
pub data Step : Type 0 where
  go_on : List ℕ → Step
  drop_datagram fault : Step

-- `sizeof(host->packetData[1])`
abbrev pub packet_data_size : ℕ
packet_data_size = 4096

-- The header is kept, and what follows it is decompressed. `receivedDataLength - headerSize` is
-- unsigned: for a datagram shorter than its header, the range goes past the array.
unfoldable pub decompressed : Readers → List ℕ → ℕ → Step
decompressed k bytes size = elim k.decompress [
  | none ↦ drop_datagram
  | some decompress ↦
      if ltb (length bytes) size
      then fault
      else let original = decompress (drop size bytes) (packet_data_size - size) in
        if is_empty original || ltb (packet_data_size - size) (length original)
        then drop_datagram
        else go_on (take size bytes ++ original)
]

-- `*checksum = …`, in the array that holds the datagram; `stale` is what the array has after it.
abbrev pub with_seed : List ℕ → ℕ → ℕ → List ℕ
with_seed array size seed = take (size - 4) array ++ write_native seed (drop size array)

unfoldable pub verified : Readers → List ℕ → List ℕ → ℕ → ℕ → Step
verified k bytes stale size seed = elim k.checksum [
  | none ↦ go_on bytes
  | some checksum ↦
      let seeded = take (length bytes) (with_seed (bytes ++ stale) size seed) in
      if checksum seeded == read_native (bytes ++ stale) (size - 4)
      then go_on seeded
      else drop_datagram
]
