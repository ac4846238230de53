-- ===== src/Protocol/Sending/Outbound.antt =====
-- src/protocol.cpp, `enet_protocol_send_outgoing_commands`: the header of a datagram, and what goes to
-- the socket.
use enetcpp.Base.{
  ◌+◌, Bool, List, Option, bit_or, false, if◌then◌else◌, length, ltb, none, shifted, some, sub64,
  true, wrap16, ℕ, ◌&&◌,
}
use enetcpp.Command.Limits.{maximum_peer_id}
use enetcpp.Command.Size
use enetcpp.Packet.Store.{Store}
use enetcpp.Peer.{Peer}
use enetcpp.Host.{Conn}
use enetcpp.Protocol.Datagram.{Datagram, Buffer}
use enetcpp.Protocol.Datagram.Fit.{total_length}

-- `PROTOCOL_HEADER_SESSION_SHIFT`, and the shifts of the two flags.
abbrev pub session_shift : ℕ
session_shift = 12

abbrev pub compressed_shift : ℕ
compressed_shift = 14

abbrev pub sent_time_shift : ℕ
sent_time_shift = 15

-- `ProtocolHeader`, with the checksum that may follow it; the sent time is there only if its flag is
-- set.
pub record Header : Type 0 where
  pub peer_id : ℕ
  pub sent_time : Option ℕ
  pub checksum : Option ℕ

-- The buffers after the header, or the bytes that the compressor has made of them.
pub data Body : Type 0 where
  plain : List Buffer → Body
  shrunk : List ℕ → Body

pub record Outbound : Type 0 where
  pub header : Header
  pub body : Body

-- The host's callbacks: `compress` of buffers of a size, into as many bytes at most, and the checksum
-- of a header and buffers. The buffers point into the packets of the store. `none` is a null pointer.
pub record Callbacks : Type 0 where
  pub compress : Option (Store → List Buffer → ℕ → List ℕ)
  pub checksum : Option (Store → Header → List Buffer → ℕ)

abbrev pub flag : ℕ → Bool → ℕ
flag shift true = shifted shift 1
flag shift false = 0

-- `shouldCompress`: the bytes, if there are some and fewer than before.
unfoldable pub compress_body : Callbacks → Store → Datagram → Option (List ℕ)
compress_body k s d = elim k.compress [
  | none ↦ none
  | some compress ↦
      let size = sub64 d.packet_size Size.protocol_header in
      let bytes = compress s d.buffers size in
      if ltb 0 (length bytes) && ltb (length bytes) size then some bytes else none
]

-- `headerFlags`; the session is left out for a peer that has no identifier yet.
unfoldable pub header_flags : Bool → Bool → Peer → ℕ
header_flags sent_time compressed p =
    let flags = bit_or (flag compressed_shift compressed) (flag sent_time_shift sent_time) in
    if ltb p.outgoing_peer_id maximum_peer_id
    then wrap16 (bit_or (shifted session_shift p.outgoing_session_id) flags)
    else flags

-- `header->peerID`
unfoldable pub header_word : Bool → Bool → Peer → ℕ
unfolding header_flags
header_word sent_time compressed p = bit_or p.outgoing_peer_id (header_flags sent_time compressed p)

-- `connectID`, which stands in the place of the checksum while that is computed.
abbrev pub checksum_seed : Peer → ℕ
checksum_seed p = if ltb p.outgoing_peer_id maximum_peer_id then p.connect_id else 0

abbrev pub sealed : Callbacks → Store → Header → List Buffer → ℕ → Header
sealed k s h buffers seed = elim k.checksum [
  | none ↦ h
  | some checksum ↦ record h {
    checksum = some (checksum s (record h { checksum = some seed }) buffers);
  }
]

abbrev pub has_bytes : Option (List ℕ) → Bool
has_bytes none = false
has_bytes (some bytes) = true

-- The datagram as it is given to the socket.
unfoldable pub outbound : Callbacks → Conn → Datagram → Outbound
unfolding compress_body header_word
outbound k c d =
    let bytes = compress_body k c.host.packets d in
    record {
      header =
          sealed k c.host.packets
            (record {
              peer_id = header_word d.sent_time_flag (has_bytes bytes) c.peer;
              sent_time = if d.sent_time_flag then some (wrap16 c.host.service_time) else none;
              checksum = none;
            })
            d.buffers (checksum_seed c.peer);
      body = elim bytes [ none ↦ plain d.buffers | some b ↦ shrunk b ];
    }

-- `buffers->dataLength` of the header, which has the checksum behind the sent time.
abbrev pub sent_time_length : Option ℕ → ℕ
sent_time_length none = 0
sent_time_length (some t) = 2

abbrev pub checksum_length {ℓ} : {A : Type ℓ} → Option A → ℕ
checksum_length none = 0
checksum_length (some c) = 4

abbrev pub header_length : Header → ℕ
header_length h = 2 + sent_time_length h.sent_time + checksum_length h.checksum

abbrev pub body_length : Body → ℕ
body_length (plain buffers) = total_length buffers
body_length (shrunk bytes) = length bytes

-- The bytes of all buffers that the socket is given.
abbrev pub sent_length : Outbound → ℕ
sent_length o = header_length o.header + body_length o.body
