-- ===== src/Protocol/Sending/Length.antt =====
-- src/protocol.cpp, `enet_protocol_send_outgoing_commands`: the length of what goes to the socket, with
-- the header and the checksum, against `packetSize` and the MTU.
use enetcpp.Base.{
  All, List, Option-cases, arith, if◌then◌else◌, inl, inr, length, some, sub64, true, ℕ, ◌+◌, ◌<◌,
  ◌^◌, ◌≡◌, ◌≤◌, ◌⊎◌,
}
use enetcpp.Command.Size
use enetcpp.Host.{Conn}
use enetcpp.Peer.{OutgoingCommand}
use enetcpp.Packet.Store.{Store}
use enetcpp.Protocol.Datagram.{Datagram}
use enetcpp.Protocol.Datagram.Fit.{IsFit}
use enetcpp.Protocol.Outgoing.{walk_queues}
use enetcpp.Protocol.Outgoing.Size.{IsShort, walk_queues-IsFit}
use enetcpp.Protocol.Sending.Outbound.{
  Callbacks, outbound, compress_body, has_bytes, sent_length, checksum_length,
}

-- The bytes of the header that are counted but not sent: those of a sent time that is left out.
abbrev pub unsent : Datagram → ℕ
unsent d = if d.sent_time_flag then 0 else 2

-- What is sent is as long as `packetSize`, without the sent time that is left out and with the
-- checksum, or it has been compressed and is shorter than that.
abbrev pub IsSent : Callbacks → Conn → Datagram → Type 0
IsSent k c d =
    let n = sent_length (outbound k c d) + unsent d in
    let counted = d.packet_size + checksum_length k.checksum in
    (n ≡ counted) ⊎ ((has_bytes (compress_body k c.host.packets d) ≡ true) × (n < counted))

compress_body-length :
    (k : Callbacks) (s : Store) (d : Datagram) (bytes : List ℕ)
    → compress_body k s d ≡ some bytes
    → length bytes < sub64 d.packet_size Size.protocol_header
unfolding compress_body
compress_body-length k s d bytes e = ground (arith, e)

outbound-IsSent :
    (mtu : ℕ) (k : Callbacks) (c : Conn) (d : Datagram) → mtu < 2 ^ 32 → IsFit mtu d → IsSent k c d
unfolding outbound
outbound-IsSent mtu k c d small v = elim (Option-cases (compress_body k c.host.packets d)) [
  | inl e ↦ inl (elim (Option-cases k.checksum) [
    | inl f ↦ ground (arith, e, f, v.counted)
    | inr (checksum, f) ↦ ground (arith, e, f, v.counted)
  ])
  | inr (bytes, e) ↦
      let shorter = compress_body-length k c.host.packets d bytes e in
      inr (
        ground (arith, e),
        elim (Option-cases k.checksum) [
          | inl f ↦ ground (arith, e, f, shorter, v.counted, v.within)
          | inr (checksum, f) ↦ ground (arith, e, f, shorter, v.counted, v.within)
        ],
      )
]

-- The datagram that the loop fills fits its arrays and, as `packetSize` counts it, the MTU. What the
-- socket is then given, the header and the checksum included, is as long as `packetSize`, without the
-- two bytes of a sent time that is left out and with the four of the checksum if the host has one, or
-- is compressed to less. So it is at most as long as the MTU and, on top of it, those of the
-- checksum, which the tests of the room do not count. The MTU and every queued command with its bytes
-- are below 2 ^ 16, and the datagram fits before; the header may be written for any peer.
pub outbound-walk_queues :
    (k : Callbacks) (c c' : Conn) (d : Datagram) (sent_unreliable : List OutgoingCommand)
    → c.peer.mtu < 65536
    → All IsShort c.peer.queues.outgoing_commands
    → All IsShort c.peer.queues.outgoing_send_reliable_commands
    → IsFit c.peer.mtu d
    → let filled = (walk_queues c d sent_unreliable).datagram in
      IsFit c.peer.mtu filled
      × IsSent k c' filled
      × sent_length (outbound k c' filled) ≤ c.peer.mtu + checksum_length k.checksum
outbound-walk_queues k c c' d sent_unreliable small short short_reliable v =
    let filled = (walk_queues c d sent_unreliable).datagram in
    let fit = walk_queues-IsFit c d sent_unreliable small short short_reliable v in
    let sent = outbound-IsSent c.peer.mtu k c' filled (omega arith) fit in
    (
      fit,
      sent,
      elim sent [ inl e ↦ omega (arith, fit.within) | inr e ↦ omega (arith, e.1, fit.within) ],
    )
