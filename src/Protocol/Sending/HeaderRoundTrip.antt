-- ===== src/Protocol/Sending/HeaderRoundTrip.antt =====
-- src/protocol.cpp: the first field of a datagram, as `enet_protocol_send_outgoing_commands` writes it
-- and `enet_protocol_handle_incoming_commands` reads it.
use enetcpp.Base.{
  ◌%◌, ◌/◌, Bool, Bool-cases, arith, bit_or, bit_or-shifted, false, if◌then◌else◌, inl, inr, ltb,
  refl, shifted, true, ℕ, ◌*◌, ◌+◌, ◌<◌, ◌≡◌, ◌⊎◌,
}
use enetcpp.Command.Limits.{maximum_peer_id}
use enetcpp.Peer.{Peer}
use enetcpp.Protocol.Sending.Outbound.{
  header_word, header_flags, flag, compressed_shift, sent_time_shift, session_shift,
}
use enetcpp.Protocol.Incoming.Header.{peer_of, session_of, has_sent_time, is_compressed}

abbrev flag_bits : Bool → Bool → ℕ
flag_bits true true = 3
flag_bits true false = 2
flag_bits false true = 1
flag_bits false false = 0

abbrev flags : Bool → Bool → ℕ
flags sent_time shrunk = bit_or (flag compressed_shift shrunk) (flag sent_time_shift sent_time)

flags-eq :
    (sent_time shrunk : Bool) → flags sent_time shrunk ≡ shifted 14 (flag_bits sent_time shrunk)
flags-eq true true = refl
flags-eq true false = refl
flags-eq false true = refl
flags-eq false false = refl

flag_bits-lt : (sent_time shrunk : Bool) → flag_bits sent_time shrunk < 4
flag_bits-lt true true = omega arith
flag_bits-lt true false = omega arith
flag_bits-lt false true = omega arith
flag_bits-lt false false = omega arith

-- The flags with the session, as one number of four bits.
abbrev session_bits : Bool → Bool → Peer → ℕ
session_bits sent_time shrunk p =
    (if ltb p.outgoing_peer_id maximum_peer_id then p.outgoing_session_id else 0)
    + 4 * flag_bits sent_time shrunk

header_flags-eq :
    (sent_time shrunk : Bool) (p : Peer)
    → p.outgoing_session_id < 4
    → header_flags sent_time shrunk p ≡ shifted 12 (session_bits sent_time shrunk p)
unfolding header_flags
header_flags-eq sent_time shrunk p h =
    let small = flag_bits-lt sent_time shrunk in
    let joined =
      bit_or-shifted 14 (shifted session_shift p.outgoing_session_id) (flag_bits sent_time shrunk)
        (omega arith) in
    elim (Bool-cases (ltb p.outgoing_peer_id maximum_peer_id)) [
      | inl e ↦ rw (header_flags, e, flags-eq sent_time shrunk, joined) (omega (arith, small))
      | inr e ↦ rw (header_flags, e, flags-eq sent_time shrunk) (omega arith)
    ]

header_word-eq :
    (sent_time shrunk : Bool) (p : Peer)
    → p.outgoing_peer_id < 4096
    → p.outgoing_session_id < 4
    → header_word sent_time shrunk p ≡ p.outgoing_peer_id + 4096 * session_bits sent_time shrunk p
unfolding header_word
header_word-eq sent_time shrunk p h k =
    rw (header_word, header_flags-eq sent_time shrunk p k)
      (omega (
        arith,
        bit_or-shifted 12 p.outgoing_peer_id (session_bits sent_time shrunk p) (omega arith),
      ))

-- The parts of a number that is put together in this way.
parts :
    (id session bits : ℕ)
    → id < 4096
    → session < 4
    → bits < 4
    → let word = id + 4096 * (session + 4 * bits) in
      (peer_of word ≡ id)
      × (session_of word ≡ session)
      × (word / 32768 % 2 ≡ bits / 2)
      × (word / 16384 % 2 ≡ bits % 2)
parts id session bits h k m = omega arith

-- A header that is written for a peer is read back as its identifier, its session and the two
-- flags; for the identifier of a peer that has none yet, the session is left out. The identifier has
-- 12 bits, the session two.
pub header_word-read :
    (sent_time shrunk : Bool) (p : Peer)
    → p.outgoing_peer_id < 4096
    → p.outgoing_session_id < 4
    → let word = header_word sent_time shrunk p in
      (peer_of word ≡ p.outgoing_peer_id)
      × (has_sent_time word ≡ sent_time)
      × (is_compressed word ≡ shrunk)
      × (((p.outgoing_peer_id < maximum_peer_id) × (session_of word ≡ p.outgoing_session_id))
          ⊎ ((p.outgoing_peer_id ≡ maximum_peer_id) × (session_of word ≡ 0)))
header_word-read true true p h k = elim (Bool-cases (ltb p.outgoing_peer_id maximum_peer_id)) [
  | inl e ↦
      let q =
        parts p.outgoing_peer_id p.outgoing_session_id (flag_bits true true) h k (omega arith) in
      rw (header_word-eq true true p h k, e) (ground (arith, q, e))
  | inr e ↦
      let q = parts p.outgoing_peer_id 0 (flag_bits true true) h (omega arith) (omega arith) in
      rw (header_word-eq true true p h k, e) (ground (arith, q, e))
]
header_word-read true false p h k = elim (Bool-cases (ltb p.outgoing_peer_id maximum_peer_id)) [
  | inl e ↦
      let q =
        parts p.outgoing_peer_id p.outgoing_session_id (flag_bits true false) h k (omega arith) in
      rw (header_word-eq true false p h k, e) (ground (arith, q, e))
  | inr e ↦
      let q = parts p.outgoing_peer_id 0 (flag_bits true false) h (omega arith) (omega arith) in
      rw (header_word-eq true false p h k, e) (ground (arith, q, e))
]
header_word-read false true p h k = elim (Bool-cases (ltb p.outgoing_peer_id maximum_peer_id)) [
  | inl e ↦
      let q =
        parts p.outgoing_peer_id p.outgoing_session_id (flag_bits false true) h k (omega arith) in
      rw (header_word-eq false true p h k, e) (ground (arith, q, e))
  | inr e ↦
      let q = parts p.outgoing_peer_id 0 (flag_bits false true) h (omega arith) (omega arith) in
      rw (header_word-eq false true p h k, e) (ground (arith, q, e))
]
header_word-read false false p h k = elim (Bool-cases (ltb p.outgoing_peer_id maximum_peer_id)) [
  | inl e ↦
      let q =
        parts p.outgoing_peer_id p.outgoing_session_id (flag_bits false false) h k (omega arith) in
      rw (header_word-eq false false p h k, e) (ground (arith, q, e))
  | inr e ↦
      let q = parts p.outgoing_peer_id 0 (flag_bits false false) h (omega arith) (omega arith) in
      rw (header_word-eq false false p h k, e) (ground (arith, q, e))
]
