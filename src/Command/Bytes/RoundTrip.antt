-- ===== src/Command/Bytes/RoundTrip.antt =====
-- The commands of include/enetcpp/protocol.h, from their bytes.
use enetcpp.Base.{
  [], inl, inr, length, ◌++◌, List, arith, refl, some, ℕ, ◌%◌, ◌*◌, ◌+◌, ◌/◌, ◌<◌, ◌^◌, ◌≡◌, ◌⊎◌,
}
use enetcpp.Command.{
  CommandHeader, Protocol, acknowledge, connect, verify_connect, bandwidth_limit,
  throttle_configure, disconnect, ping, send_reliable, send_unreliable, send_unsequenced,
  send_fragment, header, command_mask,
}
use enetcpp.Command.Number
use enetcpp.Command.Size.{protocol_command_size}
use enetcpp.Command.Bytes.{encode, decode}

-- A command that fits its structure: the number is that of the member, and each field fits its width.
abbrev pub FitsHeader : ℕ → CommandHeader → Type 0
FitsHeader number h = (command_mask h.command ≡ number) × (h.reliable_sequence_number < 65536)

abbrev pub FitsStructure : Protocol → Type 0
FitsStructure (acknowledge c) =
    FitsHeader Number.acknowledge c.header
    × (c.received_reliable_sequence_number < 65536)
    × (c.received_sent_time < 65536)
FitsStructure (connect c) =
    FitsHeader Number.connect c.header
    × (c.outgoing_peer_id < 65536)
    × (c.mtu < 2 ^ 32)
    × (c.window_size < 2 ^ 32)
    × (c.channel_count < 2 ^ 32)
    × (c.incoming_bandwidth < 2 ^ 32)
    × (c.outgoing_bandwidth < 2 ^ 32)
    × (c.packet_throttle_interval < 2 ^ 32)
    × (c.packet_throttle_acceleration < 2 ^ 32)
    × (c.packet_throttle_deceleration < 2 ^ 32)
    × (c.connect_id < 2 ^ 32)
    × (c.user_data < 2 ^ 32)
FitsStructure (verify_connect c) =
    FitsHeader Number.verify_connect c.header
    × (c.outgoing_peer_id < 65536)
    × (c.mtu < 2 ^ 32)
    × (c.window_size < 2 ^ 32)
    × (c.channel_count < 2 ^ 32)
    × (c.incoming_bandwidth < 2 ^ 32)
    × (c.outgoing_bandwidth < 2 ^ 32)
    × (c.packet_throttle_interval < 2 ^ 32)
    × (c.packet_throttle_acceleration < 2 ^ 32)
    × (c.packet_throttle_deceleration < 2 ^ 32)
    × (c.connect_id < 2 ^ 32)
FitsStructure (bandwidth_limit c) =
    FitsHeader Number.bandwidth_limit c.header
    × (c.incoming_bandwidth < 2 ^ 32)
    × (c.outgoing_bandwidth < 2 ^ 32)
FitsStructure (throttle_configure c) =
    FitsHeader Number.throttle_configure c.header
    × (c.packet_throttle_interval < 2 ^ 32)
    × (c.packet_throttle_acceleration < 2 ^ 32)
    × (c.packet_throttle_deceleration < 2 ^ 32)
FitsStructure (disconnect c) = FitsHeader Number.disconnect c.header × (c.user_data < 2 ^ 32)
FitsStructure (ping c) = FitsHeader Number.ping c.header
FitsStructure (send_reliable c) = FitsHeader Number.send_reliable c.header × (c.data_length < 65536)
FitsStructure (send_unreliable c) =
    FitsHeader Number.send_unreliable c.header
    × (c.unreliable_sequence_number < 65536)
    × (c.data_length < 65536)
FitsStructure (send_unsequenced c) =
    FitsHeader Number.send_unsequenced c.header
    × (c.unsequenced_group < 65536)
    × (c.data_length < 65536)
FitsStructure (send_fragment c) =
    (FitsHeader Number.send_fragment c.header ⊎ FitsHeader Number.send_unreliable_fragment c.header)
    × (c.start_sequence_number < 65536)
    × (c.data_length < 65536)
    × (c.fragment_count < 2 ^ 32)
    × (c.fragment_number < 2 ^ 32)
    × (c.total_length < 2 ^ 32)
    × (c.fragment_offset < 2 ^ 32)

-- A number is read as it was written.
word16 : (n : ℕ) → n < 65536 → n / 256 % 256 * 256 + n % 256 ≡ n
word16 n h = omega arith

word32 :
    (n : ℕ)
    → n < 2 ^ 32
    → n / 16777216 % 256 * 16777216 + n / 65536 % 256 * 65536 + n / 256 % 256 * 256 + n % 256 ≡ n
word32 n h = omega arith

native32 :
    (n : ℕ)
    → n < 2 ^ 32
    → n % 256 + n / 256 % 256 * 256 + n / 65536 % 256 * 65536 + n / 16777216 % 256 * 16777216 ≡ n
native32 n h = omega arith

sized :
    (p : Protocol)
    → FitsStructure p
    → protocol_command_size (header p).command ≡ some (length (encode p []))
unfolding encode protocol_command_size
sized (acknowledge c) h = rw h.0.0 refl
sized (connect c) h = rw h.0.0 refl
sized (verify_connect c) h = rw h.0.0 refl
sized (bandwidth_limit c) h = rw h.0.0 refl
sized (throttle_configure c) h = rw h.0.0 refl
sized (disconnect c) h = rw h.0.0 refl
sized (ping c) (e, a) = rw e refl
sized (send_reliable c) h = rw h.0.0 refl
sized (send_unreliable c) h = rw h.0.0 refl
sized (send_unsequenced c) h = rw h.0.0 refl
sized (send_fragment c) h = elim h.0 [ inl e ↦ rw e.0 refl | inr e ↦ rw e.0 refl ]

module _ (l : List ℕ) where
  read_back :
      (p : Protocol)
      → FitsStructure p
      → decode (command_mask (header p).command) (encode p l) ≡ some p
  unfolding decode encode
  read_back (acknowledge c) ((e, a), b, d) = rw (e, word16 _ a, word16 _ b, word16 _ d) refl
  read_back (connect c) ((e, a), b, f, g, i, j, k, m, n, q, r, s) =
      rw
        (
          e,
          word16 _ a,
          word16 _ b,
          word32 _ f,
          word32 _ g,
          word32 _ i,
          word32 _ j,
          word32 _ k,
          word32 _ m,
          word32 _ n,
          word32 _ q,
          native32 _ r,
          word32 _ s,
        )
        refl
  read_back (verify_connect c) ((e, a), b, f, g, i, j, k, m, n, q, r) =
      rw
        (
          e,
          word16 _ a,
          word16 _ b,
          word32 _ f,
          word32 _ g,
          word32 _ i,
          word32 _ j,
          word32 _ k,
          word32 _ m,
          word32 _ n,
          word32 _ q,
          native32 _ r,
        )
        refl
  read_back (bandwidth_limit c) ((e, a), b, d) = rw (e, word16 _ a, word32 _ b, word32 _ d) refl
  read_back (throttle_configure c) ((e, a), b, d, f) =
      rw (e, word16 _ a, word32 _ b, word32 _ d, word32 _ f) refl
  read_back (disconnect c) ((e, a), b) = rw (e, word16 _ a, word32 _ b) refl
  read_back (ping c) (e, a) = rw (e, word16 _ a) refl
  read_back (send_reliable c) ((e, a), b) = rw (e, word16 _ a, word16 _ b) refl
  read_back (send_unreliable c) ((e, a), b, d) = rw (e, word16 _ a, word16 _ b, word16 _ d) refl
  read_back (send_unsequenced c) ((e, a), b, d) = rw (e, word16 _ a, word16 _ b, word16 _ d) refl
  read_back (send_fragment c) (inl (e, a), b, d, f, g, i, j) =
      rw (e, word16 _ a, word16 _ b, word16 _ d, word32 _ f, word32 _ g, word32 _ i, word32 _ j)
        refl
  read_back (send_fragment c) (inr (e, a), b, d, f, g, i, j) =
      rw (e, word16 _ a, word16 _ b, word16 _ d, word32 _ f, word32 _ g, word32 _ i, word32 _ j)
        refl

  followed : (p : Protocol) → encode p l ≡ encode p [] ++ l
  unfolding encode
  followed (acknowledge c) = refl
  followed (connect c) = refl
  followed (verify_connect c) = refl
  followed (bandwidth_limit c) = refl
  followed (throttle_configure c) = refl
  followed (disconnect c) = refl
  followed (ping c) = refl
  followed (send_reliable c) = refl
  followed (send_unreliable c) = refl
  followed (send_unsequenced c) = refl
  followed (send_fragment c) = refl

-- A command that fits its structure is read back from its bytes, whatever follows them, and they are
-- as many as the table of sizes says, so that the next command is read where it was written.
pub decode-encode :
    (p : Protocol) (l : List ℕ)
    → FitsStructure p
    → (decode (command_mask (header p).command) (encode p [] ++ l) ≡ some p)
      × (protocol_command_size (header p).command ≡ some (length (encode p [])))
decode-encode p l h = (rw (← followed l p) (read_back l p h), sized p h)
