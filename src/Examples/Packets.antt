-- ===== src/Examples/Packets.antt =====
-- The theorem on the checksum, applied to the nine bytes by which checksums are compared.
use enetcpp.Base.{◌%◌, ◌*◌, ◌+◌, ◌/◌, All, List, [], arith, refl, some, ◌<◌, ◌^◌, ◌∷◌, ◌≡◌, ℕ}
use enetcpp.Packet.Crc.{crc32}
use enetcpp.Packet.Crc.Exact.{bitwise_crc, bitwise_buffers, IsByte, crc32_exact}

abbrev nine : List (List ℕ)
nine = (49 ∷ 50 ∷ 51 ∷ []) ∷ [] ∷ (52 ∷ 53 ∷ 54 ∷ 55 ∷ 56 ∷ 57 ∷ []) ∷ []

nine_bytes : All (All IsByte) nine
nine_bytes = (
  (omega arith, (omega arith, (omega arith, tt))),
  (
    tt,
    (
      (omega arith, (omega arith, (omega arith, (omega arith, (omega arith, (omega arith, tt)))))),
      tt,
    ),
  ),
)

-- The conversion of a machine that stores the lowest byte first.
abbrev swapped : ℕ → ℕ
swapped n =
    n % 256 * 2 ^ 24 + n / 2 ^ 8 % 256 * 2 ^ 16 + n / 2 ^ 16 % 256 * 2 ^ 8 + n / 2 ^ 24 % 256

-- The published value for these bytes is 0xCBF43926.
published_value : crc32 swapped nine ≡ some 0x2639F4CB
unfolding crc32
published_value = refl

crc32_example :
    (crc32 swapped nine ≡ some (swapped (bitwise_crc nine)))
    × (bitwise_crc nine < 2 ^ 32)
    × (bitwise_buffers nine 0xFFFFFFFF < 2 ^ 32)
crc32_example = crc32_exact swapped nine nine_bytes
