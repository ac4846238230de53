-- ===== src/Packet/Crc/Exact.antt =====
-- src/packet.cpp: `crc32` against the definition of the checksum, one bit at a time.
use enetcpp.Base.{
  All, ◌^◌, Bool, Bool-cases, List, [], ap, arith, bit_xor, bit_xor-lt, bit_xor-zero, bit_xor_step,
  get_elem?, half-bit_xor, if◌then◌else◌, inl, inr, length, parity-bit_xor, refl, shifted, some,
  suc, sym, true, xor_assoc, zero, ◌%◌, ◌&&◌, ◌*◌, ◌+◌, ◌-◌, ◌/◌, ◌<◌, ◌==◌, ◌∙◌, ◌∷◌, ◌≡◌, ℕ,
}
use enetcpp.Packet.Crc.{crc_table, crc_byte, crc_buffer, crc_buffers, crc32}

abbrev pub polynomial : ℕ
polynomial = 0xEDB88320

-- The division of a bit.
unfoldable pub bit_step : ℕ → ℕ
bit_step x = if x % 2 == 1 then bit_xor (x / 2) polynomial else x / 2

unfoldable pub bit_steps : ℕ → ℕ → ℕ
unfolding bit_step
bit_steps zero x = x
bit_steps (suc n) x = bit_steps n (bit_step x)

abbrev pub bitwise_byte : ℕ → ℕ → ℕ
bitwise_byte crc byte = bit_steps 8 (bit_xor crc byte)

abbrev pub bitwise_buffer : List ℕ → ℕ → ℕ
bitwise_buffer [] crc = crc
bitwise_buffer (byte ∷ rest) crc = bitwise_buffer rest (bitwise_byte crc byte)

abbrev pub bitwise_buffers : List (List ℕ) → ℕ → ℕ
bitwise_buffers [] crc = crc
bitwise_buffers (buffer ∷ rest) crc = bitwise_buffers rest (bitwise_buffer buffer crc)

abbrev pub bitwise_crc : List (List ℕ) → ℕ
bitwise_crc buffers = 0xFFFFFFFF - bitwise_buffers buffers 0xFFFFFFFF

abbrev pub IsByte : ℕ → Type 0
IsByte b = b < 256

-- Each entry of a table, from an index on, is the division of its index.
is_exact : ℕ → List ℕ → Bool
unfolding bit_steps
is_exact i [] = true
is_exact i (entry ∷ rest) = (entry == bit_steps 8 i) && is_exact (i + 1) rest

table_checked : is_exact 0 crc_table ≡ true
unfolding is_exact bit_steps
table_checked = refl

exact-entry :
    (i : ℕ) (entries : List ℕ) (j : ℕ)
    → is_exact i entries ≡ true
    → j < length entries
    → get_elem? entries j ≡ some (bit_steps 8 (i + j))
unfolding is_exact
exact-entry i [] j e h = absurd (omega arith)
exact-entry i (entry ∷ rest) zero e h = ground (arith, e)
exact-entry i (entry ∷ rest) (suc j) e h =
    exact-entry (i + 1) rest j (ground (arith, e)) (omega arith)
    ∙ ap (λ n. some (bit_steps 8 n)) (omega arith)

bit_step-xor : (u v : ℕ) → bit_step (bit_xor (2 * u) v) ≡ bit_xor u (bit_step v)
unfolding bit_step
bit_step-xor u v =
    let half : bit_xor (2 * u) v / 2 ≡ bit_xor u (v / 2) =
      half-bit_xor (2 * u) v ∙ ap (λ w. bit_xor w (v / 2)) (omega arith) in
    let parity : bit_xor (2 * u) v % 2 ≡ v % 2 = omega (arith, parity-bit_xor (2 * u) v) in
    elim (Bool-cases (v % 2 == 1)) [
      | inl e ↦ rw (bit_step, parity, e, half) (xor_assoc u (v / 2) polynomial)
      | inr e ↦ rw (bit_step, parity, e) half
    ]

bit_steps-xor : (n u v : ℕ) → bit_steps n (bit_xor (shifted n u) v) ≡ bit_xor u (bit_steps n v)
unfolding bit_steps
bit_steps-xor zero u v = refl
bit_steps-xor (suc n) u v =
    ap (bit_steps n) (bit_step-xor (shifted n u) v) ∙ bit_steps-xor n u (bit_step v)

xor-shifted : (k h l : ℕ) → l < shifted k 1 → bit_xor (shifted k h) l ≡ shifted k h + l
xor-shifted zero h zero p = omega (arith, bit_xor-zero h)
xor-shifted zero h (suc l) p = absurd (omega arith)
xor-shifted (suc k) h l p =
    let halved : 2 * shifted k h / 2 ≡ shifted k h = omega arith in
    omega (
      arith,
      bit_xor_step (2 * shifted k h) l,
      ap (λ w. bit_xor w (l / 2)) halved,
      xor-shifted k h (l / 2) (omega arith),
    )

byte_exact : (crc byte : ℕ) → IsByte byte → crc_byte crc byte ≡ some (bitwise_byte crc byte)
unfolding crc_byte
byte_exact crc byte small =
    let low = bit_xor (crc % 256) byte in
    let entry : get_elem? crc_table low ≡ some (bit_steps 8 low) =
      exact-entry 0 crc_table low table_checked
        (bit_xor-lt 8 (crc % 256) byte (omega arith) (omega arith))
      ∙ ap (λ n. some (bit_steps 8 n)) (omega arith) in
    let parts : crc ≡ bit_xor (shifted 8 (crc / 256)) (crc % 256) =
      omega (arith, xor-shifted 8 (crc / 256) (crc % 256) (omega arith)) in
    let joined : bit_xor crc byte ≡ bit_xor (shifted 8 (crc / 256)) low =
      ap (λ c. bit_xor c byte) parts ∙ xor_assoc (shifted 8 (crc / 256)) (crc % 256) byte in
    rw (crc_byte, entry)
      (ap (λ n. some n) (sym (ap (bit_steps 8) joined ∙ bit_steps-xor 8 (crc / 256) low)))

bit_step-lt : (x : ℕ) → x < 2 ^ 32 → bit_step x < 2 ^ 32
unfolding bit_step
bit_step-lt x h = elim (Bool-cases (x % 2 == 1)) [
  | inl e ↦ rw (bit_step, e) (bit_xor-lt 32 (x / 2) polynomial (omega arith) (omega arith))
  | inr e ↦ rw (bit_step, e) (omega arith)
]

bit_steps-lt : (n x : ℕ) → x < 2 ^ 32 → bit_steps n x < 2 ^ 32
unfolding bit_steps
bit_steps-lt zero x h = h
bit_steps-lt (suc n) x h = bit_steps-lt n (bit_step x) (bit_step-lt x h)

byte-lt : (crc byte : ℕ) → crc < 2 ^ 32 → IsByte byte → bitwise_byte crc byte < 2 ^ 32
byte-lt crc byte h small =
    bit_steps-lt 8 (bit_xor crc byte) (bit_xor-lt 32 crc byte h (omega arith))

buffer_exact :
    (buffer : List ℕ) (crc : ℕ)
    → crc < 2 ^ 32
    → All IsByte buffer
    → (crc_buffer buffer crc ≡ some (bitwise_buffer buffer crc))
      × (bitwise_buffer buffer crc < 2 ^ 32)
unfolding crc_buffer
buffer_exact [] crc h v = (refl, h)
buffer_exact (byte ∷ rest) crc h (small, v) =
    let (e, room) = buffer_exact rest (bitwise_byte crc byte) (byte-lt crc byte h small) v in
    (rw (crc_buffer, byte_exact crc byte small) e, room)

buffers_exact :
    (buffers : List (List ℕ)) (crc : ℕ)
    → crc < 2 ^ 32
    → All (All IsByte) buffers
    → (crc_buffers buffers crc ≡ some (bitwise_buffers buffers crc))
      × (bitwise_buffers buffers crc < 2 ^ 32)
unfolding crc_buffers
buffers_exact [] crc h v = (refl, h)
buffers_exact (buffer ∷ rest) crc h (bytes, v) =
    let (e, small) = buffer_exact buffer crc h bytes in
    let (f, room) = buffers_exact rest (bitwise_buffer buffer crc) small v in
    (rw (crc_buffers, e) f, room)

-- Of bytes, `crc32` never reads past its table, and its result is what the platform's conversion to
-- the byte order of the network makes of the checksum that divides one bit at a time by the
-- reflected polynomial 0xEDB88320; that checksum is a 32-bit number, as is the value of which it is
-- the complement.
pub crc32_exact :
    (host_to_net_32 : ℕ → ℕ) (buffers : List (List ℕ))
    → All (All IsByte) buffers
    → (crc32 host_to_net_32 buffers ≡ some (host_to_net_32 (bitwise_crc buffers)))
      × (bitwise_crc buffers < 2 ^ 32)
      × (bitwise_buffers buffers 0xFFFFFFFF < 2 ^ 32)
unfolding crc32
crc32_exact host_to_net_32 buffers v =
    let (e, room) = buffers_exact buffers 0xFFFFFFFF (omega arith) v in
    (rw (crc32, e) refl, omega arith, room)
