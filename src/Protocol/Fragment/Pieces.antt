-- ===== src/Protocol/Fragment/Pieces.antt =====
-- Pieces of one size, and the bits of those that are there, for the handlers of fragments in
-- src/protocol.cpp.
use native.Mathlib.Decide.{dec_lt}
use enetcpp.Base.{
  ℕ, ◌≡◌, ◌+◌, ◌*◌, ◌<◌, ◌≤◌, List, [], ◌∷◌, some, Bool, true, false, zero, suc, get_elem?, refl,
  arith, ltb, leb, ◌&&◌,
}
use enetcpp.Protocol.Fragment.Reassembly.{missing}

pub missing_all :
    (n : ℕ) (bits : List Bool)
    → ((k : ℕ) → k < n → get_elem? bits k ≡ some true)
    → missing n bits ≡ 0
missing_all zero bits h = refl
missing_all (suc n) [] h = refl
missing_all (suc n) (true ∷ bits) h = missing_all n bits (λ k l. h (suc k) (omega arith))
missing_all (suc n) (false ∷ bits) h = absurd (ground (arith, h 0 (omega arith)))

-- Every index is in a piece.
pub in_piece : (limit k : ℕ) → 0 < limit → (n : ℕ) × (j : ℕ) × (k ≡ n * limit + j) × (j < limit)
in_piece limit zero h = (0, 0, omega arith, h)
in_piece limit (suc k) h =
    let (n, j, e, l) = in_piece limit k h in
    elim (dec_lt (suc j) limit) [
      | yes m ↦ (n, suc j, omega (arith, e), m)
      | no m ↦
          let next : suc n * limit ≡ n * limit + limit = grind arith in
          (suc n, 0, omega (arith, e, next), h)
    ]

pub before_range : (a b c : ℕ) → b < a → (leb a b && ltb b c) ≡ false
before_range a b c h = ground arith

pub after_range : (a b c : ℕ) → c ≤ b → (leb a b && ltb b c) ≡ false
after_range a b c h = ground arith

pub in_range : (a b c : ℕ) → a ≤ b → b < c → (leb a b && ltb b c) ≡ true
in_range a b c h l = ground arith

pub pieces_apart : (limit m n : ℕ) → m < n → m * limit + limit ≤ n * limit
pieces_apart limit m zero h = absurd (omega arith)
pieces_apart limit zero (suc n) h =
    let next : suc n * limit ≡ n * limit + limit = grind arith in omega (arith, next)
pieces_apart limit (suc m) (suc n) h =
    let next : suc n * limit ≡ n * limit + limit = grind arith in
    let here : suc m * limit ≡ m * limit + limit = grind arith in
    omega (arith, next, here, pieces_apart limit m n (omega arith))
