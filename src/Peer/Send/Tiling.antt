-- ===== src/Peer/Send/Tiling.antt =====
-- src/peer.cpp, `peer_send`: the fragments against the bytes of their packet.
use enetcpp.Base.{
  add64, sub64, ap, length, ◌*◌, ◌/◌, lt→ltb, refl, arith, inl, inr, suc, true, zero, ◌-◌, ◌^◌,
  List, [], ◌+◌, ◌<◌, ◌∷◌, ◌≡◌, ◌≤◌, ◌⊎◌, ℕ,
}
use mathlib.Core.Path.{ap₂}
use native.Mathlib.Nat.{div-eq_of_lt-le}
use native.Mathlib.Decide.{dec_lt}
use enetcpp.Memory.{Allocator, Block, outgoing_command}
use enetcpp.Peer.Send.{
  Piece, Cut, pieces, no_memory, out_of_fuel, cons, cut, trim, fragment_count_of,
}

-- The pieces are numbered from `number` on and follow one another from `offset` to `total`, none
-- empty and none above `limit`; all but the last are of the size of the limit.
abbrev pub Tiles : ℕ → ℕ → ℕ → ℕ → List Piece → Type 0
Tiles total limit number offset [] = offset ≡ total
Tiles total limit number offset (p ∷ ps) =
    (p.number ≡ number)
    × (p.offset ≡ offset)
    × (0 < p.size)
    × (p.size ≤ limit)
    × (p.offset + p.size ≤ total)
    × ((p.size ≡ limit) ⊎ (p.offset + p.size ≡ total))
    × Tiles total limit (number + 1) (offset + p.size) ps

abbrev pub TiledBy : ℕ → ℕ → ℕ → ℕ → Cut → Type 0
TiledBy total limit number offset (pieces ps) = Tiles total limit number offset ps
TiledBy total limit number offset no_memory = ⊥
TiledBy total limit number offset out_of_fuel = ⊥

cons-TiledBy :
    (total limit number offset : ℕ) (p : Piece) (rest : Cut)
    → p.number ≡ number
    → p.offset ≡ offset
    → 0 < p.size
    → p.size ≤ limit
    → p.offset + p.size ≤ total
    → (p.size ≡ limit) ⊎ (p.offset + p.size ≡ total)
    → TiledBy total limit (number + 1) (offset + p.size) rest
    → TiledBy total limit number offset (cons p rest)
cons-TiledBy total limit number offset p (pieces ps) a b c d e f g = (a, b, c, d, e, f, g)
cons-TiledBy total limit number offset p no_memory a b c d e f g = g
cons-TiledBy total limit number offset p out_of_fuel a b c d e f g = g

module _ (malloc : Allocator) (enough : (b : Block) → malloc.succeeds b ≡ true) (total : ℕ)
    (small : total < 2 ^ 32) where
  cut_end :
      (fuel limit number : ℕ) → 0 < fuel → cut malloc fuel total limit number total ≡ pieces []
  unfolding cut
  cut_end zero limit number h = absurd (omega arith)
  cut_end (suc fuel) limit number h = ground arith

  -- A round of the loop that makes a piece.
  cut_round :
      (fuel limit number offset size : ℕ)
      → offset < total
      → trim total limit offset ≡ size
      → size < 65536
      → number + 1 < 2 ^ 32
      → offset + size < 2 ^ 32
      → cut malloc (suc fuel) total limit number offset
        ≡ cons
            (record { number = number; offset = offset; size = size })
            (cut malloc fuel total size (number + 1) (offset + size))
  unfolding cut
  cut_round fuel limit number offset size go t small n o =
      rw (lt→ltb offset total go, enough (outgoing_command number), t)
        (ap₂ cons (ground arith) (ap₂ (cut malloc fuel total size) (omega arith) (omega arith)))

  cut-TiledBy :
      (fuel limit number offset : ℕ)
      → 0 < limit
      → limit < 65536
      → offset ≤ total
      → total - offset < fuel
      → number + total < 2 ^ 32 + offset
      → TiledBy total limit number offset (cut malloc fuel total limit number offset)
  cut-TiledBy zero limit number offset a b c d e = absurd (omega arith)
  cut-TiledBy (suc fuel) limit number offset a b c d e = elim (dec_lt offset total) [
    | no stop ↦
        let at_end : offset ≡ total = omega arith in
        rw (at_end, cut_end (suc fuel) limit number (omega arith)) refl
    | yes go ↦ elim (dec_lt (total - offset) limit) [
      | yes last ↦
          let at_end : offset + (total - offset) ≡ total = omega arith in
          rw
            (
              cut_round fuel limit number offset (total - offset) go (ground arith) (omega arith)
                  (omega arith) (omega arith),
              at_end,
              cut_end fuel (total - offset) (number + 1) (omega arith),
            )
            (refl, refl, omega arith, omega arith, omega arith, inr at_end, at_end)
      | no more ↦
          rw
            (cut_round fuel limit number offset limit go (ground arith) b (omega arith)
              (omega arith))
            (cons-TiledBy total limit number offset _ _ refl refl a (omega arith) (omega arith)
              (inl refl)
              (cut-TiledBy fuel limit (number + 1) (offset + limit) a b (omega arith) (omega arith)
                (omega arith)))
    ]
  ]

Tiles-length :
    (total limit number offset : ℕ) (ps : List Piece)
    → 0 < limit
    → offset ≤ total
    → Tiles total limit number offset ps
    → (total ≤ offset + limit * length ps) × (offset + limit * length ps < total + limit)
Tiles-length total limit number offset [] a b t = omega arith
Tiles-length total limit number offset (p ∷ ps) a b (n, o, z, l, i, last, rest) =
    let ih = Tiles-length total limit (number + 1) (offset + p.size) ps a (omega arith) rest in
    elim last [
      | inl full ↦ omega (arith, ih)
      | inr end ↦ omega (arith, ap (λ (t : ℕ). limit * t) (Tiles_end ps end rest))
    ]
  where
    Tiles_end :
        (qs : List Piece)
        → p.offset + p.size ≡ total
        → Tiles total limit (number + 1) (offset + p.size) qs
        → length qs ≡ 0
    Tiles_end [] e t = refl
    Tiles_end (q ∷ qs) e t = absurd (omega arith)

-- With memory for every fragment, the loop of `peer_send` ends within `dataLength` and one rounds,
-- for every packet and fragment size that fit their fields. The fragments are as many as the
-- `fragmentCount` they announce; numbered from 0, they cover the packet end to end, none is empty,
-- none exceeds the fragment size and all but the last have it.
pub cut-Tiles :
    (malloc : Allocator) (total limit : ℕ)
    → ((b : Block) → malloc.succeeds b ≡ true)
    → 0 < limit
    → limit < 65536
    → total + limit < 2 ^ 32
    → (ps : List Piece) × (cut malloc (suc total) total limit 0 0 ≡ pieces ps)
      × (length ps ≡ fragment_count_of total limit)
      × Tiles total limit 0 0 ps
cut-Tiles malloc total limit enough a b c = of_cut _ refl (
    cut-TiledBy malloc enough total (omega arith) (suc total) limit 0 0 a b (omega arith)
      (omega arith) (omega arith))
  where
    count :
        (ps : List Piece)
        → (total ≤ 0 + limit * length ps) × (0 + limit * length ps < total + limit)
        → length ps ≡ fragment_count_of total limit
    count ps (h, k) =
        let q : (total + limit - 1) / limit ≡ length ps =
          div-eq_of_lt-le {k = length ps} limit (grind arith) (grind arith) in
        let small : (total + limit - 1) / limit ≤ total + limit - 1 = omega arith in
        let exact : sub64 (add64 total limit) 1 ≡ total + limit - 1 = omega arith in
        rw (exact, q) (omega (arith, q))

    of_cut :
        (r : Cut)
        → cut malloc (suc total) total limit 0 0 ≡ r
        → TiledBy total limit 0 0 r
        → (ps : List Piece) × (cut malloc (suc total) total limit 0 0 ≡ pieces ps)
          × (length ps ≡ fragment_count_of total limit)
          × Tiles total limit 0 0 ps
    of_cut (pieces ps) e t =
        (ps, e, count ps (Tiles-length total limit 0 0 ps a (omega arith) t), t)
    of_cut no_memory e t = absurd t
    of_cut out_of_fuel e t = absurd t
