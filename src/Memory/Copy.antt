-- ===== src/Memory/Copy.antt =====
-- The bytes of a block after `memcpy`.
use native.Mathlib.Decide.{dec_lt}
use enetcpp.Base.{
  Bool-cases, leb→le, length-take, ℕ, ◌≡◌, ◌+◌, ◌-◌, ◌≤◌, List, ◌++◌, some, true, false, length,
  get_elem?, take, drop, refl, sym, ap, arith, inl, inr, ltb, leb, ◌&&◌, if◌then◌else◌, ◌∙◌,
}
use enetcpp.Memory.{memcpy}
use enetcpp.Base.{get_elem?-append, get_elem?-take, get_elem?-drop}

second_part :
    (block : List ℕ) (offset : ℕ) (bytes : List ℕ) (k : ℕ)
    → offset ≤ k
    → (if ltb (k - offset) (length bytes)
        then get_elem? bytes (k - offset)
        else get_elem? (drop (offset + length bytes) block) (k - offset - length bytes))
      ≡ (if leb offset k && ltb k (offset + length bytes)
          then get_elem? bytes (k - offset)
          else get_elem? block k)
second_part block offset bytes k h = elim (dec_lt k (offset + length bytes)) [
  | yes n ↦
      let a : ltb (k - offset) (length bytes) ≡ true = ground arith in
      let b : (leb offset k && ltb k (offset + length bytes)) ≡ true = ground arith in
      rw (a, b) refl
  | no n ↦
      let a : ltb (k - offset) (length bytes) ≡ false = ground arith in
      let b : (leb offset k && ltb k (offset + length bytes)) ≡ false = ground arith in
      let c : offset + length bytes + (k - offset - length bytes) ≡ k = omega arith in
      rw (a, b)
        (get_elem?-drop (offset + length bytes) block (k - offset - length bytes)
          ∙ ap (get_elem? block) c)
]

parts :
    (block : List ℕ) (offset : ℕ) (bytes : List ℕ) (k : ℕ)
    → offset + length bytes ≤ length block
    → get_elem? (take offset block ++ (bytes ++ drop (offset + length bytes) block)) k ≡ (
        if leb offset k && ltb k (offset + length bytes)
        then get_elem? bytes (k - offset)
        else get_elem? block k)
parts block offset bytes k h =
    get_elem?-append (take offset block) (bytes ++ drop (offset + length bytes) block) k
    ∙ elim (dec_lt k offset) [
      | yes l ↦ ground (arith, length-take offset block, get_elem?-take offset block k l)
      | no m ↦
          let behind : ltb k (length (take offset block)) ≡ false =
            ground (arith, length-take offset block) in
          let at : k - length (take offset block) ≡ k - offset =
            omega (arith, length-take offset block) in
          rw (behind, at)
            (get_elem?-append bytes (drop (offset + length bytes) block) (k - offset)
              ∙ second_part block offset bytes k (omega arith))
    ]

pub get_elem?-memcpy :
    (block : List ℕ) (offset : ℕ) (bytes result : List ℕ) (k : ℕ)
    → memcpy block offset bytes ≡ some result
    → get_elem? result k ≡ (
        if leb offset k && ltb k (offset + length bytes)
        then get_elem? bytes (k - offset)
        else get_elem? block k)
unfolding memcpy
get_elem?-memcpy block offset bytes result k e =
    elim (Bool-cases (leb (offset + length bytes) (length block))) [
      | inr f ↦ ground (arith, e, f)
      | inl f ↦
          let written : take offset block ++ (bytes ++ drop (offset + length bytes) block)
              ≡ result =
            ground (arith, e, f) in
          sym (ap (λ (l : List ℕ). get_elem? l k) written)
          ∙ parts block offset bytes k (leb→le (offset + length bytes) (length block) f)
    ]
