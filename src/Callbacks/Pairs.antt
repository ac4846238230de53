-- ===== src/Callbacks/Pairs.antt =====
-- src/callbacks.cpp: the allocator and the function that frees come together.
use enetcpp.Base.{Bool, Bool-cases, Option-cases, arith, inl, inr, ltb, some, ◌≡◌, ◌⊎◌, ℕ}
use enetcpp.Callbacks.{Callbacks, Inits, initialize_with_callbacks, version_create}

-- `initialize_with_callbacks` replaces both functions of the allocator or neither, so that memory is
-- never given back to another allocator than the one it came from; a call with one of them alone, or
-- with an old version, changes nothing and fails.
pub initialize_pairs :
    (initialize : Bool) (callbacks : Callbacks) (version : ℕ) (inits : Inits)
    → (((initialize_with_callbacks initialize callbacks version inits).0.malloc ≡ callbacks.malloc)
        × ((initialize_with_callbacks initialize callbacks version inits).0.free ≡ callbacks.free))
      ⊎ ((m : ℕ) × (n : ℕ) × (inits.malloc ≡ some m)
          × (inits.free ≡ some n)
          × ((initialize_with_callbacks initialize callbacks version inits).0.malloc ≡ m)
          × ((initialize_with_callbacks initialize callbacks version inits).0.free ≡ n))
unfolding initialize_with_callbacks version_create
initialize_pairs initialize callbacks version inits =
    elim (Bool-cases (ltb version (version_create 1 3 0))) [
      | inl e ↦ inl (ground (arith, e), ground (arith, e))
      | inr e ↦ elim (Option-cases inits.malloc) [
        | inl f ↦ inl (ground (arith, e, f), ground (arith, e, f))
        | inr (m, f) ↦ elim (Option-cases inits.free) [
          | inl g ↦ inl (ground (arith, e, f, g), ground (arith, e, f, g))
          | inr (n, g) ↦ inr (m, n, f, g, ground (arith, e, f, g), ground (arith, e, f, g))
        ]
      ]
    ]
