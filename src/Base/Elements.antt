-- ===== src/Base/Elements.antt =====
-- The elements of lists that are appended, cut and changed.
use Prim.Native.Nat.{ℕ, zero, suc, ◌+◌, ◌-◌, ◌<◌}
use mathlib.Core.Path.{◌≡◌, refl, ap, ap₂, ◌∙◌}
use mathlib.Core.Logic.{◌≢◌}
use mathlib.Core.Bool.{Bool}
use mathlib.Core.List.{List, [], ◌∷◌, ◌++◌}
use native.Mathlib.Omega.{arith}
use enetcpp.Base.Tests.{ltb, if◌then◌else◌}
use enetcpp.Base.Lists.{length, get_elem?, set, take, drop}

pub get_elem?-append :
    (xs ys : List ℕ) (k : ℕ)
    → get_elem? (xs ++ ys) k
      ≡ (if ltb k (length xs) then get_elem? xs k else get_elem? ys (k - length xs))
get_elem?-append [] ys k = ground arith
get_elem?-append (x ∷ xs) ys zero = ground arith
get_elem?-append (x ∷ xs) ys (suc k) = ground (arith, get_elem?-append xs ys k)

pub get_elem?-take :
    (n : ℕ) (xs : List ℕ) (k : ℕ) → k < n → get_elem? (take n xs) k ≡ get_elem? xs k
get_elem?-take zero xs k h = absurd (omega arith)
get_elem?-take (suc n) [] k h = refl
get_elem?-take (suc n) (x ∷ xs) zero h = refl
get_elem?-take (suc n) (x ∷ xs) (suc k) h = get_elem?-take n xs k (omega arith)

pub get_elem?-drop : (n : ℕ) (xs : List ℕ) (k : ℕ) → get_elem? (drop n xs) k ≡ get_elem? xs (n + k)
get_elem?-drop zero xs k = ap (get_elem? xs) (omega arith)
get_elem?-drop (suc n) [] k = refl
get_elem?-drop (suc n) (x ∷ xs) k =
    let e : suc (n + k) ≡ suc n + k = omega arith in
    get_elem?-drop n xs k ∙ ap (get_elem? (x ∷ xs)) e

pub get_elem?-set_other :
    (bits : List Bool) (m n : ℕ) (b : Bool) → m ≢ n → get_elem? (set bits m b) n ≡ get_elem? bits n
get_elem?-set_other [] m n b h = refl
get_elem?-set_other (x ∷ xs) zero zero b h = absurd (h refl)
get_elem?-set_other (x ∷ xs) zero (suc n) b h = refl
get_elem?-set_other (x ∷ xs) (suc m) zero b h = refl
get_elem?-set_other (x ∷ xs) (suc m) (suc n) b h = get_elem?-set_other xs m n b (λ e. h (ap suc e))

-- Lists of one length with the same elements.
pub same_elements :
    (xs ys : List ℕ)
    → length xs ≡ length ys
    → ((k : ℕ) → k < length ys → get_elem? xs k ≡ get_elem? ys k)
    → xs ≡ ys
same_elements [] [] e h = refl
same_elements [] (y ∷ ys) e h = absurd (omega arith)
same_elements (x ∷ xs) [] e h = absurd (omega arith)
same_elements (x ∷ xs) (y ∷ ys) e h =
    ap₂ (λ (a : ℕ) (l : List ℕ). a ∷ l) (ground (arith, h 0 (omega arith)))
      (same_elements xs ys (omega (arith, e)) (λ k l. h (suc k) (omega arith)))
