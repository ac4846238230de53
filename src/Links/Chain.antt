-- ===== src/Links/Chain.antt =====
-- include/enetcpp/list.h: chains of nodes.
use enetcpp.Base.{
  All, List, [], arith, false, if◌then◌else◌, refl, true, ◌++◌, ◌==◌, ◌∙◌, ◌∷◌, ◌≡◌, ℕ,
}
use enetcpp.Links.{Links}

-- The elements stand between two nodes, linked in both directions.
abbrev pub Chain : Links → ℕ → List ℕ → ℕ → Type 0
Chain l p [] q = (l.next p ≡ q) × (l.previous q ≡ p)
Chain l p (x ∷ xs) q = (l.next p ≡ x) × (l.previous x ≡ p) × Chain l x xs q

abbrev pub Avoids : ℕ → List ℕ → Type 0
Avoids a xs = All (λ x. (x == a) ≡ false) xs

abbrev pub AreDistinct : List ℕ → Type 0
AreDistinct [] = Unit
AreDistinct (x ∷ xs) = Avoids x xs × AreDistinct xs

pub All-map : {P Q : ℕ → Type 0} (xs : List ℕ) → ((a : ℕ) → P a → Q a) → All P xs → All Q xs
All-map [] f h = tt
All-map (x ∷ xs) f (h, hs) = (f x h, All-map xs f hs)

pub All-everywhere : {P : ℕ → Type 0} (xs : List ℕ) → ((a : ℕ) → P a) → All P xs
All-everywhere [] f = tt
All-everywhere (x ∷ xs) f = (f x, All-everywhere xs f)

pub All-apply : (P Q : ℕ → Type 0) (xs : List ℕ) → All (λ a. P a → Q a) xs → All P xs → All Q xs
All-apply P Q [] f h = tt
All-apply P Q (x ∷ xs) (f, fs) (h, hs) = (f h, All-apply P Q xs fs hs)

pub Avoids-split : (a : ℕ) (xs ys : List ℕ) → Avoids a (xs ++ ys) → Avoids a xs × Avoids a ys
Avoids-split a [] ys h = (tt, h)
Avoids-split a (x ∷ xs) ys (h, hs) = let (i, j) = Avoids-split a xs ys hs in ((h, i), j)

pub Avoids-insert :
    (a d : ℕ) (xs ys : List ℕ) → (d == a) ≡ false → Avoids a (xs ++ ys) → Avoids a (xs ++ d ∷ ys)
Avoids-insert a d [] ys e h = (e, h)
Avoids-insert a d (x ∷ xs) ys e (h, hs) = (h, Avoids-insert a d xs ys e hs)

pub Avoids-remove : (a d : ℕ) (xs ys : List ℕ) → Avoids a (xs ++ d ∷ ys) → Avoids a (xs ++ ys)
Avoids-remove a d [] ys (h, hs) = hs
Avoids-remove a d (x ∷ xs) ys (h, hs) = (h, Avoids-remove a d xs ys hs)

-- Two parts of a list without repetition have none, and no element in common.
pub AreDistinct-split :
    (xs ys : List ℕ)
    → AreDistinct (xs ++ ys)
    → AreDistinct xs × AreDistinct ys × All (λ b. Avoids b xs) ys
AreDistinct-split [] ys d = (tt, d, nothing ys)
  where
    nothing : (ys : List ℕ) → All (λ b. Avoids b []) ys
    nothing [] = tt
    nothing (y ∷ ys) = (tt, nothing ys)
AreDistinct-split (x ∷ xs) ys (h, d) =
    let (hx, hy) = Avoids-split x xs ys h in
    let (dx, dy, apart) = AreDistinct-split xs ys d in ((hx, dx), dy, both ys hy apart)
  where
    both : (ys : List ℕ) → Avoids x ys → All (λ b. Avoids b xs) ys → All (λ b. Avoids b (x ∷ xs)) ys
    both [] hy apart = tt
    both (y ∷ ys) (h, hs) (k, ks) = ((ground (arith, h), k), both ys hs ks)

pub AreDistinct-insert :
    (d : ℕ) (xs ys : List ℕ)
    → Avoids d (xs ++ ys)
    → AreDistinct (xs ++ ys)
    → AreDistinct (xs ++ d ∷ ys)
AreDistinct-insert d [] ys h v = (h, v)
AreDistinct-insert d (x ∷ xs) ys (h, hs) (k, v) =
    (Avoids-insert x d xs ys (ground (arith, h)) k, AreDistinct-insert d xs ys hs v)

pub AreDistinct-remove :
    (d : ℕ) (xs ys : List ℕ) → AreDistinct (xs ++ d ∷ ys) → AreDistinct (xs ++ ys)
AreDistinct-remove d [] ys (h, v) = v
AreDistinct-remove d (x ∷ xs) ys (h, v) = (Avoids-remove x d xs ys h, AreDistinct-remove d xs ys v)

pub Chain-append :
    (l : Links) (p : ℕ) (xs : List ℕ) (y : ℕ) (ys : List ℕ) (q : ℕ)
    → Chain l p xs y
    → Chain l y ys q
    → Chain l p (xs ++ y ∷ ys) q
Chain-append l p [] y ys q (e, f) d = (e, f, d)
Chain-append l p (x ∷ xs) y ys q (e, f, c) d = (e, f, Chain-append l x xs y ys q c d)

pub Chain-split :
    (l : Links) (p : ℕ) (xs : List ℕ) (y : ℕ) (ys : List ℕ) (q : ℕ)
    → Chain l p (xs ++ y ∷ ys) q
    → Chain l p xs y × Chain l y ys q
Chain-split l p [] y ys q (e, f, d) = ((e, f), d)
Chain-split l p (x ∷ xs) y ys q (e, f, d) =
    let (c, d') = Chain-split l x xs y ys q d in ((e, f, c), d')

-- The node before the end of a chain is one of the chain.
pub last-Avoids :
    (l : Links) (a p : ℕ) (xs : List ℕ) (q : ℕ)
    → Chain l p xs q
    → Avoids a (p ∷ xs)
    → (l.previous q == a) ≡ false
last-Avoids l a p [] q (e, f) (h, _) = rw f h
last-Avoids l a p (x ∷ xs) q (e, f, c) (h, hs) = last-Avoids l a x xs q c hs

-- A chain is the same in links that agree on it.
pub same-Chain :
    (l m : Links) (p : ℕ) (xs : List ℕ) (q : ℕ)
    → All (λ a. m.next a ≡ l.next a) (p ∷ xs)
    → All (λ a. m.previous a ≡ l.previous a) xs
    → m.previous q ≡ l.previous q
    → Chain l p xs q
    → Chain m p xs q
same-Chain l m p [] q (n, _) ps r (e, f) = (n ∙ e, r ∙ f)
same-Chain l m p (x ∷ xs) q (n, ns) (b, bs) r (e, f, c) =
    (n ∙ e, b ∙ f, same-Chain l m x xs q ns bs r c)

-- A chain goes to another end if its last node, and it alone, points there.
pub retarget-Chain :
    (l m : Links) (p : ℕ) (xs : List ℕ) (q r : ℕ)
    → AreDistinct (p ∷ xs)
    → All (λ a. m.next a ≡ (if a == l.previous q then r else l.next a)) (p ∷ xs)
    → All (λ a. m.previous a ≡ l.previous a) xs
    → m.previous r ≡ l.previous q
    → Chain l p xs q
    → Chain m p xs r
retarget-Chain l m p [] q r d (n, _) ps b (e, f) =
    let g : (p == l.previous q) ≡ true = ground (arith, f) in (n ∙ (rw g refl), b ∙ f)
retarget-Chain l m p (x ∷ xs) q r (d, ds) (n, ns) (k, ks) b (e, f, c) =
    let g : (l.previous q == p) ≡ false = last-Avoids l p x xs q c d in
    let h : (p == l.previous q) ≡ false = ground (arith, g) in
    (n ∙ (rw h e), k ∙ f, retarget-Chain l m x xs q r ds ns ks b c)
