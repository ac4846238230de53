-- ===== src/Links/Splice.antt =====
-- include/enetcpp/list.h: the chains of nodes that `list_move` changes.
use enetcpp.Base.{◌∙◌, All, List, [], arith, false, if◌then◌else◌, true, ◌++◌, ◌==◌, ◌∷◌, ◌≡◌, ℕ}
use enetcpp.Links.{Links, list_move}
use enetcpp.Links.Chain.{
  Chain, Avoids, AreDistinct, All-map, All-apply, All-everywhere, retarget-Chain,
}
use enetcpp.Links.Refinement.{position_of}

pub All-split : (P : ℕ → Type 0) (xs ys : List ℕ) → All P (xs ++ ys) → All P xs × All P ys
All-split P [] ys h = (tt, h)
All-split P (x ∷ xs) ys (h, hs) = let (i, j) = All-split P xs ys hs in ((h, i), j)

pub apart_sym : (xs ys : List ℕ) → All (λ b. Avoids b xs) ys → All (λ a. Avoids a ys) xs
apart_sym xs [] h = All-everywhere xs (λ a. tt)
apart_sym xs (y ∷ ys) (h, hs) =
    All-apply (λ a. Avoids a ys) _ xs (All-map xs (λ a k r. (ground (arith, k), r)) h)
      (apart_sym xs ys hs)

pub at_position : (P : ℕ → Type 0) (t : ℕ) (ys : List ℕ) → P t → All P ys → P (position_of t ys)
at_position P t [] h hs = h
at_position P t (y ∷ ys) h hs = hs.0

-- The node before the end of a chain points to the end.
pub last-next :
    (l : Links) (p : ℕ) (xs : List ℕ) (q : ℕ) → Chain l p xs q → l.next (l.previous q) ≡ q
last-next l p [] q (e, f) = rw f e
last-next l p (x ∷ xs) q (e, f, c) = last-next l x xs q c

-- What `list_move` of the nodes from `f` to the one before `z` leaves at each node.
module _ (l : Links) (q f z : ℕ) (round : l.next (l.previous z) ≡ z) (qz : (q == z) ≡ false)
    (fq : (f == q) ≡ false) (fz : (f == z) ≡ false) where
  move_next :
      (a : ℕ)
      → (list_move l q f (l.previous z)).next a ≡ (
          if a == l.previous q
          then f
          else if a == l.previous z
          then q
          else if a == l.previous f
          then z
          else l.next a)
  unfolding list_move
  move_next a = let e : (f == f) ≡ true = ground arith in ground (arith, e, round, qz, fq, fz)

  move_previous :
      (a : ℕ)
      → (list_move l q f (l.previous z)).previous a ≡ (
          if a == q
          then l.previous z
          else if a == f
          then l.previous q
          else if a == z
          then l.previous f
          else l.previous a)
  unfolding list_move
  move_previous a = let e : (f == f) ≡ true = ground arith in ground (arith, e, round, qz, fq, fz)

  -- Away from the three nodes that get another next one, and from those that get another previous
  -- one, the links stay.
  pub stays_next :
      (a : ℕ)
      → (l.previous q == a) ≡ false
      → (l.previous z == a) ≡ false
      → (l.previous f == a) ≡ false
      → (list_move l q f (l.previous z)).next a ≡ l.next a
  stays_next a h i j = move_next a ∙ ground (arith, h, i, j)

  pub stays_previous :
      (a : ℕ)
      → (q == a) ≡ false
      → (f == a) ≡ false
      → (z == a) ≡ false
      → (list_move l q f (l.previous z)).previous a ≡ l.previous a
  stays_previous a h i j = move_previous a ∙ ground (arith, h, i, j)

  -- The chain that ends at `q`, that from `f` to `z`, and that which ends at `f`.
  pub ends_at_f :
      (p : ℕ) (xs : List ℕ)
      → AreDistinct (p ∷ xs)
      → All (λ a. (l.previous z == a) ≡ false) (p ∷ xs)
      → All (λ a. (l.previous f == a) ≡ false) (p ∷ xs)
      → All (λ a. (list_move l q f (l.previous z)).previous a ≡ l.previous a) xs
      → Chain l p xs q
      → Chain (list_move l q f (l.previous z)) p xs f
  ends_at_f p xs d h i same c =
      retarget-Chain l (list_move l q f (l.previous z)) p xs q f d
        (All-apply _ _ (p ∷ xs) (All-map (p ∷ xs) (λ a j k. move_next a ∙ ground (arith, j, k)) h)
          i)
        same (move_previous f ∙ ground (arith, fq)) c

  pub ends_at_q :
      (p : ℕ) (xs : List ℕ)
      → AreDistinct (p ∷ xs)
      → All (λ a. (l.previous q == a) ≡ false) (p ∷ xs)
      → All (λ a. (l.previous f == a) ≡ false) (p ∷ xs)
      → All (λ a. (list_move l q f (l.previous z)).previous a ≡ l.previous a) xs
      → Chain l p xs z
      → Chain (list_move l q f (l.previous z)) p xs q
  ends_at_q p xs d h i same c =
      retarget-Chain l (list_move l q f (l.previous z)) p xs z q d
        (All-apply _ _ (p ∷ xs) (All-map (p ∷ xs) (λ a j k. move_next a ∙ ground (arith, j, k)) h)
          i)
        same (move_previous q ∙ ground arith) c

  pub ends_at_z :
      (p : ℕ) (xs : List ℕ)
      → AreDistinct (p ∷ xs)
      → All (λ a. (l.previous q == a) ≡ false) (p ∷ xs)
      → All (λ a. (l.previous z == a) ≡ false) (p ∷ xs)
      → All (λ a. (list_move l q f (l.previous z)).previous a ≡ l.previous a) xs
      → Chain l p xs f
      → Chain (list_move l q f (l.previous z)) p xs z
  ends_at_z p xs d h i same c =
      retarget-Chain l (list_move l q f (l.previous z)) p xs f z d
        (All-apply _ _ (p ∷ xs) (All-map (p ∷ xs) (λ a j k. move_next a ∙ ground (arith, j, k)) h)
          i)
        same (move_previous z ∙ ground (arith, qz, fz)) c
