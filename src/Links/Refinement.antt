-- ===== src/Links/Refinement.antt =====
-- include/enetcpp/list.h: the operations on links, against those on the lists of their elements.
use enetcpp.Base.{
  append-nil, is_empty, length, some, suc, zero, ◌<◌, sym, ap, subst, ◌∙◌, ◌++◌, All, List, [],
  arith, false, if◌then◌else◌, refl, true, ◌==◌, ◌∷◌, ◌≡◌, ℕ,
}
use enetcpp.Links.{Links, list_empty, list_clear, list_insert, list_remove, list_size, size_from}
use enetcpp.Links.Chain.{
  Chain, Avoids, AreDistinct, All-map, All-apply, All-everywhere, Avoids-split, AreDistinct-split,
  AreDistinct-insert, AreDistinct-remove, Chain-append, Chain-split, last-Avoids, same-Chain,
  retarget-Chain,
}

-- The links from a sentinel round to it are those of a list; no node stands in it twice.
pub record IsList (l : Links) (s : ℕ) (xs : List ℕ) : Type 0 where
  pub chained : Chain l s xs s
  pub distinct : AreDistinct (s ∷ xs)

-- The node before which an element stands that is inserted in front of a list.
abbrev pub position_of : ℕ → List ℕ → ℕ
position_of s [] = s
position_of s (y ∷ ys) = y

list_clear-IsList : (l : Links) (s : ℕ) → IsList (list_clear l s) s []
unfolding list_clear
list_clear-IsList l s =
    let e : (s == s) ≡ true = ground arith in
    record { chained = (rw e refl, rw e refl); distinct = (tt, tt) }

module _ (l : Links) (q d : ℕ) where
  -- What `list_insert` leaves at each node.
  insert_next :
      (a : ℕ)
      → (a == d) ≡ false
      → (list_insert l q d).next a ≡ (if a == l.previous q then d else l.next a)
  unfolding list_insert
  insert_next a h = let e : (d == d) ≡ true = ground arith in ground (arith, e, h)

  insert_previous :
      (a : ℕ) → (a == d) ≡ false → (a == q) ≡ false → (list_insert l q d).previous a ≡ l.previous a
  unfolding list_insert
  insert_previous a h k = ground (arith, h, k)

  insert_before :
      (p : ℕ) (xs : List ℕ)
      → AreDistinct (p ∷ xs)
      → Avoids d (p ∷ xs)
      → (q == d) ≡ false
      → Avoids q xs
      → Chain l p xs q
      → Chain (list_insert l q d) p xs d × Chain (list_insert l q d) d [] q
  unfolding list_insert
  insert_before p xs v h k j c =
      let e : (d == d) ≡ true = ground arith in
      let f : (q == q) ≡ true = ground arith in
      let g : (d == q) ≡ false = ground (arith, k) in
      let i = last-Avoids l d p xs q c h in
      let i' : (d == l.previous q) ≡ false = ground (arith, i) in
      (
        retarget-Chain l (list_insert l q d) p xs q d v (All-map (p ∷ xs) insert_next h)
            (both xs h.1 j) (ground (arith, e, g)) c,
        (ground (arith, e, i'), ground (arith, f)),
      )
    where
      both :
          (xs : List ℕ)
          → Avoids d xs
          → Avoids q xs
          → All (λ a. (list_insert l q d).previous a ≡ l.previous a) xs
      both [] h j = tt
      both (x ∷ xs) (h, hs) (j, js) = (insert_previous x h j, both xs hs js)

otherwise : (b a : ℕ) (d n : ℕ) → (b == a) ≡ false → (if a == b then d else n) ≡ n
otherwise b a d n h = let k : (a == b) ≡ false = ground (arith, h) in rw k refl

-- The rest of a list, behind a node whose links change only to the front.
tail-Chain :
    (l m : Links) (s y : ℕ) (before ys : List ℕ)
    → AreDistinct (s ∷ (before ++ y ∷ ys))
    → Chain l s before y
    → All (λ a. (l.previous y == a) ≡ false → m.next a ≡ l.next a) (y ∷ ys)
    → All (λ a. (a == y) ≡ false → m.previous a ≡ l.previous a) (s ∷ ys)
    → Chain l y ys s
    → Chain m y ys s
tail-Chain l m s y before ys v c n (b, bs) rest =
    let (first, (fresh, vs), apart) = AreDistinct-split (s ∷ before) (y ∷ ys) v in
    let away : (y == s) ≡ false = (Avoids-split s before (y ∷ ys) v.0).1.0 in
    same-Chain l m y ys s
      (All-apply _ _ (y ∷ ys) n (All-map (y ∷ ys) (λ a h. last-Avoids l a s before y c h) apart))
      (All-apply _ _ ys bs fresh) (b (ground (arith, away))) rest

module _ (l : Links) (s : ℕ) where
  -- `list_insert` in front of a position puts the element there, and leaves the others.
  list_insert-IsList :
      (d : ℕ) (xs ys : List ℕ)
      → Avoids d (s ∷ (xs ++ ys))
      → IsList l s (xs ++ ys)
      → IsList (list_insert l (position_of s ys) d) s (xs ++ d ∷ ys)
  list_insert-IsList d xs [] (h, hs) v =
      let w : IsList l s xs = subst (IsList l s) (append-nil xs) v in
      let apart : Avoids d xs = (Avoids-split d xs [] hs).0 in
      let (c, e) =
        insert_before l s d s xs w.distinct (h, apart) h
          (All-map xs (λ a k. ground (arith, k)) w.distinct.0) w.chained in
      record {
        chained = Chain-append (list_insert l s d) s xs d [] s c e;
        distinct = AreDistinct-insert d (s ∷ xs) [] (h, hs) v.distinct;
      }
  list_insert-IsList d xs (y ∷ ys) (h, hs) v =
      let (ahead, rest) = Chain-split l s xs y ys s v.chained in
      let (first, (fresh, vs), apart) = AreDistinct-split (s ∷ xs) (y ∷ ys) v.distinct in
      let (free, (k, free_ys)) = Avoids-split d xs (y ∷ ys) hs in
      let m = list_insert l y d in
      let (c, e) =
        insert_before l y d s xs first (h, free) k (All-map xs (λ a i. ground (arith, i)) apart.0.1)
          ahead in
      let tail =
        tail-Chain l m s y xs ys v.distinct ahead
          (All-map (y ∷ ys)
            (λ a i j. insert_next l y d a i ∙ otherwise (l.previous y) a d (l.next a) j)
            (k, free_ys))
          (All-map (s ∷ ys) (λ a i j. insert_previous l y d a i j) (h, free_ys)) rest in
      record {
        chained = Chain-append m s xs d (y ∷ ys) s c (e.0, e.1, tail);
        distinct = AreDistinct-insert d (s ∷ xs) (y ∷ ys) (h, hs) v.distinct;
      }

  remove_next :
      (x a : ℕ) → (list_remove l x).next a ≡ (if a == l.previous x then l.next x else l.next a)
  unfolding list_remove
  remove_next x a = refl

  remove_target : (x : ℕ) → (list_remove l x).previous (l.next x) ≡ l.previous x
  unfolding list_remove
  remove_target x = ground arith

  remove_previous :
      (x a : ℕ) → (a == l.next x) ≡ false → (list_remove l x).previous a ≡ l.previous a
  unfolding list_remove
  remove_previous x a h = ground (arith, h)

  -- `list_remove` takes its element out of the list, and leaves the others.
  list_remove-IsList :
      (x : ℕ) (xs ys : List ℕ) → IsList l s (xs ++ x ∷ ys) → IsList (list_remove l x) s (xs ++ ys)
  list_remove-IsList x xs ys v = record {
    chained = relinked ys v;
    distinct = AreDistinct-remove x (s ∷ xs) ys v.distinct;
  }
    where
      m : Links
      m = list_remove l x

      -- The part in front of the element, with its new end.
      front :
          (ys : List ℕ) → IsList l s (xs ++ x ∷ ys) → Avoids (l.next x) xs → Chain m s xs (l.next x)
      front ys v free =
          let (first, rest, apart) = AreDistinct-split (s ∷ xs) (x ∷ ys) v.distinct in
          retarget-Chain l m s xs x (l.next x) first (All-everywhere (s ∷ xs) (remove_next x))
            (All-map xs (remove_previous x) free) (remove_target x)
            (Chain-split l s xs x ys s v.chained).0

      relinked : (ys : List ℕ) → IsList l s (xs ++ x ∷ ys) → Chain m s (xs ++ ys) s
      relinked [] v =
          let (ahead, (e, f)) = Chain-split l s xs x [] s v.chained in
          let free : Avoids s xs = (AreDistinct-split (s ∷ xs) (x ∷ []) v.distinct).0.0 in
          subst (λ zs. Chain m s zs s) (sym (append-nil xs))
            (subst (λ r. Chain m s xs r) e (front [] v (rw e free)))
      relinked (y ∷ ys) v =
          let (ahead, (e, f, rest)) = Chain-split l s xs x (y ∷ ys) s v.chained in
          let (first, (fresh, vs), apart) = AreDistinct-split (s ∷ xs) (x ∷ y ∷ ys) v.distinct in
          let free : Avoids y xs = apart.1.0.1 in
          let c : Chain m s xs y = subst (λ r. Chain m s xs r) e (front (y ∷ ys) v (rw e free)) in
          let away : (y == s) ≡ false =
            ground (arith, (Avoids-split s xs (x ∷ y ∷ ys) v.distinct.0).1.1.0) in
          Chain-append m s xs y ys s c (
            same-Chain l m y ys s
              (All-map (y ∷ ys)
                (λ a h.
                  remove_next x a
                  ∙ otherwise (l.previous x) a (l.next x) (l.next a)
                      (last-Avoids l a s xs x ahead h))
                apart.1)
              (All-map ys (λ a h. remove_previous x a (rw e h)) vs.0)
              (remove_previous x s (rw e (ground (arith, away)))) rest)

  size-Chain :
      (fuel p : ℕ) (xs : List ℕ)
      → length xs < fuel
      → Avoids s xs
      → Chain l p xs s
      → size_from l s fuel (l.next p) ≡ some (length xs)
  unfolding size_from
  size-Chain zero p xs room h c = ground arith
  size-Chain (suc fuel) p [] room h (e, f) =
      let g : (l.next p == s) ≡ true = ground (arith, e) in rw (size_from, g) refl
  size-Chain (suc fuel) p (x ∷ xs) room (h, hs) (e, f, c) =
      let g : (l.next p == s) ≡ false = rw e h in
      let ih = size-Chain fuel x xs (omega (arith, room)) hs c in
      rw (size_from, g, e, ih) (ap (λ n. some n) (omega arith))

  -- `list_size` is the length, with a round for each element and one more.
  list_size-IsList :
      (fuel : ℕ) (xs : List ℕ)
      → length xs < fuel
      → IsList l s xs
      → list_size l s fuel ≡ some (length xs)
  unfolding list_size
  list_size-IsList fuel xs room v = size-Chain fuel s xs room v.distinct.0 v.chained

  list_empty-IsList : (xs : List ℕ) → IsList l s xs → list_empty l s ≡ is_empty xs
  list_empty-IsList [] v = let (e, f) = v.chained in ground (arith, e)
  list_empty-IsList (x ∷ xs) v = let (e, f, c) = v.chained in rw e v.distinct.0.0

-- On the links of a list, whatever stands in it: the element that `list_insert` puts before a
-- position stands in front of what the position begins, all others as they stood; `list_remove`
-- of it gives the list back; `list_size` counts the elements in one round for each and one more;
-- `list_empty` tells whether there is none; and `list_clear` leaves none. The new element must not
-- be in the list, nor its sentinel.
pub links-IsList :
    (l : Links) (s d : ℕ) (xs ys : List ℕ) (fuel : ℕ)
    → Avoids d (s ∷ (xs ++ ys))
    → length (xs ++ ys) < fuel
    → IsList l s (xs ++ ys)
    → IsList (list_insert l (position_of s ys) d) s (xs ++ d ∷ ys)
      × IsList (list_remove (list_insert l (position_of s ys) d) d) s (xs ++ ys)
      × (list_size l s fuel ≡ some (length (xs ++ ys)))
      × (list_empty l s ≡ is_empty (xs ++ ys))
      × IsList (list_clear l s) s []
links-IsList l s d xs ys fuel h room v =
    let inserted = list_insert-IsList l s d xs ys h v in
    (
      inserted,
      list_remove-IsList (list_insert l (position_of s ys) d) s d xs ys inserted,
      list_size-IsList l s fuel (xs ++ ys) room v,
      list_empty-IsList l s (xs ++ ys) v,
      list_clear-IsList l s,
    )
