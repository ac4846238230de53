-- ===== src/Links/Moving.antt =====
-- include/enetcpp/list.h, `list_move` to the end of a list, as src/peer.cpp calls it.
use enetcpp.Base.{
  append-nil, subst, sym, All-append, All, List, [], arith, false, ◌++◌, ◌==◌, ◌∷◌, ◌≡◌, ℕ,
}
use enetcpp.Links.{Links, list_move}
use enetcpp.Links.Chain.{
  Chain, Avoids, AreDistinct, All-map, All-apply, Avoids-split, AreDistinct-split, Chain-append,
  Chain-split, last-Avoids, same-Chain,
}
use enetcpp.Links.Refinement.{IsList, position_of}
use enetcpp.Links.Splice.{
  All-split, apart_sym, at_position, last-next, stays_next, stays_previous, ends_at_f, ends_at_q,
  ends_at_z,
}

Avoids-append : (a : ℕ) (xs ys : List ℕ) → Avoids a xs → Avoids a ys → Avoids a (xs ++ ys)
Avoids-append a xs ys h k = All-append (λ x. (x == a) ≡ false) xs ys h k

AreDistinct-append :
    (xs ys : List ℕ)
    → AreDistinct xs
    → AreDistinct ys
    → All (λ b. Avoids b xs) ys
    → AreDistinct (xs ++ ys)
AreDistinct-append [] ys dx dy h = dy
AreDistinct-append (x ∷ xs) ys (fresh, dx) dy h = (
  Avoids-append x xs ys fresh (apart_sym (x ∷ xs) ys h).0,
  AreDistinct-append xs ys dx dy (All-map ys (λ b k. k.1) h),
)

-- A list `kept` at `s`, and a list at `t` of which the part from `f` on, up to `ys`, is moved.
module _ (l : Links) (s t f : ℕ) (kept xs ms ys : List ℕ)
    (apart : All (λ b. Avoids b (s ∷ kept)) (t ∷ (xs ++ f ∷ (ms ++ ys)))) (v : IsList l s kept)
    (distinct : AreDistinct (t ∷ (xs ++ f ∷ (ms ++ ys)))) (front : Chain l t xs f)
    (moved : Chain l f ms (position_of t ys)) where
  parts :
      AreDistinct (t ∷ xs)
      × AreDistinct (f ∷ (ms ++ ys))
      × All (λ b. Avoids b (t ∷ xs)) (f ∷ (ms ++ ys))
  parts = AreDistinct-split (t ∷ xs) (f ∷ (ms ++ ys)) distinct

  ends : AreDistinct (f ∷ ms) × AreDistinct ys × All (λ b. Avoids b (f ∷ ms)) ys
  ends = AreDistinct-split (f ∷ ms) ys parts.1

  off_s : All (λ b. Avoids b (s ∷ kept)) (t ∷ xs) × All (λ b. Avoids b (s ∷ kept)) (f ∷ (ms ++ ys))
  off_s = All-split (λ b. Avoids b (s ∷ kept)) (t ∷ xs) (f ∷ (ms ++ ys)) apart

  moved_off_s : All (λ b. Avoids b (s ∷ kept)) (f ∷ ms) × All (λ b. Avoids b (s ∷ kept)) ys
  moved_off_s = All-split (λ b. Avoids b (s ∷ kept)) (f ∷ ms) ys off_s.1

  moved_off_t : All (λ b. Avoids b (t ∷ xs)) (f ∷ ms) × All (λ b. Avoids b (t ∷ xs)) ys
  moved_off_t = All-split (λ b. Avoids b (t ∷ xs)) (f ∷ ms) ys parts.2

  t_off_moved : All (λ a. Avoids a (f ∷ ms)) (t ∷ xs)
  t_off_moved = apart_sym (t ∷ xs) (f ∷ ms) moved_off_t.0

  z_off_s : Avoids (position_of t ys) (s ∷ kept)
  z_off_s = at_position (λ b. Avoids b (s ∷ kept)) t ys off_s.0.0 moved_off_s.1

  z_off_moved : Avoids (position_of t ys) (f ∷ ms)
  z_off_moved = at_position (λ b. Avoids b (f ∷ ms)) t ys t_off_moved.0 ends.2

  z_off_t : Avoids (position_of t ys) xs
  z_off_t = at_position (λ b. Avoids b xs) t ys parts.0.0 (All-map ys (λ b k. k.1) moved_off_t.1)

  fs : (f == s) ≡ false
  fs = ground (arith, moved_off_s.0.0.0)

  stays :
      (ns : List ℕ)
      → Avoids s ns
      → Avoids f ns
      → Avoids (position_of t ys) ns
      → All (λ a. (list_move l s f (l.previous (position_of t ys))).previous a ≡ l.previous a) ns
  stays [] h i j = tt
  stays (n ∷ ns) (h, hs) (i, is) (j, js) = (
    stays_previous l s f (position_of t ys) (last-next l f ms (position_of t ys) moved) z_off_s.0 fs
        z_off_moved.0 n (ground (arith, h)) (ground (arith, i)) (ground (arith, j)),
    stays ns hs is js,
  )

  grown : IsList (list_move l s f (l.previous (position_of t ys))) s (kept ++ f ∷ ms)
  grown =
      let z = position_of t ys in
      let m = list_move l s f (l.previous z) in
      let round = last-next l f ms z moved in
      record {
        chained =
            Chain-append m s kept f ms s
              (ends_at_f l s f z round z_off_s.0 fs z_off_moved.0 s kept v.distinct
                (All-map (s ∷ kept) (λ a h. last-Avoids l a f ms z moved h)
                  (apart_sym (s ∷ kept) (f ∷ ms) moved_off_s.0))
                (All-map (s ∷ kept) (λ a h. last-Avoids l a t xs f front h)
                  (apart_sym (s ∷ kept) (t ∷ xs) off_s.0))
                (stays kept (All-map kept (λ a h. ground (arith, h)) v.distinct.0)
                  (All-map kept (λ a h. ground (arith, h)) moved_off_s.0.0.1)
                  (All-map kept (λ a h. ground (arith, h)) z_off_s.1))
                v.chained)
              (ends_at_q l s f z round z_off_s.0 fs z_off_moved.0 f ms ends.0
                (All-map (f ∷ ms) (λ a h. last-Avoids l a s kept s v.chained h) moved_off_s.0)
                (All-map (f ∷ ms) (λ a h. last-Avoids l a t xs f front h) moved_off_t.0)
                (stays ms (All-map ms (λ a h. ground (arith, h.0)) moved_off_s.0.1) ends.0.0
                  z_off_moved.1)
                moved);
        distinct = AreDistinct-append (s ∷ kept) (f ∷ ms) v.distinct ends.0 moved_off_s.0;
      }

  shrunk :
      Chain (list_move l s f (l.previous (position_of t ys))) t xs (position_of t ys)
      × AreDistinct (t ∷ (xs ++ ys))
  shrunk =
      let z = position_of t ys in
      (
        ends_at_z l s f z (last-next l f ms z moved) z_off_s.0 fs z_off_moved.0 t xs parts.0
            (All-map (t ∷ xs) (λ a h. last-Avoids l a s kept s v.chained h) off_s.0)
            (All-map (t ∷ xs) (λ a h. last-Avoids l a f ms z moved h) t_off_moved)
            (stays xs (All-map xs (λ a h. ground (arith, h.0)) off_s.0.1) moved_off_t.0.0.1 z_off_t)
            front,
        AreDistinct-append (t ∷ xs) ys parts.0 ends.1 moved_off_t.1,
      )

-- The part of the other list behind what is moved.
behind :
    (l : Links) (s t f : ℕ) (kept xs ms : List ℕ) (y : ℕ) (ys : List ℕ)
    → All (λ b. Avoids b (s ∷ kept)) (t ∷ (xs ++ f ∷ (ms ++ y ∷ ys)))
    → IsList l s kept
    → AreDistinct (t ∷ (xs ++ f ∷ (ms ++ y ∷ ys)))
    → Chain l t xs f
    → Chain l f ms y
    → Chain l y ys t
    → Chain (list_move l s f (l.previous y)) y ys t
behind l s t f kept xs ms y ys apart v d front moved rest =
    let es = ends l s t f kept xs ms (y ∷ ys) apart v d front moved in
    let os = off_s l s t f kept xs ms (y ∷ ys) apart v d front moved in
    let ms_s = moved_off_s l s t f kept xs ms (y ∷ ys) apart v d front moved in
    let ms_t = moved_off_t l s t f kept xs ms (y ∷ ys) apart v d front moved in
    let ps = parts l s t f kept xs ms (y ∷ ys) apart v d front moved in
    let sy = z_off_s l s t f kept xs ms (y ∷ ys) apart v d front moved in
    let fy = z_off_moved l s t f kept xs ms (y ∷ ys) apart v d front moved in
    let f_s = fs l s t f kept xs ms (y ∷ ys) apart v d front moved in
    let round = last-next l f ms y moved in
    same-Chain l (list_move l s f (l.previous y)) y ys t
      (All-apply _ _ (y ∷ ys)
        (All-apply _ _ (y ∷ ys)
          (All-map (y ∷ ys)
            (λ a h i j.
              stays_next l s f y round sy.0 f_s fy.0 a (last-Avoids l a s kept s v.chained h)
                (last-Avoids l a f ms y moved i) (last-Avoids l a t xs f front j))
            ms_s.1)
          es.2)
        ms_t.1)
      (stays l s t f kept xs ms (y ∷ ys) apart v d front moved ys
        (All-map ys (λ a h. ground (arith, h.0)) ms_s.1.1) ((Avoids-split f ms (y ∷ ys) ps.1.0).1.1)
        es.1.0)
      (stays_previous l s f y round sy.0 f_s fy.0 t (ground (arith, os.0.0.0))
        (ground (arith, ms_t.0.0.0)) (ground (arith, ms_t.1.0.0)))
      rest

-- `list_move` of a part of one list, given by its first node and the node before the rest, to the
-- end of another: the part is behind what the other list held, in its order, and the first list is
-- without it. The two lists must have no node in common, sentinels included, and the part must not
-- be empty.
pub list_move-IsList :
    (l : Links) (s t f : ℕ) (kept xs ms ys : List ℕ)
    → All (λ b. Avoids b (s ∷ kept)) (t ∷ (xs ++ f ∷ (ms ++ ys)))
    → IsList l s kept
    → IsList l t (xs ++ f ∷ (ms ++ ys))
    → IsList (list_move l s f (l.previous (position_of t ys))) s (kept ++ f ∷ ms)
      × IsList (list_move l s f (l.previous (position_of t ys))) t (xs ++ ys)
list_move-IsList l s t f kept xs ms [] apart v w =
    let (front, all_moved) = Chain-split l t xs f (ms ++ []) t w.chained in
    let moved : Chain l f ms t = subst (λ ns. Chain l f ns t) (append-nil ms) all_moved in
    let (c, d) = shrunk l s t f kept xs ms [] apart v w.distinct front moved in
    (
      grown l s t f kept xs ms [] apart v w.distinct front moved,
      record {
        chained =
            subst (λ ns. Chain (list_move l s f (l.previous t)) t ns t) (sym (append-nil xs)) c;
        distinct = d;
      },
    )
list_move-IsList l s t f kept xs ms (y ∷ ys) apart v w =
    let (front, all_moved) = Chain-split l t xs f (ms ++ y ∷ ys) t w.chained in
    let (moved, rest) = Chain-split l f ms y ys t all_moved in
    let (c, d) = shrunk l s t f kept xs ms (y ∷ ys) apart v w.distinct front moved in
    (
      grown l s t f kept xs ms (y ∷ ys) apart v w.distinct front moved,
      record {
        chained =
            Chain-append (list_move l s f (l.previous y)) t xs y ys t c
              (behind l s t f kept xs ms y ys apart v w.distinct front moved rest);
        distinct = d;
      },
    )
