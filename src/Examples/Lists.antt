-- ===== src/Examples/Lists.antt =====
-- The theorems on intrusive lists, applied.
use enetcpp.Base.{[], arith, false, if◌then◌else◌, refl, some, ◌==◌, ◌∷◌, ◌≡◌}
use enetcpp.Links.{Links, list_insert, list_remove, list_move, list_size, list_empty, list_clear}
use enetcpp.Links.Refinement.{IsList, links-IsList}
use enetcpp.Links.Moving.{list_move-IsList}

-- The sentinel at 1, with the elements 2 and 3.
abbrev ring : Links
ring = record {
  next = λ a. if a == 1 then 2 else if a == 2 then 3 else 1;
  previous = λ a. if a == 1 then 3 else if a == 2 then 1 else 2;
}

ring-IsList : IsList ring 1 (2 ∷ 3 ∷ [])
ring-IsList = record {
  chained = (refl, refl, (refl, refl, (refl, refl)));
  distinct = ((refl, (refl, tt)), ((refl, tt), (tt, tt)));
}

links_example :
    IsList (list_insert ring 3 4) 1 (2 ∷ 4 ∷ 3 ∷ [])
    × IsList (list_remove (list_insert ring 3 4) 4) 1 (2 ∷ 3 ∷ [])
    × (list_size ring 1 3 ≡ some 2)
    × (list_empty ring 1 ≡ false)
    × IsList (list_clear ring 1) 1 []
links_example =
    links-IsList ring 1 4 (2 ∷ []) (3 ∷ []) 3 (refl, (refl, (refl, tt))) (omega arith) ring-IsList

-- A second list, with the sentinel at 10 and the element 11.
abbrev rings : Links
rings = record {
  next = λ a. if a == 10 then 11 else if a == 11 then 10 else ring.next a;
  previous = λ a. if a == 10 then 11 else if a == 11 then 10 else ring.previous a;
}

rings-IsList : IsList rings 10 (11 ∷ []) × IsList rings 1 (2 ∷ 3 ∷ [])
rings-IsList = (
  record { chained = (refl, refl, (refl, refl)); distinct = ((refl, tt), (tt, tt)) },
  record {
    chained = (refl, refl, (refl, refl, (refl, refl)));
    distinct = ((refl, (refl, tt)), ((refl, tt), (tt, tt)));
  },
)

list_move_example :
    IsList (list_move rings 10 2 2) 10 (11 ∷ 2 ∷ []) × IsList (list_move rings 10 2 2) 1 (3 ∷ [])
list_move_example =
    list_move-IsList rings 10 1 2 (11 ∷ []) [] [] (3 ∷ [])
      ((refl, (refl, tt)), ((refl, (refl, tt)), ((refl, (refl, tt)), tt))) rings-IsList.0
      rings-IsList.1
