-- ===== src/Links.antt =====
-- include/enetcpp/list.h: intrusive doubly linked lists, on the memory that holds the links. A list is
-- the address of its sentinel; an element is the address of its object, whose `list_node` stands at
-- its start.
pub mod Chain
pub mod Refinement
pub mod Splice
pub mod Moving
use enetcpp.Base.{Bool, Option, if◌then◌else◌, none, some, suc, zero, ◌+◌, ◌==◌, ℕ}

-- The two pointers of the `ListNode` at each address.
pub record Links : Type 0 where
  pub next : ℕ → ℕ
  pub previous : ℕ → ℕ

abbrev pub put_at : (ℕ → ℕ) → ℕ → ℕ → ℕ → ℕ
put_at f a b x = if x == a then b else f x

abbrev pub set_next : Links → ℕ → ℕ → Links
set_next l a b = record l { next = put_at l.next a b }

abbrev pub set_previous : Links → ℕ → ℕ → Links
set_previous l a b = record l { previous = put_at l.previous a b }

abbrev pub list_begin : Links → ℕ → ℕ
list_begin l list = l.next list

abbrev pub list_end : ℕ → ℕ
list_end list = list

abbrev pub list_empty : Links → ℕ → Bool
list_empty l list = list_begin l list == list_end list

abbrev pub list_next : Links → ℕ → ℕ
list_next l iterator = l.next iterator

abbrev pub list_previous : Links → ℕ → ℕ
list_previous l iterator = l.previous iterator

abbrev pub list_front : Links → ℕ → ℕ
list_front l list = l.next list

abbrev pub list_back : Links → ℕ → ℕ
list_back l list = l.previous list

unfoldable pub list_clear : Links → ℕ → Links
list_clear l list = set_previous (set_next l list list) list list

-- The assignments of `list_insert`, in their order; a pointer is read where the source reads it.
unfoldable pub list_insert : Links → ℕ → ℕ → Links
list_insert l position element =
    let l1 = set_previous l element (l.previous position) in
    let l2 = set_next l1 element position in
    let l3 = set_next l2 (l2.previous element) element in set_previous l3 position element

unfoldable pub list_remove : Links → ℕ → Links
list_remove l position =
    let l1 = set_next l (l.previous position) (l.next position) in
    set_previous l1 (l1.next position) (l1.previous position)

unfoldable pub list_move : Links → ℕ → ℕ → ℕ → Links
list_move l position first last =
    let l1 = set_next l (l.previous first) (l.next last) in
    let l2 = set_previous l1 (l1.next last) (l1.previous first) in
    let l3 = set_previous l2 first (l2.previous position) in
    let l4 = set_next l3 last position in
    let l5 = set_next l4 (l4.previous first) first in set_previous l5 position last

abbrev pub one_more : Option ℕ → Option ℕ
one_more none = none
one_more (some n) = some (n + 1)

-- The loop of `list_size` from a position on, for a number of rounds.
unfoldable pub size_from : Links → ℕ → ℕ → ℕ → Option ℕ
size_from l list zero position = none
size_from l list (suc fuel) position =
    let rest = size_from l list fuel (list_next l position) in
    if position == list_end list then some 0 else one_more rest

unfoldable pub list_size : Links → ℕ → ℕ → Option ℕ
unfolding size_from
list_size l list fuel = size_from l list fuel (list_begin l list)
