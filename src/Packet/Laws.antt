-- ===== src/Packet/Laws.antt =====
-- src/packet.cpp: the references that a store of packets has counted.
use enetcpp.Base.{
  List, has_bit, refl, subst, ℕ, ◌+◌, ◌^◌, Option, none, some, ◌==◌, ◌≡◌, ◌≤◌, ◌<◌, arith,
  if◌then◌else◌, ==_iff, Bool-cases, inl, inr,
}
use enetcpp.Memory.{Allocator, packet, packet_data}
use enetcpp.Packet.{Packet, packet_create, create_allocated, flag_no_allocate}
use enetcpp.Packet.Store.{Store, packet_destroy, release}

-- The references that a store has counted for an address: none if no packet is there.
abbrev pub references : Store → ℕ → ℕ
references s a = elim (s a) [ none ↦ 0 | some p ↦ p.reference_count ]

-- `1` for a reference to the address.
abbrev pub points_to : ℕ → Option ℕ → ℕ
points_to a none = 0
points_to a (some b) = if b == a then 1 else 0

-- A release takes its own reference, and no other, from what the store has counted.
pub references-release :
    (s : Store) (o : Option ℕ) (a : ℕ)
    → points_to a o ≤ references s a
    → references s a < 2 ^ 64
    → references (release s o) a + points_to a o ≡ references s a
unfolding release packet_destroy
references-release s none a h b = omega arith
references-release s (some c) a h b = elim (Bool-cases (a == c)) [
  | inl e ↦ ground (arith, ==_iff a c)
  | inr e ↦ ground (arith, ==_iff a c)
]

-- A packet that has been created has the length asked for, and no reference.
abbrev IsFresh : ℕ → Option Packet → Type 0
IsFresh n none = Unit
IsFresh n (some p) = (p.data_length ≡ n) × (p.reference_count ≡ 0)

create_allocated-IsFresh :
    (malloc : Allocator) (bytes : Option (List ℕ)) (n flags : ℕ)
    → IsFresh n (create_allocated malloc bytes n flags)
unfolding create_allocated
create_allocated-IsFresh malloc none n flags = elim (Bool-cases (malloc.succeeds packet_data)) [
  | inl e ↦ rw (create_allocated, e) (refl, refl)
  | inr e ↦ rw (create_allocated, e) tt
]
create_allocated-IsFresh malloc (some bytes) n flags =
    elim (Bool-cases (malloc.succeeds packet_data)) [
      | inl e ↦ rw (create_allocated, e) (refl, refl)
      | inr e ↦ rw (create_allocated, e) tt
    ]

pub packet_create-fresh :
    (malloc : Allocator) (bytes : Option (List ℕ)) (n flags : ℕ) (p : Packet)
    → packet_create malloc bytes n flags ≡ some p
    → (p.data_length ≡ n) × (p.reference_count ≡ 0)
unfolding packet_create
packet_create-fresh malloc bytes n flags p e = subst (IsFresh n) e made
  where
    made : IsFresh n (packet_create malloc bytes n flags)
    made = elim (Bool-cases (malloc.succeeds packet)) [
      | inr f ↦ rw (packet_create, f) tt
      | inl f ↦ elim (Bool-cases (has_bit flag_no_allocate flags)) [
        | inl g ↦ rw (packet_create, f, g) (refl, refl)
        | inr g ↦ elim (Bool-cases (n == 0)) [
          | inl h ↦ rw (packet_create, f, g, h) (refl, refl)
          | inr h ↦ rw (packet_create, f, g, h) (create_allocated-IsFresh malloc bytes n flags)
        ]
      ]
    ]
