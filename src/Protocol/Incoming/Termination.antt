-- ===== src/Protocol/Incoming/Termination.antt =====
-- src/protocol.cpp, `enet_protocol_handle_incoming_commands`: a command is read inside the datagram, and
-- its loop ends.
use enetcpp.Base.{
  not, subst, ◌!=◌, Bool, Bool-cases, Option-cases, drop, false, leb, length, ltb, true, ◌&&◌, ◌+◌,
  ◌==◌, ◌||◌, List, [], arith, get_elem?, inl, inr, refl, some, suc, zero, ℕ, ◌∷◌, ◌≡◌, ◌≤◌, ◌⊎◌,
}
use enetcpp.Command.{Protocol}
use enetcpp.Command.Number
use enetcpp.Command.Size.{command_sizes, protocol_command_size, command_header}
use enetcpp.Command.Bytes.{byte, decode}
use enetcpp.Command.{command_mask}
use enetcpp.Protocol.Incoming.{next_command, has_peer}

-- The sizes of the table are 0, for no command, or at least that of the header.
are_sizes : List ℕ → Bool
are_sizes [] = true
are_sizes (size ∷ sizes) = (size == 0 || leb command_header size) && are_sizes sizes

are_sizes-command_sizes : are_sizes command_sizes ≡ true
unfolding are_sizes
are_sizes-command_sizes = refl

size_at :
    (sizes : List ℕ) (k size : ℕ)
    → are_sizes sizes ≡ true
    → get_elem? sizes k ≡ some size
    → (size == 0) ≡ false
    → command_header ≤ size
unfolding are_sizes
size_at [] k size h e f = cc
size_at (x ∷ xs) zero size h e f = ground arith
size_at (x ∷ xs) (suc k) size h e f = size_at xs k size (ground arith) e f

command_size-le :
    (number size : ℕ)
    → protocol_command_size number ≡ some size
    → (size == 0) ≡ false
    → command_header ≤ size
unfolding protocol_command_size
command_size-le number size e f =
    size_at command_sizes (command_mask number) size are_sizes-command_sizes e f

-- What the loop reads next: a command of at least a header, inside the datagram.
pub record IsInside (bytes : List ℕ) (has_peer : Bool) (offset : ℕ) (next : Protocol × ℕ)
    : Type 0 where
  pub inside : offset + next.1 ≤ length bytes
  pub size : protocol_command_size (command_mask (byte bytes offset)) ≡ some next.1
  pub more : command_header ≤ next.1
  pub allowed : (has_peer ≡ true) ⊎ (command_mask (byte bytes offset) ≡ Number.connect)
  pub decoded : decode (command_mask (byte bytes offset)) (drop offset bytes) ≡ some next.0

module _ (bytes : List ℕ) (has_peer : Bool) (offset : ℕ) (next : Protocol × ℕ)
    (e : next_command bytes has_peer offset ≡ some next) where
  -- The tests that the command has passed.
  sized_IsInside :
      (size : ℕ)
      → ltb (length bytes) (offset + command_header) ≡ false
      → protocol_command_size (command_mask (byte bytes offset)) ≡ some size
      → IsInside bytes has_peer offset next
  unfolding next_command
  sized_IsInside size f g = elim (Bool-cases (size == 0 || ltb (length bytes) (offset + size))) [
    | inl h ↦ absurd (ground (arith, e, f, g, h))
    | inr h ↦
        elim (Bool-cases (not has_peer && command_mask (byte bytes offset) != Number.connect)) [
          | inl k ↦ absurd (ground (arith, e, f, g, h, k))
          | inr k ↦
              elim (Option-cases (decode (command_mask (byte bytes offset)) (drop offset bytes))) [
                | inl m ↦ absurd (ground (arith, e, f, g, h, k, m))
                | inr (command, m) ↦
                    let same : (command, size) ≡ next = ground (arith, e, f, g, h, k, m) in
                    subst (IsInside bytes has_peer offset) same (record {
                      inside = ground (arith, h);
                      size = g;
                      more =
                          command_size-le (command_mask (byte bytes offset)) size g
                            (ground (arith, h));
                      allowed = ground (arith, k);
                      decoded = m;
                    })
              ]
        ]
  ]

-- A command is taken for one only if all of its bytes are inside the datagram, its number is in the
-- table with a size of at least a header, and it asks for a connection where there is no peer; it is
-- the one that stands at the offset.
pub next_command-IsInside :
    (bytes : List ℕ) (has_peer : Bool) (offset : ℕ) (next : Protocol × ℕ)
    → next_command bytes has_peer offset ≡ some next
    → IsInside bytes has_peer offset next
unfolding next_command
next_command-IsInside bytes has_peer offset next e =
    elim (Bool-cases (ltb (length bytes) (offset + command_header))) [
      | inl f ↦ absurd (ground (arith, e, f))
      | inr f ↦ elim (Option-cases (protocol_command_size (command_mask (byte bytes offset)))) [
        | inl g ↦ absurd (ground (arith, e, f, g))
        | inr (size, g) ↦ sized_IsInside bytes has_peer offset next e size f g
      ]
    ]
