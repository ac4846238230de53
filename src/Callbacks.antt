-- ===== src/Callbacks.antt =====
-- src/callbacks.cpp and the version numbers of include/enetcpp/enetcpp.h. The functions behind the
-- callbacks are known by their addresses; whether `initialize` of the
-- platform succeeds is a parameter.
pub mod Pairs
pub mod Version
use enetcpp.Base.{
  Bool, Option, bit_or, false, if◌then◌else◌, ltb, none, not, some, true, wrap32, ◌%◌, ◌&&◌, ◌*◌,
  ◌/◌, ◌^◌, ◌||◌, ℕ,
}

unfoldable pub version_create : ℕ → ℕ → ℕ → ℕ
version_create major minor patch =
    bit_or (bit_or (wrap32 (major * 2 ^ 16)) (wrap32 (minor * 2 ^ 8))) patch

unfoldable pub version_get_major : ℕ → ℕ
version_get_major version = version / 2 ^ 16 % 256

unfoldable pub version_get_minor : ℕ → ℕ
version_get_minor version = version / 2 ^ 8 % 256

unfoldable pub version_get_patch : ℕ → ℕ
version_get_patch version = version % 256

unfoldable pub linked_version : ℕ
unfolding version_create
linked_version = version_create 1 3 17

-- The callbacks in use.
pub record Callbacks : Type 0 where
  pub malloc : ℕ
  pub free : ℕ
  pub no_memory : ℕ

-- The argument of `initialize_with_callbacks`, in which each may be null.
pub record Inits : Type 0 where
  pub malloc : Option ℕ
  pub free : Option ℕ
  pub no_memory : Option ℕ

abbrev pub or_else : Option ℕ → ℕ → ℕ
or_else none b = b
or_else (some a) b = a

abbrev pub is_set : Option ℕ → Bool
is_set none = false
is_set (some a) = true

-- The callbacks afterwards, with whether 0 was returned.
unfoldable pub initialize_with_callbacks : Bool → Callbacks → ℕ → Inits → Callbacks × Bool
unfolding version_create
initialize_with_callbacks initialize callbacks version inits =
    if ltb version (version_create 1 3 0)
    then (callbacks, false)
    else if (is_set inits.malloc || is_set inits.free)
        && not (is_set inits.malloc && is_set inits.free)
    then (callbacks, false)
    else (
      record {
        malloc = or_else inits.malloc callbacks.malloc;
        free = or_else inits.free callbacks.free;
        no_memory = or_else inits.no_memory callbacks.no_memory;
      },
      initialize,
    )

-- `enet_malloc`: what the allocator returned, with whether `no_memory` was called.
unfoldable pub enet_malloc : Option ℕ → Option ℕ × Bool
enet_malloc memory = (memory, not (is_set memory))
