-- ===== src/Memory.antt =====
-- The C allocator behind `enet_malloc` of src/callbacks.cpp, a parameter of the model, and blocks of
-- bytes.
pub mod Copy
use enetcpp.Base.{
  ℕ, ◌+◌, ◌≡◌, Bool, Option, none, some, List, ◌++◌, length, take, drop, if◌then◌else◌, leb, arith,
  length-append, length-take, length-drop,
}

-- The calls of `enet_malloc`, by what they allocate.
pub data Block : Type 0 where
  packet packet_data resized_data incoming_command fragments acknowledgement channels : Block
  host_block peer_blocks : Block
  outgoing_command : ℕ → Block

-- Whether each allocation of a call succeeds, and what a fresh block of a size holds.
pub record Allocator : Type 0 where
  pub succeeds : Block → Bool
  pub contents : ℕ → List ℕ
  pub length_contents : (n : ℕ) → length (contents n) ≡ n

-- `memcpy(block + offset, bytes, …)`; a write past the end of the block is a fault.
unfoldable pub memcpy : List ℕ → ℕ → List ℕ → Option (List ℕ)
memcpy block offset bytes =
    if leb (offset + length bytes) (length block)
    then some (take offset block ++ (bytes ++ drop (offset + length bytes) block))
    else none

-- A copy that fits keeps the size of the block.
pub length-memcpy :
    (block : List ℕ) (offset : ℕ) (bytes : List ℕ) {result : List ℕ}
    → memcpy block offset bytes ≡ some result
    → length result ≡ length block
unfolding memcpy
length-memcpy block offset bytes e = ground (
  arith,
  length-append (take offset block) (bytes ++ drop (offset + length bytes) block),
  length-append bytes (drop (offset + length bytes) block),
  length-take offset block,
  length-drop (offset + length bytes) block,
)
