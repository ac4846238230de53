-- ===== src/Packet.antt =====
-- src/packet.cpp: packets, and the reference counts by which they are shared between queues.
-- `bytes` is the block that `data` points to, `none` for a null pointer.
pub mod Store
pub mod Laws
pub mod Crc
use enetcpp.Base.{
  ℕ, Bool, true, false, ◌||◌, Option, none, some, List, take, has_bit, leb, ◌==◌, if◌then◌else◌,
}
use enetcpp.Memory.{Allocator, packet, packet_data, resized_data, memcpy}

-- `enum PacketFlag`
abbrev pub flag_reliable : ℕ
flag_reliable = 1

abbrev pub flag_unsequenced : ℕ
flag_unsequenced = 2

abbrev pub flag_no_allocate : ℕ
flag_no_allocate = 4

abbrev pub flag_unreliable_fragment : ℕ
flag_unreliable_fragment = 8

abbrev pub flag_sent : ℕ
flag_sent = 256

pub record Packet : Type 0 where
  pub reference_count : ℕ
  pub flags : ℕ
  pub bytes : Option (List ℕ)
  pub data_length : ℕ

abbrev fresh : ℕ → ℕ → Option (List ℕ) → Packet
fresh data_length flags bytes = record {
  reference_count = 0;
  flags = flags;
  bytes = bytes;
  data_length = data_length;
}

-- The allocated case: the caller's bytes are copied in if there are any.
create_allocated : Allocator → Option (List ℕ) → ℕ → ℕ → Option Packet
create_allocated malloc none data_length flags =
    if malloc.succeeds packet_data
    then some (fresh data_length flags (some (malloc.contents data_length)))
    else none
create_allocated malloc (some bytes) data_length flags =
    if malloc.succeeds packet_data
    then some
        (fresh data_length flags (memcpy (malloc.contents data_length) 0 (take data_length bytes)))
    else none

-- `packet_create`; `none` is the null pointer.
unfoldable pub packet_create : Allocator → Option (List ℕ) → ℕ → ℕ → Option Packet
unfolding create_allocated
packet_create malloc bytes data_length flags =
    if malloc.succeeds packet
    then if has_bit flag_no_allocate flags
      then some (fresh data_length flags bytes)
      else if data_length == 0
      then some (fresh data_length flags none)
      else create_allocated malloc bytes data_length flags
    else none

-- `memcpy(newData, packet->data, packet->dataLength)`, which copies nothing from a null pointer.
moved : Allocator → Option (List ℕ) → ℕ → ℕ → Option (List ℕ)
moved malloc none old_length data_length = some (malloc.contents data_length)
moved malloc (some bytes) old_length data_length =
    memcpy (malloc.contents data_length) 0 (take old_length bytes)

-- `packet_resize`: the packet after the call, and whether 0 was returned.
unfoldable pub packet_resize : Allocator → Packet → ℕ → Packet × Bool
unfolding moved
packet_resize malloc p data_length =
    if leb data_length p.data_length || has_bit flag_no_allocate p.flags
    then (record p { data_length = data_length }, true)
    else if malloc.succeeds resized_data
    then (
      record p {
        bytes = moved malloc p.bytes p.data_length data_length;
        data_length = data_length;
      },
      true,
    )
    else (p, false)
