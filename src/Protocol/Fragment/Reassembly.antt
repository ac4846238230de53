-- ===== src/Protocol/Fragment/Reassembly.antt =====
-- The effects of a fragment on its command and packet in the handlers of src/protocol.cpp: the bits
-- of `fragments`, the count of missing fragments and the bytes of the packet.
use enetcpp.Base.{
  has_bit, length-replicate, drop, ◌++◌, ◌∙◌, sym, take, length-set, get_elem?-set_self,
  get_elem?-total, ◌≡◌, ℕ, List, Bool, true, false, [], ◌∷◌, zero, suc, ◌+◌, ◌≤◌, ◌<◌, ◌^◌, length,
  some, none, get_elem?, set, replicate, ap, refl, arith, ◌⊎◌, inl, inr,
}
use enetcpp.Command.{SendFragment, Protocol}
use enetcpp.Command.Limits.{maximum_fragment_count}
use enetcpp.Memory.{Allocator, memcpy, length-memcpy}
use enetcpp.Packet.{Packet, packet_create, flag_no_allocate}
use enetcpp.Peer.{IncomingCommand}
use enetcpp.Peer.Incoming.{bitmap_size, new_incoming}
use enetcpp.Host.{Host}
use enetcpp.Protocol.Fragment.{
  malformed, apply_fragment, seen, marked, fragment_bit, mark, trimmed, copy_fragment,
}

-- The unset bits among the first ones.
abbrev pub missing : ℕ → List Bool → ℕ
missing zero bits = 0
missing (suc n) [] = 0
missing (suc n) (true ∷ bits) = missing n bits
missing (suc n) (false ∷ bits) = suc (missing n bits)

-- What a command that collects fragments and its packet are: a bit for every fragment, as many
-- missing as bits are unset, and a block of the packet's size.
pub record IsAssembly (i : IncomingCommand) (p : Packet) : Type 0 where
  pub bits : List Bool
  pub block : List ℕ
  pub has_bits : i.fragments ≡ some bits
  pub bitmap : length bits ≡ bitmap_size i.fragment_count
  pub remaining : i.fragments_remaining ≡ missing i.fragment_count bits
  pub few : i.fragment_count ≤ maximum_fragment_count
  pub has_block : p.bytes ≡ some block
  pub size : length block ≡ p.data_length
  pub fits : p.data_length < 2 ^ 32

missing-set :
    (n : ℕ) (bits : List Bool) (k : ℕ)
    → k < n
    → get_elem? bits k ≡ some false
    → missing n (set bits k true) + 1 ≡ missing n bits
missing-set zero bits k h e = absurd (omega arith)
missing-set (suc n) [] k h e = ground arith
missing-set (suc n) (true ∷ bits) zero h e = ground arith
missing-set (suc n) (false ∷ bits) zero h e = omega arith
missing-set (suc n) (true ∷ bits) (suc k) h e = missing-set n bits k (omega arith) e
missing-set (suc n) (false ∷ bits) (suc k) h e = omega (arith, missing-set n bits k (omega arith) e)

missing_bound : (n : ℕ) (bits : List Bool) → missing n bits ≤ n
missing_bound zero bits = omega arith
missing_bound (suc n) [] = omega arith
missing_bound (suc n) (true ∷ bits) = omega (arith, missing_bound n bits)
missing_bound (suc n) (false ∷ bits) = omega (arith, missing_bound n bits)

missing-replicate : (n m : ℕ) → n ≤ m → missing n (replicate m false) ≡ n
missing-replicate zero m h = refl
missing-replicate (suc n) zero h = absurd (omega arith)
missing-replicate (suc n) (suc m) h = ap suc (missing-replicate n m (omega arith))

memcpy_fits :
    (block : List ℕ) (offset : ℕ) (bytes : List ℕ)
    → offset + length bytes ≤ length block
    → (result : List ℕ) × (memcpy block offset bytes ≡ some result)
unfolding memcpy
memcpy_fits block offset bytes h =
    (take offset block ++ (bytes ++ drop (offset + length bytes) block), ground arith)

-- What happens to the packet of a new fragment.
pub record IsTaken (i : IncomingCommand) (p : Packet) (f : SendFragment) (bytes : List ℕ)
    : Type 0 where
  pub command : IncomingCommand
  pub packet : Packet
  pub was : apply_fragment i p f bytes ≡ marked command packet
  pub assembly : IsAssembly command packet
  pub one_less : command.fragments_remaining + 1 ≡ i.fragments_remaining
  pub marks : command ≡ mark i f.fragment_number
  pub is_set : fragment_bit command f.fragment_number ≡ some true
  pub same_length : packet.data_length ≡ p.data_length
  pub block : List ℕ
  pub had : p.bytes ≡ some block
  pub copied : packet.bytes ≡ memcpy block f.fragment_offset bytes

-- The numbers of a fragment that is not malformed are within the packet and its `fragments`.
in_range :
    (h : Host) (f : SendFragment)
    → malformed h f ≡ false
    → (f.fragment_number < f.fragment_count) × (f.fragment_offset + f.data_length ≤ f.total_length)
unfolding malformed
in_range h f ok = (ground arith, ground arith)

take_all : (bytes : List ℕ) (n : ℕ) → n ≡ length bytes → take n bytes ≡ bytes
take_all [] zero h = refl
take_all [] (suc n) h = refl
take_all (b ∷ bytes) zero h = absurd (omega arith)
take_all (b ∷ bytes) (suc n) h = ap (λ (l : List ℕ). b ∷ l) (take_all bytes n (omega arith))

trimmed_all :
    (p : Packet) (f : SendFragment)
    → p.data_length < 2 ^ 32
    → f.fragment_offset + f.data_length ≤ p.data_length
    → trimmed p f ≡ f.data_length
trimmed_all p f small h = ground arith

copy_whole :
    (p : Packet) (f : SendFragment) (bytes block : List ℕ)
    → p.bytes ≡ some block
    → length block ≡ p.data_length
    → p.data_length < 2 ^ 32
    → f.fragment_offset + f.data_length ≤ p.data_length
    → length bytes ≡ f.data_length
    → (result : List ℕ) × (memcpy block f.fragment_offset bytes ≡ some result)
      × (copy_fragment p f bytes ≡ some (record p { bytes = some result }))
unfolding copy_fragment
copy_whole p f bytes block has_block size small h whole =
    let (result, e) = memcpy_fits block f.fragment_offset bytes (omega arith) in
    (result, e, ground (arith, has_block, whole_taken, e))
  where
    whole_taken : take (trimmed p f) bytes ≡ bytes
    whole_taken =
        ap (λ (n : ℕ). take n bytes) (trimmed_all p f small h)
        ∙ take_all bytes f.data_length (sym whole)

module _ (i : IncomingCommand) (p : Packet) (f : SendFragment) (bytes : List ℕ) (v : IsAssembly i p)
    (number : f.fragment_number < i.fragment_count)
    (inside : f.fragment_offset + f.data_length ≤ p.data_length)
    (whole : length bytes ≡ f.data_length) where
  marked-IsAssembly :
      (result : List ℕ)
      → length result ≡ p.data_length
      → fragment_bit i f.fragment_number ≡ some false
      → IsAssembly (mark i f.fragment_number) (record p { bytes = some result })
        × (mark i f.fragment_number).fragments_remaining + 1 ≡ i.fragments_remaining
  marked-IsAssembly result size e = (
    record {
      bits = set v.bits f.fragment_number true;
      block = result;
      has_bits = rw v.has_bits refl;
      bitmap = length-set v.bits f.fragment_number true ∙ v.bitmap;
      remaining =
          ground (arith, v.remaining, one_set, missing_bound i.fragment_count v.bits, v.few);
      few = v.few;
      has_block = refl;
      size = size;
      fits = v.fits;
    },
    ground (arith, v.remaining, one_set, missing_bound i.fragment_count v.bits, v.few),
  )
    where
      one_set :
          missing i.fragment_count (set v.bits f.fragment_number true) + 1
          ≡ missing i.fragment_count v.bits
      one_set =
          missing-set i.fragment_count v.bits f.fragment_number number
            (ground (arith, e, v.has_bits))

  new-IsTaken : fragment_bit i f.fragment_number ≡ some false → IsTaken i p f bytes
  unfolding apply_fragment
  new-IsTaken e =
      let (result, copied, copy) =
        copy_whole p f bytes v.block v.has_block v.size v.fits inside whole in
      let (assembly, one_less) =
        marked-IsAssembly result (length-memcpy v.block f.fragment_offset bytes copied ∙ v.size)
          e in
      record {
        command = mark i f.fragment_number;
        packet = record p { bytes = some result };
        was = ground (arith, e, copy);
        assembly = assembly;
        one_less = one_less;
        marks = refl;
        same_length = refl;
        is_set = ground (
          arith,
          v.has_bits,
          get_elem?-set_self v.bits f.fragment_number true (ground (arith, v.bitmap, number)),
        );
        block = v.block;
        had = v.has_block;
        copied = sym copied;
      }

-- A fragment that passes the tests of its handler and belongs to the packet is never a fault: it
-- does not read or write outside `fragments` or outside the packet's block. One that has come before
-- changes nothing. Any other leaves one fragment less missing, its bit set, its bytes copied whole
-- at its offset, and the command and packet well-formed.
pub apply_fragment-IsTaken :
    (h : Host) (i : IncomingCommand) (p : Packet) (f : SendFragment) (bytes : List ℕ)
    → IsAssembly i p
    → malformed h f ≡ false
    → f.fragment_count ≡ i.fragment_count
    → f.total_length ≡ p.data_length
    → length bytes ≡ f.data_length
    → ((fragment_bit i f.fragment_number ≡ some true) × (apply_fragment i p f bytes ≡ seen))
      ⊎ ((fragment_bit i f.fragment_number ≡ some false) × IsTaken i p f bytes)
apply_fragment-IsTaken h i p f bytes v ok same_count same_length whole =
    let (number, inside) = in_range h f ok in
    let (b, e) =
      get_elem?-total v.bits f.fragment_number (ground (arith, v.bitmap, number, same_count)) in
    by_bit b (ground (arith, v.has_bits, e))
  where
    by_bit :
        (b : Bool)
        → fragment_bit i f.fragment_number ≡ some b
        → ((fragment_bit i f.fragment_number ≡ some true) × (apply_fragment i p f bytes ≡ seen))
          ⊎ ((fragment_bit i f.fragment_number ≡ some false) × IsTaken i p f bytes)
    by_bit true e = inl (e, unfold apply_fragment in ground (arith, e))
    by_bit false e = inr (
      e,
      new-IsTaken i p f bytes v (omega (arith, in_range h f ok)) (omega (arith, in_range h f ok))
          whole e,
    )

-- What `peer_queue_incoming_command` inserts for the first fragment of a packet is well-formed: no
-- fragment is there, and the packet has a block of the announced length.
pub new_incoming-IsAssembly :
    (malloc : Allocator) (h : Host) (command : Protocol) (fragment_count data_length flags : ℕ)
    → 0 < fragment_count
    → fragment_count ≤ maximum_fragment_count
    → 0 < data_length
    → data_length < 2 ^ 32
    → has_bit flag_no_allocate flags ≡ false
    → (packet : Packet) → packet_create malloc none data_length flags ≡ some packet
    → IsAssembly (new_incoming h command fragment_count) packet
unfolding packet_create
new_incoming-IsAssembly malloc h command fragment_count data_length flags some_fragments few
      some_bytes fits allocates packet e =
    record {
      bits = replicate (bitmap_size fragment_count) false;
      block = malloc.contents data_length;
      has_bits = ground arith;
      bitmap = length-replicate (bitmap_size fragment_count) false;
      remaining = sym (missing-replicate fragment_count (bitmap_size fragment_count) (omega arith));
      few = few;
      has_block = ground arith;
      size = ground (arith, malloc.length_contents data_length);
      fits = ground arith;
    }
