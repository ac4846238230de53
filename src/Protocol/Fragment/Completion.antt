-- ===== src/Protocol/Fragment/Completion.antt =====
-- src/protocol.cpp: the fragments of a packet, in any order and repeated, and the effects
-- of their handlers.
use native.Mathlib.Decide.{dec_lt}
use enetcpp.Peer.Incoming.{bitmap_size}
use enetcpp.Base.{
  replicate, ==_iff, ◌==◌, Option-cases, length-drop, Bool-cases, length-take, ℕ, ◌≡◌, ◌≢◌, ◌+◌,
  ◌*◌, ◌-◌, ◌<◌, ◌≤◌, ◌⊎◌, List, [], ◌∷◌, Option, none, some, true, false, zero, suc, length,
  get_elem?, take, drop, refl, sym, ap, arith, inl, inr, ltb, leb, ◌&&◌, if◌then◌else◌, All, ◌∙◌,
}
use enetcpp.Command.{SendFragment}
use enetcpp.Host.{Host}
use enetcpp.Memory.{memcpy}
use enetcpp.Packet.{Packet}
use enetcpp.Peer.{IncomingCommand}
use enetcpp.Protocol.Fragment.{malformed, apply_fragment, fault, seen, marked, fragment_bit, mark}
use enetcpp.Protocol.Fragment.Reassembly.{IsAssembly, IsTaken, apply_fragment-IsTaken}
use enetcpp.Base.{get_elem?-take, get_elem?-drop, get_elem?-set_other, same_elements}
use enetcpp.Memory.Copy.{get_elem?-memcpy}
use enetcpp.Protocol.Fragment.Pieces.{
  missing_all, in_piece, before_range, after_range, in_range, pieces_apart,
}

not_replicated : (m n : ℕ) → get_elem? (replicate m false) n ≢ some true
not_replicated zero n e = ground (arith, e)
not_replicated (suc m) zero e = ground (arith, e)
not_replicated (suc m) (suc n) e = not_replicated m n e

-- A fragment of the number is in the list.
abbrev pub Occurs : ℕ → List SendFragment → Type 0
Occurs n [] = ⊥
Occurs n (f ∷ fs) = (f.fragment_number ≡ n) ⊎ Occurs n fs

module _ (h : Host) (whole : List ℕ) (limit count : ℕ) (positive : 0 < limit) where
  -- The bytes of a fragment.
  abbrev pub piece : ℕ → List ℕ
  piece n = take limit (drop (n * limit) whole)

  -- A fragment as it is sent for the packet.
  pub record IsPiece (f : SendFragment) : Type 0 where
    pub accepted : malformed h f ≡ false
    pub known : f.fragment_number < count
    pub offset : f.fragment_offset ≡ f.fragment_number * limit
    pub size : f.data_length ≡ length (piece f.fragment_number)
    pub same_count : f.fragment_count ≡ count
    pub same_length : f.total_length ≡ length whole

  -- The handlers' effects on the command of the packet, for fragments one after the other; `none`
  -- is a fault.
  pub collect : IncomingCommand → Packet → List SendFragment → Option (IncomingCommand × Packet)
  unfolding apply_fragment
  collect i p [] = some (i, p)
  collect i p (f ∷ fs) = elim (apply_fragment i p f (piece f.fragment_number)) [
    | fault ↦ none
    | seen ↦ collect i p fs
    | marked i' p' ↦ collect i' p' fs
  ]

  piece_at : (n j : ℕ) → j < limit → get_elem? (piece n) j ≡ get_elem? whole (n * limit + j)
  piece_at n j h =
      get_elem?-take limit (drop (n * limit) whole) j h ∙ get_elem?-drop (n * limit) whole j

  -- The bytes of a block at the fragments that are there.
  abbrev Agrees : IncomingCommand → List ℕ → Type 0
  Agrees i block =
      (n j : ℕ)
      → j < limit
      → n * limit + j < length whole
      → fragment_bit i n ≡ some true
      → get_elem? block (n * limit + j) ≡ get_elem? whole (n * limit + j)

  record IsPartial (i : IncomingCommand) (p : Packet) : Type 0 where
    assembly : IsAssembly i p
    same_count : i.fragment_count ≡ count
    same_length : p.data_length ≡ length whole
    agrees : Agrees i assembly.block

  -- A write of one piece, seen at a place of another, or of the same.
  written_at :
      (block result : List ℕ) (m n j : ℕ)
      → memcpy block (m * limit) (piece m) ≡ some result
      → j < limit
      → n * limit + j < length whole
      → ((n ≡ m) × (get_elem? result (n * limit + j) ≡ get_elem? whole (n * limit + j)))
        ⊎ ((n ≢ m) × (get_elem? result (n * limit + j) ≡ get_elem? block (n * limit + j)))
  written_at block result m n j e l inside = elim (dec_lt n m) [
    | yes below ↦
        let apart : n * limit + limit ≤ m * limit = pieces_apart limit n m below in
        let outside : (leb (m * limit) (n * limit + j)
              && ltb (n * limit + j) (m * limit + length (piece m)))
            ≡ false =
          before_range (m * limit) (n * limit + j) (m * limit + length (piece m))
            (omega (arith, apart, l)) in
        inr (λ same. omega (arith, same), seen_at ∙ rw outside refl)
    | no not_below ↦ elim (dec_lt m n) [
      | yes above ↦
          let apart : m * limit + limit ≤ n * limit = pieces_apart limit m n above in
          let outside : (leb (m * limit) (n * limit + j)
                && ltb (n * limit + j) (m * limit + length (piece m)))
              ≡ false =
            after_range (m * limit) (n * limit + j) (m * limit + length (piece m))
              (omega (arith, apart, length-take limit (drop (m * limit) whole))) in
          inr (λ same. omega (arith, same), seen_at ∙ rw outside refl)
      | no not_above ↦
          let same : n ≡ m = omega arith in
          let level : n * limit ≡ m * limit = ap (λ (x : ℕ). x * limit) same in
          let within : (leb (m * limit) (n * limit + j)
                && ltb (n * limit + j) (m * limit + length (piece m)))
              ≡ true =
            in_range (m * limit) (n * limit + j) (m * limit + length (piece m))
              (omega (arith, level))
              (omega (
                arith,
                level,
                inside,
                l,
                length-take limit (drop (m * limit) whole),
                length-drop (m * limit) whole,
              )) in
          let index : n * limit + j - m * limit ≡ j = omega (arith, level) in
          let there : m * limit + j ≡ n * limit + j = omega (arith, level) in
          inl (same, seen_at ∙ rw (within, index) (piece_at m j l ∙ ap (get_elem? whole) there))
    ]
  ]
    where
      seen_at : get_elem? result (n * limit + j) ≡ (
          if leb (m * limit) (n * limit + j) && ltb (n * limit + j) (m * limit + length (piece m))
          then get_elem? (piece m) (n * limit + j - m * limit)
          else get_elem? block (n * limit + j))
      seen_at = get_elem?-memcpy block (m * limit) (piece m) result (n * limit + j) e

  fragment_bit-mark_other :
      (i : IncomingCommand) (m n : ℕ) → n ≢ m → fragment_bit (mark i m) n ≡ fragment_bit i n
  fragment_bit-mark_other i m n other = elim (Option-cases i.fragments) [
    | inl e ↦ ground (arith, e)
    | inr (bits, e) ↦
        ground (arith, e, get_elem?-set_other bits m n true (λ same. other (sym same)))
  ]

  taken-IsPartial :
      (i : IncomingCommand) (p : Packet) (f : SendFragment)
      → IsPartial i p
      → IsPiece f
      → (t : IsTaken i p f (piece f.fragment_number)) → IsPartial t.command t.packet
  taken-IsPartial i p f v q t = record {
    assembly = t.assembly;
    same_count = ap (λ (c : IncomingCommand). c.fragment_count) t.marks ∙ v.same_count;
    same_length = t.same_length ∙ v.same_length;
    agrees = λ n j l inside there. agrees_after n j l inside there;
  }
    where
      copy :
          memcpy v.assembly.block (f.fragment_number * limit) (piece f.fragment_number)
          ≡ some t.assembly.block
      copy =
          let same : t.block ≡ v.assembly.block = ground (arith, t.had, v.assembly.has_block) in
          ap (λ (b : List ℕ). memcpy b (f.fragment_number * limit) (piece f.fragment_number))
            (sym same)
          ∙ ap (λ (o : ℕ). memcpy t.block o (piece f.fragment_number)) (sym q.offset)
          ∙ sym t.copied
          ∙ t.assembly.has_block

      agrees_after : Agrees t.command t.assembly.block
      agrees_after n j l inside there =
          elim (written_at v.assembly.block t.assembly.block f.fragment_number n j copy l inside) [
            | inl (same, e) ↦ e
            | inr (other, e) ↦
                e
                ∙ v.agrees n j l inside (
                    sym (fragment_bit-mark_other i f.fragment_number n other)
                    ∙ ap (λ (c : IncomingCommand). fragment_bit c n) (sym t.marks)
                    ∙ there)
          ]

  stays :
      (i : IncomingCommand) (p : Packet) (f : SendFragment)
      → (t : IsTaken i p f (piece f.fragment_number)) → (n : ℕ) → fragment_bit i n ≡ some true
      → fragment_bit t.command n ≡ some true
  stays i p f t n e = elim (Bool-cases (n == f.fragment_number)) [
    | inl same ↦
        let at : n ≡ f.fragment_number = ((==_iff n f.fragment_number).0) same in rw at t.is_set
    | inr differs ↦
        ap (λ (c : IncomingCommand). fragment_bit c n) t.marks
        ∙ fragment_bit-mark_other i f.fragment_number n (λ at. ground (arith, at, differs))
        ∙ e
  ]

  -- A step of `collect`, and then what is left.
  record Collected (i : IncomingCommand) (p : Packet) (fs : List SendFragment) : Type 0 where
    command : IncomingCommand
    packet : Packet
    is_result : collect i p fs ≡ some (command, packet)
    partial : IsPartial command packet
    stay : (n : ℕ) → fragment_bit i n ≡ some true → fragment_bit command n ≡ some true
    come : All (λ (f : SendFragment). fragment_bit command f.fragment_number ≡ some true) fs

  collect-Collected :
      (i : IncomingCommand) (p : Packet) (fs : List SendFragment)
      → IsPartial i p
      → All IsPiece fs
      → Collected i p fs
  unfolding collect
  collect-Collected i p [] v q = record {
    command = i;
    packet = p;
    is_result = refl;
    partial = v;
    stay = λ n e. e;
    come = tt;
  }
  collect-Collected i p (f ∷ fs) v (q, qs) =
      elim (apply_fragment-IsTaken h i p f (piece f.fragment_number) v.assembly q.accepted
        (q.same_count ∙ sym v.same_count) (q.same_length ∙ sym v.same_length) (sym q.size)) [
          | inl (e, was) ↦
              let r = collect-Collected i p fs v qs in
              record {
                command = r.command;
                packet = r.packet;
                is_result = rw (collect, was) r.is_result;
                partial = r.partial;
                stay = r.stay;
                come = (r.stay f.fragment_number e, r.come);
              }
          | inr (e, t) ↦
              let r = collect-Collected t.command t.packet fs (taken-IsPartial i p f v q t) qs in
              record {
                command = r.command;
                packet = r.packet;
                is_result = rw (collect, t.was) r.is_result;
                partial = r.partial;
                stay = λ n s. r.stay n (stays i p f t n s);
                come = (r.stay f.fragment_number t.is_set, r.come);
              }
        ]

  received_bit :
      (i : IncomingCommand) (fs : List SendFragment) (n : ℕ)
      → All (λ (f : SendFragment). fragment_bit i f.fragment_number ≡ some true) fs
      → Occurs n fs
      → fragment_bit i n ≡ some true
  received_bit i [] n come o = absurd o
  received_bit i (f ∷ fs) n (e, come) (inl at) = rw (sym at) e
  received_bit i (f ∷ fs) n (e, come) (inr o) = received_bit i fs n come o

  below_count : (n j : ℕ) → length whole ≤ count * limit → n * limit + j < length whole → n < count
  below_count n j cover inside = elim (dec_lt n count) [
    | yes h ↦ h
    | no not_below ↦ elim (dec_lt count n) [
      | yes above ↦ absurd (omega (arith, cover, inside, pieces_apart limit count n above))
      | no not_above ↦
          let same : n * limit ≡ count * limit =
            ap (λ (x : ℕ). x * limit) (omega (arith, not_below, not_above)) in
          absurd (omega (arith, cover, inside, same))
    ]
  ]

  complete :
      (i : IncomingCommand) (p : Packet)
      → length whole ≤ count * limit
      → (v : IsPartial i p) → ((n : ℕ) → n < count → fragment_bit i n ≡ some true)
      → (i.fragments_remaining ≡ 0) × (p.bytes ≡ some whole)
  complete i p cover v full = (
    v.assembly.remaining
        ∙ rw v.same_count (
            missing_all count v.assembly.bits
              (λ k l. ground (arith, full k l, v.assembly.has_bits))),
    v.assembly.has_block
        ∙ ap some
            (same_elements v.assembly.block whole (v.assembly.size ∙ v.same_length) everywhere),
  )
    where
      everywhere : (k : ℕ) → k < length whole → get_elem? v.assembly.block k ≡ get_elem? whole k
      everywhere k l =
          let (n, j, e, small) = in_piece limit k positive in
          let inside : n * limit + j < length whole = omega (arith, e, l) in
          rw e (v.agrees n j small inside (full n (below_count n j cover inside)))

-- The fragments of a packet may come in any order and any number of times: where they are pieces of
-- one size that cover the packet, each passes the tests of its handler and every one occurs, the
-- handlers' effects are no fault, none is missing in the end, and the packet holds the bytes that
-- were sent. The command and the packet are those queued for the first fragment: well-formed, with
-- no bit set.
pub collect-whole :
    (h : Host) (whole : List ℕ) (limit count : ℕ)
    → (positive : 0 < limit) → length whole ≤ count * limit
    → (i : IncomingCommand) (p : Packet) → IsAssembly i p
    → i.fragments ≡ some (replicate (bitmap_size count) false)
    → i.fragment_count ≡ count
    → p.data_length ≡ length whole
    → (fs : List SendFragment) → All (IsPiece h whole limit count positive) fs
    → ((n : ℕ) → n < count → Occurs n fs)
    → (i' : IncomingCommand) × (p' : Packet) × (collect h whole limit count positive i p fs
        ≡ some (i', p'))
      × (i'.fragments_remaining ≡ 0)
      × (p'.bytes ≡ some whole)
collect-whole h whole limit count positive cover i p v unset same_count same_length fs pieces
      all_occur =
    let r = collect-Collected h whole limit count positive i p fs start pieces in
    let (none_missing, bytes) =
      complete h whole limit count positive r.command r.packet cover r.partial
        (λ n l. received_bit h whole limit count positive r.command fs n r.come (all_occur n l)) in
    (r.command, r.packet, r.is_result, none_missing, bytes)
  where
    start : IsPartial h whole limit count positive i p
    start = record {
      assembly = v;
      same_count = same_count;
      same_length = same_length;
      agrees = λ n j l inside e.
          absurd (not_replicated (bitmap_size count) n (ground (arith, e, unset)));
    }
