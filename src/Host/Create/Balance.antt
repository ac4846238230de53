-- ===== src/Host/Create/Balance.antt =====
-- src/host.cpp: what `host_create` acquires, and `host_create` or `host_destroy` gives back.
use enetcpp.Base.{
  ◌++◌, Bool, Bool-cases, List, Option, [], false, if◌then◌else◌, inl, inr, ltb, none, not, refl,
  some, true, ◌+◌, ◌||◌, ◌∷◌, ◌≡◌, ◌⊎◌, ℕ,
}
use enetcpp.Command.Limits.{maximum_peer_id}
use enetcpp.Memory.{Allocator, host_block, peer_blocks}
use enetcpp.Peer.{Address}
use enetcpp.Host.{World}
use enetcpp.Host.Create.{
  Resource, host_memory, peers_memory, open_socket, Effect, acquired, released, set_option,
  Platform, bind_fails, options, Created, host_create,
}
use enetcpp.Host.Destroy.{Compressor, host_destroy}

abbrev is_same : Resource → Resource → Bool
is_same host_memory host_memory = true
is_same peers_memory peers_memory = true
is_same open_socket open_socket = true
is_same _ _ = false

-- How often a resource is acquired and given back.
abbrev pub acquisitions : Resource → List Effect → ℕ
acquisitions r [] = 0
acquisitions r (acquired s ∷ es) = (if is_same r s then 1 else 0) + acquisitions r es
acquisitions r (released s ∷ es) = acquisitions r es
acquisitions r (set_option o n ∷ es) = acquisitions r es

abbrev pub releases : Resource → List Effect → ℕ
releases r [] = 0
releases r (acquired s ∷ es) = releases r es
releases r (released s ∷ es) = (if is_same r s then 1 else 0) + releases r es
releases r (set_option o n ∷ es) = releases r es

-- A call that fails has given back what it acquired; of one that succeeds, each resource is
-- acquired once, and `host_destroy` gives it back.
abbrev pub IsBalanced : Compressor → Resource → Created → Type 0
IsBalanced k r c =
    ((c.world ≡ none) × (acquisitions r c.effects ≡ releases r c.effects))
    ⊎ ((w : World) × (c.world ≡ some w)
        × (acquisitions r c.effects ≡ 1)
        × (releases r c.effects ≡ 0)
        × (releases r (host_destroy (some w) k).effects ≡ 1))

-- Whatever the calls outside return, `host_create` gives back what it acquired when it fails; when
-- it succeeds, it has acquired each of the two blocks and the socket once and given back none, and
-- `host_destroy` of the host gives each back once.
pub host_create-IsBalanced :
    (malloc : Allocator) (platform : Platform) (address : Option Address)
    (peer_count channel_limit incoming outgoing : ℕ) (k : Compressor) (r : Resource)
    → IsBalanced k r
        (host_create malloc platform address peer_count channel_limit incoming outgoing)
unfolding host_create host_destroy
host_create-IsBalanced malloc platform address peer_count channel_limit incoming outgoing k r =
    elim (Bool-cases (ltb maximum_peer_id peer_count)) [
      | inl e ↦ rw (host_create, e) (inl (refl, refl))
      | inr e ↦ elim (Bool-cases (malloc.succeeds host_block)) [
        | inr f ↦ rw (host_create, e, f) (inl (refl, refl))
        | inl f ↦ elim (Bool-cases (malloc.succeeds peer_blocks)) [
          | inr g ↦ rw (host_create, e, f, g) (inl (refl, without_peers r))
          | inl g ↦ elim (Bool-cases (not platform.opens || bind_fails platform address)) [
            | inl h ↦ rw (host_create, e, f, g, h) (inl (refl, without_socket r platform.opens))
            | inr h ↦
                rw (host_create, e, f, g, h) (inr (_, refl, (each r).0, (each r).1, (each r).2))
          ]
        ]
      ]
    ]
  where
    without_peers :
        (r : Resource)
        → acquisitions r (acquired host_memory ∷ released host_memory ∷ [])
          ≡ releases r (acquired host_memory ∷ released host_memory ∷ [])
    without_peers host_memory = refl
    without_peers peers_memory = refl
    without_peers open_socket = refl

    failing : Bool → List Effect
    failing opens =
        acquired host_memory
        ∷ acquired peers_memory
        ∷ ((if opens then acquired open_socket ∷ released open_socket ∷ [] else [])
            ++ (released peers_memory ∷ released host_memory ∷ []))

    without_socket :
        (r : Resource) (opens : Bool) → acquisitions r (failing opens) ≡ releases r (failing opens)
    without_socket host_memory true = refl
    without_socket host_memory false = refl
    without_socket peers_memory true = refl
    without_socket peers_memory false = refl
    without_socket open_socket true = refl
    without_socket open_socket false = refl

    kept : List Effect
    kept = acquired host_memory ∷ acquired peers_memory ∷ acquired open_socket ∷ options

    given_back : List Effect
    given_back = released open_socket ∷ released peers_memory ∷ released host_memory ∷ []

    each :
        (r : Resource)
        → (acquisitions r kept ≡ 1) × (releases r kept ≡ 0) × (releases r given_back ≡ 1)
    each host_memory = (refl, refl, refl)
    each peers_memory = (refl, refl, refl)
    each open_socket = (refl, refl, refl)
