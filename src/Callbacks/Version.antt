-- ===== src/Callbacks/Version.antt =====
-- include/enetcpp/enetcpp.h: the parts of a version.
use enetcpp.Base.{
  ap, arith, bit_or, bit_or-shifted, bit_or_comm, shifted, wrap32, ◌*◌, ◌+◌, ◌<◌, ◌^◌, ◌∙◌, ◌≡◌, ℕ,
}
use enetcpp.Callbacks.{version_create, version_get_major, version_get_minor, version_get_patch}

version_sum :
    (major minor patch : ℕ)
    → major < 256
    → minor < 256
    → patch < 256
    → version_create major minor patch ≡ major * 65536 + minor * 256 + patch
unfolding version_create
version_sum major minor patch h i j =
    let high : bit_or (wrap32 (major * 2 ^ 16)) (wrap32 (minor * 2 ^ 8))
        ≡ major * 65536 + minor * 256 =
      ap (λ a. bit_or a (wrap32 (minor * 2 ^ 8))) (omega arith)
      ∙ ap (bit_or (shifted 16 major)) (omega arith)
      ∙ bit_or_comm (shifted 16 major) (minor * 256)
      ∙ bit_or-shifted 16 (minor * 256) major (omega arith)
      ∙ omega arith in
    ap (λ a. bit_or a patch) high
    ∙ bit_or_comm (major * 65536 + minor * 256) patch
    ∙ ap (bit_or patch) (omega arith)
    ∙ bit_or-shifted 8 patch (major * 256 + minor) (omega arith)
    ∙ omega arith

-- The parts of a version that `version_create` makes of three bytes are these bytes.
pub version_parts :
    (major minor patch : ℕ)
    → major < 256
    → minor < 256
    → patch < 256
    → (version_get_major (version_create major minor patch) ≡ major)
      × (version_get_minor (version_create major minor patch) ≡ minor)
      × (version_get_patch (version_create major minor patch) ≡ patch)
unfolding version_get_major version_get_minor version_get_patch
version_parts major minor patch h i j =
    let e = version_sum major minor patch h i j in
    (omega (arith, e), omega (arith, e), omega (arith, e))
