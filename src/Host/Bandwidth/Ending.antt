-- ===== src/Host/Bandwidth/Ending.antt =====
-- src/host.cpp, `host_bandwidth_throttle`: its loop ends.
use enetcpp.Base.{
  Bool-cases, false, inl, suc, zero, List, [], arith, if◌then◌else◌, inr, length, refl, ℕ, ◌+◌, ◌<◌,
  ◌∷◌, ◌≡◌, ◌≤◌, ◌⊎◌,
}
use enetcpp.Peer.{Peer}
use enetcpp.Host.Bandwidth.{
  Share, throttle_of, is_adjustable, adjust_peer, adjust_all, adjust_passes, is_unsettled,
}

-- The peers that a pass may still adjust.
abbrev adjustable : ℕ → List Peer → ℕ
adjustable now [] = 0
adjustable now (p ∷ ps) = (if is_adjustable now p then 1 else 0) + adjustable now ps

adjustable-le : (now : ℕ) (ps : List Peer) → adjustable now ps ≤ length ps
adjustable-le now [] = omega arith
adjustable-le now (p ∷ ps) = ground (arith, adjustable-le now ps)

-- A pass leaves fewer of them, or adjusts none.
adjust_all-fewer :
    (now elapsed throttle : ℕ) (s : Share) (ps : List Peer)
    → (adjustable now (adjust_all now elapsed throttle s ps).1 ≤ adjustable now ps)
      × ((adjustable now (adjust_all now elapsed throttle s ps).1 < adjustable now ps)
          ⊎ ((adjust_all now elapsed throttle s ps).0.needs_adjustment ≡ s.needs_adjustment))
unfolding adjust_all adjust_peer
adjust_all-fewer now elapsed throttle s [] = (omega arith, inr refl)
adjust_all-fewer now elapsed throttle s (p ∷ ps) =
    ground
      (arith, adjust_all-fewer now elapsed throttle (adjust_peer now elapsed throttle s p).0 ps)

-- A loop that has nothing to adjust does nothing.
unchanged :
    (fuel now elapsed : ℕ) (s : Share) (ps : List Peer)
    → s.needs_adjustment ≡ false
    → is_unsettled (adjust_passes fuel now elapsed s ps).0 ≡ false
unfolding adjust_passes
unchanged zero now elapsed s ps e = ground (arith, e)
unchanged (suc fuel) now elapsed s ps e =
    let settled : is_unsettled s ≡ false = ground (arith, e) in rw (adjust_passes, settled) settled

adjust_passes-settled :
    (fuel now elapsed : ℕ) (s : Share) (ps : List Peer)
    → adjustable now ps < fuel
    → is_unsettled (adjust_passes fuel now elapsed s ps).0 ≡ false
unfolding adjust_passes
adjust_passes-settled zero now elapsed s ps h = absurd (omega arith)
adjust_passes-settled (suc fuel) now elapsed s ps h = elim (Bool-cases (is_unsettled s)) [
  | inr e ↦ rw (adjust_passes, e) e
  | inl e ↦
      let next =
        adjust_all now elapsed (throttle_of s) (record s { needs_adjustment = false }) ps in
      let (le, or) =
        adjust_all-fewer now elapsed (throttle_of s) (record s { needs_adjustment = false }) ps in
      elim or [
        | inl lt ↦
            rw (adjust_passes, e)
              (adjust_passes-settled fuel now elapsed next.0 next.1 (omega (arith, lt, h)))
        | inr same ↦ rw (adjust_passes, e) (unchanged fuel now elapsed next.0 next.1 same)
      ]
]

-- The loop that shares the bandwidth ends of itself, after at most one pass more than there are
-- peers: then no peer remains, or the last pass has adjusted none.
pub adjust_passes-length :
    (now elapsed : ℕ) (s : Share) (ps : List Peer)
    → is_unsettled (adjust_passes (length ps + 1) now elapsed s ps).0 ≡ false
adjust_passes-length now elapsed s ps =
    adjust_passes-settled (length ps + 1) now elapsed s ps (omega (arith, adjustable-le now ps))
