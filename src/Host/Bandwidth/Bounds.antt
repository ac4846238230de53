-- ===== src/Host/Bandwidth/Bounds.antt =====
-- src/host.cpp, `host_bandwidth_throttle`: the limits of the throttles are in range.
use enetcpp.Base.{
  All, List, [], false, length, ltb, not, suc, true, zero, ◌&&◌, ◌+◌, ◌==◌, ◌∷◌, ◌≡◌, Bool-cases,
  arith, inl, inr, leb, mul32, ℕ, ◌*◌, ◌/◌, ◌<◌, ◌≤◌,
}
use enetcpp.Peer.{Peer}
use enetcpp.Peer.Default.{packet_throttle_scale}
use enetcpp.Peer.State.{is_connected}
use enetcpp.Host.{Host}
use enetcpp.Host.Bandwidth.{
  Share, throttle_of, limit_to, is_adjustable, is_narrow, narrow_limit, adjust_peer, adjust_all,
  adjust_passes, is_unsettled, share_rest, throttle_outgoing, start_share, peer_bytes,
}

-- The limit of a peer is within the scale, and its throttle within the limit.
abbrev pub IsLimited : Peer → Type 0
IsLimited p =
    (p.throttle.packet_throttle_limit ≤ packet_throttle_scale)
    × (p.throttle.packet_throttle ≤ p.throttle.packet_throttle_limit)

-- A quotient by a number that is not 0, of at most `k` times that number.
quotient-le : (a b k : ℕ) → 0 < b → a ≤ k * b → a / b ≤ k
quotient-le a b k h l = grind arith

product-le : (a b : ℕ) → a ≤ packet_throttle_scale → mul32 a b / packet_throttle_scale ≤ b
product-le a b h = grind arith

throttle_of-le : (s : Share) → throttle_of s ≤ packet_throttle_scale
unfolding throttle_of
throttle_of-le s = elim (Bool-cases (leb s.data_total s.bandwidth)) [
  | inl e ↦ rw (throttle_of, e) (omega arith)
  | inr e ↦
      rw (throttle_of, e)
        (quotient-le (mul32 s.bandwidth packet_throttle_scale) s.data_total packet_throttle_scale
          (ground (arith, e)) (ground (arith, e)))
]

-- The divisor of a narrow peer's limit is not 0, and the limit is within the scale.
narrow_limit-le :
    (elapsed throttle : ℕ) (p : Peer)
    → throttle ≤ packet_throttle_scale
    → is_narrow elapsed throttle p ≡ true
    → (0 < p.bandwidth.outgoing_data_total)
      × (narrow_limit elapsed p ≤ packet_throttle_scale)
      × (0 < narrow_limit elapsed p)
narrow_limit-le elapsed throttle p h e =
    let share = product-le throttle p.bandwidth.outgoing_data_total h in
    let some_data : 0 < p.bandwidth.outgoing_data_total = ground (arith, e, share) in
    let q =
      quotient-le (mul32 (peer_bytes elapsed p) packet_throttle_scale)
        p.bandwidth.outgoing_data_total packet_throttle_scale some_data
        (ground (arith, e, share)) in
    (some_data, ground (arith, q), ground arith)

limit_to-IsLimited :
    (p : Peer) (limit : ℕ) → limit ≤ packet_throttle_scale → IsLimited (limit_to p limit)
limit_to-IsLimited p limit h = ground arith

adjust_peer-IsLimited :
    (now elapsed throttle : ℕ) (s : Share) (p : Peer)
    → throttle ≤ packet_throttle_scale
    → IsLimited p
    → IsLimited (adjust_peer now elapsed throttle s p).1
unfolding adjust_peer
adjust_peer-IsLimited now elapsed throttle s p h v =
    elim (Bool-cases (is_adjustable now p && is_narrow elapsed throttle p)) [
      | inr e ↦ rw (adjust_peer, e) v
      | inl e ↦
          let (positive, le, lt) = narrow_limit-le elapsed throttle p h (ground (arith, e)) in
          rw (adjust_peer, e) (limit_to-IsLimited p (narrow_limit elapsed p) le)
    ]

adjust_all-IsLimited :
    (now elapsed throttle : ℕ) (s : Share) (ps : List Peer)
    → throttle ≤ packet_throttle_scale
    → All IsLimited ps
    → All IsLimited (adjust_all now elapsed throttle s ps).1
unfolding adjust_all
adjust_all-IsLimited now elapsed throttle s [] h v = tt
adjust_all-IsLimited now elapsed throttle s (p ∷ ps) h v = (
  adjust_peer-IsLimited now elapsed throttle s p h v.0,
  adjust_all-IsLimited now elapsed throttle (adjust_peer now elapsed throttle s p).0 ps h v.1,
)

adjust_passes-IsLimited :
    (fuel now elapsed : ℕ) (s : Share) (ps : List Peer)
    → All IsLimited ps
    → All IsLimited (adjust_passes fuel now elapsed s ps).1
unfolding adjust_passes
adjust_passes-IsLimited zero now elapsed s ps v = v
adjust_passes-IsLimited (suc fuel) now elapsed s ps v = elim (Bool-cases (is_unsettled s)) [
  | inr e ↦ rw (adjust_passes, e) v
  | inl e ↦
      let next =
        adjust_all now elapsed (throttle_of s) (record s { needs_adjustment = false }) ps in
      rw (adjust_passes, e)
        (adjust_passes-IsLimited fuel now elapsed next.0 next.1 (
          adjust_all-IsLimited now elapsed (throttle_of s) (record s { needs_adjustment = false })
            ps (throttle_of-le s) v))
]

share_rest-IsLimited :
    (now throttle : ℕ) (ps : List Peer)
    → throttle ≤ packet_throttle_scale
    → All IsLimited ps
    → All IsLimited (share_rest now throttle ps)
unfolding share_rest
share_rest-IsLimited now throttle [] h v = tt
share_rest-IsLimited now throttle (p ∷ ps) h v =
    let rest = share_rest-IsLimited now throttle ps h v.1 in
    elim (Bool-cases
      (is_connected p.state && not (p.bandwidth.outgoing_bandwidth_throttle_epoch == now))) [
        | inl e ↦ rw (share_rest, e) (limit_to-IsLimited p throttle h, rest)
        | inr e ↦ rw (share_rest, e) (v.0, rest)
      ]

-- After the outgoing bandwidth has been shared, the throttle of every peer is within its limit, and
-- the limit within the scale of the throttles, whatever the products of 32 bits have wrapped to, if
-- that was so before.
pub throttle_outgoing-IsLimited :
    (h : Host) (ps : List Peer) (now elapsed : ℕ)
    → All IsLimited ps
    → All IsLimited (throttle_outgoing h ps now elapsed)
unfolding throttle_outgoing
throttle_outgoing-IsLimited h ps now elapsed v =
    let start = start_share h ps elapsed in
    let r = adjust_passes (length ps + 1) now elapsed start ps in
    let adjusted = adjust_passes-IsLimited (length ps + 1) now elapsed start ps v in
    elim (Bool-cases (ltb 0 r.0.remaining)) [
      | inl e ↦
          rw (throttle_outgoing, e)
            (share_rest-IsLimited now (throttle_of r.0) r.1 (throttle_of-le r.0) adjusted)
      | inr e ↦ rw (throttle_outgoing, e) adjusted
    ]
