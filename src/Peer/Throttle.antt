-- ===== src/Peer/Throttle.antt =====
-- src/peer.cpp: `peer_throttle`, which adapts the share of unreliable packets that are sent.
use enetcpp.Base.{
  Bool-cases, inl, inr, min, refl, ◌%◌, ◌*◌, ◌<◌, ◌⊎◌, arith, ◌+◌, ◌≡◌, ◌≤◌, ◌^◌, ℕ, ◌-◌,
  if◌then◌else◌, ltb, leb, add32, mul32,
}
use enetcpp.Peer.{PacketThrottle, RoundTrip}

-- What `peer_throttle` returns: 1, 0 or -1.
pub data Trend : Type 0 where
  faster steady slower : Trend

abbrev with_throttle : PacketThrottle → ℕ → PacketThrottle
with_throttle t n = record t { packet_throttle = n }

-- `packetThrottle += packetThrottleAcceleration`, which may wrap.
abbrev raised : PacketThrottle → ℕ
raised t = add32 t.packet_throttle t.packet_throttle_acceleration

-- `rtt` is the round trip time just measured.
unfoldable pub peer_throttle : RoundTrip → PacketThrottle → ℕ → PacketThrottle × Trend
peer_throttle r t rtt =
    if leb r.last_round_trip_time r.last_round_trip_time_variance
    then (with_throttle t t.packet_throttle_limit, steady)
    else if leb rtt r.last_round_trip_time
    then (
      with_throttle t
          (if ltb t.packet_throttle_limit (raised t) then t.packet_throttle_limit else raised t),
      faster,
    )
    else if ltb (add32 r.last_round_trip_time (mul32 2 r.last_round_trip_time_variance)) rtt
    then (
      with_throttle t (
          if ltb t.packet_throttle_deceleration t.packet_throttle
          then t.packet_throttle - t.packet_throttle_deceleration
          else 0),
      slower,
    )
    else (t, steady)

-- What the measured round trip time decides: the trend, and the throttle before and after. The
-- threshold of a worse time is a sum of 32 bits.
abbrev pub Follows : RoundTrip → ℕ → Trend → PacketThrottle → PacketThrottle → Type 0
Follows r rtt slower t t' =
    (r.last_round_trip_time_variance < r.last_round_trip_time)
    × (r.last_round_trip_time < rtt)
    × ((r.last_round_trip_time + 2 * r.last_round_trip_time_variance) % 2 ^ 32 < rtt)
    × (t'.packet_throttle + min t.packet_throttle t.packet_throttle_deceleration
        ≡ t.packet_throttle)
Follows r rtt steady t t' =
    ((r.last_round_trip_time ≤ r.last_round_trip_time_variance)
      × (t'.packet_throttle ≡ t.packet_throttle_limit))
    ⊎ ((r.last_round_trip_time_variance < r.last_round_trip_time)
        × (r.last_round_trip_time < rtt)
        × (rtt ≤ (r.last_round_trip_time + 2 * r.last_round_trip_time_variance) % 2 ^ 32)
        × (t'.packet_throttle ≡ t.packet_throttle))
Follows r rtt faster t t' =
    (r.last_round_trip_time_variance < r.last_round_trip_time)
    × (rtt ≤ r.last_round_trip_time)
    × (((t.packet_throttle ≤ t'.packet_throttle)
          × (t'.packet_throttle
              ≡ min (t.packet_throttle + t.packet_throttle_acceleration) t.packet_throttle_limit))
        ⊎ (2 ^ 32 ≤ t.packet_throttle + t.packet_throttle_acceleration))

-- Where the throttle is within its limit, it stays within it, whatever acceleration a peer asked for,
-- the wrap of the sum included, and nothing but the throttle itself changes. If the last round trip
-- was no longer than its variance, the throttle is set to its limit. Otherwise a round trip no longer
-- than the last raises it by the acceleration, up to the limit, unless the sum wraps; one that is
-- longer than the last, and than the sum of the last and twice its variance in 32 bits, lowers it by
-- the deceleration, down to 0; any other leaves it. The trend says which of these it was.
pub peer_throttle_bounds :
    (r : RoundTrip) (t : PacketThrottle) (rtt : ℕ)
    → t.packet_throttle ≤ t.packet_throttle_limit
    → t.packet_throttle_limit < 2 ^ 32
    → let (t', trend) = peer_throttle r t rtt in
      (t' ≡ with_throttle t t'.packet_throttle)
      × (t'.packet_throttle ≤ t.packet_throttle_limit)
      × Follows r rtt trend t t'
unfolding peer_throttle
peer_throttle_bounds r t rtt h small = (ground arith, ground arith, followed)
  where
    followed : Follows r rtt (peer_throttle r t rtt).1 t (peer_throttle r t rtt).0
    followed = elim (Bool-cases (leb r.last_round_trip_time r.last_round_trip_time_variance)) [
      | inl e ↦ rw (peer_throttle, e) (inl (ground (arith, e), refl))
      | inr e ↦ elim (Bool-cases (leb rtt r.last_round_trip_time)) [
        | inl f ↦ rw (peer_throttle, e, f) (ground (arith, e), ground (arith, f), ground arith)
        | inr f ↦
            elim (Bool-cases
              (ltb (add32 r.last_round_trip_time (mul32 2 r.last_round_trip_time_variance)) rtt)) [
                | inl g ↦
                    rw (peer_throttle, e, f, g)
                      (ground (arith, e), ground (arith, f), ground (arith, g), ground arith)
                | inr g ↦
                    rw (peer_throttle, e, f, g)
                      (inr (ground (arith, e), ground (arith, f), ground (arith, g), refl))
              ]
      ]
    ]
