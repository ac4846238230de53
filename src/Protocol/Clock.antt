-- ===== src/Protocol/Clock.antt =====
-- src/protocol.cpp, `enet_protocol_handle_acknowledge`: the time at which a command was sent, from the
-- 16 bits of it that come back, and the round trip time.
use enetcpp.Base.{
  add32, arith, has_bit, if◌then◌else◌, leb, ltb, max, min, not, sub32, wrap32, ◌%◌, ◌&&◌, ◌*◌, ◌+◌,
  ◌-◌, ◌/◌, ◌<◌, ◌^◌, ◌≡◌, ◌≤◌, ℕ,
}
use enetcpp.Time.{maximum}
use enetcpp.Peer.{RoundTrip}

-- `receivedSentTime`, completed from `host->serviceTime`
unfoldable pub received_sent_time : ℕ → ℕ → ℕ
received_sent_time service_time low =
    if has_bit 32768 joined && not (has_bit 32768 service_time) then sub32 joined 65536 else joined
  where
    joined : ℕ
    joined = service_time - service_time % 65536 + low

-- A time that was sent less than 2 ^ 15 milliseconds ago is found again from its low 16 bits, also
-- where the 16-bit or the 32-bit clock has wrapped since.
pub received_sent_time_exact :
    (sent elapsed : ℕ)
    → elapsed < 32768
    → received_sent_time (wrap32 (sent + elapsed)) (wrap32 sent % 65536) ≡ wrap32 sent
unfolding received_sent_time
received_sent_time_exact sent elapsed h = ground arith

-- The mean and the variance of the round trip time, where a time has been measured before.
unfoldable pub smooth_round_trip : RoundTrip → ℕ → RoundTrip
smooth_round_trip r measured =
    if leb r.round_trip_time measured
    then record r {
      round_trip_time_variance = add32 decayed ((measured - r.round_trip_time) / 4);
      round_trip_time = add32 r.round_trip_time ((measured - r.round_trip_time) / 8);
    }
    else record r {
      round_trip_time_variance = add32 decayed ((r.round_trip_time - measured) / 4);
      round_trip_time = r.round_trip_time - (r.round_trip_time - measured) / 8;
    }
  where
    decayed : ℕ
    decayed = r.round_trip_time_variance - r.round_trip_time_variance / 4

-- The first measurement.
unfoldable pub first_round_trip : RoundTrip → ℕ → RoundTrip
first_round_trip r measured = record r {
  round_trip_time = measured;
  round_trip_time_variance = add32 measured 1 / 2;
}

-- `lowestRoundTripTime` and `highestRoundTripTimeVariance`
unfoldable pub track_extremes : RoundTrip → RoundTrip
track_extremes r = record r {
  lowest_round_trip_time =
      if ltb r.round_trip_time r.lowest_round_trip_time
      then r.round_trip_time
      else r.lowest_round_trip_time;
  highest_round_trip_time_variance =
      if ltb r.highest_round_trip_time_variance r.round_trip_time_variance
      then r.round_trip_time_variance
      else r.highest_round_trip_time_variance;
}

-- The values of an interval become the last ones, and a new interval begins.
unfoldable pub next_interval : RoundTrip → RoundTrip
next_interval r = record r {
  last_round_trip_time = r.lowest_round_trip_time;
  last_round_trip_time_variance = maximum r.highest_round_trip_time_variance 1;
  lowest_round_trip_time = r.round_trip_time;
  highest_round_trip_time_variance = r.round_trip_time_variance;
}

-- For 32-bit values, the mean moves towards what was measured and not past it; four times the new
-- variance is at most three times the old one, plus 3 and the deviation, and it fits its word; the
-- time of the last interval stays.
pub smooth_round_trip_bounds :
    (r : RoundTrip) (measured : ℕ)
    → measured < 2 ^ 32
    → r.round_trip_time < 2 ^ 32
    → r.round_trip_time_variance < 2 ^ 32
    → let r' = smooth_round_trip r measured in
      (min r.round_trip_time measured ≤ r'.round_trip_time)
      × (r'.round_trip_time ≤ max r.round_trip_time measured)
      × (4 * r'.round_trip_time_variance
          ≤ 3 * r.round_trip_time_variance
            + 3
            + (max r.round_trip_time measured - min r.round_trip_time measured))
      × (r'.round_trip_time_variance < 2 ^ 32)
      × (r'.last_round_trip_time ≡ r.last_round_trip_time)
unfolding smooth_round_trip
smooth_round_trip_bounds r measured a b c =
    (ground arith, ground arith, ground arith, ground arith, ground arith)
