-- ===== src/Host/Bandwidth.antt =====
-- src/host.cpp, `host_bandwidth_throttle`: how the outgoing bandwidth is shared among the peers.
pub mod Bounds
pub mod Ending
use enetcpp.Base.{
  Bool, List, [], add32, false, if◌then◌else◌, leb, length, ltb, mul32, not, sub32, suc, true,
  wrap32, zero, ℕ, ◌&&◌, ◌+◌, ◌/◌, ◌==◌, ◌∷◌,
}
use enetcpp.Command.Number
use enetcpp.Peer.{Peer}
use enetcpp.Peer.Default.{packet_throttle_scale}
use enetcpp.Peer.State.{is_connected}
use enetcpp.Host.{Host}

-- `HOST_BANDWIDTH_THROTTLE_INTERVAL`
abbrev pub bandwidth_throttle_interval : ℕ
bandwidth_throttle_interval = 1000

-- `~0`
abbrev pub all_ones : ℕ
all_ones = 4294967295

-- The variables of the loops.
pub record Share : Type 0 where
  pub remaining : ℕ
  pub data_total : ℕ
  pub bandwidth : ℕ
  pub needs_adjustment : Bool

-- The bytes of an interval at a bandwidth. The product is of 32 bits.
abbrev pub interval_bytes : ℕ → ℕ → ℕ
interval_bytes bandwidth elapsed = mul32 bandwidth elapsed / 1000

-- `throttle`, of which the divisor is not 0.
unfoldable pub throttle_of : Share → ℕ
throttle_of s =
    if leb s.data_total s.bandwidth
    then packet_throttle_scale
    else mul32 s.bandwidth packet_throttle_scale / s.data_total

-- `dataTotal` of the connected peers
unfoldable pub sum_data : ℕ → List Peer → ℕ
sum_data total [] = total
sum_data total (p ∷ ps) =
    sum_data (if is_connected p.state then add32 total p.bandwidth.outgoing_data_total else total)
      ps

-- `packetThrottleLimit`, with the throttle below it, and the totals of the interval.
abbrev pub limit_to : Peer → ℕ → Peer
limit_to p limit = record p {
  throttle = record p.throttle {
    packet_throttle_limit = limit;
    packet_throttle =
        if ltb limit p.throttle.packet_throttle then limit else p.throttle.packet_throttle;
  };
  bandwidth = record p.bandwidth { incoming_data_total = 0; outgoing_data_total = 0 };
}

-- A peer that takes less than its share: its own bandwidth is smaller than what it would send.
abbrev pub is_adjustable : ℕ → Peer → Bool
is_adjustable now p =
    is_connected p.state
    && not (p.bandwidth.incoming_bandwidth == 0)
    && not (p.bandwidth.outgoing_bandwidth_throttle_epoch == now)

abbrev pub peer_bytes : ℕ → Peer → ℕ
peer_bytes elapsed p = interval_bytes p.bandwidth.incoming_bandwidth elapsed

abbrev pub is_narrow : ℕ → ℕ → Peer → Bool
is_narrow elapsed throttle p =
    ltb (peer_bytes elapsed p)
      (mul32 throttle p.bandwidth.outgoing_data_total / packet_throttle_scale)

abbrev pub narrow_limit : ℕ → Peer → ℕ
narrow_limit elapsed p =
    let limit =
      mul32 (peer_bytes elapsed p) packet_throttle_scale / p.bandwidth.outgoing_data_total in
    if limit == 0 then 1 else limit

abbrev pub with_outgoing_epoch : Peer → ℕ → Peer
with_outgoing_epoch p now = record p {
  bandwidth = record p.bandwidth { outgoing_bandwidth_throttle_epoch = now };
}

unfoldable pub adjust_peer : ℕ → ℕ → ℕ → Share → Peer → Share × Peer
adjust_peer now elapsed throttle s p =
    if is_adjustable now p && is_narrow elapsed throttle p
    then (
      record {
        remaining = sub32 s.remaining 1;
        data_total = sub32 s.data_total (peer_bytes elapsed p);
        bandwidth = sub32 s.bandwidth (peer_bytes elapsed p);
        needs_adjustment = true;
      },
      with_outgoing_epoch (limit_to p (narrow_limit elapsed p)) now,
    )
    else (s, p)

-- A pass over the peers, at one throttle.
unfoldable pub adjust_all : ℕ → ℕ → ℕ → Share → List Peer → Share × List Peer
unfolding adjust_peer
adjust_all now elapsed throttle s [] = (s, [])
adjust_all now elapsed throttle s (p ∷ ps) =
    let (s', p') = adjust_peer now elapsed throttle s p in
    let (last, rest) = adjust_all now elapsed throttle s' ps in (last, p' ∷ rest)

abbrev pub is_unsettled : Share → Bool
is_unsettled s = ltb 0 s.remaining && s.needs_adjustment

-- The `while` loop. A pass after which it goes on has adjusted a peer.
unfoldable pub adjust_passes : ℕ → ℕ → ℕ → Share → List Peer → Share × List Peer
unfolding adjust_all throttle_of
adjust_passes zero now elapsed s ps = (s, ps)
adjust_passes (suc fuel) now elapsed s ps =
    let next = adjust_all now elapsed (throttle_of s) (record s { needs_adjustment = false }) ps in
    let rest = adjust_passes fuel now elapsed next.0 next.1 in
    if is_unsettled s then rest else (s, ps)

-- The peers that have not been adjusted share what is left.
unfoldable pub share_rest : ℕ → ℕ → List Peer → List Peer
share_rest now throttle [] = []
share_rest now throttle (p ∷ ps) =
    (if is_connected p.state && not (p.bandwidth.outgoing_bandwidth_throttle_epoch == now)
      then limit_to p throttle
      else p)
    ∷ share_rest now throttle ps

-- `dataTotal`, `bandwidth` and the other variables at the start.
unfoldable pub start_share : Host → List Peer → ℕ → Share
unfolding sum_data
start_share h ps elapsed = record {
  remaining = wrap32 h.connected_peers;
  data_total = if h.outgoing_bandwidth == 0 then all_ones else sum_data 0 ps;
  bandwidth =
      if h.outgoing_bandwidth == 0 then all_ones else interval_bytes h.outgoing_bandwidth elapsed;
  needs_adjustment = ltb 0 h.bandwidth_limited_peers;
}

-- The part of the call for the outgoing bandwidth.
unfoldable pub throttle_outgoing : Host → List Peer → ℕ → ℕ → List Peer
unfolding start_share adjust_passes throttle_of share_rest
throttle_outgoing h ps now elapsed =
    let (s, adjusted) = adjust_passes (length ps + 1) now elapsed (start_share h ps elapsed) ps in
    if ltb 0 s.remaining then share_rest now (throttle_of s) adjusted else adjusted
