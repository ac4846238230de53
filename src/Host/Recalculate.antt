-- ===== src/Host/Recalculate.antt =====
-- src/host.cpp, `host_bandwidth_throttle`: the limits that are announced to the peers, and the call.
use enetcpp.Base.{
  Bool, List, [], false, if◌then◌else◌, leb, length, ltb, none, not, sub32, suc, true, wrap32, zero,
  ℕ, ◌&&◌, ◌+◌, ◌/◌, ◌==◌, ◌∷◌,
}
use enetcpp.Command.{Protocol, bandwidth_limit, acknowledged}
use enetcpp.Command.Number
use enetcpp.Memory.{Allocator}
use enetcpp.Peer.{Peer}
use enetcpp.Peer.State.{is_connected}
use enetcpp.Peer.Outgoing.{peer_queue_outgoing_command}
use enetcpp.Host.{Host, World}
use enetcpp.Host.Bandwidth.{bandwidth_throttle_interval, throttle_outgoing}

-- The variables of the loops; `bandwidthLimit` is 0 before the first pass.
pub record Budget : Type 0 where
  pub remaining : ℕ
  pub bandwidth : ℕ
  pub limit : ℕ
  pub needs_adjustment : Bool

-- A peer that sends less than the limit keeps its own bandwidth.
abbrev pub is_below : ℕ → ℕ → Peer → Bool
is_below now limit p =
    is_connected p.state
    && not (p.bandwidth.incoming_bandwidth_throttle_epoch == now)
    && not (ltb 0 p.bandwidth.outgoing_bandwidth && leb limit p.bandwidth.outgoing_bandwidth)

unfoldable pub settle_peer : ℕ → Budget → Peer → Budget × Peer
settle_peer now b p =
    if is_below now b.limit p
    then (
      record b {
        remaining = sub32 b.remaining 1;
        bandwidth = sub32 b.bandwidth p.bandwidth.outgoing_bandwidth;
        needs_adjustment = true;
      },
      record p { bandwidth = record p.bandwidth { incoming_bandwidth_throttle_epoch = now } },
    )
    else (b, p)

unfoldable pub settle_all : ℕ → Budget → List Peer → Budget × List Peer
unfolding settle_peer
settle_all now b [] = (b, [])
settle_all now b (p ∷ ps) =
    let (b', p') = settle_peer now b p in
    let (last, rest) = settle_all now b' ps in (last, p' ∷ rest)

-- The `while` loop. A pass after which it goes on has settled a peer.
unfoldable pub settle_passes : ℕ → ℕ → Budget → List Peer → Budget × List Peer
unfolding settle_all
settle_passes zero now b ps = (b, ps)
settle_passes (suc fuel) now b ps =
    let next =
      settle_all now (record b { limit = b.bandwidth / b.remaining; needs_adjustment = false })
        ps in
    let rest = settle_passes fuel now next.0 next.1 in
    if ltb 0 b.remaining && b.needs_adjustment then rest else (b, ps)

abbrev pub limit_command : Host → ℕ → Peer → ℕ → Protocol
limit_command h now p limit = bandwidth_limit (record {
  header = record {
    command = acknowledged Number.bandwidth_limit;
    channel_id = 255;
    reliable_sequence_number = 0;
  };
  incoming_bandwidth =
      if p.bandwidth.incoming_bandwidth_throttle_epoch == now
      then p.bandwidth.outgoing_bandwidth
      else limit;
  outgoing_bandwidth = h.outgoing_bandwidth;
})

-- The command is queued for every connected peer; the host changes with each call.
unfoldable pub announce_limits : Allocator → Host → ℕ → ℕ → List Peer → World
unfolding peer_queue_outgoing_command
announce_limits malloc h now limit [] = record { host = h; peers = [] }
announce_limits malloc h now limit (p ∷ ps) =
    let c =
      (peer_queue_outgoing_command malloc (record { host = h; peer = p })
        (limit_command h now p limit) none 0 0).0 in
    let told = is_connected p.state in
    let rest = announce_limits malloc (if told then c.host else h) now limit ps in
    record { host = rest.host; peers = (if told then c.peer else p) ∷ rest.peers }

-- `if (host->recalculateBandwidthLimits) …`
unfoldable pub recalculate_limits : Allocator → Host → ℕ → List Peer → World
unfolding settle_passes announce_limits
recalculate_limits malloc h now ps =
    let (b, settled) =
      settle_passes (length ps + 1) now
        (record {
          remaining = wrap32 h.connected_peers;
          bandwidth = h.incoming_bandwidth;
          limit = 0;
          needs_adjustment = true;
        })
        ps in
    if not h.recalculate_bandwidth_limits
    then record { host = h; peers = ps }
    else if h.incoming_bandwidth == 0
    then announce_limits malloc (record h { recalculate_bandwidth_limits = false }) now 0 ps
    else announce_limits malloc (record h { recalculate_bandwidth_limits = false }) now b.limit
        settled

-- `now` is what `time_get` returns.
unfoldable pub host_bandwidth_throttle : Allocator → World → ℕ → World
unfolding throttle_outgoing recalculate_limits
host_bandwidth_throttle malloc w now =
    let elapsed = sub32 now w.host.bandwidth_throttle_epoch in
    let h = record w.host { bandwidth_throttle_epoch = now } in
    if ltb elapsed bandwidth_throttle_interval
    then w
    else if wrap32 h.connected_peers == 0
    then record w { host = h }
    else recalculate_limits malloc h now (throttle_outgoing h w.peers now elapsed)
