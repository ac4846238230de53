-- ===== src/Protocol/Session.antt =====
-- src/protocol.cpp and src/host.cpp: what two hosts agree on when they connect: sessions, the MTU and
-- the window.
use enetcpp.Base.{
  arith, if◌then◌else◌, ltb, mul32, ◌%◌, ◌&&◌, ◌+◌, ◌/◌, ◌<◌, ◌==◌, ◌||◌, ◌≢◌, ◌≤◌, ℕ,
}
use enetcpp.Time.{maximum, minimum}
use enetcpp.Command.Limits.{minimum_mtu, maximum_mtu, minimum_window_size, maximum_window_size}
use enetcpp.Peer.Default.{window_size_scale}

-- The new session of one direction, from the one asked for (0xFF for none) and the peer's own.
unfoldable pub next_session : ℕ → ℕ → ℕ
next_session requested own = if next == own then (next + 1) % 4 else next
  where
    next : ℕ
    next = ((if requested == 255 then own else requested) + 1) % 4

-- A session is never that of the connection before, so its packets are told apart.
pub next_session_fresh :
    (requested own : ℕ) → (next_session requested own < 4) × (next_session requested own ≢ own)
unfolding next_session
next_session_fresh requested own = (ground arith, ground arith)

unfoldable pub clamp_mtu : ℕ → ℕ
clamp_mtu mtu =
    if ltb mtu minimum_mtu then minimum_mtu else if ltb maximum_mtu mtu then maximum_mtu else mtu

-- `peer->mtu` after the MTU of the other side has come
unfoldable pub agreed_mtu : ℕ → ℕ → ℕ
unfolding clamp_mtu
agreed_mtu own mtu = if ltb (clamp_mtu mtu) own then clamp_mtu mtu else own

unfoldable pub clamp_window : ℕ → ℕ
clamp_window size =
    if ltb size minimum_window_size
    then minimum_window_size
    else if ltb maximum_window_size size
    then maximum_window_size
    else size

abbrev pub scaled : ℕ → ℕ
scaled bandwidth = mul32 (bandwidth / window_size_scale) minimum_window_size

-- `peer->windowSize`, from the outgoing bandwidth of the host and the incoming one of the peer
unfoldable pub send_window : ℕ → ℕ → ℕ
unfolding clamp_window
send_window outgoing incoming = clamp_window (
    if outgoing == 0 && incoming == 0
    then maximum_window_size
    else if outgoing == 0 || incoming == 0
    then scaled (maximum outgoing incoming)
    else scaled (minimum outgoing incoming))

-- `windowSize`, which the host announces, from its incoming bandwidth and what the peer asks for
unfoldable pub receive_window : ℕ → ℕ → ℕ
unfolding clamp_window
receive_window incoming requested =
    clamp_window (if ltb requested offered then requested else offered)
  where
    offered : ℕ
    offered = if incoming == 0 then maximum_window_size else scaled incoming

-- `peer->windowSize` of a peer that the host connects to
unfoldable pub connect_window : ℕ → ℕ
unfolding clamp_window
connect_window outgoing =
    clamp_window (if outgoing == 0 then maximum_window_size else scaled outgoing)

-- Every MTU and window that is agreed on lies within the limits of the protocol, whatever the other
-- side sent, where the host's own MTU does.
pub agreed_bounds :
    (own mtu outgoing incoming requested : ℕ)
    → minimum_mtu ≤ own
    → own ≤ maximum_mtu
    → (minimum_mtu ≤ agreed_mtu own mtu)
      × (agreed_mtu own mtu ≤ own)
      × (minimum_window_size ≤ send_window outgoing incoming)
      × (send_window outgoing incoming ≤ maximum_window_size)
      × (minimum_window_size ≤ receive_window incoming requested)
      × (receive_window incoming requested ≤ maximum_window_size)
      × (minimum_window_size ≤ connect_window outgoing)
      × (connect_window outgoing ≤ maximum_window_size)
unfolding agreed_mtu send_window receive_window connect_window
agreed_bounds own mtu outgoing incoming requested a b = (
  ground arith,
  ground arith,
  ground arith,
  ground arith,
  ground arith,
  ground arith,
  ground arith,
  ground arith,
)
