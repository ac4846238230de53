-- ===== src/Host/Create/Fresh.antt =====
-- src/host.cpp: the peers of a host that `host_create` returns.
use enetcpp.Base.{
  Option, ap, ltb, not, some, true, ◌||◌, ◌≤◌, List, [], arith, false, length, refl, suc, zero, ◌+◌,
  ◌<◌, ◌^◌, ◌∷◌, ◌≡◌, ℕ,
}
use enetcpp.Command.Limits.{maximum_peer_id, minimum_channel_count, maximum_channel_count}
use enetcpp.Memory.{Allocator, host_block, peer_blocks}
use enetcpp.Peer.{Peer, Address}
use enetcpp.Peer.Connection.{peer_on_disconnect}
use enetcpp.Peer.Reset.{
  no_commands, peer_reset, peer_reset_queues, reset_fields, reset_all_commands,
  reset_outgoing_commands, reset_incoming_commands, reset_channels,
}
use enetcpp.Peer.Dispatch.{remove_incoming_commands}
use enetcpp.Peer.State
use enetcpp.Host.{Host, World}
use enetcpp.Host.Configure.{limited}
use enetcpp.Host.Create.{Platform, bind_fails, blank, reset_blank, initial_host, host_create}

-- A peer that waits for its first connection, at an index of a host's array.
pub record IsIdle (mtu i : ℕ) (p : Peer) : Type 0 where
  pub numbered : p.incoming_peer_id ≡ i
  pub disconnected : p.state ≡ State.disconnected
  pub no_session : (p.outgoing_session_id ≡ 0xFF) × (p.incoming_session_id ≡ 0xFF)
  pub quiet : (p.queues ≡ no_commands) × (p.channels ≡ []) × (p.needs_dispatch ≡ false)
  pub sized : p.mtu ≡ mtu

blank-IsIdle :
    (h : Host) (i : ℕ)
    → i < 2 ^ 16
    → ((peer_reset (record { host = h; peer = blank i })).host ≡ h)
      × IsIdle h.mtu i (peer_reset (record { host = h; peer = blank i })).peer
unfolding peer_reset blank peer_on_disconnect peer_reset_queues reset_fields reset_all_commands
    reset_outgoing_commands reset_incoming_commands reset_channels remove_incoming_commands
blank-IsIdle h i small = (
  refl,
  record {
    numbered = omega (arith, small);
    disconnected = refl;
    no_session = (refl, refl);
    quiet = (refl, refl, refl);
    sized = refl;
  },
)

-- The peers from an index on.
abbrev pub AreIdle : ℕ → ℕ → List Peer → Type 0
AreIdle mtu i [] = Unit
AreIdle mtu i (p ∷ ps) = IsIdle mtu i p × AreIdle mtu (i + 1) ps

reset_blank-AreIdle :
    (h : Host) (i n : ℕ)
    → i + n < 2 ^ 16
    → ((reset_blank h i n).host ≡ h)
      × (length (reset_blank h i n).peers ≡ n)
      × AreIdle h.mtu i (reset_blank h i n).peers
unfolding reset_blank
reset_blank-AreIdle h i zero small = (refl, refl, tt)
reset_blank-AreIdle h i (suc n) small =
    let (e, idle) = blank-IsIdle h i (omega (arith, small)) in
    let (f, l, rest) = reset_blank-AreIdle h (i + 1) n (omega (arith, small)) in
    rw (reset_blank, e) (f, omega (arith, l), (idle, rest))

-- A host of idle peers that has just been created.
pub record IsReady (platform : Platform) (peer_count : ℕ) (w : World) : Type 0 where
  pub bounded : peer_count ≤ maximum_peer_id
  pub counted : length w.peers ≡ peer_count
  pub idle : AreIdle w.host.mtu 0 w.peers
  pub none_connected : (w.host.connected_peers ≡ 0) × (w.host.bandwidth_limited_peers ≡ 0)
  pub at_least : minimum_channel_count ≤ w.host.channel_limit
  pub at_most : w.host.channel_limit ≤ maximum_channel_count
  pub none_dispatched : w.host.dispatch_queue ≡ []
  pub untouched : w.host.packets ≡ platform.packets

limited_bounds : (n : ℕ) → (minimum_channel_count ≤ limited n) × (limited n ≤ maximum_channel_count)
unfolding limited
limited_bounds n = (ground arith, ground arith)

created-IsReady :
    (platform : Platform) (peer_count channel_limit incoming outgoing : ℕ)
    → peer_count ≤ maximum_peer_id
    → IsReady platform peer_count
        (reset_blank (initial_host platform channel_limit incoming outgoing) 0 peer_count)
unfolding initial_host
created-IsReady platform peer_count channel_limit incoming outgoing few =
    let h = initial_host platform channel_limit incoming outgoing in
    let (e, l, idle) = reset_blank-AreIdle h 0 peer_count (omega (arith, few)) in
    let (low, high) = limited_bounds channel_limit in
    record {
      bounded = few;
      counted = l;
      idle = rw e idle;
      none_connected =
          (ap (λ (h : Host). h.connected_peers) e, ap (λ (h : Host). h.bandwidth_limited_peers) e);
      at_least = rw e low;
      at_most = rw e high;
      none_dispatched = ap (λ (h : Host). h.dispatch_queue) e;
      untouched = ap (λ (h : Host). h.packets) e;
    }

-- Where the two allocations succeed and a socket is opened and bound, `host_create` returns a host
-- if at most 4095 peers are asked for, and that host is ready: it has that many peers, each with its
-- index for a number, no session and nothing queued, its number of channels is within the limits,
-- no peer is counted as connected, and the packets are left alone.
pub host_create-IsReady :
    (malloc : Allocator) (platform : Platform) (address : Option Address)
    (peer_count channel_limit incoming outgoing : ℕ)
    → peer_count ≤ maximum_peer_id
    → malloc.succeeds host_block ≡ true
    → malloc.succeeds peer_blocks ≡ true
    → (not platform.opens || bind_fails platform address) ≡ false
    → (w : World) × ((host_create malloc platform address peer_count channel_limit incoming
          outgoing).world
        ≡ some w)
      × IsReady platform peer_count w
unfolding host_create
host_create-IsReady malloc platform address peer_count channel_limit incoming outgoing few f g h =
    let e : ltb maximum_peer_id peer_count ≡ false = ground (arith, few) in
    (
      reset_blank (initial_host platform channel_limit incoming outgoing) 0 peer_count,
      rw (host_create, e, f, g, h) refl,
      created-IsReady platform peer_count channel_limit incoming outgoing few,
    )
