-- ===== src/Peer/Counters.antt =====
-- The host's counters of connected and of bandwidth-limited peers, through every change of state.
use enetcpp.Base.{
  Option, Option-cases, get_elem?, inl, inr, length, Bool, arith, false, true, ◌%◌, ◌&&◌, ◌+◌, ◌^◌,
  ◌≡◌, ℕ,
}
use enetcpp.Command.{Protocol}
use enetcpp.Memory.{Allocator}
use enetcpp.Command.{header}
use enetcpp.Peer.{Peer, OutgoingCommand, Channel}
use enetcpp.Peer.Outgoing.{
  number_on_channel, number_command, enqueue, count_data, peer_setup_outgoing_command,
  peer_queue_outgoing_command, new_command, retain_packet,
}
use enetcpp.Peer.State.{PeerState, is_connected}
use enetcpp.Peer.Connection.{limits_bandwidth, peer_on_connect, peer_on_disconnect}
use enetcpp.Peer.Disconnect.{with_state}
use enetcpp.Host.{Conn}

abbrev pub one_if : Bool → ℕ
one_if true = 1
one_if false = 0

-- The counters are the numbers for the other peers with this one's share.
pub record IsCounted (others limited : ℕ) (c : Conn) : Type 0 where
  pub connected : c.host.connected_peers ≡ (others + one_if (is_connected c.peer.state)) % 2 ^ 64
  pub bandwidth_limited :
      c.host.bandwidth_limited_peers
      ≡ (limited + one_if (is_connected c.peer.state && limits_bandwidth c.peer)) % 2 ^ 64

module _ (others limited : ℕ) where
  -- Only the counters, the state and the incoming bandwidth matter.
  pub unchanged-IsCounted :
      (c d : Conn)
      → d.host.connected_peers ≡ c.host.connected_peers
      → d.host.bandwidth_limited_peers ≡ c.host.bandwidth_limited_peers
      → d.peer.state ≡ c.peer.state
      → d.peer.bandwidth.incoming_bandwidth ≡ c.peer.bandwidth.incoming_bandwidth
      → IsCounted others limited c
      → IsCounted others limited d
  unchanged-IsCounted c d p q r s v = record {
    connected = rw (p, r) v.connected;
    bandwidth_limited = rw (q, r, s) v.bandwidth_limited;
  }

  -- A connected peer that leaves takes its share along, whatever state it goes to from there.
  pub on_disconnect-IsCounted :
      (c : Conn) (s : PeerState)
      → is_connected s ≡ false
      → IsCounted others limited c
      → IsCounted others limited (with_state (peer_on_disconnect c) s)
  unfolding peer_on_disconnect
  on_disconnect-IsCounted c s e v = ground arith

  pub on_connect-IsCounted :
      (c : Conn) (s : PeerState)
      → is_connected s ≡ true
      → IsCounted others limited c
      → IsCounted others limited (with_state (peer_on_connect c) s)
  unfolding peer_on_connect
  on_connect-IsCounted c s e v = ground arith

-- What the counters are made of, unchanged.
pub record IsSame (c d : Conn) : Type 0 where
  pub connected : d.host.connected_peers ≡ c.host.connected_peers
  pub bandwidth_limited : d.host.bandwidth_limited_peers ≡ c.host.bandwidth_limited_peers
  pub state : d.peer.state ≡ c.peer.state
  pub bandwidth : d.peer.bandwidth.incoming_bandwidth ≡ c.peer.bandwidth.incoming_bandwidth

pub IsSame-IsCounted :
    (others limited : ℕ) (c d : Conn)
    → IsSame c d
    → IsCounted others limited c
    → IsCounted others limited d
IsSame-IsCounted others limited c d s v =
    unchanged-IsCounted others limited c d s.connected s.bandwidth_limited s.state s.bandwidth v

number_on_channel-same :
    (p : Peer) (o : OutgoingCommand) (ch : Channel)
    → ((number_on_channel p o ch).0.state ≡ p.state)
      × ((number_on_channel p o ch).0.bandwidth ≡ p.bandwidth)
unfolding number_on_channel
number_on_channel-same p o ch = (ground arith, ground arith)

number_command-same :
    (p : Peer) (o : OutgoingCommand)
    → ((number_command p o).0.state ≡ p.state) × ((number_command p o).0.bandwidth ≡ p.bandwidth)
unfolding number_command
number_command-same p o = elim (Option-cases (get_elem? p.channels (header o.command).channel_id)) [
  | inl e ↦ (ground arith, ground arith)
  | inr (ch, e) ↦
      (ground (arith, number_on_channel-same p o ch), ground (arith, number_on_channel-same p o ch))
]

pub setup-IsSame : (c : Conn) (o : OutgoingCommand) → IsSame c (peer_setup_outgoing_command c o)
unfolding peer_setup_outgoing_command enqueue count_data
setup-IsSame c o = ground (arith, number_command-same (count_data c.peer o) o)

pub queue_outgoing-IsSame :
    (malloc : Allocator) (c : Conn) (command : Protocol) (packet : Option ℕ) (offset length : ℕ)
    → IsSame c (peer_queue_outgoing_command malloc c command packet offset length).0
unfolding peer_queue_outgoing_command
queue_outgoing-IsSame malloc c command packet offset length = ground (
  arith,
  setup-IsSame (record c { host = record c.host { packets = retain_packet c.host.packets packet } })
      (new_command command packet offset length),
)
