-- ===== src/Protocol/Connect.antt =====
-- src/protocol.cpp, `enet_protocol_handle_connect`, and src/host.cpp, `host_connect`.
pub mod Choice
use enetcpp.Base.{
  Bool, List, Option, [], add32, false, get_elem?, if◌then◌else◌, leb, ltb, mul32, none, not,
  replicate, set, some, true, ◌&&◌, ◌+◌, ◌/◌, ◌==◌, ◌^◌, ◌||◌, ◌∷◌, ℕ,
}
use enetcpp.Command.{Protocol, Connect, connect, verify_connect, acknowledged, CommandHeader}
use enetcpp.Command.Number
use enetcpp.Command.Limits.{minimum_channel_count, maximum_channel_count}
use Prim.Native.Nat.{bit_or, bit_xor}
use enetcpp.Memory.{Allocator, channels}
use enetcpp.Peer.{Peer, Channel, Address}
use enetcpp.Peer.State
use enetcpp.Peer.State.{PeerState, value}
use enetcpp.Host.{Host, Conn, World}
use enetcpp.Peer.Outgoing.{peer_queue_outgoing_command}
use enetcpp.Protocol.Session.{next_session, agreed_mtu, send_window, receive_window, connect_window}

-- A channel after the loop that initialises it.
abbrev pub fresh_channel : Channel
fresh_channel = record {
  outgoing_reliable_sequence_number = 0;
  outgoing_unreliable_sequence_number = 0;
  used_reliable_windows = λ _. false;
  reliable_windows = λ _. 0;
  incoming_reliable_sequence_number = 0;
  incoming_unreliable_sequence_number = 0;
  incoming_reliable_commands = [];
  incoming_unreliable_commands = [];
}

abbrev pub is_state : PeerState → Peer → Bool
is_state s p = value p.state == value s

-- What the loop over the peers has found: the first that is free and the number of those of the same
-- address, or that the request is known already.
pub data Search : Type 0 where
  known : Search
  found : Option ℕ → ℕ → Search

-- A peer other than those that connect from here, at the same host.
abbrev pub is_duplicate : Address → Peer → Bool
is_duplicate a p = not (is_state State.connecting p) && p.address.host == a.host

abbrev pub first_free : Option ℕ → ℕ → Option ℕ
first_free none i = some i
first_free (some j) i = some j

unfoldable pub search_peers : Address → ℕ → List Peer → ℕ → Option ℕ → ℕ → Search
search_peers a connect_id [] i free duplicates = found free duplicates
search_peers a connect_id (p ∷ ps) i free duplicates =
    if is_state State.disconnected p
    then search_peers a connect_id ps (i + 1) (first_free free i) duplicates
    else if is_duplicate a p
    then if p.address.port == a.port && p.connect_id == connect_id
      then known
      else search_peers a connect_id ps (i + 1) free (duplicates + 1)
    else search_peers a connect_id ps (i + 1) free duplicates

-- The assignments to the peer, up to the MTU and the window.
unfoldable pub accept : Host → Peer → Connect → ℕ → Peer
unfolding next_session agreed_mtu send_window
accept h p command channel_count = record p {
  channels = replicate channel_count fresh_channel;
  channel_count = channel_count;
  state = State.acknowledging_connect;
  connect_id = command.connect_id;
  address = h.received_address;
  mtu = agreed_mtu h.mtu command.mtu;
  outgoing_peer_id = command.outgoing_peer_id;
  bandwidth = record p.bandwidth {
    incoming_bandwidth = command.incoming_bandwidth;
    outgoing_bandwidth = command.outgoing_bandwidth;
  };
  throttle = record p.throttle {
    packet_throttle_interval = command.packet_throttle_interval;
    packet_throttle_acceleration = command.packet_throttle_acceleration;
    packet_throttle_deceleration = command.packet_throttle_deceleration;
  };
  event_data = command.user_data;
  outgoing_session_id = next_session command.incoming_session_id p.outgoing_session_id;
  incoming_session_id = next_session command.outgoing_session_id p.incoming_session_id;
  window_size = send_window h.outgoing_bandwidth command.incoming_bandwidth;
}

abbrev pub peer_header : ℕ → CommandHeader
peer_header command = record { command = command; channel_id = 255; reliable_sequence_number = 0 }

-- `verifyCommand`
abbrev pub verification : Host → Peer → Connect → ℕ → Protocol
verification h p command channel_count = verify_connect (record {
  header = peer_header (acknowledged Number.verify_connect);
  outgoing_peer_id = p.incoming_peer_id;
  incoming_session_id = p.outgoing_session_id;
  outgoing_session_id = p.incoming_session_id;
  mtu = p.mtu;
  window_size = receive_window h.incoming_bandwidth command.window_size;
  channel_count = channel_count;
  incoming_bandwidth = h.incoming_bandwidth;
  outgoing_bandwidth = h.outgoing_bandwidth;
  packet_throttle_interval = p.throttle.packet_throttle_interval;
  packet_throttle_acceleration = p.throttle.packet_throttle_acceleration;
  packet_throttle_deceleration = p.throttle.packet_throttle_deceleration;
  connect_id = p.connect_id;
})

-- From the allocation of the channels on. With whether the peer is returned.
unfoldable pub accept_connect : Allocator → Conn → Connect → Conn × Bool
unfolding accept
accept_connect malloc c command =
    if malloc.succeeds channels
    then (
      (peer_queue_outgoing_command malloc (record c { peer = accepted })
          (verification c.host accepted command count) none 0 0).0,
      true,
    )
    else (c, false)
  where
    count : ℕ
    count =
        if ltb c.host.channel_limit command.channel_count
        then c.host.channel_limit
        else command.channel_count

    accepted : Peer
    accepted = accept c.host c.peer command count

-- The array with a peer and the shared part put back.
abbrev pub put_back : World → ℕ → Conn → World
put_back w i c = record { host = c.host; peers = set w.peers i c.peer }

unfoldable pub connect_at : Allocator → World → Connect → ℕ → World × Option ℕ
unfolding accept_connect
connect_at malloc w command i = elim (get_elem? w.peers i) [
  | none ↦ (w, none)
  | some p ↦
      let (c, accepted) = accept_connect malloc (record { host = w.host; peer = p }) command in
      if accepted then (put_back w i c, some i) else (w, none)
]

-- The test of the free peer and of the duplicates.
abbrev pub place_connect : Allocator → World → Connect → Search → World × Option ℕ
place_connect malloc w command known = (w, none)
place_connect malloc w command (found none duplicates) = (w, none)
place_connect malloc w command (found (some i) duplicates) =
    if leb w.host.duplicate_peers duplicates then (w, none) else connect_at malloc w command i

-- With the index of the peer that is returned; `none` is a null pointer.
unfoldable pub handle_connect : Allocator → World → Connect → World × Option ℕ
unfolding search_peers connect_at
handle_connect malloc w command =
    if ltb command.channel_count minimum_channel_count
      || ltb maximum_channel_count command.channel_count
    then (w, none)
    else place_connect malloc w command
        (search_peers w.host.received_address command.connect_id w.peers 0 none 0)

-- `host_random`: Mulberry32
unfoldable pub host_random : Host → Host × ℕ
host_random h =
    let seed = add32 h.random_seed 0x6D2B79F5 in
    let n = mul32 (bit_xor seed (seed / 2 ^ 15)) (bit_or seed 1) in
    let m = bit_xor n (add32 n (mul32 (bit_xor n (n / 2 ^ 7)) (bit_or n 61))) in
    (record h { random_seed = seed }, bit_xor m (m / 2 ^ 14))

-- The channel count of `host_connect`.
abbrev pub clamp_channels : ℕ → ℕ
clamp_channels n =
    if ltb n minimum_channel_count
    then minimum_channel_count
    else if ltb maximum_channel_count n
    then maximum_channel_count
    else n

-- The loop that looks for a free peer.
unfoldable pub find_free : List Peer → ℕ → Option ℕ
find_free [] i = none
find_free (p ∷ ps) i = if is_state State.disconnected p then some i else find_free ps (i + 1)

-- The assignments of `host_connect` to the peer.
unfoldable pub start : Host → Peer → Address → ℕ → ℕ → Peer
unfolding connect_window
start h p address channel_count connect_id = record p {
  channels = replicate channel_count fresh_channel;
  channel_count = channel_count;
  state = State.connecting;
  address = address;
  connect_id = connect_id;
  mtu = h.mtu;
  window_size = connect_window h.outgoing_bandwidth;
}

abbrev pub request : Host → Peer → ℕ → ℕ → Protocol
request h p channel_count user_data = connect (record {
  header = peer_header (acknowledged Number.connect);
  outgoing_peer_id = p.incoming_peer_id;
  incoming_session_id = p.incoming_session_id;
  outgoing_session_id = p.outgoing_session_id;
  mtu = p.mtu;
  window_size = p.window_size;
  channel_count = channel_count;
  incoming_bandwidth = h.incoming_bandwidth;
  outgoing_bandwidth = h.outgoing_bandwidth;
  packet_throttle_interval = p.throttle.packet_throttle_interval;
  packet_throttle_acceleration = p.throttle.packet_throttle_acceleration;
  packet_throttle_deceleration = p.throttle.packet_throttle_deceleration;
  connect_id = p.connect_id;
  user_data = user_data;
})

unfoldable pub start_connect : Allocator → Conn → Address → ℕ → ℕ → Conn
unfolding host_random start
start_connect malloc c address channel_count user_data =
    let (h, connect_id) = host_random c.host in
    let p = start h c.peer address channel_count connect_id in
    (peer_queue_outgoing_command malloc (record { host = h; peer = p })
      (request h p channel_count user_data) none 0 0).0

unfoldable pub host_connect : Allocator → World → Address → ℕ → ℕ → World × Option ℕ
unfolding start_connect find_free
host_connect malloc w address channel_count user_data = elim (find_free w.peers 0) [
  | none ↦ (w, none)
  | some i ↦ elim (get_elem? w.peers i) [
    | none ↦ (w, none)
    | some p ↦
        if malloc.succeeds channels
        then (
          put_back w i (
              start_connect malloc (record { host = w.host; peer = p }) address
                (clamp_channels channel_count) user_data),
          some i,
        )
        else (w, none)
  ]
]
