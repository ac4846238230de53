-- ===== src/Protocol/Connect/Choice.antt =====
-- src/protocol.cpp, `enet_protocol_handle_connect`: the peer that is chosen.
use enetcpp.Base.{
  add32, if◌then◌else◌, suc, set, ltb, leb, ◌||◌, ◌&&◌, ◌==◌, ap, ◌∙◌, set, suc, ◌&&◌, ◌==◌, ℕ, ◌≡◌,
  ◌+◌, List, [], ◌∷◌, refl, arith, none, some, Option, Option-cases, Bool-cases, inl, inr, true,
  get_elem?, ◌⊎◌,
}
use enetcpp.Command.{flag_acknowledge, Connect, Protocol, header}
use enetcpp.Command.Limits.{minimum_channel_count, maximum_channel_count}
use enetcpp.Peer.Outgoing.{
  number_on_channel, number_command, enqueue, prepare, count_data, peer_setup_outgoing_command,
  peer_queue_outgoing_command, new_command,
}
use enetcpp.Memory.{Allocator, channels, outgoing_command}
use enetcpp.Peer.{Peer, Address, Channel, OutgoingCommand}
use enetcpp.Peer.State
use enetcpp.Host.{World, Conn}
use enetcpp.Protocol.Connect.{
  Search, known, found, search_peers, is_state, is_duplicate, first_free, handle_connect,
  connect_at, accept_connect, accept, verification, place_connect,
}

-- The index is the one found before, or that of a disconnected peer of the list, which starts at `i`.
abbrev IsFree : List Peer → ℕ → Option ℕ → Search → Type 0
IsFree ps i free known = Unit
IsFree ps i free (found none d) = Unit
IsFree ps i free (found (some k) d) =
    (free ≡ some k)
    ⊎ ((n : ℕ) × (p : Peer) × (k ≡ i + n)
        × (get_elem? ps n ≡ some p)
        × (is_state State.disconnected p ≡ true))

later-IsFree :
    (p : Peer) (ps : List Peer) (i : ℕ) (free : Option ℕ) (r : Search)
    → IsFree ps (i + 1) free r
    → IsFree (p ∷ ps) i free r
later-IsFree p ps i free known h = tt
later-IsFree p ps i free (found none d) h = tt
later-IsFree p ps i free (found (some k) d) (inl e) = inl e
later-IsFree p ps i free (found (some k) d) (inr (n, q, e, at, s)) =
    inr (suc n, q, omega arith, at, s)

first_free-IsFree :
    (p : Peer) (ps : List Peer) (i : ℕ) (free : Option ℕ) (r : Search)
    → is_state State.disconnected p ≡ true
    → IsFree ps (i + 1) (first_free free i) r
    → IsFree (p ∷ ps) i free r
first_free-IsFree p ps i free known s h = tt
first_free-IsFree p ps i free (found none d) s h = tt
first_free-IsFree p ps i none (found (some k) d) s (inl e) = inr (0, p, ground (arith, e), refl, s)
first_free-IsFree p ps i (some j) (found (some k) d) s (inl e) = inl e
first_free-IsFree p ps i free (found (some k) d) s (inr (n, q, e, at, t)) =
    inr (suc n, q, omega arith, at, t)

search_peers-IsFree :
    (a : Address) (connect_id : ℕ) (ps : List Peer) (i : ℕ) (free : Option ℕ) (d : ℕ)
    → IsFree ps i free (search_peers a connect_id ps i free d)
unfolding search_peers
search_peers-IsFree a connect_id [] i none d = tt
search_peers-IsFree a connect_id [] i (some k) d = inl refl
search_peers-IsFree a connect_id (p ∷ ps) i free d =
    elim (Bool-cases (is_state State.disconnected p)) [
      | inl e ↦
          rw (search_peers, e)
            (first_free-IsFree p ps i free _ e
              (search_peers-IsFree a connect_id ps (i + 1) (first_free free i) d))
      | inr e ↦ elim (Bool-cases (is_duplicate a p)) [
        | inr f ↦
            rw (search_peers, e, f)
              (later-IsFree p ps i free _ (search_peers-IsFree a connect_id ps (i + 1) free d))
        | inl f ↦ elim (Bool-cases (p.address.port == a.port && p.connect_id == connect_id)) [
          | inl g ↦ rw (search_peers, e, f, g) tt
          | inr g ↦
              rw (search_peers, e, f, g)
                (later-IsFree p ps i free _
                  (search_peers-IsFree a connect_id ps (i + 1) free (d + 1)))
        ]
      ]
    ]

-- What `handle_connect` does: nothing, if it returns a null pointer; otherwise one peer, which was
-- disconnected, waits for the acknowledgement of the request's answer, with the identifier of the
-- request and the address that it came from, and every other peer is as before.
abbrev pub IsAnswered : World → Connect → World × Option ℕ → Type 0
IsAnswered w command (w', none) = w' ≡ w
IsAnswered w command (w', some k) =
    (p p' : Peer) × (get_elem? w.peers k ≡ some p)
    × (is_state State.disconnected p ≡ true)
    × (w'.peers ≡ set w.peers k p')
    × (p'.state ≡ State.acknowledging_connect)
    × (p'.connect_id ≡ command.connect_id)
    × (p'.address ≡ w.host.received_address)

-- What queuing a command leaves of a peer.
record IsSamePeer (p q : Peer) : Type 0 where
  state : q.state ≡ p.state
  connect_id : q.connect_id ≡ p.connect_id
  address : q.address ≡ p.address

number_on_channel-IsSamePeer :
    (p : Peer) (o : OutgoingCommand) (ch : Channel) → IsSamePeer p (number_on_channel p o ch).0
unfolding number_on_channel
number_on_channel-IsSamePeer p o ch = record {
  state = ground arith;
  connect_id = ground arith;
  address = ground arith;
}

number_command-IsSamePeer : (p : Peer) (o : OutgoingCommand) → IsSamePeer p (number_command p o).0
unfolding number_command
number_command-IsSamePeer p o = elim (Bool-cases ((header o.command).channel_id == 255)) [
  | inl e ↦ rw (number_command, e) (record { state = refl; connect_id = refl; address = refl })
  | inr e ↦ elim (Option-cases (get_elem? p.channels (header o.command).channel_id)) [
    | inl f ↦ rw (number_command, e, f) (record { state = refl; connect_id = refl; address = refl })
    | inr (ch, f) ↦ rw (number_command, e, f) (number_on_channel-IsSamePeer p o ch)
  ]
]

enqueue-IsSamePeer : (p : Peer) (o : OutgoingCommand) → IsSamePeer p (enqueue p o)
unfolding enqueue
enqueue-IsSamePeer p o = elim (Bool-cases (flag_acknowledge (header o.command).command)) [
  | inr e ↦ rw (enqueue, e) (record { state = refl; connect_id = refl; address = refl })
  | inl e ↦ elim (Option-cases o.packet) [
    | inl f ↦ rw (enqueue, e, f) (record { state = refl; connect_id = refl; address = refl })
    | inr (b, f) ↦ rw (enqueue, e, f) (record { state = refl; connect_id = refl; address = refl })
  ]
]

setup-IsSamePeer :
    (c : Conn) (o : OutgoingCommand) → IsSamePeer c.peer (peer_setup_outgoing_command c o).peer
unfolding peer_setup_outgoing_command count_data
setup-IsSamePeer c o =
    let n = number_command-IsSamePeer (count_data c.peer o) o in
    let q = enqueue-IsSamePeer (number_command (count_data c.peer o) o).0 (
      prepare (number_command (count_data c.peer o) o).0 (number_command (count_data c.peer o) o).1
        (add32 c.host.total_queued 1)) in
    record {
      state = q.state ∙ n.state;
      connect_id = q.connect_id ∙ n.connect_id;
      address = q.address ∙ n.address;
    }

queue_outgoing-IsSamePeer :
    (malloc : Allocator) (c : Conn) (command : Protocol)
    → IsSamePeer c.peer (peer_queue_outgoing_command malloc c command none 0 0).0.peer
unfolding peer_queue_outgoing_command
queue_outgoing-IsSamePeer malloc c command =
    elim (Bool-cases (malloc.succeeds (outgoing_command 0))) [
      | inl e ↦
          rw (peer_queue_outgoing_command, e) (setup-IsSamePeer c (new_command command none 0 0))
      | inr e ↦
          rw (peer_queue_outgoing_command, e)
            (record { state = refl; connect_id = refl; address = refl })
    ]

connect_at-IsAnswered :
    (malloc : Allocator) (w : World) (command : Connect) (k : ℕ) (p : Peer)
    → get_elem? w.peers k ≡ some p
    → is_state State.disconnected p ≡ true
    → IsAnswered w command (connect_at malloc w command k)
unfolding connect_at accept_connect accept
connect_at-IsAnswered malloc w command k p at s = elim (Bool-cases (malloc.succeeds channels)) [
  | inl e ↦
      rw (connect_at, at, accept_connect, e)
        (p, _, at, s, refl, answered.state, answered.connect_id, answered.address)
  | inr e ↦ rw (connect_at, at, accept_connect, e) refl
]
  where
    count : ℕ
    count =
        if ltb w.host.channel_limit command.channel_count
        then w.host.channel_limit
        else command.channel_count

    accepted : Peer
    accepted = accept w.host p command count

    answered :
        IsSamePeer accepted
          (peer_queue_outgoing_command malloc
            (record { host = w.host; peer = accepted })
            (verification w.host accepted command count)
            none
            0
            0).0.peer
    answered =
        queue_outgoing-IsSamePeer malloc (record { host = w.host; peer = accepted })
          (verification w.host accepted command count)

-- A request to connect that is refused, because its channel count is out of bounds, it is known
-- already, no peer is free, the address has too many peers or memory is missing, changes nothing.
-- One that is accepted takes a peer that was disconnected, and no other peer changes: a connection
-- that is in use is never taken over.
pub handle_connect-IsAnswered :
    (malloc : Allocator) (w : World) (command : Connect)
    → IsAnswered w command (handle_connect malloc w command)
unfolding handle_connect
handle_connect-IsAnswered malloc w command =
    elim (Bool-cases (
      ltb command.channel_count minimum_channel_count
      || ltb maximum_channel_count command.channel_count)) [
        | inl e ↦ rw (handle_connect, e) refl
        | inr e ↦
            rw (handle_connect, e)
              (at_search _
                (search_peers-IsFree w.host.received_address command.connect_id w.peers 0 none 0))
      ]
  where
    at_search :
        (r : Search)
        → IsFree w.peers 0 none r
        → IsAnswered w command (place_connect malloc w command r)
    at_search known h = refl
    at_search (found none d) h = refl
    at_search (found (some k) d) (inl e) = absurd (ground (arith, e))
    at_search (found (some k) d) (inr (n, p, e, at, s)) =
        elim (Bool-cases (leb w.host.duplicate_peers d)) [
          | inl f ↦ rw (place_connect, f) refl
          | inr f ↦
              let here : k ≡ n = omega (arith, e) in
              rw (place_connect, f)
                (connect_at-IsAnswered malloc w command k p (ap (get_elem? w.peers) here ∙ at) s)
        ]
