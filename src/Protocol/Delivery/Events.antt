-- ===== src/Protocol/Delivery/Events.antt =====
-- src/protocol.cpp, `enet_protocol_dispatch_incoming_commands`: an event for each return.
use enetcpp.Base.{
  All, Bool, get_elem?-total, subst, sym, ◌<◌, ◌∙◌, Bool-cases, Option-cases, inl, inr, is_empty,
  none, List, [], ap, arith, false, get_elem?, length, refl, set, some, suc, true, zero, ℕ, ◌∷◌,
  ◌≡◌, ◌⊎◌,
}
use enetcpp.Peer.{Peer, IncomingCommand}
use enetcpp.Peer.State
use enetcpp.Peer.State.{PeerState}
use enetcpp.Peer.Receive.{peer_receive, receive_from}
use enetcpp.Host.{Conn, World}
use enetcpp.Protocol.{Event, EventType, nothing, connect, disconnect, receive}
use enetcpp.Protocol.Delivery.{
  Delivery, deliver, deliver_packet, dispatch_from, dispatch_incoming_commands, taken,
}

-- What a delivery that returns 1 says: it is about the peer `i`, and fits the state it was in.
abbrev pub Fits : PeerState → EventType → Type 0
Fits s connect = (s ≡ State.connection_pending) ⊎ (s ≡ State.connection_succeeded)
Fits s disconnect = s ≡ State.zombie
Fits s receive = s ≡ State.connected
Fits s nothing = ⊥

abbrev pub states : List Peer → List PeerState
states [] = []
states (p ∷ ps) = p.state ∷ states ps

states-set :
    (ps : List Peer) (i : ℕ) (p p' : Peer)
    → get_elem? ps i ≡ some p
    → p'.state ≡ p.state
    → states (set ps i p') ≡ states ps
states-set [] i p p' e f = refl
states-set (x ∷ ps) zero p p' e f = ap (λ (s : PeerState). s ∷ states ps) (ground (arith, e, f))
states-set (x ∷ ps) (suc i) p p' e f =
    ap (λ (l : List PeerState). x.state ∷ l) (states-set ps i p p' e f)

get_elem?-states :
    (ps : List Peer) (i : ℕ) (p : Peer)
    → get_elem? ps i ≡ some p
    → get_elem? (states ps) i ≡ some p.state
get_elem?-states [] i p e = cc
get_elem?-states (x ∷ ps) zero p e = ground (arith, e)
get_elem?-states (x ∷ ps) (suc i) p e = get_elem?-states ps i p e

length-states : (ps : List Peer) → length (states ps) ≡ length ps
length-states [] = refl
length-states (p ∷ ps) = ap suc (length-states ps)

-- What a delivery makes of a peer: an event that fits its state, or nothing.
abbrev AreDelivered : PeerState → Conn → Event → ℕ → Delivery → Type 0
AreDelivered s c e i d =
    ((d.returned ≡ true) × (d.event.peer ≡ some i) × Fits s d.event.type)
    ⊎ ((d.returned ≡ false)
        × (d.event.type ≡ e.type)
        × (d.conn.peer.state ≡ s)
        × (d.conn.host.dispatch_queue ≡ c.host.dispatch_queue))

-- No packet is received only without a change.
receive_from-none :
    (c : Conn) (l : List IncomingCommand) → (receive_from c l).1 ≡ none → (receive_from c l).0 ≡ c
unfolding receive_from
receive_from-none c [] e = refl
receive_from-none c (i ∷ rest) e = elim (Option-cases i.packet) [
  | inl f ↦ rw (receive_from, f) refl
  | inr (a, f) ↦ elim (Option-cases (c.host.packets a)) [
    | inl g ↦ rw (receive_from, f, g) refl
    | inr (packet, g) ↦ absurd (ground (arith, e, f, g))
  ]
]

packet-AreDelivered :
    (c : Conn) (e : Event) (i : ℕ)
    → c.peer.state ≡ State.connected
    → AreDelivered State.connected c e i (deliver_packet c e i)
unfolding deliver_packet peer_receive
packet-AreDelivered c e i s = elim (Bool-cases (is_empty c.peer.queues.dispatched_commands)) [
  | inl f ↦ rw (deliver_packet, f) (inr (refl, refl, s, refl))
  | inr f ↦ elim (Option-cases (peer_receive c).1) [
    | inl g ↦
        let same = receive_from-none c c.peer.queues.dispatched_commands g in
        rw (deliver_packet, f, g)
          (inr (
            refl,
            refl,
            ap (λ (d : Conn). d.peer.state) same ∙ s,
            ap (λ (d : Conn). d.host.dispatch_queue) same,
          ))
    | inr (r, g) ↦ rw (deliver_packet, f, g) (inl (refl, refl, refl))
  ]
]

deliver_as :
    (s : PeerState) (c : Conn) (e : Event) (i : ℕ)
    → c.peer.state ≡ s
    → AreDelivered s c e i (deliver c e i)
unfolding deliver
deliver_as State.connection_pending c e i h = rw (deliver, h) (inl (refl, refl, inl refl))
deliver_as State.connection_succeeded c e i h = rw (deliver, h) (inl (refl, refl, inr refl))
deliver_as State.zombie c e i h = rw (deliver, h) (inl (refl, refl, refl))
deliver_as State.connected c e i h = rw (deliver, h) (packet-AreDelivered c e i h)
deliver_as s c e i h = rw (deliver, h) (inr (refl, refl, h, refl))

-- The event of a call, and the peer that it is about, by the states of the peers.
abbrev pub Outcome : List PeerState → Event → World × Event × Bool → Type 0
Outcome ss e (w, e', returned) =
    ((returned ≡ true)
      × ((i : ℕ) × (s : PeerState) × (get_elem? ss i ≡ some s)
          × (e'.peer ≡ some i)
          × Fits s e'.type))
    ⊎ ((returned ≡ false)
        × (e'.type ≡ e.type)
        × (states w.peers ≡ ss)
        × (w.host.dispatch_queue ≡ []))

dispatch_from-Outcome :
    (ss : List PeerState) (w : World) (e : Event) (queue : List ℕ)
    → states w.peers ≡ ss
    → All (λ i. i < length ss) queue
    → Outcome ss e (dispatch_from w e queue)
unfolding dispatch_from
dispatch_from-Outcome ss w e [] same valid = inr (refl, refl, same, refl)
dispatch_from-Outcome ss w e (i ∷ rest) same valid =
    let (p, f) =
      get_elem?-total w.peers i
        (omega (arith, valid.0, ap {B = ℕ} length same, length-states w.peers)) in
    let d = deliver (taken w.host p rest) e i in
    let w' : World = record { host = d.conn.host; peers = set w.peers i d.conn.peer } in
    elim (deliver_as p.state (taken w.host p rest) e i refl) [
      | inl (r, about, fits) ↦
          rw (dispatch_from, f, r)
            (inl (
              refl,
              (
                i,
                p.state,
                subst (λ l. get_elem? l i ≡ some p.state) same (get_elem?-states w.peers i p f),
                about,
                fits,
              ),
            ))
      | inr (r, type, state, queue) ↦
          let ih =
            dispatch_from-Outcome ss w' d.event rest
              (states-set w.peers i p d.conn.peer f state ∙ same) valid.1 in
          rw (dispatch_from, f, r)
            (elim ih [ inl h ↦ inl h | inr (a, b, c, q) ↦ inr (a, b ∙ type, c, q) ])
    ]

-- A call that returns 1 has an event about a peer of the host, of the kind that fits the state in
-- which the peer was; a call that returns 0 leaves the kind of the event and the states of all
-- peers, and has emptied the queue. The queue names peers of the host.
pub dispatch_incoming_commands-Outcome :
    (w : World) (e : Event)
    → All (λ i. i < length w.peers) w.host.dispatch_queue
    → Outcome (states w.peers) e (dispatch_incoming_commands w e)
unfolding dispatch_incoming_commands
dispatch_incoming_commands-Outcome w e valid =
    dispatch_from-Outcome (states w.peers) w e w.host.dispatch_queue refl
      (subst (λ n. All (λ i. i < n) w.host.dispatch_queue) (sym (length-states w.peers)) valid)
