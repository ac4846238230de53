-- ===== src/Peer/Reset/Queue.antt =====
-- src/peer.cpp: the host's queue of peers that wait for dispatch, against the flag of each peer.
use enetcpp.Base.{
  refl, ◌<◌, Bool-cases, ap, inl, inr, true, ◌∙◌, ◌⊎◌, List, [], arith, false, if◌then◌else◌, min,
  ◌++◌, ◌+◌, ◌-◌, ◌==◌, ◌∷◌, ◌≡◌, ℕ,
}
use enetcpp.Peer.Connection.{peer_on_disconnect}
use enetcpp.Peer.Counters.{one_if}
use enetcpp.Peer.Dispatch.{request_dispatch}
use enetcpp.Peer.Reset.{peer_reset, reset_fields, peer_reset_queues, remove_peer}
use enetcpp.Host.{Conn, stands_in}

-- How often a peer stands in the queue.
abbrev pub occurrences : ℕ → List ℕ → ℕ
occurrences p [] = 0
occurrences p (q ∷ qs) = (if q == p then 1 else 0) + occurrences p qs

-- The flag says whether the peer is in the queue, where it stands once at most.
abbrev pub IsQueued : Conn → Type 0
IsQueued c =
    occurrences c.peer.incoming_peer_id c.host.dispatch_queue ≡ one_if c.peer.needs_dispatch

occurrences-append :
    (p : ℕ) (qs rs : List ℕ) → occurrences p (qs ++ rs) ≡ occurrences p qs + occurrences p rs
occurrences-append p [] rs = omega arith
occurrences-append p (q ∷ qs) rs = omega (arith, occurrences-append p qs rs)

occurrences-remove_peer :
    (p q : ℕ) (qs : List ℕ)
    → occurrences q (remove_peer p qs)
      ≡ occurrences q qs - (if p == q then min 1 (occurrences q qs) else 0)
unfolding remove_peer
occurrences-remove_peer p q [] = ground arith
occurrences-remove_peer p q (x ∷ xs) = ground (arith, occurrences-remove_peer p q xs)

request_dispatch-queue :
    (c : Conn) (other : ℕ)
    → occurrences other (request_dispatch c).host.dispatch_queue
      ≡ occurrences other c.host.dispatch_queue
        + (if c.peer.needs_dispatch then 0 else if c.peer.incoming_peer_id == other then 1 else 0)
unfolding request_dispatch
request_dispatch-queue c other =
    ground (arith, occurrences-append other c.host.dispatch_queue (c.peer.incoming_peer_id ∷ []))

peer_reset-queue :
    (c : Conn)
    → ((peer_reset c).host.dispatch_queue ≡ c.host.dispatch_queue)
      × ((peer_reset c).peer.needs_dispatch ≡ false)
      × ((peer_reset c).peer.incoming_peer_id ≡ c.peer.incoming_peer_id)
unfolding peer_reset peer_on_disconnect reset_fields peer_reset_queues
peer_reset-queue c = (ground arith, ground arith, ground arith)

peer_reset_queues-IsQueued : (c : Conn) → IsQueued c → IsQueued (peer_reset_queues c)
unfolding peer_reset_queues
peer_reset_queues-IsQueued c v = ground (
  arith,
  v,
  occurrences-remove_peer c.peer.incoming_peer_id c.peer.incoming_peer_id c.host.dispatch_queue,
)

peer_reset_queues-others :
    (c : Conn) (other : ℕ)
    → (c.peer.incoming_peer_id == other) ≡ false
    → occurrences other (peer_reset_queues c).host.dispatch_queue
      ≡ occurrences other c.host.dispatch_queue
unfolding peer_reset_queues
peer_reset_queues-others c other e =
    ground (arith, e, occurrences-remove_peer c.peer.incoming_peer_id other c.host.dispatch_queue)

stands_in-occurrences :
    (p : ℕ) (qs : List ℕ)
    → ((stands_in p qs ≡ false) × (occurrences p qs ≡ 0))
      ⊎ ((stands_in p qs ≡ true) × (0 < occurrences p qs))
stands_in-occurrences p [] = inl (refl, refl)
stands_in-occurrences p (q ∷ qs) = ground (arith, stands_in-occurrences p qs)

-- A request inserts no peer twice where the flag is right; where the peer stands in the queue with its
-- flag clear, it does.
request_dispatch-damage :
    (c : Conn) → IsQueued c → (request_dispatch c).host.dispatch_damaged ≡ c.host.dispatch_damaged
unfolding request_dispatch
request_dispatch-damage c v =
    ground (arith, v, stands_in-occurrences c.peer.incoming_peer_id c.host.dispatch_queue)

request_dispatch-twice :
    (c : Conn)
    → c.peer.needs_dispatch ≡ false
    → occurrences c.peer.incoming_peer_id c.host.dispatch_queue ≡ 1
    → (request_dispatch c).host.dispatch_damaged ≡ true
unfolding request_dispatch
request_dispatch-twice c e v =
    ground (arith, e, v, stands_in-occurrences c.peer.incoming_peer_id c.host.dispatch_queue)

-- Where the flag of a peer says whether the peer stands in the host's queue, once at most, it still
-- does after a request for dispatch and after `peer_reset_queues`, other peers stand in the queue as
-- often as before, and no request inserts a node of the queue that is linked already, which would
-- damage it. After `peer_reset` it still does if the flag was clear; if it was set, the peer is left
-- in the queue with its flag clear, so that the next request inserts it again and damages the queue.
pub dispatch_queue-IsQueued :
    (c : Conn) (other : ℕ)
    → IsQueued c
    → (c.peer.incoming_peer_id == other) ≡ false
    → IsQueued (request_dispatch c)
      × IsQueued (peer_reset_queues c)
      × (occurrences other (request_dispatch c).host.dispatch_queue
          ≡ occurrences other c.host.dispatch_queue)
      × (occurrences other (peer_reset_queues c).host.dispatch_queue
          ≡ occurrences other c.host.dispatch_queue)
      × ((request_dispatch c).host.dispatch_damaged ≡ c.host.dispatch_damaged)
      × (((c.peer.needs_dispatch ≡ false) × IsQueued (peer_reset c))
          ⊎ ((c.peer.needs_dispatch ≡ true)
              × ((peer_reset c).peer.needs_dispatch ≡ false)
              × (occurrences c.peer.incoming_peer_id (peer_reset c).host.dispatch_queue ≡ 1)
              × ((request_dispatch (peer_reset c)).host.dispatch_damaged ≡ true)))
dispatch_queue-IsQueued c other v e = (
  requested,
  peer_reset_queues-IsQueued c v,
  ground (arith, e, request_dispatch-queue c other),
  peer_reset_queues-others c other e,
  request_dispatch-damage c v,
  elim (Bool-cases c.peer.needs_dispatch) [
    | inr f ↦ inl (f, rw (same, cleared, number) (v ∙ ap one_if f))
    | inl f ↦ inr (
      f,
      cleared,
      left f,
      request_dispatch-twice (peer_reset c) cleared
          (ap (λ i. occurrences i (peer_reset c).host.dispatch_queue) number ∙ left f),
    )
  ],
)
  where
    same : (peer_reset c).host.dispatch_queue ≡ c.host.dispatch_queue
    same = (peer_reset-queue c).0

    cleared : (peer_reset c).peer.needs_dispatch ≡ false
    cleared = (peer_reset-queue c).1

    number : (peer_reset c).peer.incoming_peer_id ≡ c.peer.incoming_peer_id
    number = (peer_reset-queue c).2

    left :
        c.peer.needs_dispatch ≡ true
        → occurrences c.peer.incoming_peer_id (peer_reset c).host.dispatch_queue ≡ 1
    left f = rw same (v ∙ ap one_if f)

    requested : IsQueued (request_dispatch c)
    requested =
        let own = request_dispatch-queue c c.peer.incoming_peer_id in
        let e : (c.peer.incoming_peer_id == c.peer.incoming_peer_id) ≡ true = ground arith in
        unfold request_dispatch in ground (arith, own, v, e)
