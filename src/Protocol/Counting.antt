-- ===== src/Protocol/Counting.antt =====
-- The counters of `Peer/Counters`, through `peer_reset` of src/peer.cpp and, of src/protocol.cpp, the
-- handlers of commands that disconnect, limit bandwidth or verify a connection and the notifications.
use enetcpp.Base.{
  Option-cases, ap, false, get_elem?, ltb, ◌!=◌, Bool, Option, if◌then◌else◌, some, Bool-cases,
  arith, inl, inr, none, refl, true, ◌≡◌, ℕ,
}
use enetcpp.Command.{BandwidthLimit, Disconnect, VerifyConnect}
use enetcpp.Peer.{Peer, Bandwidth}
use enetcpp.Protocol.Sent.{leave_channel, find_removal, apply_removal, remove_sent_reliable_command}
use enetcpp.Protocol.Verify.{verified, differs, handle_verify_connect}
use enetcpp.Peer.State
use enetcpp.Command.{flag_acknowledge}
use enetcpp.Peer.State.{PeerState, is_connected}
use enetcpp.Peer.Connection.{peer_on_disconnect}
use enetcpp.Peer.Counters.{
  IsCounted, IsSame, IsSame-IsCounted, on_disconnect-IsCounted, on_connect-IsCounted,
}
use enetcpp.Peer.Dispatch.{request_dispatch}
use enetcpp.Peer.Reset.{peer_reset, peer_reset_queues, reset_fields}
use enetcpp.Host.{Conn}
use enetcpp.Protocol.{Event}
use enetcpp.Protocol.Change.{
  change_state, dispatch_state, notify_connect, notify_disconnect, report_disconnect, recalculate,
  with_event_data, succeeded_or_pending, never_connected,
}
use enetcpp.Protocol.Control.{
  handle_bandwidth_limit, limit_peer, handle_disconnect, leave, is_reported,
}

connecting_peer :
    (s : PeerState)
    → (State.value s != State.value State.connecting) ≡ false
    → is_connected s ≡ false
connecting_peer s e = ground (arith, e)

module _ (others limited : ℕ) where
  abbrev Counted : Conn → Type 0
  Counted = IsCounted others limited

  pub change_state-IsCounted : (c : Conn) (s : PeerState) → Counted c → Counted (change_state c s)
  unfolding change_state
  change_state-IsCounted c s v = elim (Bool-cases (is_connected s)) [
    | inl e ↦ rw e (on_connect-IsCounted others limited c s e v)
    | inr e ↦ rw e (on_disconnect-IsCounted others limited c s e v)
  ]

  request_dispatch-IsSame : (c : Conn) → IsSame c (request_dispatch c)
  unfolding request_dispatch
  request_dispatch-IsSame c = ground arith

  pub dispatch_state-IsCounted :
      (c : Conn) (s : PeerState) → Counted c → Counted (dispatch_state c s)
  unfolding dispatch_state
  dispatch_state-IsCounted c s v =
      IsSame-IsCounted others limited (change_state c s) (request_dispatch (change_state c s))
        (request_dispatch-IsSame (change_state c s)) (change_state-IsCounted c s v)

  reset_queues-IsSame : (c : Conn) → IsSame c (peer_reset_queues c)
  unfolding peer_reset_queues
  reset_queues-IsSame c = ground arith

  pub reset_queues-IsCounted : (c : Conn) → Counted c → Counted (peer_reset_queues c)
  reset_queues-IsCounted c v = IsSame-IsCounted others limited c _ (reset_queues-IsSame c) v

  reset_fields-IsCounted :
      (c : Conn)
      → Counted c
      → Counted (record (peer_on_disconnect c) {
        peer = reset_fields (peer_on_disconnect c).host (peer_on_disconnect c).peer;
      })
  unfolding reset_fields peer_on_disconnect
  reset_fields-IsCounted c v = ground arith

  pub peer_reset-IsCounted : (c : Conn) → Counted c → Counted (peer_reset c)
  unfolding peer_reset
  peer_reset-IsCounted c v =
      reset_queues-IsCounted
        (record (peer_on_disconnect c) {
          peer = reset_fields (peer_on_disconnect c).host (peer_on_disconnect c).peer;
        })
        (reset_fields-IsCounted c v)

  recalculate-IsCounted :
      (b : Bool) (c : Conn) → Counted c → Counted (if b then recalculate c else c)
  recalculate-IsCounted b c v = ground arith

  leave-IsCounted : (c : Conn) (d : Disconnect) → Counted c → Counted (leave c d)
  unfolding leave
  leave-IsCounted c d v = elim (Bool-cases (is_reported c.peer.state)) [
    | inl e ↦ rw e (dispatch_state-IsCounted c State.zombie v)
    | inr e ↦ elim (Bool-cases (is_connected c.peer.state)) [
      | inr f ↦ rw (e, f) (peer_reset-IsCounted _ (recalculate-IsCounted _ c v))
      | inl f ↦ elim (Bool-cases (flag_acknowledge d.header.command)) [
        | inl g ↦ rw (e, f, g) (change_state-IsCounted c State.acknowledging_disconnect v)
        | inr g ↦ rw (e, f, g) (dispatch_state-IsCounted c State.zombie v)
      ]
    ]
  ]

  limit_peer-IsCounted :
      (c : Conn) (b : BandwidthLimit)
      → is_connected c.peer.state ≡ true
      → Counted c
      → Counted (limit_peer c b)
  unfolding limit_peer
  limit_peer-IsCounted c b e v = ground arith

  handle_disconnect-IsCounted :
      (c : Conn) (d : Disconnect) → Counted c → Counted (handle_disconnect c d)
  unfolding handle_disconnect
  handle_disconnect-IsCounted c d v =
      ground (arith, leave-IsCounted (peer_reset_queues c) d (reset_queues-IsCounted c v))

  handle_bandwidth_limit-IsCounted :
      (c : Conn) (b : BandwidthLimit) → Counted c → Counted (handle_bandwidth_limit c b).0
  unfolding handle_bandwidth_limit
  handle_bandwidth_limit-IsCounted c b v = elim (Bool-cases (is_connected c.peer.state)) [
    | inl e ↦ rw e (limit_peer-IsCounted c b e v)
    | inr e ↦ rw e v
  ]

  notify_connect-IsCounted :
      (c : Conn) (event : Option Event) → Counted c → Counted (notify_connect c event).conn
  unfolding notify_connect
  notify_connect-IsCounted c none v =
      dispatch_state-IsCounted (recalculate c) (succeeded_or_pending c.peer.state)
        (recalculate-IsCounted true c v)
  notify_connect-IsCounted c (some e) v =
      change_state-IsCounted (recalculate c) State.connected (recalculate-IsCounted true c v)

  report_disconnect-IsCounted :
      (c : Conn) (event : Option Event) → Counted c → Counted (report_disconnect c event).conn
  unfolding report_disconnect
  report_disconnect-IsCounted c none v =
      dispatch_state-IsCounted (with_event_data c 0) State.zombie (ground arith)
  report_disconnect-IsCounted c (some e) v = peer_reset-IsCounted c v

  notify_disconnect-IsCounted :
      (c : Conn) (event : Option Event) → Counted c → Counted (notify_disconnect c event).conn
  unfolding notify_disconnect
  notify_disconnect-IsCounted c event v = elim (Bool-cases (never_connected c.peer.state)) [
    | inl e ↦ rw e (peer_reset-IsCounted _ (recalculate-IsCounted _ c v))
    | inr e ↦ rw e (report_disconnect-IsCounted _ event (recalculate-IsCounted _ c v))
  ]

  leave_channel-same :
      (p : Peer) (channel_id number : ℕ)
      → ((leave_channel p channel_id number).state ≡ p.state)
        × ((leave_channel p channel_id number).bandwidth ≡ p.bandwidth)
  unfolding leave_channel
  leave_channel-same p channel_id number = elim (Bool-cases (ltb channel_id p.channel_count)) [
    | inr e ↦ rw (leave_channel, e) (refl, refl)
    | inl e ↦ elim (Option-cases (get_elem? p.channels channel_id)) [
      | inl f ↦ rw (leave_channel, e, f) (refl, refl)
      | inr (ch, f) ↦ rw (leave_channel, e, f) (refl, refl)
    ]
  ]

  remove_sent-IsSame :
      (c : Conn) (number channel_id : ℕ)
      → IsSame c (remove_sent_reliable_command c number channel_id).0
  unfolding remove_sent_reliable_command apply_removal
  remove_sent-IsSame c number channel_id =
      elim (Option-cases (find_removal c.peer.queues number channel_id)) [
        | inl e ↦
            rw (remove_sent_reliable_command, e)
              (record {
                connected = refl;
                bandwidth_limited = refl;
                state = refl;
                bandwidth = refl;
              })
        | inr (r, e) ↦
            let (s, b) = leave_channel-same c.peer channel_id number in
            rw (remove_sent_reliable_command, e)
              (record {
                connected = refl;
                bandwidth_limited = refl;
                state = s;
                bandwidth = ap (λ (b : Bandwidth). b.incoming_bandwidth) b;
              })
      ]

  -- A peer that is not counted may change its bandwidth.
  verified-IsCounted :
      (c : Conn) (v : VerifyConnect)
      → is_connected c.peer.state ≡ false
      → Counted c
      → Counted (record c { peer = verified c.peer v })
  unfolding verified
  verified-IsCounted c v e h = record {
    connected = h.connected;
    bandwidth_limited = ground (arith, e, h.bandwidth_limited);
  }

  handle_verify_connect-IsCounted :
      (c : Conn) (event : Option Event) (v : VerifyConnect)
      → Counted c
      → Counted (handle_verify_connect c event v).0.conn
  unfolding handle_verify_connect
  handle_verify_connect-IsCounted c event v h =
      elim (Bool-cases (State.value c.peer.state != State.value State.connecting)) [
        | inl e ↦ rw (handle_verify_connect, e) h
        | inr e ↦ elim (Bool-cases (differs c.peer v)) [
          | inl f ↦
              rw (handle_verify_connect, e, f)
                (dispatch_state-IsCounted (with_event_data c 0) State.zombie (ground arith))
          | inr f ↦
              let removed = remove_sent_reliable_command c 1 255 in
              let same = remove_sent-IsSame c 1 255 in
              rw (handle_verify_connect, e, f)
                (notify_connect-IsCounted (record removed.0 { peer = verified removed.0.peer v })
                  event
                  (verified-IsCounted removed.0 v (rw same.state (connecting_peer c.peer.state e))
                    (IsSame-IsCounted others limited c removed.0 same h)))
        ]
      ]

-- `peer_reset`, the handlers of commands that disconnect, set a limit of bandwidth or verify a
-- connection, and the two notifications by which a connection is completed and ended keep the
-- counters of connected and of bandwidth-limited peers equal to the numbers of such peers.
pub handlers-IsCounted :
    (others limited : ℕ) (c : Conn) (event : Option Event) (d : Disconnect) (b : BandwidthLimit)
    (v : VerifyConnect)
    → IsCounted others limited c
    → IsCounted others limited (peer_reset c)
      × IsCounted others limited (handle_disconnect c d)
      × IsCounted others limited (handle_bandwidth_limit c b).0
      × IsCounted others limited (handle_verify_connect c event v).0.conn
      × IsCounted others limited (notify_connect c event).conn
      × IsCounted others limited (notify_disconnect c event).conn
handlers-IsCounted others limited c event d b v h = (
  peer_reset-IsCounted others limited c h,
  handle_disconnect-IsCounted others limited c d h,
  handle_bandwidth_limit-IsCounted others limited c b h,
  handle_verify_connect-IsCounted others limited c event v h,
  notify_connect-IsCounted others limited c event h,
  notify_disconnect-IsCounted others limited c event h,
)
