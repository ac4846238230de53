-- ===== src/Protocol/Sending/Passes.antt =====
-- src/protocol.cpp, `enet_protocol_send_outgoing_commands`: the passes over the peers, and `host_flush`.
use enetcpp.Base.{
  Bool, List, Option, [], add32, false, get_elem?, if◌then◌else◌, is_empty, leb, length, ltb, none,
  not, set, some, suc, true, zero, ℕ, ◌&&◌, ◌++◌, ◌+◌, ◌||◌, ◌∷◌,
}
use enetcpp.Memory.{Allocator}
use enetcpp.Peer.{Address, Peer, OutgoingCommand}
use enetcpp.Host.{Conn, World}
use enetcpp.Protocol.{Event, nothing}
use enetcpp.Protocol.Acknowledge.{is_gone}
use enetcpp.Protocol.Sending.{
  Job, start, acknowledge, time_out, fill, measure_loss, remove_sent_unreliable_commands,
}
use enetcpp.Protocol.Sending.Outbound.{Callbacks, Outbound, outbound}

-- The host with its peers, and the variables of the call; `sent` is what has gone to the socket, in
-- order. `continue_sending` is the number of the last pass.
pub record Sender : Type 0 where
  pub world : World
  pub event : Option Event
  pub sent_unreliable : List OutgoingCommand
  pub sent : List (Address × Outbound)
  pub total_sent_data : ℕ
  pub total_sent_packets : ℕ
  pub continue_sending : ℕ

-- How a pass goes on: with the next peer, or by a return of 1 or of -1.
pub data Ending : Type 0 where
  next reported failed : Ending

abbrev pub has_event : Option Event → Bool
has_event none = false
has_event (some e) = elim e.type [ nothing ↦ false | _ ↦ true ]

abbrev pub conn_at : Sender → Peer → Conn
conn_at s p = record { host = s.world.host; peer = p }

-- The job's changes, in the array of peers.
abbrev pub stored : Sender → ℕ → Job → Sender
stored s i j = record s {
  world = record { host = j.conn.host; peers = set s.world.peers i j.conn.peer };
  event = j.event;
  sent_unreliable = j.sent_unreliable;
}

-- The label `nextPeer`.
abbrev pub next_peer : ℕ → Sender → Peer → Sender × Ending
next_peer pass s p =
    (if p.continue_sending then record s { continue_sending = pass + 1 } else s, next)

-- What a peer is left out of a pass for.
abbrev pub is_skipped : ℕ → Peer → Bool
is_skipped pass p = is_gone p.state || (ltb 0 pass && not p.continue_sending)

-- `packetLoss…` and `lastSendTime`
abbrev pub departing : Conn → Conn
departing c = record c {
  peer = record c.peer {
    loss = measure_loss c.peer.loss c.host.service_time;
    timing = record c.peer.timing { last_send_time = c.host.service_time };
  };
}

-- `socket_send` may depend on what has been sent before; `none` is a negative length.
module _ (host_flush : Conn → Conn)
    (socket_send : List (Address × Outbound) → Address → Outbound → Option ℕ) where
  unfoldable pub transmit : Allocator → Callbacks → ℕ → Sender → ℕ → Job → Sender × Ending
  unfolding remove_sent_unreliable_commands outbound
  transmit malloc k pass s i j =
      let c = departing j.conn in
      let datagram = outbound k c j.datagram in
      let c' = remove_sent_unreliable_commands host_flush malloc c j.sent_unreliable in
      let s' = record (stored s i (record j { conn = c'; sent_unreliable = [] })) {
        sent = s.sent ++ (c.peer.address, datagram) ∷ [];
      } in
      elim (socket_send s.sent c.peer.address datagram) [
        | none ↦ (s', failed)
        | some n ↦
            next_peer pass
              (record s' {
                total_sent_data = add32 s.total_sent_data n;
                total_sent_packets = add32 s.total_sent_packets 1;
              })
              c'.peer
      ]

  -- What is done after the timeouts.
  unfoldable pub send_job : Allocator → Callbacks → ℕ → Sender → ℕ → Job → Sender × Ending
  unfolding transmit fill
  send_job malloc k pass s i j =
      let filled = fill host_flush malloc j in
      if is_empty filled.datagram.commands
      then next_peer pass (stored s i filled) filled.conn.peer
      else transmit malloc k pass s i filled

  unfoldable pub serve : Allocator → Callbacks → Bool → ℕ → Sender → ℕ → Peer → Sender × Ending
  unfolding send_job acknowledge time_out
  serve malloc k check_for_timeouts pass s i p =
      if is_skipped pass p
      then (s, next)
      else let (j, given_up) =
          time_out check_for_timeouts
            (acknowledge (start (conn_at s p) s.sent_unreliable s.event)) in
        if given_up
        then if has_event j.event
          then (stored s i j, reported)
          else next_peer pass (stored s i j) j.conn.peer
        else send_job malloc k pass s i j

  -- The inner loop, over the peers from `i` on.
  unfoldable pub serve_from : Allocator → Callbacks → Bool → ℕ → ℕ → ℕ → Sender → Sender × Ending
  unfolding serve
  serve_from malloc k check_for_timeouts pass zero i s = (s, next)
  serve_from malloc k check_for_timeouts pass (suc n) i s = elim (get_elem? s.world.peers i) [
    | none ↦ (s, next)
    | some p ↦
        let r = serve malloc k check_for_timeouts pass s i p in
        elim r.1 [
          | next ↦ serve_from malloc k check_for_timeouts pass n (i + 1) r.0
          | reported ↦ r
          | failed ↦ r
        ]
  ]

  -- The outer loop; `none` after as many passes as `fuel`.
  unfoldable pub passes : Allocator → Callbacks → Bool → ℕ → ℕ → Sender → Option (Sender × Ending)
  unfolding serve_from
  passes malloc k check_for_timeouts zero pass s = none
  passes malloc k check_for_timeouts (suc fuel) pass s =
      let r = serve_from malloc k check_for_timeouts pass (length s.world.peers) 0 s in
      let rest = passes malloc k check_for_timeouts fuel (pass + 1) r.0 in
      if leb pass s.continue_sending
      then elim r.1 [ next ↦ rest | reported ↦ some r | failed ↦ some r ]
      else some (s, next)

  -- `sendPass` and `continueSending` begin at 0.
  unfoldable pub send_outgoing_commands :
      Allocator → Callbacks → Bool → ℕ → Sender → Option (Sender × Ending)
  unfolding passes
  send_outgoing_commands malloc k check_for_timeouts fuel s =
      passes malloc k check_for_timeouts fuel 0
        (record s { sent_unreliable = []; continue_sending = 0 })
