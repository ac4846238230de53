-- ===== src/Protocol/Delivery.antt =====
-- src/protocol.cpp, `enet_protocol_dispatch_incoming_commands` and `host_check_events`: the events of the
-- peers that wait in the queue of the host.
pub mod Events
use enetcpp.Base.{
  Bool, List, Option, [], false, get_elem?, if◌then◌else◌, is_empty, none, set, some, true, ℕ, ◌∷◌,
}
use enetcpp.Peer.{Peer}
use enetcpp.Peer.State
use enetcpp.Peer.Receive.{peer_receive}
use enetcpp.Peer.Reset.{peer_reset}
use enetcpp.Host.{Host, Conn, World, enlist}
use enetcpp.Protocol.{Event, nothing, connect, disconnect, receive}
use enetcpp.Protocol.Change.{change_state, recalculate, of_peer}

-- The peer is taken from the queue, and its flag is cleared.
abbrev pub taken : Host → Peer → List ℕ → Conn
taken h p rest = record {
  host = record h { dispatch_queue = rest };
  peer = record p { needs_dispatch = false };
}

-- What is made of a peer: the connection, the event, and whether 1 was returned.
pub record Delivery : Type 0 where
  pub conn : Conn
  pub event : Event
  pub returned : Bool

abbrev pub requeue_if_more : Conn → ℕ → Conn
requeue_if_more c i =
    if is_empty c.peer.queues.dispatched_commands
    then c
    else record { host = enlist c.host i; peer = record c.peer { needs_dispatch = true } }

-- `case PEER_STATE_CONNECTED`
unfoldable pub deliver_packet : Conn → Event → ℕ → Delivery
unfolding peer_receive
deliver_packet c e i =
    let (c', received) = peer_receive c in
    if is_empty c.peer.queues.dispatched_commands
    then record { conn = c; event = e; returned = false }
    else elim received [
      | none ↦ record { conn = c'; event = record e { packet = none }; returned = false }
      | some r ↦ record {
        conn = requeue_if_more c' i;
        event = record e {
          packet = some r.packet;
          channel_id = r.channel_id;
          type = receive;
          peer = some i;
        };
        returned = true;
      }
    ]

-- `switch (peer->state)`
unfoldable pub deliver : Conn → Event → ℕ → Delivery
unfolding deliver_packet change_state
deliver c e i = elim c.peer.state [
  | State.connection_pending ↦ record {
    conn = change_state c State.connected;
    event = of_peer e connect i c.peer.event_data;
    returned = true;
  }
  | State.connection_succeeded ↦ record {
    conn = change_state c State.connected;
    event = of_peer e connect i c.peer.event_data;
    returned = true;
  }
  | State.zombie ↦ record {
    conn = peer_reset (recalculate c);
    event = of_peer e disconnect i c.peer.event_data;
    returned = true;
  }
  | State.connected ↦ deliver_packet c e i
  | _ ↦ record { conn = c; event = e; returned = false }
]

-- The loop, over the queue; it puts a peer back into the queue only where it returns.
unfoldable pub dispatch_from : World → Event → List ℕ → World × Event × Bool
unfolding deliver
dispatch_from w e [] = (record w { host = record w.host { dispatch_queue = [] } }, e, false)
dispatch_from w e (i ∷ rest) = elim (get_elem? w.peers i) [
  | none ↦ (record w { host = record w.host { dispatch_queue = rest } }, e, false)
  | some p ↦
      let d = deliver (taken w.host p rest) e i in
      let w' : World = record { host = d.conn.host; peers = set w.peers i d.conn.peer } in
      elim d.returned [ true ↦ (w', d.event, true) | false ↦ dispatch_from w' d.event rest ]
]

unfoldable pub dispatch_incoming_commands : World → Event → World × Event × Bool
unfolding dispatch_from
dispatch_incoming_commands w e = dispatch_from w e w.host.dispatch_queue

-- The event before a call that fills it in.
abbrev pub cleared : Event → Event
cleared e = record e { type = nothing; peer = none; packet = none }

-- `none` is the return of -1, for a null pointer.
unfoldable pub host_check_events : World → Option Event → Option (World × Event × Bool)
unfolding dispatch_incoming_commands
host_check_events w none = none
host_check_events w (some e) = some (dispatch_incoming_commands w (cleared e))
