-- ===== src/Protocol/Timeout.antt =====
-- src/protocol.cpp, `enet_protocol_check_timeouts`: the reliable commands that have not been
-- acknowledged in time are queued again, or the peer is given up.
pub mod Partition
use enetcpp.Base.{
  Bool, List, Option, [], add32, drop, false, if◌then◌else◌, leb, ltb, mul32, none, not, some,
  sub32, take, true, ℕ, ◌&&◌, ◌++◌, ◌+◌, ◌-◌, ◌==◌, ◌^◌, ◌||◌, ◌∷◌,
}
use enetcpp.Time.{time_less, time_difference}
use enetcpp.Peer.{OutgoingCommand, Timing}
use enetcpp.Host.{Conn}
use enetcpp.Protocol.{Event, Reported}
use enetcpp.Protocol.Change.{notify_disconnect}

-- The loop's variables: what it has passed over in `sentReliableCommands`, and how many commands it
-- has inserted before the two positions, which are the beginnings of the other queues at first.
pub record Sweep : Type 0 where
  pub conn : Conn
  pub kept : List OutgoingCommand
  pub moved : ℕ
  pub moved_reliable : ℕ

abbrev pub is_waiting : ℕ → OutgoingCommand → Bool
is_waiting service_time o = ltb (time_difference service_time o.sent_time) o.round_trip_timeout

-- `earliestTimeout`
abbrev pub earliest : Timing → OutgoingCommand → Timing
earliest t o =
    if t.earliest_timeout == 0 || time_less o.sent_time t.earliest_timeout
    then record t { earliest_timeout = o.sent_time }
    else t

-- The peer is given up. The shift is defined in C for at most 31 attempts after the first.
abbrev pub gives_up : ℕ → Timing → OutgoingCommand → Bool
gives_up service_time t o =
    not (t.earliest_timeout == 0)
    && (leb t.timeout_maximum (time_difference service_time t.earliest_timeout)
        || (leb t.timeout_limit (2 ^ (o.send_attempts - 1))
            && leb t.timeout_minimum (time_difference service_time t.earliest_timeout)))

abbrev pub resent : OutgoingCommand → OutgoingCommand
resent o = record o { round_trip_timeout = mul32 o.round_trip_timeout 2 }

-- `list_insert` before a position, that many commands from the beginning.
unfoldable pub insert_at : ℕ → OutgoingCommand → List OutgoingCommand → List OutgoingCommand
insert_at n o l = take n l ++ (o ∷ drop n l)

-- `nextTimeout`, if the command that follows is now the first of its queue.
abbrev pub follow : ℕ → List OutgoingCommand → List OutgoingCommand → ℕ
follow old [] (o ∷ rest) = add32 o.sent_time o.round_trip_timeout
follow old [] [] = old
follow old (k ∷ kept) rest = old

abbrev pub with_timing : Conn → Timing → Conn
with_timing c t = record c { peer = record c.peer { timing = t } }

-- A command without a packet goes into `outgoingCommands`, one with a packet into the other queue.
unfoldable pub requeue : Option ℕ → Sweep → OutgoingCommand → List OutgoingCommand → Sweep
requeue none s o rest = record s {
  conn = record s.conn {
    peer = record s.conn.peer {
      loss = record s.conn.peer.loss { packets_lost = add32 s.conn.peer.loss.packets_lost 1 };
      timing = record s.conn.peer.timing {
        next_timeout = follow s.conn.peer.timing.next_timeout s.kept rest;
      };
      queues = record s.conn.peer.queues {
        sent_reliable_commands = s.kept ++ rest;
        outgoing_commands = insert_at s.moved (resent o) s.conn.peer.queues.outgoing_commands;
      };
    };
  };
  moved = s.moved + 1;
}
requeue (some a) s o rest = record s {
  conn = record s.conn {
    peer = record s.conn.peer {
      loss = record s.conn.peer.loss { packets_lost = add32 s.conn.peer.loss.packets_lost 1 };
      timing = record s.conn.peer.timing {
        next_timeout = follow s.conn.peer.timing.next_timeout s.kept rest;
      };
      reliable_data_in_transit = sub32 s.conn.peer.reliable_data_in_transit o.fragment_length;
      queues = record s.conn.peer.queues {
        sent_reliable_commands = s.kept ++ rest;
        outgoing_send_reliable_commands =
            insert_at s.moved_reliable (resent o)
              s.conn.peer.queues.outgoing_send_reliable_commands;
      };
    };
  };
  moved_reliable = s.moved_reliable + 1;
}

unfoldable pub expire : Sweep → OutgoingCommand → List OutgoingCommand → Sweep
unfolding requeue
expire s o rest = requeue o.packet s o rest

abbrev pub noted : Sweep → OutgoingCommand → Sweep
noted s o = record s { conn = with_timing s.conn (earliest s.conn.peer.timing o) }

-- The loop, over what is left of `sentReliableCommands`; with whether 1 was returned.
unfoldable pub sweep : Option Event → Sweep → List OutgoingCommand → Reported × Bool
sweep event s [] = (record { conn = s.conn; event = event }, false)
sweep event s (o ∷ rest) =
    let waited = sweep event (record s { kept = s.kept ++ o ∷ [] }) rest in
    let expired = sweep event (expire (noted s o) o rest) rest in
    if is_waiting s.conn.host.service_time o
    then waited
    else if gives_up s.conn.host.service_time (earliest s.conn.peer.timing o) o
    then (notify_disconnect (noted s o).conn event, true)
    else expired

unfoldable pub check_timeouts : Conn → Option Event → Reported × Bool
unfolding sweep
check_timeouts c event =
    sweep event (record { conn = c; kept = []; moved = 0; moved_reliable = 0 })
      c.peer.queues.sent_reliable_commands
