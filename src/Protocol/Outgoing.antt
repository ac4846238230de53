-- ===== src/Protocol/Outgoing.antt =====
-- src/protocol.cpp, `enet_protocol_check_outgoing_commands`: the loop that takes commands out of the
-- two queues of a peer and writes them into a datagram.
pub mod Window
pub mod Progress
pub mod Size
pub mod Liveness
pub mod References
use enetcpp.Base.{
  Bool, List, Option, [], add16, add32, false, get_elem?, if◌then◌else◌, is_empty, length, ltb,
  mul32, none, not, some, sub64, suc, true, wrap16, zero, ℕ, ◌%◌, ◌&&◌, ◌++◌, ◌+◌, ◌/◌, ◌==◌, ◌||◌,
  ◌∷◌,
}
use enetcpp.Time.{time_less, maximum}
use enetcpp.Command.{header, flag_acknowledge}
use enetcpp.Memory.{Allocator}
use enetcpp.Packet.Store.{Store, release}
use enetcpp.Peer.{Peer, Channel, OutgoingCommand}
use enetcpp.Peer.Default.{reliable_window_size, packet_throttle_scale, packet_throttle_counter}
use enetcpp.Peer.State
use enetcpp.Peer.Outgoing.{size_of, put_channel, peer_has_outgoing_commands}
use enetcpp.Peer.Disconnect.{peer_disconnect}
use enetcpp.Host.{Conn}
use enetcpp.Protocol.Datagram.{Datagram, lacks_place, lacks_bytes, put_command, put_range}
use Window.{is_wrapped, enter_window}

-- The loop's variables. `kept` and `kept_reliable` are what the two iterators have passed over,
-- `left` and `left_reliable` what they have before them; the queues of `conn` are put together from
-- these after the loop. `stopped` is set by the `break` of a full datagram, and `faulted` where the source reads
-- through a null pointer, after which it does nothing that the model could follow.
pub record Walk : Type 0 where
  pub conn : Conn
  pub kept : List OutgoingCommand
  pub left : List OutgoingCommand
  pub kept_reliable : List OutgoingCommand
  pub left_reliable : List OutgoingCommand
  pub datagram : Datagram
  pub sent_unreliable : List OutgoingCommand
  pub window_wrap : Bool
  pub can_ping : Bool
  pub stopped : Bool
  pub faulted : Bool

-- Which queue a command is taken from.
pub data Side : Type 0 where
  ordinary reliable : Side

-- The command of a round, and the two queues after it.
pub record Turn : Type 0 where
  pub command : OutgoingCommand
  pub side : Side
  pub left : List OutgoingCommand
  pub left_reliable : List OutgoingCommand

abbrev pub from_ordinary : OutgoingCommand → List OutgoingCommand → List OutgoingCommand → Turn
from_ordinary o os rs = record { command = o; side = ordinary; left = os; left_reliable = rs }

abbrev pub from_reliable : OutgoingCommand → List OutgoingCommand → List OutgoingCommand → Turn
from_reliable r os rs = record { command = r; side = reliable; left = os; left_reliable = rs }

-- The command that was queued first is taken.
unfoldable pub choose : List OutgoingCommand → List OutgoingCommand → Option Turn
choose [] [] = none
choose [] (r ∷ rs) = some (from_reliable r [] rs)
choose (o ∷ os) [] = some (from_ordinary o os [])
choose (o ∷ os) (r ∷ rs) =
    if time_less r.queue_time o.queue_time
    then some (from_reliable r (o ∷ os) rs)
    else some (from_ordinary o os (r ∷ rs))

abbrev pub acknowledges : OutgoingCommand → Bool
acknowledges o = flag_acknowledge (header o.command).command

-- `channel`, null for a command of the peer itself.
abbrev pub channel_of : Peer → OutgoingCommand → Option Channel
channel_of p o =
    if ltb (header o.command).channel_id p.channel_count
    then get_elem? p.channels (header o.command).channel_id
    else none

abbrev pub window_of : OutgoingCommand → ℕ
window_of o = o.reliable_sequence_number / reliable_window_size

-- The window of a first command is not free.
abbrev pub starts_wrapped : Option Channel → OutgoingCommand → Bool
starts_wrapped none o = false
starts_wrapped (some ch) o =
    ltb o.send_attempts 1
    && o.reliable_sequence_number % reliable_window_size == 0
    && is_wrapped ch (window_of o)

abbrev pub has_channel : Option Channel → Bool
has_channel none = false
has_channel (some ch) = true

-- `MAX((packetThrottle * windowSize) / SCALE, mtu)`
abbrev pub window_bytes : Peer → ℕ
window_bytes p =
    maximum (mul32 p.throttle.packet_throttle p.window_size / packet_throttle_scale) p.mtu

abbrev pub has_packet : OutgoingCommand → Bool
has_packet o = elim o.packet [ none ↦ false | some a ↦ true ]

abbrev pub exceeds_window : Peer → OutgoingCommand → Bool
exceeds_window p o =
    has_packet o && ltb (window_bytes p) (add32 p.reliable_data_in_transit o.fragment_length)

-- What becomes of the command of a round: it is passed over, it and the rest of its queue for
-- reliable packets are, the wrap is found at it, or it may be written.
pub data Verdict : Type 0 where
  pass_over hold_reliable begin_wrap admit : Verdict

unfoldable pub judge : Walk → OutgoingCommand → Verdict
judge w o =
    if not (acknowledges o)
    then admit
    else if has_channel (channel_of w.conn.peer o) && w.window_wrap
    then pass_over
    else if starts_wrapped (channel_of w.conn.peer o) o
    then begin_wrap
    else if exceeds_window w.conn.peer o
    then hold_reliable
    else admit

abbrev pub command_size : OutgoingCommand → ℕ
command_size o = size_of (header o.command).command

-- The datagram is full: the second test of the bytes is in 16 bits.
abbrev pub is_full : Walk → OutgoingCommand → Bool
is_full w o =
    lacks_place w.datagram 1
    || lacks_bytes w.datagram w.conn.peer.mtu (command_size o)
    || (has_packet o
        && ltb (wrap16 (sub64 w.conn.peer.mtu w.datagram.packet_size))
            (wrap16 (command_size o + o.fragment_length)))

-- The iterators, after a command that stays in its queue.
abbrev pub passed : Walk → Turn → Walk
passed w t = elim t.side [
  | ordinary ↦ record w {
    kept = w.kept ++ t.command ∷ [];
    left = t.left;
    left_reliable = t.left_reliable;
  }
  | reliable ↦ record w {
    kept_reliable = w.kept_reliable ++ t.command ∷ [];
    left = t.left;
    left_reliable = t.left_reliable;
  }
]

-- After a command that leaves its queue.
abbrev pub removed : Walk → Turn → Walk
removed w t = record w { left = t.left; left_reliable = t.left_reliable }

-- `currentSendReliableCommand = list_end(&peer->outgoingSendReliableCommands)`
abbrev pub skip_reliable : Walk → Walk
skip_reliable w = record w {
  kept_reliable = w.kept_reliable ++ w.left_reliable;
  left_reliable = [];
}

abbrev pub stop : Walk → Walk
stop w = record w {
  conn = record w.conn { peer = record w.conn.peer { continue_sending = true } };
  stopped = true;
}

-- `++channel->reliableWindows[…]` of a command that is sent for the first time.
unfoldable pub in_window : Peer → OutgoingCommand → Peer
in_window p o = elim (channel_of p o) [
  | none ↦ p
  | some ch ↦
      if ltb o.send_attempts 1
      then put_channel p (header o.command).channel_id (enter_window ch (window_of o))
      else p
]

-- The command as it is sent.
abbrev pub attempted : Conn → OutgoingCommand → OutgoingCommand
attempted c o = record o {
  send_attempts = add16 o.send_attempts 1;
  round_trip_timeout =
      if o.round_trip_timeout == 0
      then add32 c.peer.round_trip.round_trip_time
          (mul32 4 c.peer.round_trip.round_trip_time_variance)
      else o.round_trip_timeout;
  sent_time = c.host.service_time;
}

-- A reliable command moves to the sent ones.
unfoldable pub keep_sent : Conn → OutgoingCommand → Conn
unfolding in_window
keep_sent c o =
    let p = in_window c.peer o in
    let sent = attempted c o in
    record c {
      peer = record p {
        timing = record p.timing {
          next_timeout =
              if is_empty p.queues.sent_reliable_commands
              then add32 c.host.service_time sent.round_trip_timeout
              else p.timing.next_timeout;
        };
        queues = record p.queues {
          sent_reliable_commands = p.queues.sent_reliable_commands ++ sent ∷ [];
        };
        reliable_data_in_transit = add32 p.reliable_data_in_transit o.fragment_length;
      };
    }

-- The throttle drops a packet that its counter has passed.
abbrev pub counted : Peer → ℕ
counted p = add32 p.throttle.packet_throttle_counter packet_throttle_counter % packet_throttle_scale

abbrev pub with_counter : Conn → ℕ → Conn
with_counter c n = record c {
  peer = record c.peer { throttle = record c.peer.throttle { packet_throttle_counter = n } };
}

abbrev pub starts_packet : OutgoingCommand → Bool
starts_packet o = has_packet o && o.fragment_offset == 0

abbrev pub is_throttled : Conn → OutgoingCommand → Bool
is_throttled c o = starts_packet o && ltb c.peer.throttle.packet_throttle (counted c.peer)

abbrev pub is_same_packet : OutgoingCommand → OutgoingCommand → Bool
is_same_packet o next =
    next.reliable_sequence_number == o.reliable_sequence_number
    && next.unreliable_sequence_number == o.unreliable_sequence_number

-- The commands with the numbers of the first are dropped with it. The source reads the packet of each
-- without a test: `meets_null` tells whether one of them has none.
abbrev pub meets_null : OutgoingCommand → List OutgoingCommand → Bool
meets_null o [] = false
meets_null o (next ∷ rest) = is_same_packet o next && (not (has_packet next) || meets_null o rest)

unfoldable pub drop_same :
    OutgoingCommand → Store → List OutgoingCommand → Store × List OutgoingCommand
drop_same o s [] = (s, [])
drop_same o s (next ∷ rest) =
    let dropped = drop_same o (release s next.packet) rest in
    if is_same_packet o next then dropped else (s, next ∷ rest)

unfoldable pub drop_packet : Walk → Turn → Walk
unfolding drop_same
drop_packet w t =
    let (s, rest) = drop_same t.command (release w.conn.host.packets t.command.packet) t.left in
    record w {
      conn =
          with_counter (record w.conn { host = record w.conn.host { packets = s } })
            (counted w.conn.peer);
      left = rest;
      left_reliable = t.left_reliable;
      faulted = w.faulted || meets_null t.command t.left;
    }

-- The command, the range of its packet, and `packetsSent`.
abbrev pub put : Datagram → OutgoingCommand → Datagram
put d o = elim o.packet [
  | none ↦ put_command d o.command (command_size o)
  | some a ↦
      put_range (put_command d o.command (command_size o)) a o.fragment_offset o.fragment_length
]

abbrev pub count_sent : Conn → Conn
count_sent c = record c {
  peer = record c.peer {
    loss = record c.peer.loss { packets_sent = add32 c.peer.loss.packets_sent 1 };
  };
}

unfoldable pub write_reliable : Walk → Turn → Walk
unfolding keep_sent
write_reliable w t = record (removed w t) {
  conn = count_sent (keep_sent w.conn t.command);
  datagram = record (put w.datagram t.command) { sent_time_flag = true };
}

-- A command with a packet is kept until the datagram has been sent, any other is freed.
unfoldable pub write_unreliable : Walk → Turn → Walk
write_unreliable w t = record (removed w t) {
  conn =
      count_sent
        (if starts_packet t.command then with_counter w.conn (counted w.conn.peer) else w.conn);
  datagram = put w.datagram t.command;
  sent_unreliable =
      if has_packet t.command then w.sent_unreliable ++ t.command ∷ [] else w.sent_unreliable;
}

unfoldable pub write : Walk → Turn → Walk
unfolding write_reliable write_unreliable drop_packet
write w t =
    if acknowledges t.command
    then write_reliable w t
    else if is_throttled w.conn t.command
    then drop_packet w t
    else write_unreliable w t

-- `canPing = 0` for a command that asks for an acknowledgement.
abbrev pub no_ping : Walk → OutgoingCommand → Walk
no_ping w o = if acknowledges o then record w { can_ping = false } else w

unfoldable pub proceed : Walk → Turn → Verdict → Walk
unfolding write
proceed w t pass_over = passed w t
proceed w t begin_wrap = skip_reliable (record (passed w t) { window_wrap = true })
proceed w t hold_reliable = skip_reliable (passed w t)
proceed w t admit =
    let w' = no_ping w t.command in if is_full w t.command then stop w' else write w' t

-- The loop. Each round takes a command from one of the queues, so that there are at most as many
-- rounds as commands.
unfoldable pub walk : ℕ → Walk → Walk
unfolding choose judge proceed
walk zero w = w
walk (suc fuel) w = elim (choose w.left w.left_reliable) [
  | none ↦ w
  | some t ↦
      let w' = proceed w t (judge w t.command) in
      elim w'.stopped [ true ↦ w' | false ↦ walk fuel w' ]
]

-- The queues of the peer, as the iterators have left them.
unfoldable pub requeue : Walk → Conn
requeue w = record w.conn {
  peer = record w.conn.peer {
    queues = record w.conn.peer.queues {
      outgoing_commands = w.kept ++ w.left;
      outgoing_send_reliable_commands = w.kept_reliable ++ w.left_reliable;
    };
  };
}

unfoldable pub begin : Conn → Datagram → List OutgoingCommand → Walk
begin c d sent_unreliable = record {
  conn = c;
  kept = [];
  left = c.peer.queues.outgoing_commands;
  kept_reliable = [];
  left_reliable = c.peer.queues.outgoing_send_reliable_commands;
  datagram = d;
  sent_unreliable = sent_unreliable;
  window_wrap = false;
  can_ping = true;
  stopped = false;
  faulted = false;
}

abbrev pub rounds : Walk → ℕ
rounds w = length w.left + length w.left_reliable

unfoldable pub walk_queues : Conn → Datagram → List OutgoingCommand → Walk
unfolding walk begin
walk_queues c d sent_unreliable = let w = begin c d sent_unreliable in walk (rounds w) w

module _ (host_flush : Conn → Conn) where
  -- A peer that disconnects later does so once everything has been sent.
  unfoldable pub finish : Allocator → Walk → Conn
  unfolding requeue peer_disconnect
  finish malloc w =
      let c = requeue w in
      if State.value c.peer.state == State.value State.disconnect_later
        && not (peer_has_outgoing_commands c.peer)
        && is_empty w.sent_unreliable
      then peer_disconnect host_flush malloc c c.peer.event_data
      else c

  -- With the datagram, the unreliable commands that are sent with it, and `canPing`.
  unfoldable pub check_outgoing_commands :
      Allocator
      → Conn
      → Datagram
      → List OutgoingCommand
      → Conn × Datagram × List OutgoingCommand × Bool
  unfolding finish walk_queues
  check_outgoing_commands malloc c d sent_unreliable =
      let w = walk_queues c d sent_unreliable in
      (finish malloc w, w.datagram, w.sent_unreliable, w.can_ping)
