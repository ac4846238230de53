-- ===== src/Protocol/Sending.antt =====
-- src/protocol.cpp, `enet_protocol_send_outgoing_commands`: one peer's datagram, from its queues to the
-- socket. The socket, the compressor and the checksum are parameters (`Sending.Outbound`).
pub mod Outbound
pub mod Passes
pub mod HeaderRoundTrip
pub mod Length
use enetcpp.Base.{
  Bool, List, Option, [], false, if◌then◌else◌, is_empty, leb, ltb, mul32, not, sub64, true, wrap32,
  ℕ, ◌&&◌, ◌+◌, ◌/◌, ◌==◌, ◌∷◌,
}
use enetcpp.Time.{time_difference, time_greater_equal, distance}
use enetcpp.Command.Size
use enetcpp.Memory.{Allocator}
use enetcpp.Packet.Store.{Store, release}
use enetcpp.Peer.{Peer, OutgoingCommand, Loss}
use enetcpp.Peer.Default.{packet_loss_scale, packet_loss_interval}
use enetcpp.Peer.State
use enetcpp.Peer.Outgoing.{peer_has_outgoing_commands}
use enetcpp.Peer.Disconnect.{peer_disconnect}
use enetcpp.Peer.Reset.{peer_ping}
use enetcpp.Host.{Conn}
use enetcpp.Protocol.{Event}
use enetcpp.Protocol.Datagram.{Datagram, empty_datagram}
use enetcpp.Protocol.Datagram.Acknowledgements.{send_acknowledgements}
use enetcpp.Protocol.Timeout.{check_timeouts}
use enetcpp.Protocol.Outgoing.{check_outgoing_commands}

-- The peer that is served, its datagram, `sentUnreliableCommands` and the caller's event.
pub record Job : Type 0 where
  pub conn : Conn
  pub datagram : Datagram
  pub sent_unreliable : List OutgoingCommand
  pub event : Option Event

-- `flags &= ~PEER_FLAG_CONTINUE_SENDING`, and an empty datagram.
abbrev pub start : Conn → List OutgoingCommand → Option Event → Job
start c sent_unreliable event = record {
  conn = record c { peer = record c.peer { continue_sending = false } };
  datagram = empty_datagram;
  sent_unreliable = sent_unreliable;
  event = event;
}

unfoldable pub acknowledge : Job → Job
unfolding send_acknowledgements
acknowledge j =
    let (c, d) = send_acknowledgements j.conn j.datagram in
    if is_empty j.conn.peer.queues.acknowledgements then j else record j { conn = c; datagram = d }

-- With whether the peer has been given up.
unfoldable pub time_out : Bool → Job → Job × Bool
unfolding check_timeouts
time_out check_for_timeouts j =
    let (r, given_up) = check_timeouts j.conn j.event in
    if check_for_timeouts
      && not (is_empty j.conn.peer.queues.sent_reliable_commands)
      && time_greater_equal j.conn.host.service_time j.conn.peer.timing.next_timeout
    then (record j { conn = r.conn; event = r.event }, given_up)
    else (j, false)

abbrev pub has_nothing_queued : Peer → Bool
has_nothing_queued p =
    is_empty p.queues.outgoing_commands && is_empty p.queues.outgoing_send_reliable_commands

-- Nothing has been heard for the interval of pings, and a ping has room.
abbrev pub needs_ping : Job → Bool
needs_ping j =
    is_empty j.conn.peer.queues.sent_reliable_commands
    && leb j.conn.peer.timing.ping_interval
        (time_difference j.conn.host.service_time j.conn.peer.timing.last_receive_time)
    && leb Size.ping (sub64 j.conn.peer.mtu j.datagram.packet_size)

abbrev pub loss_of : Loss → ℕ
loss_of l = mul32 l.packets_lost packet_loss_scale / l.packets_sent

-- `packetLoss` and its variance, at the end of an interval.
unfoldable pub measure_loss : Loss → ℕ → Loss
measure_loss l service_time =
    if l.packet_loss_epoch == 0
    then record l { packet_loss_epoch = service_time }
    else if leb packet_loss_interval (time_difference service_time l.packet_loss_epoch)
        && ltb 0 l.packets_sent
    then record {
      packet_loss_variance =
          wrap32 (mul32 l.packet_loss_variance 3 + distance (loss_of l) l.packet_loss) / 4;
      packet_loss = wrap32 (mul32 l.packet_loss 7 + loss_of l) / 8;
      packet_loss_epoch = service_time;
      packets_sent = 0;
      packets_lost = 0;
    }
    else l

-- The references of the commands that have been sent are given up.
unfoldable pub release_all : Store → List OutgoingCommand → Store
release_all s [] = s
release_all s (o ∷ os) = release_all (release s o.packet) os

module _ (host_flush : Conn → Conn) where
  -- `enet_protocol_check_outgoing_commands` for a job, with `canPing`.
  unfoldable pub check_queues : Allocator → Job → Job × Bool
  unfolding check_outgoing_commands
  check_queues malloc j =
      let (c, d, sent_unreliable, can_ping) =
        check_outgoing_commands host_flush malloc j.conn j.datagram j.sent_unreliable in
      (record j { conn = c; datagram = d; sent_unreliable = sent_unreliable }, can_ping)

  -- The commands of the queues, and a ping if there is nothing to acknowledge.
  unfoldable pub fill : Allocator → Job → Job
  unfolding check_queues
  fill malloc j =
      let (filled, can_ping) =
        if has_nothing_queued j.conn.peer then (j, true) else check_queues malloc j in
      if can_ping && needs_ping filled
      then (check_queues malloc (record filled { conn = peer_ping malloc filled.conn })).0
      else filled

  -- `enet_protocol_remove_sent_unreliable_commands`
  unfoldable pub remove_sent_unreliable_commands : Allocator → Conn → List OutgoingCommand → Conn
  unfolding release_all peer_disconnect
  remove_sent_unreliable_commands malloc c sent =
      let released = record c {
        host = record c.host { packets = release_all c.host.packets sent };
      } in
      if is_empty sent
      then c
      else if State.value c.peer.state == State.value State.disconnect_later
          && not (peer_has_outgoing_commands c.peer)
      then peer_disconnect host_flush malloc released c.peer.event_data
      else released
