-- ===== src/Protocol/Datagram/Acknowledgements.antt =====
-- src/protocol.cpp, `enet_protocol_send_acknowledgements`.
use enetcpp.Base.{Bool, List, [], if◌then◌else◌, true, wrap16, ◌==◌, ◌||◌, ◌∷◌}
use enetcpp.Command.{Protocol, header, acknowledge, command_mask}
use enetcpp.Command.Number
use enetcpp.Command.Size
use enetcpp.Peer.{Acknowledgement}
use enetcpp.Peer.State
use enetcpp.Host.{Conn}
use enetcpp.Protocol.Change.{dispatch_state}
use enetcpp.Protocol.Datagram.{Datagram, lacks_place, lacks_bytes, put_command}

-- `peer->flags |= PEER_FLAG_CONTINUE_SENDING`
abbrev pub continue_sending : Conn → Conn
continue_sending c = record c { peer = record c.peer { continue_sending = true } }

abbrev pub with_acknowledgements : Conn → List Acknowledgement → Conn
with_acknowledgements c l = record c {
  peer = record c.peer { queues = record c.peer.queues { acknowledgements = l } };
}

-- The command for an acknowledgement; the sent time is written in 16 bits.
abbrev pub acknowledging : Acknowledgement → Protocol
acknowledging a = acknowledge (record {
  header = record {
    command = Number.acknowledge;
    channel_id = (header a.command).channel_id;
    reliable_sequence_number = (header a.command).reliable_sequence_number;
  };
  received_reliable_sequence_number = (header a.command).reliable_sequence_number;
  received_sent_time = wrap16 a.sent_time;
})

-- An acknowledged disconnect ends the connection.
unfoldable pub conclude : Conn → Acknowledgement → Conn
conclude c a =
    if command_mask (header a.command).command == Number.disconnect
    then dispatch_state c State.zombie
    else c

abbrev pub is_full : Conn → Datagram → Bool
is_full c d = lacks_place d 0 || lacks_bytes d c.peer.mtu Size.acknowledge

-- The loop, over the queue of acknowledgements.
unfoldable pub acknowledge_all : Conn → Datagram → List Acknowledgement → Conn × Datagram
acknowledge_all c d [] = (with_acknowledgements c [], d)
acknowledge_all c d (a ∷ rest) =
    if is_full c d
    then (continue_sending (with_acknowledgements c (a ∷ rest)), d)
    else acknowledge_all (with_acknowledgements (conclude c a) rest)
        (put_command d (acknowledging a) Size.acknowledge) rest

unfoldable pub send_acknowledgements : Conn → Datagram → Conn × Datagram
unfolding acknowledge_all
send_acknowledgements c d = acknowledge_all c d c.peer.queues.acknowledgements
