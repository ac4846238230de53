-- ===== src/Peer/Receive.antt =====
-- src/peer.cpp: `peer_receive`.
use enetcpp.Base.{List, Option, [], none, some, sub64, ◌∷◌, ℕ}
use enetcpp.Command.{header}
use enetcpp.Packet.{Packet}
use enetcpp.Packet.Store.{update, uncounted}
use enetcpp.Peer.{IncomingCommand}
use enetcpp.Host.{Conn}

-- A packet that is handed over: where it is, and the channel that it came by.
pub record Received : Type 0 where
  pub packet : ℕ
  pub channel_id : ℕ

-- The reference of the queue is given up, and the packet stays alive for the caller.
unfoldable pub take_packet : Conn → List IncomingCommand → ℕ → ℕ → Packet → Conn × Option Received
take_packet c rest a channel_id packet = (
  record {
    host = record c.host { packets = update c.host.packets a (some (uncounted packet)) };
    peer = record c.peer {
      queues = record c.peer.queues { dispatched_commands = rest };
      total_waiting_data = sub64 c.peer.total_waiting_data packet.data_length;
    };
  },
  some (record { packet = a; channel_id = channel_id }),
)

-- A dispatched command has a packet that is alive; where there is none the code would fault.
unfoldable pub receive_from : Conn → List IncomingCommand → Conn × Option Received
unfolding take_packet
receive_from c [] = (c, none)
receive_from c (i ∷ rest) = elim i.packet [
  | none ↦ (c, none)
  | some a ↦ elim (c.host.packets a) [
    | none ↦ (c, none)
    | some packet ↦ take_packet c rest a (header i.command).channel_id packet
  ]
]

unfoldable pub peer_receive : Conn → Conn × Option Received
unfolding receive_from
peer_receive c = receive_from c c.peer.queues.dispatched_commands
