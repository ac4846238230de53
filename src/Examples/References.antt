-- ===== src/Examples/References.antt =====
-- The theorems on the reference counts of packets, applied.
use enetcpp.Base.{
  ℕ, ◌≡◌, ◌+◌, ◌⊎◌, ◌<◌, ◌^◌, inl, inr, refl, none, some, true, arith, [], ◌==◌, sub64, Bool-cases,
}
use enetcpp.Command.Number
use enetcpp.Packet.Store.{uncounted}
use enetcpp.Packet.Laws.{references}
use enetcpp.Peer.Dispatch.{
  peer_dispatch_incoming_reliable_commands, peer_dispatch_incoming_unreliable_commands,
}
use enetcpp.Peer.Receive.{peer_receive}
use enetcpp.Peer.Reset.{peer_reset_queues}
use enetcpp.Peer.Send.{peer_send}
use enetcpp.Peer.References.{held_peer, IsAccounted}
use enetcpp.Peer.References.Sending.{peer_send-IsAccounted}
use enetcpp.Peer.References.Resetting.{peer_reset_queues-IsAccounted}
use enetcpp.Peer.References.Dispatching.{held_side, dispatch-held}
use enetcpp.Peer.References.Receiving.{peer_receive-first}
use enetcpp.Examples.Samples.{plenty, conn, channel, incoming, message, messages}

-- No reference comes from elsewhere.
abbrev nowhere : ℕ → ℕ
nowhere a = 0

conn-IsAccounted : IsAccounted nowhere conn
conn-IsAccounted a = elim (Bool-cases (a == 5)) [
  | inl e ↦ ground (arith, e)
  | inr e ↦ ground (arith, e)
]

conn_small : (a : ℕ) → references messages a < 2 ^ 64
conn_small a = elim (Bool-cases (a == 5)) [
  | inl e ↦ rw (references, messages, e) (omega arith)
  | inr e ↦ rw (references, messages, e) (omega arith)
]

peer_send_example :
    IsAccounted nowhere (peer_send plenty conn 0 5 message).0
    × (((peer_send plenty conn 0 5 message).1 ≡ true)
        ⊎ ((peer_send plenty conn 0 5 message).0 ≡ conn))
peer_send_example =
    peer_send-IsAccounted nowhere plenty conn 0 5 message refl (omega arith) conn-IsAccounted

peer_reset_queues_example :
    IsAccounted nowhere (peer_reset_queues conn)
    × ((a : ℕ) → held_peer a (peer_reset_queues conn).peer ≡ 0)
    × ((a : ℕ) → references (peer_reset_queues conn).host.packets a ≡ 0)
peer_reset_queues_example = peer_reset_queues-IsAccounted nowhere conn conn-IsAccounted conn_small

dispatch_example :
    (references (peer_dispatch_incoming_unreliable_commands conn channel none).0.host.packets 5
        + held_side 5 conn channel
      ≡ references messages 5
        + held_side 5
            (peer_dispatch_incoming_unreliable_commands conn channel none).0
            (peer_dispatch_incoming_unreliable_commands conn channel none).1)
    × (references (peer_dispatch_incoming_reliable_commands conn channel none).0.host.packets 5
          + held_side 5 conn channel
        ≡ references messages 5
          + held_side 5
              (peer_dispatch_incoming_reliable_commands conn channel none).0
              (peer_dispatch_incoming_reliable_commands conn channel none).1)
dispatch_example = dispatch-held conn channel none 5 (omega arith) (omega arith)

peer_receive_example :
    ((peer_receive conn).1 ≡ some (record { packet = 5; channel_id = 0 }))
    × ((peer_receive conn).0.peer.queues.dispatched_commands ≡ [])
    × ((peer_receive conn).0.host.packets 5 ≡ some (uncounted message))
    × IsAccounted nowhere (peer_receive conn).0
    × ((peer_receive conn).0.peer.total_waiting_data ≡ sub64 3 3)
peer_receive_example =
    peer_receive-first nowhere conn (incoming 3 (some 5)) [] 5 message refl refl refl (omega arith)
      conn-IsAccounted
