-- ===== src/Examples/Peers.antt =====
-- The theorems on the queues of a peer, applied.
use enetcpp.Base.{true, ◌≤◌, List, ◌≡◌, ◌⊎◌, inl, refl, none, false, arith, length}
use enetcpp.Command.Number
use enetcpp.Peer.Dispatch.{peer_dispatch_incoming_unreliable_commands, request_dispatch}
use enetcpp.Peer.Dispatch.Unreliable.{Delivers, Keeps, dispatch_unreliable-Delivers}
use enetcpp.Peer.Incoming.Place.{spot_of}
use enetcpp.Peer.Incoming.Order.{IsPlaced, spot_of-IsPlaced}
use enetcpp.Peer.Reset.{peer_reset, peer_reset_queues}
use enetcpp.Peer.Reset.Queue.{IsQueued, occurrences, dispatch_queue-IsQueued}
use enetcpp.Peer.Send.{Piece, cut, pieces, fragment_count_of}
use enetcpp.Peer.Send.Tiling.{Tiles, cut-Tiles}
use enetcpp.Peer.Throttle.{Follows, peer_throttle, peer_throttle_bounds}
use enetcpp.Peer.Window.{outside_window}
use enetcpp.Peer.Window.Exact.{outside_window_exact}
use enetcpp.Examples.Samples.{plenty, conn, channel, incoming, round_trip, throttle}

dispatch_unreliable_example :
    Delivers 3 conn (peer_dispatch_incoming_unreliable_commands conn channel none).0
    × Keeps channel (peer_dispatch_incoming_unreliable_commands conn channel none).1
dispatch_unreliable_example = dispatch_unreliable-Delivers conn channel none

spot_of_example :
    IsPlaced 3
      (incoming 6 none)
      channel.incoming_reliable_commands
      (spot_of channel Number.send_reliable 6 0)
spot_of_example =
    spot_of-IsPlaced channel Number.send_reliable 0 (incoming 6 none) (inl refl) (omega arith)
      (omega arith)
      (omega arith, omega arith, (omega arith, omega arith, (omega arith, omega arith, tt)))

cut_example :
    (ps : List Piece) × (cut plenty 11 10 4 0 0 ≡ pieces ps)
    × (length ps ≡ fragment_count_of 10 4)
    × Tiles 10 4 0 0 ps
cut_example = cut-Tiles plenty 10 4 (λ b. refl) (omega arith) (omega arith) (omega arith)

dispatch_queue_example :
    IsQueued (request_dispatch conn)
    × IsQueued (peer_reset_queues conn)
    × (occurrences 1 (request_dispatch conn).host.dispatch_queue ≡ 0)
    × (occurrences 1 (peer_reset_queues conn).host.dispatch_queue ≡ 0)
    × ((request_dispatch conn).host.dispatch_damaged ≡ false)
    × (((true ≡ false) × IsQueued (peer_reset conn))
        ⊎ ((true ≡ true)
            × ((peer_reset conn).peer.needs_dispatch ≡ false)
            × (occurrences 0 (peer_reset conn).host.dispatch_queue ≡ 1)
            × ((request_dispatch (peer_reset conn)).host.dispatch_damaged ≡ true)))
dispatch_queue_example = dispatch_queue-IsQueued conn 1 refl refl

peer_throttle_example :
    let (t, trend) = peer_throttle round_trip throttle 95 in
    (t ≡ record throttle { packet_throttle = 32 })
    × (t.packet_throttle ≤ 32)
    × Follows round_trip 95 trend throttle t
unfolding peer_throttle
peer_throttle_example = peer_throttle_bounds round_trip throttle 95 (omega arith) (omega arith)

outside_window_example : outside_window 5 65535 ≡ false
outside_window_example = outside_window_exact 5 65535 (omega arith) (omega arith)
