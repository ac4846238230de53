-- ===== src/Peer/Acknowledge.antt =====
-- src/peer.cpp: `peer_queue_acknowledgement`.
use enetcpp.Base.{
  Bool, [], add32, false, get_elem?, if◌then◌else◌, ltb, none, some, true, ◌++◌, ◌∷◌, ℕ,
}
use enetcpp.Command.{Protocol, header}
use enetcpp.Command.Size
use enetcpp.Memory.{Allocator, acknowledgement}
use enetcpp.Peer.{Peer}
use enetcpp.Peer.Window.{unacknowledged_window}

append_acknowledgement : Allocator → Peer → Protocol → ℕ → Peer × Bool
append_acknowledgement malloc p command sent_time =
    if malloc.succeeds acknowledgement
    then (
      record p {
        bandwidth = record p.bandwidth {
          outgoing_data_total = add32 p.bandwidth.outgoing_data_total Size.acknowledge;
        };
        queues = record p.queues {
          acknowledgements =
              p.queues.acknowledgements ++ record { sent_time = sent_time; command = command } ∷ [];
        };
      },
      true,
    )
    else (p, false)

-- With whether an acknowledgement was queued. A channel that is counted is allocated.
unfoldable pub peer_queue_acknowledgement : Allocator → Peer → Protocol → ℕ → Peer × Bool
unfolding append_acknowledgement
peer_queue_acknowledgement malloc p command sent_time =
    if ltb (header command).channel_id p.channel_count
    then elim (get_elem? p.channels (header command).channel_id) [
      | none ↦ (p, false)
      | some ch ↦
          if unacknowledged_window (header command).reliable_sequence_number
            ch.incoming_reliable_sequence_number
          then (p, false)
          else append_acknowledgement malloc p command sent_time
    ]
    else append_acknowledgement malloc p command sent_time
