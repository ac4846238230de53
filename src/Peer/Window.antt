-- ===== src/Peer/Window.antt =====
-- src/peer.cpp and src/protocol.cpp: the windows of 4096 sequence numbers by which a received
-- reliable sequence number is taken for a coming one or an old one. The lines are repeated in
-- `peer_queue_incoming_command`, `peer_queue_acknowledgement`,
-- `peer_dispatch_incoming_unreliable_commands` and the handlers of fragments.
pub mod Exact
use enetcpp.Base.{ℕ, ◌+◌, ◌-◌, ◌/◌, Bool, ◌&&◌, ◌||◌, ltb, leb, if◌then◌else◌, add16}
use enetcpp.Peer.Default.{reliable_windows, reliable_window_size, free_reliable_windows}

-- `reliableWindow`, of a number against the channel's `incomingReliableSequenceNumber`
unfoldable pub reliable_window : ℕ → ℕ → ℕ
reliable_window number current =
    if ltb number current
    then add16 (number / reliable_window_size) reliable_windows
    else number / reliable_window_size

-- `reliableWindow < currentWindow || reliableWindow >= currentWindow + FREE_RELIABLE_WINDOWS - 1`
unfoldable pub outside_window : ℕ → ℕ → Bool
unfolding reliable_window
outside_window number current =
    ltb (reliable_window number current) (current / reliable_window_size)
    || leb (current / reliable_window_size + free_reliable_windows - 1)
        (reliable_window number current)

-- The test under which `peer_queue_acknowledgement` does not acknowledge.
unfoldable pub unacknowledged_window : ℕ → ℕ → Bool
unfolding reliable_window
unacknowledged_window number current =
    leb (current / reliable_window_size + free_reliable_windows - 1)
      (reliable_window number current)
    && leb (reliable_window number current) (current / reliable_window_size + free_reliable_windows)
