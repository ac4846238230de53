-- ===== src/Examples/Messages.antt =====
-- The theorems on the clock, the throttle and the handlers of commands, applied.
use enetcpp.Base.{
  length, take, drop, inl, inr, ℕ, List, zero, suc, ◌≡◌, ◌+◌, ◌*◌, ◌⊎◌, ◌<◌, refl, none, some, true,
  false, arith, [], ◌∷◌, replicate, wrap32, ◌%◌,
}
use enetcpp.Packet.{Packet, packet_create}
use enetcpp.Peer.Incoming.Place.{spot_of}
use enetcpp.Peer.{IncomingCommand}
use enetcpp.Peer.Counters.{IsCounted}
use enetcpp.Peer.Incoming.{new_incoming}
use enetcpp.Peer.Reset.{peer_reset}
use enetcpp.Protocol.Change.{notify_connect, notify_disconnect}
use enetcpp.Protocol.Clock.{received_sent_time, received_sent_time_exact}
use enetcpp.Protocol.Connect.{handle_connect}
use enetcpp.Protocol.Connect.Choice.{IsAnswered, handle_connect-IsAnswered}
use enetcpp.Protocol.Control.{handle_disconnect, handle_bandwidth_limit}
use enetcpp.Protocol.Counting.{handlers-IsCounted}
use enetcpp.Protocol.Verify.{handle_verify_connect}
use enetcpp.Protocol.Fragment.{apply_fragment, seen, fragment_bit, malformed}
use enetcpp.Protocol.Fragment.Reassembly.{IsAssembly, IsTaken, apply_fragment-IsTaken}
use enetcpp.Protocol.Fragment.Completion.{IsPiece, Occurs, collect, collect-whole}
use enetcpp.Command.{SendFragment, SendUnsequenced, VerifyConnect}
use enetcpp.Command.Number
use enetcpp.Host.{Conn}
use enetcpp.Protocol.Unsequenced.{handle_send_unsequenced}
use enetcpp.Protocol.Unsequenced.Replay.{IsPast, handle_send_unsequenced-IsPast}
use enetcpp.Time.{time_less, time_greater, time_less_equal, time_greater_equal}
use enetcpp.Time.Wrap.{time_compare_exact}
use enetcpp.Examples.Samples.{
  plenty, conn, host, peer, world, asking, leaving, limiting, fragment, reliable_command, header_of,
}

conn-IsCounted : IsCounted 0 0 conn
conn-IsCounted = record { connected = refl; bandwidth_limited = refl }

abbrev verifying : VerifyConnect
verifying = record {
  header = header_of Number.verify_connect 1;
  outgoing_peer_id = 2;
  incoming_session_id = 1;
  outgoing_session_id = 1;
  mtu = 1200;
  window_size = 65536;
  channel_count = 1;
  incoming_bandwidth = 500;
  outgoing_bandwidth = 0;
  packet_throttle_interval = 5000;
  packet_throttle_acceleration = 2;
  packet_throttle_deceleration = 2;
  connect_id = 77;
}

handlers_example :
    IsCounted 0 0 (peer_reset conn)
    × IsCounted 0 0 (handle_disconnect conn leaving)
    × IsCounted 0 0 (handle_bandwidth_limit conn limiting).0
    × IsCounted 0 0 (handle_verify_connect conn none verifying).0.conn
    × IsCounted 0 0 (notify_connect conn none).conn
    × IsCounted 0 0 (notify_disconnect conn none).conn
handlers_example = handlers-IsCounted 0 0 conn none leaving limiting verifying conn-IsCounted

handle_connect_example : IsAnswered world asking (handle_connect plenty world asking)
handle_connect_example = handle_connect-IsAnswered plenty world asking

-- A packet of five bytes in three fragments, none of which has come.
abbrev assembling : IncomingCommand
assembling = new_incoming host (reliable_command 4) 3

abbrev assembled : Packet
assembled = record { reference_count = 0; flags = 1; bytes = some (replicate 5 0); data_length = 5 }

unmarked-IsAssembly : IsAssembly assembling assembled
unmarked-IsAssembly = record {
  bits = replicate 32 false;
  block = replicate 5 0;
  has_bits = refl;
  bitmap = refl;
  remaining = refl;
  few = omega arith;
  has_block = refl;
  size = refl;
  fits = omega arith;
}

apply_fragment_example :
    ((fragment_bit assembling 1 ≡ some true)
      × (apply_fragment assembling assembled fragment (4 ∷ 6 ∷ []) ≡ seen))
    ⊎ ((fragment_bit assembling 1 ≡ some false)
        × IsTaken assembling assembled fragment (4 ∷ 6 ∷ []))
apply_fragment_example =
    apply_fragment-IsTaken host assembling assembled fragment (4 ∷ 6 ∷ []) unmarked-IsAssembly
      (unfold malformed in refl) refl refl refl

abbrev sent : List ℕ
sent = 11 ∷ 12 ∷ 13 ∷ 14 ∷ 15 ∷ []

abbrev fragment_of : ℕ → ℕ → SendFragment
fragment_of number size = record fragment {
  fragment_number = number;
  fragment_offset = number * 2;
  data_length = size;
}

-- They come in another order, and one comes twice.
abbrev arrived : List SendFragment
arrived = fragment_of 2 1 ∷ fragment_of 0 2 ∷ fragment_of 2 1 ∷ fragment_of 1 2 ∷ []

arrived-Occurs : (n : ℕ) → n < 3 → Occurs n arrived
arrived-Occurs zero h = inr (inl refl)
arrived-Occurs (suc zero) h = inr (inr (inr (inl refl)))
arrived-Occurs (suc (suc zero)) h = inl refl
arrived-Occurs (suc (suc (suc n))) h = absurd (omega arith)

fragment_of-IsPiece :
    (number size : ℕ)
    → malformed host (fragment_of number size) ≡ false
    → number < 3
    → size ≡ length (take 2 (drop (number * 2) sent))
    → IsPiece host sent 2 3 (omega arith) (fragment_of number size)
fragment_of-IsPiece number size accepted known fits = record {
  accepted = accepted;
  known = known;
  offset = refl;
  size = fits;
  same_count = refl;
  same_length = refl;
}

last-IsPiece : IsPiece host sent 2 3 (omega arith) (fragment_of 2 1)
last-IsPiece = fragment_of-IsPiece 2 1 (unfold malformed in refl) (omega arith) refl

collect_example :
    (i : IncomingCommand) × (p : Packet) × (collect host sent 2 3
        (omega arith)
        assembling
        assembled
        arrived
      ≡ some (i, p))
    × (i.fragments_remaining ≡ 0)
    × (p.bytes ≡ some sent)
collect_example =
    collect-whole host sent 2 3 (omega arith) (omega arith) assembling assembled unmarked-IsAssembly
      refl refl refl arrived
      (
        last-IsPiece,
        (
          fragment_of-IsPiece 0 2 (unfold malformed in refl) (omega arith) refl,
          (
            last-IsPiece,
            (fragment_of-IsPiece 1 2 (unfold malformed in refl) (omega arith) refl, tt),
          ),
        ),
      )
      arrived-Occurs

abbrev loose : SendUnsequenced
loose = record {
  header = header_of Number.send_unsequenced 0;
  unsequenced_group = 3;
  data_length = 0;
}

-- Another connection, whose window has moved on.
abbrev moved_on : Conn
moved_on = record conn { peer = record peer { incoming_unsequenced_group = 2048 } }

send_unsequenced_example :
    let h = handle_send_unsequenced plenty conn loose 0 in
    IsPast h.conn.peer 3
    × ((handle_send_unsequenced plenty h.conn loose 0).conn ≡ h.conn)
    × ((handle_send_unsequenced plenty moved_on loose 0).conn ≡ moved_on)
unfolding handle_send_unsequenced spot_of packet_create
send_unsequenced_example =
    handle_send_unsequenced-IsPast plenty conn moved_on loose 0 0 (refl, omega arith) (omega arith)
      refl (omega arith) (inr (omega arith, omega arith))

received_sent_time_example : received_sent_time (wrap32 (65530 + 10)) (wrap32 65530 % 65536) ≡ 65530
received_sent_time_example = received_sent_time_exact 65530 10 (omega arith)

-- The times 5 before and 5 after the wrap of the clock.
time_compare_example :
    (time_less 4294967291 5 ≡ true)
    × (time_greater 4294967291 5 ≡ false)
    × (time_less_equal 4294967291 5 ≡ true)
    × (time_greater_equal 4294967291 5 ≡ false)
time_compare_example = time_compare_exact 4294967291 4294967301 (omega arith, omega arith)
