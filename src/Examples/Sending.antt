-- ===== src/Examples/Sending.antt =====
-- The theorems on the datagrams that are sent, applied.
use enetcpp.Base.{
  ◌≤◌, All, Bool-cases, [], arith, false, inl, inr, length, none, refl, some, true, ℕ, ◌<◌, ◌==◌,
  ◌^◌, ◌∷◌, ◌≡◌, ◌⊎◌,
}
use enetcpp.Command.{bandwidth_limit}
use enetcpp.Command.Size.{protocol_command_size}
use enetcpp.Packet.Laws.{references}
use enetcpp.Peer.{Acknowledgement}
use enetcpp.Host.{Conn}
use enetcpp.Protocol.Datagram.{empty_datagram}
use enetcpp.Protocol.Datagram.Acknowledgements.{send_acknowledgements}
use enetcpp.Protocol.Datagram.Answers.{IsAnswered, send_acknowledgements-IsAnswered}
use enetcpp.Protocol.Datagram.Fit.{IsFit}
use enetcpp.Protocol.Timeout.{check_timeouts}
use enetcpp.Protocol.Timeout.Partition.{Outcome, check_timeouts-Outcome}
use enetcpp.Protocol.Outgoing.{walk_queues, requeue}
use enetcpp.Protocol.Outgoing.Size.{IsShort}
use enetcpp.Protocol.Outgoing.Liveness.{IsSendable, walk_queues-progress}
use enetcpp.Protocol.Outgoing.References.{AreAccounted, walk_queues-IsAccounted}
use enetcpp.Protocol.Sending.Outbound.{Callbacks, header_word, outbound, sent_length}
use enetcpp.Protocol.Sending.Length.{IsSent, outbound-walk_queues}
use enetcpp.Protocol.Sending.HeaderRoundTrip.{header_word-read}
use enetcpp.Protocol.Incoming.Header.{peer_of, session_of, has_sent_time, is_compressed}
use enetcpp.Host.Bandwidth.{Share, throttle_outgoing, adjust_passes, is_unsettled}
use enetcpp.Host.Bandwidth.Bounds.{IsLimited, throttle_outgoing-IsLimited}
use enetcpp.Host.Bandwidth.Ending.{adjust_passes-length}
use enetcpp.Examples.Samples.{
  conn, host, peer, world, messages, incoming, outgoing, limiting, reliable_command,
}

abbrev answering : Acknowledgement
answering = record { sent_time = 900; command = reliable_command 4 }

-- A reliable packet and a command of the peer wait to be sent, and a command to be acknowledged.
abbrev sending : Conn
sending = record conn {
  peer = record peer {
    queues = record {
      acknowledgements = answering ∷ [];
      sent_reliable_commands = [];
      outgoing_send_reliable_commands = outgoing 9 (some 5) ∷ [];
      outgoing_commands = record (outgoing 10 none) { command = bandwidth_limit limiting } ∷ [];
      dispatched_commands = incoming 3 (some 5) ∷ [];
    };
  };
}

abbrev nowhere : ℕ → ℕ
nowhere a = 0

sending-AreAccounted : AreAccounted nowhere sending []
sending-AreAccounted a = elim (Bool-cases (a == 5)) [
  | inl e ↦ ground (arith, e)
  | inr e ↦ ground (arith, e)
]

messages_small : (a : ℕ) → references messages a < 2 ^ 64
messages_small a = elim (Bool-cases (a == 5)) [
  | inl e ↦ rw (references, messages, e) (omega arith)
  | inr e ↦ rw (references, messages, e) (omega arith)
]

empty-IsFit : IsFit 1400 empty_datagram
empty-IsFit = record {
  few_commands = omega arith;
  few_buffers = omega arith;
  counted = refl;
  within = omega arith;
}

brief_ordinary : All IsShort sending.peer.queues.outgoing_commands
unfolding protocol_command_size
brief_ordinary = omega arith

brief_reliable : All IsShort sending.peer.queues.outgoing_send_reliable_commands
unfolding protocol_command_size
brief_reliable = omega arith

light_ordinary : All (IsSendable 1400) sending.peer.queues.outgoing_commands
unfolding protocol_command_size
light_ordinary = omega arith

light_reliable : All (IsSendable 1400) sending.peer.queues.outgoing_send_reliable_commands
unfolding protocol_command_size
light_reliable = omega arith

-- No command is dropped, so that no null pointer is read.
sending_faulted : (walk_queues sending empty_datagram []).faulted ≡ false
unfolding walk_queues enetcpp.Time.time_less protocol_command_size
sending_faulted = refl

walk_queues_accounted_example :
    let w = walk_queues sending empty_datagram [] in
    (w.faulted ≡ false)
    × AreAccounted nowhere (requeue w) w.sent_unreliable
    × ((a : ℕ) → references w.conn.host.packets a < 2 ^ 64)
walk_queues_accounted_example =
    walk_queues-IsAccounted nowhere sending empty_datagram [] sending-AreAccounted messages_small
      (inl sending_faulted)

-- A host with a checksum and a compressor that needs one byte for everything.
abbrev checked : Callbacks
checked = record {
  compress = some (λ packets buffers size. 0 ∷ []);
  checksum = some (λ packets header buffers. length buffers);
}

outbound-walk_queues_example :
    let filled = (walk_queues sending empty_datagram []).datagram in
    IsFit 1400 filled
    × IsSent checked sending filled
    × sent_length (outbound checked sending filled) ≤ 1404
outbound-walk_queues_example =
    outbound-walk_queues checked sending sending empty_datagram [] (omega arith) brief_ordinary
      brief_reliable empty-IsFit

walk_queues_progress_example :
    let w = walk_queues sending empty_datagram [] in
    (0 < length w.datagram.commands)
    ⊎ ((w.left ≡ []) × (w.left_reliable ≡ []) × (w.conn.peer.continue_sending ≡ false))
walk_queues_progress_example =
    walk_queues-progress sending empty_datagram [] (omega arith) light_ordinary light_reliable
      (inl (refl, refl, refl))

send_acknowledgements_example :
    IsAnswered 1400 empty_datagram (answering ∷ []) (send_acknowledgements sending empty_datagram)
send_acknowledgements_example =
    send_acknowledgements-IsAnswered sending empty_datagram (omega arith) empty-IsFit

check_timeouts_example : Outcome conn none (check_timeouts conn none)
check_timeouts_example = check_timeouts-Outcome conn none

header_word_example :
    let word = header_word true false peer in
    (peer_of word ≡ 0)
    × (has_sent_time word ≡ true)
    × (is_compressed word ≡ false)
    × (((peer.outgoing_peer_id < 4095) × (session_of word ≡ 0))
        ⊎ ((peer.outgoing_peer_id ≡ 4095) × (session_of word ≡ 0)))
header_word_example = header_word-read true false peer (omega arith) (omega arith)

throttle_outgoing_example : All IsLimited (throttle_outgoing host world.peers 5000 1500)
throttle_outgoing_example = throttle_outgoing-IsLimited host world.peers 5000 1500 (omega arith)

abbrev share : Share
share = record { remaining = 1; data_total = 900; bandwidth = 100; needs_adjustment = true }

adjust_passes_example : is_unsettled (adjust_passes 3 5000 1500 share world.peers).0 ≡ false
adjust_passes_example = adjust_passes-length 5000 1500 share world.peers
