-- ===== src/Protocol/Receive.antt =====
-- src/protocol.cpp: the handlers of reliable and unreliable packets.
-- `current_data` is the offset in `host->receivedData` of what follows the command; it cannot be in
-- front of the buffer, so that test of the source is left out.
use enetcpp.Base.{
  Bool, List, drop, false, if◌then◌else◌, leb, length, ltb, not, some, take, true, ◌+◌, ◌||◌, ℕ,
}
use enetcpp.Command.{Protocol, SendReliable, SendUnreliable, send_reliable, send_unreliable}
use enetcpp.Memory.{Allocator}
use enetcpp.Packet.{flag_reliable}
use enetcpp.Peer.{Peer}
use enetcpp.Peer.State.{is_connected}
use enetcpp.Peer.Incoming.{Queued, queued, dummy, null, peer_queue_incoming_command}
use enetcpp.Host.{Host, Conn}

-- A handler's connection, `currentData` after it, and whether it returned 0.
pub record Handled : Type 0 where
  pub conn : Conn
  pub current_data : ℕ
  pub ok : Bool

-- `channelID >= channelCount || (state != CONNECTED && state != DISCONNECT_LATER)`
abbrev pub is_refused : Peer → ℕ → Bool
is_refused p channel_id = leb p.channel_count channel_id || not (is_connected p.state)

-- `dataLength > maximumPacketSize || currentData > &receivedData[receivedDataLength]`
abbrev pub exceeds : Host → ℕ → ℕ → Bool
exceeds h data_length end =
    ltb h.maximum_packet_size data_length || ltb (length h.received_data) end

-- The bytes that follow a command.
abbrev pub payload : Host → ℕ → ℕ → List ℕ
payload h start data_length = take data_length (drop start h.received_data)

-- A null pointer makes the handler fail.
abbrev pub handled : ℕ → Conn × Queued → Handled
handled end (c, queued a) = record { conn = c; current_data = end; ok = true }
handled end (c, dummy) = record { conn = c; current_data = end; ok = true }
handled end (c, null) = record { conn = c; current_data = end; ok = false }

-- What the three handlers of whole packets share, up to their flags.
unfoldable pub receive_packet : Allocator → Conn → Protocol → ℕ → ℕ → ℕ → Handled
unfolding peer_queue_incoming_command
receive_packet malloc c command start data_length flags = handled (start + data_length) (
    peer_queue_incoming_command malloc c command (some (payload c.host start data_length))
      data_length flags 0)

unfoldable pub handle_send_reliable : Allocator → Conn → SendReliable → ℕ → Handled
unfolding receive_packet
handle_send_reliable malloc c r start =
    if is_refused c.peer r.header.channel_id
    then record { conn = c; current_data = start; ok = false }
    else if exceeds c.host r.data_length (start + r.data_length)
    then record { conn = c; current_data = start + r.data_length; ok = false }
    else receive_packet malloc c (send_reliable r) start r.data_length flag_reliable

unfoldable pub handle_send_unreliable : Allocator → Conn → SendUnreliable → ℕ → Handled
unfolding receive_packet
handle_send_unreliable malloc c r start =
    if is_refused c.peer r.header.channel_id
    then record { conn = c; current_data = start; ok = false }
    else if exceeds c.host r.data_length (start + r.data_length)
    then record { conn = c; current_data = start + r.data_length; ok = false }
    else receive_packet malloc c (send_unreliable r) start r.data_length 0
