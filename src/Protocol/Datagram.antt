-- ===== src/Protocol/Datagram.antt =====
-- The datagram that src/protocol.cpp builds in the arrays of a host: `headerFlags`, `commands`, `buffers`
-- and `packetSize` of include/enetcpp/enetcpp.h. `commands` and `buffers` are the parts of the arrays
-- that are in use, without the buffer of the header, which is `buffers[0]`: that is made at the end, in
-- `Protocol.Sending.Outbound`. `packetSize` counts the header with its sent time, but not the checksum.
pub mod Fit
pub mod Acknowledgements
pub mod Answers
use enetcpp.Base.{
  Bool, List, [], add64, false, leb, length, ltb, sub64, ℕ, ◌*◌, ◌++◌, ◌+◌, ◌||◌, ◌∷◌,
}
use enetcpp.Command.{Protocol}
use enetcpp.Command.Size
use enetcpp.Command.Limits.{maximum_packet_commands}

-- `ENET_BUFFER_MAXIMUM` of a platform that names no other.
abbrev pub buffer_maximum : ℕ
buffer_maximum = 1 + 2 * maximum_packet_commands

-- `Buffer`: a command of the array, with its size, or a range of a packet's bytes.
pub data Buffer : Type 0 where
  of_command : Protocol → ℕ → Buffer
  of_packet : ℕ → ℕ → ℕ → Buffer

-- `dataLength`
abbrev pub data_length : Buffer → ℕ
data_length (of_command command size) = size
data_length (of_packet packet offset size) = size

-- `sent_time_flag` is the only flag of `headerFlags` that is set while commands are written.
pub record Datagram : Type 0 where
  pub sent_time_flag : Bool
  pub commands : List Protocol
  pub buffers : List Buffer
  pub packet_size : ℕ

-- `headerFlags = 0; commandCount = 0; bufferCount = 1; packetSize = sizeof(ProtocolHeader);`
abbrev pub empty_datagram : Datagram
empty_datagram = record {
  sent_time_flag = false;
  commands = [];
  buffers = [];
  packet_size = Size.protocol_header;
}

-- No place for a command, or for `n` buffers more than one; and `peer->mtu - host->packetSize < size`,
-- an unsigned subtraction.
abbrev pub lacks_place : Datagram → ℕ → Bool
lacks_place d n =
    leb maximum_packet_commands (length d.commands) || leb buffer_maximum (1 + length d.buffers + n)

abbrev pub lacks_bytes : Datagram → ℕ → ℕ → Bool
lacks_bytes d mtu size = ltb (sub64 mtu d.packet_size) size

-- A command and its buffer, at the ends of the arrays.
abbrev pub put_command : Datagram → Protocol → ℕ → Datagram
put_command d command size = record d {
  commands = d.commands ++ command ∷ [];
  buffers = d.buffers ++ of_command command size ∷ [];
  packet_size = add64 d.packet_size size;
}

-- The buffer of a range of a packet.
abbrev pub put_range : Datagram → ℕ → ℕ → ℕ → Datagram
put_range d packet offset size = record d {
  buffers = d.buffers ++ of_packet packet offset size ∷ [];
  packet_size = add64 d.packet_size size;
}
