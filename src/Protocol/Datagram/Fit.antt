-- ===== src/Protocol/Datagram/Fit.antt =====
-- The datagram of src/protocol.cpp fits its arrays and the MTU of a peer.
use enetcpp.Base.{
  List, [], arith, false, length, length-append, ℕ, ◌++◌, ◌+◌, ◌<◌, ◌^◌, ◌∷◌, ◌≡◌, ◌≤◌,
}
use enetcpp.Protocol.Datagram.{
  Datagram, Buffer, data_length, of_command, of_packet, put_command, put_range, lacks_place,
  lacks_bytes, buffer_maximum,
}
use enetcpp.Command.{Protocol}
use enetcpp.Command.Size
use enetcpp.Command.Limits.{maximum_packet_commands}

-- The bytes of buffers.
abbrev pub total_length : List Buffer → ℕ
total_length [] = 0
total_length (b ∷ bs) = data_length b + total_length bs

pub total_length-append :
    (xs ys : List Buffer) → total_length (xs ++ ys) ≡ total_length xs + total_length ys
total_length-append [] ys = omega arith
total_length-append (x ∷ xs) ys = omega (arith, total_length-append xs ys)

-- Neither array is overrun, the size that is counted is that of the header and the buffers, and it
-- is within the MTU.
pub record IsFit (mtu : ℕ) (d : Datagram) : Type 0 where
  pub few_commands : length d.commands ≤ maximum_packet_commands
  pub few_buffers : 1 + length d.buffers ≤ buffer_maximum
  pub counted : d.packet_size ≡ Size.protocol_header + total_length d.buffers
  pub within : d.packet_size ≤ mtu

module _ (mtu : ℕ) (d : Datagram) (small : mtu < 2 ^ 32) (v : IsFit mtu d) where
  pub put_command-IsFit :
      (command : Protocol) (size : ℕ)
      → lacks_place d 0 ≡ false
      → lacks_bytes d mtu size ≡ false
      → IsFit mtu (put_command d command size)
  put_command-IsFit command size e f = ground (
    arith,
    length-append d.commands (command ∷ []),
    length-append d.buffers (of_command command size ∷ []),
    total_length-append d.buffers (of_command command size ∷ []),
  )

  pub put_both-IsFit :
      (command : Protocol) (size packet offset bytes : ℕ)
      → lacks_place d 1 ≡ false
      → lacks_bytes d mtu (size + bytes) ≡ false
      → IsFit mtu (put_range (put_command d command size) packet offset bytes)
  put_both-IsFit command size packet offset bytes e f = ground (
    arith,
    length-append d.commands (command ∷ []),
    length-append d.buffers (of_command command size ∷ []),
    length-append (d.buffers ++ of_command command size ∷ []) (of_packet packet offset bytes ∷ []),
    total_length-append d.buffers (of_command command size ∷ []),
    total_length-append (d.buffers ++ of_command command size ∷ [])
        (of_packet packet offset bytes ∷ []),
  )
