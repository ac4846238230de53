-- ===== src/Command/Bytes.antt =====
-- include/enetcpp/protocol.h: the packed structures of the commands as bytes, in the order in which they
-- are sent: a number of 16 or 32 bits in network order, but for `connectID`, which is copied in the
-- order of the machine, here with its lowest byte first.
pub mod RoundTrip
use enetcpp.Base.{
  List, Option, [], if◌then◌else◌, none, some, suc, zero, ℕ, ◌%◌, ◌*◌, ◌+◌, ◌/◌, ◌==◌, ◌∷◌,
}
use enetcpp.Command.{
  CommandHeader, Protocol, acknowledge, connect, verify_connect, bandwidth_limit,
  throttle_configure, disconnect, ping, send_reliable, send_unreliable, send_unsequenced,
  send_fragment,
}
use enetcpp.Command.Number

-- The byte at an offset; the tests of the code keep offsets inside.
abbrev pub byte : List ℕ → ℕ → ℕ
byte [] k = 0
byte (x ∷ xs) zero = x
byte (x ∷ xs) (suc k) = byte xs k

abbrev pub low : ℕ → ℕ
low n = n % 256

abbrev pub read16 : List ℕ → ℕ → ℕ
read16 l k = byte l k * 256 + byte l (suc k)

abbrev pub read32 : List ℕ → ℕ → ℕ
read32 l k =
    byte l k * 16777216
    + byte l (suc k) * 65536
    + byte l (suc (suc k)) * 256
    + byte l (suc (suc (suc k)))

-- In the order of the machine.
abbrev pub read_native : List ℕ → ℕ → ℕ
read_native l k =
    byte l k
    + byte l (suc k) * 256
    + byte l (suc (suc k)) * 65536
    + byte l (suc (suc (suc k))) * 16777216

-- Writes, in front of what follows.
abbrev pub write16 : ℕ → List ℕ → List ℕ
write16 n l = low (n / 256) ∷ low n ∷ l

abbrev pub write32 : ℕ → List ℕ → List ℕ
write32 n l = low (n / 16777216) ∷ low (n / 65536) ∷ low (n / 256) ∷ low n ∷ l

abbrev pub write_native : ℕ → List ℕ → List ℕ
write_native n l = low n ∷ low (n / 256) ∷ low (n / 65536) ∷ low (n / 16777216) ∷ l

abbrev pub write_header : CommandHeader → List ℕ → List ℕ
write_header h l = h.command ∷ h.channel_id ∷ write16 h.reliable_sequence_number l

-- The bytes of a command, in front of what follows.
unfoldable pub encode : Protocol → List ℕ → List ℕ
encode (acknowledge c) l =
    write_header c.header
      (write16 c.received_reliable_sequence_number (write16 c.received_sent_time l))
encode (connect c) l = write_header c.header (
    write16 c.outgoing_peer_id (
      c.incoming_session_id
      ∷ c.outgoing_session_id
      ∷ write32 c.mtu (
          write32 c.window_size (
            write32 c.channel_count (
              write32 c.incoming_bandwidth (
                write32 c.outgoing_bandwidth (
                  write32 c.packet_throttle_interval (
                    write32 c.packet_throttle_acceleration (
                      write32 c.packet_throttle_deceleration
                        (write_native c.connect_id (write32 c.user_data l)))))))))))
encode (verify_connect c) l = write_header c.header (
    write16 c.outgoing_peer_id (
      c.incoming_session_id
      ∷ c.outgoing_session_id
      ∷ write32 c.mtu (
          write32 c.window_size (
            write32 c.channel_count (
              write32 c.incoming_bandwidth (
                write32 c.outgoing_bandwidth (
                  write32 c.packet_throttle_interval (
                    write32 c.packet_throttle_acceleration
                      (write32 c.packet_throttle_deceleration (write_native c.connect_id l))))))))))
encode (bandwidth_limit c) l =
    write_header c.header (write32 c.incoming_bandwidth (write32 c.outgoing_bandwidth l))
encode (throttle_configure c) l = write_header c.header (
    write32 c.packet_throttle_interval
      (write32 c.packet_throttle_acceleration (write32 c.packet_throttle_deceleration l)))
encode (disconnect c) l = write_header c.header (write32 c.user_data l)
encode (ping c) l = write_header c.header l
encode (send_reliable c) l = write_header c.header (write16 c.data_length l)
encode (send_unreliable c) l =
    write_header c.header (write16 c.unreliable_sequence_number (write16 c.data_length l))
encode (send_unsequenced c) l =
    write_header c.header (write16 c.unsequenced_group (write16 c.data_length l))
encode (send_fragment c) l = write_header c.header (
    write16 c.start_sequence_number (
      write16 c.data_length (
        write32 c.fragment_count
          (write32 c.fragment_number (write32 c.total_length (write32 c.fragment_offset l))))))

abbrev pub read_header : List ℕ → CommandHeader
read_header l = record {
  command = byte l 0;
  channel_id = byte l 1;
  reliable_sequence_number = read16 l 2;
}

abbrev pub read_fragment : List ℕ → Protocol
read_fragment l = send_fragment (record {
  header = read_header l;
  start_sequence_number = read16 l 4;
  data_length = read16 l 6;
  fragment_count = read32 l 8;
  fragment_number = read32 l 12;
  total_length = read32 l 16;
  fragment_offset = read32 l 20;
})

-- The command of a number, from the bytes that begin with it; `none` for the numbers that `switch`
-- has no case for.
unfoldable pub decode : ℕ → List ℕ → Option Protocol
decode number l =
    if number == Number.acknowledge
    then some (
        acknowledge (record {
          header = read_header l;
          received_reliable_sequence_number = read16 l 4;
          received_sent_time = read16 l 6;
        }))
    else if number == Number.connect
    then some (
        connect (record {
          header = read_header l;
          outgoing_peer_id = read16 l 4;
          incoming_session_id = byte l 6;
          outgoing_session_id = byte l 7;
          mtu = read32 l 8;
          window_size = read32 l 12;
          channel_count = read32 l 16;
          incoming_bandwidth = read32 l 20;
          outgoing_bandwidth = read32 l 24;
          packet_throttle_interval = read32 l 28;
          packet_throttle_acceleration = read32 l 32;
          packet_throttle_deceleration = read32 l 36;
          connect_id = read_native l 40;
          user_data = read32 l 44;
        }))
    else if number == Number.verify_connect
    then some (
        verify_connect (record {
          header = read_header l;
          outgoing_peer_id = read16 l 4;
          incoming_session_id = byte l 6;
          outgoing_session_id = byte l 7;
          mtu = read32 l 8;
          window_size = read32 l 12;
          channel_count = read32 l 16;
          incoming_bandwidth = read32 l 20;
          outgoing_bandwidth = read32 l 24;
          packet_throttle_interval = read32 l 28;
          packet_throttle_acceleration = read32 l 32;
          packet_throttle_deceleration = read32 l 36;
          connect_id = read_native l 40;
        }))
    else if number == Number.disconnect
    then some (disconnect (record { header = read_header l; user_data = read32 l 4 }))
    else if number == Number.ping
    then some (ping (record { header = read_header l }))
    else if number == Number.send_reliable
    then some (send_reliable (record { header = read_header l; data_length = read16 l 4 }))
    else if number == Number.send_unreliable
    then some (
        send_unreliable (record {
          header = read_header l;
          unreliable_sequence_number = read16 l 4;
          data_length = read16 l 6;
        }))
    else if number == Number.send_fragment
    then some (read_fragment l)
    else if number == Number.send_unsequenced
    then some (
        send_unsequenced (record {
          header = read_header l;
          unsequenced_group = read16 l 4;
          data_length = read16 l 6;
        }))
    else if number == Number.bandwidth_limit
    then some (
        bandwidth_limit (record {
          header = read_header l;
          incoming_bandwidth = read32 l 4;
          outgoing_bandwidth = read32 l 8;
        }))
    else if number == Number.throttle_configure
    then some (
        throttle_configure (record {
          header = read_header l;
          packet_throttle_interval = read32 l 4;
          packet_throttle_acceleration = read32 l 8;
          packet_throttle_deceleration = read32 l 12;
        }))
    else if number == Number.send_unreliable_fragment
    then some (read_fragment l)
    else none
