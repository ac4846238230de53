-- ===== src/Examples/Receiving.antt =====
-- The theorems on the datagrams that are received, applied.
use enetcpp.Base.{List, [], arith, length, none, refl, some, true, ℕ, ◌++◌, ◌+◌, ◌∷◌, ◌≡◌}
use enetcpp.Command.{Protocol, header, command_mask, ping}
use enetcpp.Command.Size.{protocol_command_size}
use enetcpp.Command.Bytes.{encode, decode}
use enetcpp.Command.Bytes.RoundTrip.{decode-encode}
use enetcpp.Host.{Conn}
use enetcpp.Protocol.{Event, nothing}
use enetcpp.Protocol.Incoming.{Reading, next_command, read_commands}
use enetcpp.Protocol.Incoming.Termination.{IsInside, next_command-IsInside}
use enetcpp.Protocol.Incoming.Progress.{read_commands-length}
use enetcpp.Protocol.Delivery.{dispatch_incoming_commands}
use enetcpp.Protocol.Delivery.Events.{Outcome, states, dispatch_incoming_commands-Outcome}
use enetcpp.Examples.Samples.{plenty, world, reliable_command}

decode_example :
    (decode
        (command_mask (header (reliable_command 4)).command)
        (encode (reliable_command 4) [] ++ (1 ∷ 2 ∷ 3 ∷ []))
      ≡ some (reliable_command 4))
    × (protocol_command_size (header (reliable_command 4)).command
        ≡ some (length (encode (reliable_command 4) [])))
decode_example = decode-encode (reliable_command 4) (1 ∷ 2 ∷ 3 ∷ []) (omega arith)

-- A ping of the peer.
abbrev bytes : List ℕ
bytes = 133 ∷ 255 ∷ 0 ∷ 7 ∷ []

abbrev pinging : Protocol
pinging =
    ping
      (record { header = record { command = 133; channel_id = 255; reliable_sequence_number = 7 } })

read_ping : next_command bytes true 0 ≡ some (pinging, 4)
unfolding next_command
read_ping = refl

next_command_example : IsInside bytes true 0 (pinging, 4)
next_command_example = next_command-IsInside bytes true 0 (pinging, 4) read_ping

abbrev reading : Reading
reading = record { world = world; peer = some 0; event = none; offset = 0 }

abbrev no_flush : Conn → Conn
no_flush c = c

read_commands_example :
    read_commands no_flush plenty (length bytes + 9) bytes true 900 reading
    ≡ read_commands no_flush plenty (length bytes) bytes true 900 reading
read_commands_example = read_commands-length no_flush plenty 9 bytes true 900 reading

abbrev no_event : Event
no_event = record { type = nothing; peer = none; channel_id = 0; user_data = 0; packet = none }

dispatch_incoming_example :
    Outcome (states world.peers) no_event (dispatch_incoming_commands world no_event)
dispatch_incoming_example = dispatch_incoming_commands-Outcome world no_event (omega arith)
