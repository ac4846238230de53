-- ===== src/Examples/Hosts.antt =====
-- The theorems on a host and all of its peers, applied.
use enetcpp.Base.{
  All, Bool-cases, [], arith, false, inl, inr, none, refl, some, true, ◌+◌, ◌<◌, ◌==◌, ◌^◌, ◌∷◌,
  ◌≡◌, ◌⊎◌, ℕ,
}
use enetcpp.Packet.Laws.{references}
use enetcpp.Peer.{Address}
use enetcpp.Host.{World}
use enetcpp.Host.Broadcast.{host_broadcast}
use enetcpp.Host.Broadcast.Accounting.{host_broadcast-AreCounted}
use enetcpp.Host.Create.{Platform, open_socket, host_create}
use enetcpp.Host.Create.Balance.{IsBalanced, host_create-IsBalanced}
use enetcpp.Host.Create.Fresh.{IsReady, host_create-IsReady}
use enetcpp.Host.Destroy.{Compressor, host_destroy}
use enetcpp.Host.Destroy.References.{held_all, AreCounted, IsReset, host_destroy-released}
use enetcpp.Examples.Samples.{plenty, host, peer, message, messages}

abbrev nowhere : ℕ → ℕ
nowhere a = 0

-- The peer that is connected is the only one.
abbrev lone : World
lone = record { host = host; peers = peer ∷ [] }

lone-AreCounted : AreCounted nowhere lone
lone-AreCounted a = elim (Bool-cases (a == 5)) [
  | inl e ↦ ground (arith, e)
  | inr e ↦ ground (arith, e)
]

lone_small : (a : ℕ) → references messages a < 2 ^ 64
lone_small a = elim (Bool-cases (a == 5)) [
  | inl e ↦ rw (references, messages, e) (omega arith)
  | inr e ↦ rw (references, messages, e) (omega arith)
]

abbrev compressing : Compressor
compressing = record { context = some 9; has_destroy = true }

abbrev local_address : Address
local_address = record { host = 1; port = 7777 }

abbrev platform : Platform
platform = record {
  location = 65536;
  seed = 12;
  opens = true;
  binds = λ _. true;
  bound_address = none;
  packets = messages;
  next_packet = 6;
  next_command = 0;
}

-- The address is taken by another program.
abbrev occupied : Platform
occupied = record platform { binds = λ _. false }

host_broadcast_example :
    AreCounted nowhere (host_broadcast plenty lone 0 5)
    × (((host_broadcast plenty lone 0 5).host.packets 5 ≡ none)
        ⊎ (0 < 0 + held_all 5 (host_broadcast plenty lone 0 5).peers))
host_broadcast_example =
    host_broadcast-AreCounted nowhere plenty lone 0 5 message refl (omega arith) lone-AreCounted

host_destroy_example :
    (end : World) × ((host_destroy (some lone) compressing).world ≡ some end)
    × ((a : ℕ) → references end.host.packets a ≡ 0)
    × All IsReset end.peers
host_destroy_example = host_destroy-released nowhere lone compressing lone-AreCounted lone_small

host_create_example :
    IsBalanced compressing open_socket (host_create plenty occupied (some local_address) 32 2 0 0)
host_create_example =
    host_create-IsBalanced plenty occupied (some local_address) 32 2 0 0 compressing open_socket

created_example :
    (w : World) × ((host_create plenty platform (some local_address) 32 2 0 0).world ≡ some w)
    × IsReady platform 32 w
created_example =
    host_create-IsReady plenty platform (some local_address) 32 2 0 0 (omega arith) refl refl refl
