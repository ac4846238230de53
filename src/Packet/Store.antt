-- ===== src/Packet/Store.antt =====
-- The packets that are alive, by address. A reference from a queue is counted in the packet, and the
-- queue that gives up the last one destroys it (`packet_destroy` of src/packet.cpp).
use enetcpp.Base.{ℕ, Option, none, some, add64, sub64, ◌==◌, if◌then◌else◌}
use enetcpp.Packet.{Packet}

abbrev pub Store : Type 0
Store = ℕ → Option Packet

abbrev pub update : Store → ℕ → Option Packet → Store
update s a p b = if b == a then p else s b

-- `packet_destroy`: the callback and the two calls of `enet_free` leave nothing at the address.
unfoldable pub packet_destroy : Store → ℕ → Store
packet_destroy s a = update s a none

-- `++packet->referenceCount`
abbrev pub counted : Packet → Packet
counted p = record p { reference_count = add64 p.reference_count 1 }

unfoldable pub retain : Store → ℕ → Store
retain s a = elim (s a) [ none ↦ s | some p ↦ update s a (some (counted p)) ]

-- `--packet->referenceCount`
abbrev pub uncounted : Packet → Packet
uncounted p = record p { reference_count = sub64 p.reference_count 1 }

-- The packet with one reference less, or destroyed if that was the last one.
unfoldable pub release_at : Store → ℕ → Packet → Store
unfolding packet_destroy
release_at s a p =
    if (uncounted p).reference_count == 0
    then packet_destroy s a
    else update s a (some (uncounted p))

-- `if (packet != nullptr) { --packet->referenceCount; if (packet->referenceCount == 0)
-- packet_destroy(packet); }`
unfoldable pub release : Store → Option ℕ → Store
unfolding release_at
release s none = s
release s (some a) = elim (s a) [ none ↦ s | some p ↦ release_at s a p ]
