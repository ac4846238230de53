-- ===== src/Protocol/Outgoing/Window.antt =====
-- src/protocol.cpp, `enet_protocol_check_outgoing_commands`: the window of the reliable sequence numbers
-- that a channel uses.
use enetcpp.Base.{
  Bool, add16, false, if◌then◌else◌, leb, ltb, suc, true, zero, ℕ, ◌%◌, ◌&&◌, ◌+◌, ◌-◌, ◌==◌, ◌||◌,
}
use enetcpp.Peer.{Channel}
use enetcpp.Peer.Default.{reliable_windows, reliable_window_size, free_reliable_windows}

-- The windows whose bits are in `(((1 << (FREE + 2)) - 1) << w) | (((1 << (FREE + 2)) - 1) >> (16 - w))`.
abbrev pub is_ahead : ℕ → ℕ → Bool
is_ahead window k =
    (leb window k && ltb k (window + (free_reliable_windows + 2)))
    || ltb (k + (reliable_windows - window)) (free_reliable_windows + 2)

-- `usedReliableWindows & mask`, bit by bit.
abbrev pub any_used : (ℕ → Bool) → (ℕ → Bool) → ℕ → Bool
any_used used mask zero = false
any_used used mask (suc k) = (used k && mask k) || any_used used mask k

-- The window before is full, or one of those ahead is in use.
unfoldable pub is_wrapped : Channel → ℕ → Bool
is_wrapped ch window =
    leb reliable_window_size
      (ch.reliable_windows ((window + reliable_windows - 1) % reliable_windows))
    || any_used ch.used_reliable_windows (is_ahead window) reliable_windows

-- `usedReliableWindows |= 1 << w; ++reliableWindows[w];`
unfoldable pub enter_window : Channel → ℕ → Channel
enter_window ch window = record ch {
  used_reliable_windows = λ k. if k == window then true else ch.used_reliable_windows k;
  reliable_windows =
      λ k. if k == window then add16 (ch.reliable_windows k) 1 else ch.reliable_windows k;
}
