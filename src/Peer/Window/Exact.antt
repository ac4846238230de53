-- ===== src/Peer/Window/Exact.antt =====
-- src/peer.cpp: the window tests against how far a sequence number is ahead of the current one.
use enetcpp.Base.{ℕ, ◌+◌, ◌-◌, ◌%◌, ◌<◌, ◌≡◌, ltb, leb, arith, ◌&&◌}
use enetcpp.Peer.Window.{outside_window, unacknowledged_window}

-- How far a 16-bit sequence number is ahead of another, round the wrap.
abbrev pub ahead : ℕ → ℕ → ℕ
ahead number current = (number + 65536 - current) % 65536

-- A sequence number is accepted exactly if it lies before the end of the seventh window, the current
-- one being the first.
pub outside_window_exact :
    (number current : ℕ)
    → number < 65536
    → current < 65536
    → outside_window number current ≡ leb 28672 (current % 4096 + ahead number current)
unfolding outside_window
outside_window_exact number current h k = ground arith

-- A sequence number stays unacknowledged exactly if it lies in one of the two windows that follow:
-- so what is accepted is acknowledged, and so is what was received before, up to seven windows back.
pub acknowledged_exact :
    (number current : ℕ)
    → number < 65536
    → current < 65536
    → unacknowledged_window number current ≡ (
        leb 28672 (current % 4096 + ahead number current)
        && ltb (current % 4096 + ahead number current) 36864)
unfolding unacknowledged_window
acknowledged_exact number current h k = ground arith
