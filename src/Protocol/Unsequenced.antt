-- ===== src/Protocol/Unsequenced.antt =====
-- src/protocol.cpp, `enet_protocol_handle_send_unsequenced`: the window of groups that have come.
pub mod Replay
use enetcpp.Base.{
  Bool, Option, false, if◌then◌else◌, leb, ltb, none, some, true, ◌!=◌, ◌%◌, ◌*◌, ◌+◌, ◌-◌, ◌==◌, ℕ,
}
use enetcpp.Command.{SendUnsequenced, send_unsequenced}
use enetcpp.Memory.{Allocator}
use enetcpp.Packet.{flag_unsequenced}
use enetcpp.Peer.{Peer}
use enetcpp.Peer.Default.{unsequenced_window_size, free_unsequenced_windows}
use enetcpp.Host.{Conn}
use enetcpp.Protocol.Receive.{Handled, is_refused, exceeds, receive_packet}

-- `unsequencedGroup % PEER_UNSEQUENCED_WINDOW_SIZE`
abbrev pub index_of : ℕ → ℕ
index_of group = group % unsequenced_window_size

-- `unsequencedGroup += 0x10000` for a group below the window, and the test of how far it is ahead.
abbrev pub is_too_far : Peer → ℕ → Bool
is_too_far p group =
    leb (p.incoming_unsequenced_group + free_unsequenced_windows * unsequenced_window_size)
      (if ltb group p.incoming_unsequenced_group then group + 65536 else group)

-- `unsequencedGroup - index != peer->incomingUnsequencedGroup`
abbrev pub is_new_window : Peer → ℕ → Bool
is_new_window p group = group - index_of group != p.incoming_unsequenced_group

-- The window is moved to the group, and emptied.
abbrev pub move_window : Peer → ℕ → Peer
move_window p group = record p {
  incoming_unsequenced_group = group - index_of group;
  unsequenced_window = λ _. false;
}

-- `unsequencedWindow[index / 32] |= 1 << (index % 32)`
abbrev pub mark_group : Peer → ℕ → Peer
mark_group p group = record p {
  unsequenced_window = λ i. if i == index_of group then true else p.unsequenced_window i;
}

abbrev pub mark_if_ok : ℕ → Handled → Handled
mark_if_ok group h =
    if h.ok then record h { conn = record h.conn { peer = mark_group h.conn.peer group } } else h

-- The window before the command is queued; `none` for a group that has come already.
unfoldable pub admit_group : Peer → ℕ → Option Peer
admit_group p group =
    if is_new_window p group
    then some (move_window p group)
    else if p.unsequenced_window (index_of group)
    then none
    else some p

unfoldable pub handle_send_unsequenced : Allocator → Conn → SendUnsequenced → ℕ → Handled
unfolding admit_group receive_packet
handle_send_unsequenced malloc c u start =
    if is_refused c.peer u.header.channel_id
    then record { conn = c; current_data = start; ok = false }
    else if exceeds c.host u.data_length end
    then record { conn = c; current_data = end; ok = false }
    else if is_too_far c.peer u.unsequenced_group
    then record { conn = c; current_data = end; ok = true }
    else elim (admit_group c.peer u.unsequenced_group) [
      | none ↦ record { conn = c; current_data = end; ok = true }
      | some p ↦ mark_if_ok u.unsequenced_group (
          receive_packet malloc (record c { peer = p }) (send_unsequenced u) start u.data_length
            flag_unsequenced)
    ]
  where
    end : ℕ
    end = start + u.data_length
