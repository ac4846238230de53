-- ===== src/Protocol/Unsequenced/Replay.antt =====
-- src/protocol.cpp, `enet_protocol_handle_send_unsequenced`: groups that have come.
use enetcpp.Base.{
  Bool-cases, Option-cases, arith, false, inl, inr, ltb, none, refl, some, true, ◌%◌, ◌+◌, ◌-◌, ◌<◌,
  ◌==◌, ◌∙◌, ◌≡◌, ◌≤◌, ◌⊎◌, ℕ,
}
use enetcpp.Command.{SendUnsequenced, send_unsequenced}
use enetcpp.Memory.{Allocator}
use enetcpp.Packet.{flag_unsequenced}
use enetcpp.Peer.{Peer}
use enetcpp.Peer.Incoming.{Queued, queued, dummy, null, peer_queue_incoming_command}
use enetcpp.Peer.Incoming.Kept.{IsSameWindow, queue_incoming-IsSameWindow}
use enetcpp.Host.{Conn}
use enetcpp.Protocol.Receive.{handled, is_refused, exceeds, payload, receive_packet}
use enetcpp.Protocol.Unsequenced.{
  admit_group, mark_group, mark_if_ok, is_too_far, handle_send_unsequenced,
}

-- The window of the peer starts at a multiple of its size.
abbrev pub IsAligned : Peer → Type 0
IsAligned p = (p.incoming_unsequenced_group % 1024 ≡ 0) × (p.incoming_unsequenced_group < 65536)

-- How far a group is behind the start of the window, round the wrap.
abbrev pub behind : Peer → ℕ → ℕ
behind p group = (p.incoming_unsequenced_group + 65536 - group) % 65536

-- A group is marked in the window, or lies behind it, by half of all numbers at most.
abbrev pub IsPast : Peer → ℕ → Type 0
IsPast p group =
    ((p.incoming_unsequenced_group ≡ group - group % 1024)
      × (p.unsequenced_window (group % 1024) ≡ true))
    ⊎ ((0 < behind p group) × (behind p group ≤ 32768))

too_far-IsPast :
    (p : Peer) (group : ℕ)
    → IsAligned p
    → group < 65536
    → is_too_far p group ≡ true
    → IsPast p group
too_far-IsPast p group aligned small e =
    elim (Bool-cases (ltb group p.incoming_unsequenced_group)) [
      | inl f ↦ inr (ground (arith, e, f), ground (arith, e, f))
      | inr f ↦ inr (ground (arith, e, f), ground (arith, e, f))
    ]

-- The window that a group is admitted to starts at the group's.
admit_group-start :
    (p q : Peer) (group : ℕ)
    → group < 65536
    → IsAligned p
    → admit_group p group ≡ some q
    → (q.incoming_unsequenced_group ≡ group - group % 1024) × (q.incoming_unsequenced_group < 65536)
unfolding admit_group
admit_group-start p q group small aligned e = (ground arith, ground arith)

admit_group-refused :
    (p : Peer) (group : ℕ)
    → admit_group p group ≡ none
    → (p.incoming_unsequenced_group ≡ group - group % 1024)
      × (p.unsequenced_window (group % 1024) ≡ true)
unfolding admit_group
admit_group-refused p group e = (ground arith, ground arith)

module _ (malloc : Allocator) (c : Conn) (u : SendUnsequenced) (start : ℕ) where
  marked-IsPast :
      (p : Peer)
      → p.incoming_unsequenced_group ≡ u.unsequenced_group - u.unsequenced_group % 1024
      → p.incoming_unsequenced_group < 65536
      → let h = mark_if_ok u.unsequenced_group (
          receive_packet malloc
            (record c { peer = p })
            (send_unsequenced u)
            start
            u.data_length
            flag_unsequenced) in
        h.ok ≡ true
        → IsPast h.conn.peer u.unsequenced_group × (h.conn.peer.incoming_unsequenced_group < 65536)
  unfolding receive_packet
  marked-IsPast p at_start small =
      by_result
        (peer_queue_incoming_command malloc (record c { peer = p }) (send_unsequenced u)
          (some (payload c.host start u.data_length)) u.data_length flag_unsequenced 0)
        (queue_incoming-IsSameWindow malloc (record c { peer = p }) (send_unsequenced u)
          (some (payload c.host start u.data_length)) u.data_length flag_unsequenced 0)
    where
      set_bit :
          (d : Conn)
          → (mark_group d.peer u.unsequenced_group).unsequenced_window (u.unsequenced_group % 1024)
            ≡ true
      set_bit d =
          let e : (u.unsequenced_group % 1024 == u.unsequenced_group % 1024) ≡ true =
            ground arith in
          rw e refl

      by_result :
          (r : Conn × Queued)
          → IsSameWindow (record c { peer = p }) r.0
          → let h = mark_if_ok u.unsequenced_group (handled (start + u.data_length) r) in
            h.ok ≡ true
            → IsPast h.conn.peer u.unsequenced_group
              × (h.conn.peer.incoming_unsequenced_group < 65536)
      by_result (d, queued a) k ok =
          (inl (k.group ∙ at_start, set_bit d), omega (arith, k.group, small))
      by_result (d, dummy) k ok =
          (inl (k.group ∙ at_start, set_bit d), omega (arith, k.group, small))
      by_result (d, null) k ok = absurd (ground (arith, ok))

  handled-IsPast :
      IsAligned c.peer
      → u.unsequenced_group < 65536
      → (handle_send_unsequenced malloc c u start).ok ≡ true
      → IsPast (handle_send_unsequenced malloc c u start).conn.peer u.unsequenced_group
        × ((handle_send_unsequenced malloc c u start).conn.peer.incoming_unsequenced_group < 65536)
  unfolding handle_send_unsequenced
  handled-IsPast aligned small = elim (Bool-cases (is_refused c.peer u.header.channel_id)) [
    | inl e ↦ rw (handle_send_unsequenced, e) (λ ok. absurd (ground (arith, ok)))
    | inr e ↦ elim (Bool-cases (exceeds c.host u.data_length (start + u.data_length))) [
      | inl f ↦ rw (handle_send_unsequenced, e, f) (λ ok. absurd (ground (arith, ok)))
      | inr f ↦ elim (Bool-cases (is_too_far c.peer u.unsequenced_group)) [
        | inl g ↦
            rw (handle_send_unsequenced, e, f, g)
              (λ ok. (too_far-IsPast c.peer u.unsequenced_group aligned small g, aligned.1))
        | inr g ↦ elim (Option-cases (admit_group c.peer u.unsequenced_group)) [
          | inl h ↦
              rw (handle_send_unsequenced, e, f, g, h)
                (λ ok. (inl (admit_group-refused c.peer u.unsequenced_group h), aligned.1))
          | inr (p, h) ↦
              let (at_start, room) =
                admit_group-start c.peer p u.unsequenced_group small aligned h in
              rw (handle_send_unsequenced, e, f, g, h) (marked-IsPast p at_start room)
        ]
      ]
    ]
  ]

  replayed :
      c.peer.incoming_unsequenced_group < 65536
      → u.unsequenced_group < 65536
      → IsPast c.peer u.unsequenced_group
      → (handle_send_unsequenced malloc c u start).conn ≡ c
  unfolding handle_send_unsequenced
  replayed room small past = elim (Bool-cases (is_refused c.peer u.header.channel_id)) [
    | inl e ↦ rw (handle_send_unsequenced, e) refl
    | inr e ↦ elim (Bool-cases (exceeds c.host u.data_length (start + u.data_length))) [
      | inl f ↦ rw (handle_send_unsequenced, e, f) refl
      | inr f ↦ elim (Bool-cases (is_too_far c.peer u.unsequenced_group)) [
        | inl g ↦ rw (handle_send_unsequenced, e, f, g) refl
        | inr g ↦ rw (handle_send_unsequenced, e, f, g, dropped past g) refl
      ]
    ]
  ]
    where
      dropped :
          IsPast c.peer u.unsequenced_group
          → is_too_far c.peer u.unsequenced_group ≡ false
          → admit_group c.peer u.unsequenced_group ≡ none
      dropped (inl (at_start, marked)) g = unfold admit_group in ground (arith, at_start, marked)
      dropped (inr (low, high)) g = absurd (ground (arith, low, high, g, room, small))

-- Once the handler of an unsequenced command has returned 0, its group is past: it is marked in the
-- window, or behind the window, and the same command handled again changes nothing, on the
-- connection as it was left. Wherever a group is past, marked in the window or behind it by at most
-- half of all numbers, after the window has moved as well, the handler changes nothing.
pub handle_send_unsequenced-IsPast :
    (malloc : Allocator) (c d : Conn) (u : SendUnsequenced) (start later : ℕ)
    → IsAligned c.peer
    → u.unsequenced_group < 65536
    → (handle_send_unsequenced malloc c u start).ok ≡ true
    → d.peer.incoming_unsequenced_group < 65536
    → IsPast d.peer u.unsequenced_group
    → let h = handle_send_unsequenced malloc c u start in
      IsPast h.conn.peer u.unsequenced_group
      × ((handle_send_unsequenced malloc h.conn u later).conn ≡ h.conn)
      × ((handle_send_unsequenced malloc d u later).conn ≡ d)
handle_send_unsequenced-IsPast malloc c d u start later aligned small ok room past =
    let h = handle_send_unsequenced malloc c u start in
    let (gone, bounded) = handled-IsPast malloc c u start aligned small ok in
    (
      gone,
      replayed malloc h.conn u later bounded small gone,
      replayed malloc d u later room small past,
    )
