-- ===== src/Peer/Dispatch/Unreliable.antt =====
-- What `peer_dispatch_incoming_unreliable_commands` hands to the application, and what it leaves.
use enetcpp.Base.{
  false, ◌||◌, ◌&&◌, not, Option-cases, ◌+◌, subst, ◌≡◌, ℕ, ◌++◌, ◌∷◌, [], List, Option, none, some,
  true, ◌⊎◌, ◌==◌, inl, inr, refl, arith, sym, ◌∙◌, ap, All, All-append, append_assoc, append-nil,
  length, is_empty, Bool-cases,
}
use enetcpp.Command.{header, command_mask}
use enetcpp.Command.Number
use enetcpp.Peer.{Channel, IncomingCommand}
use enetcpp.Peer.Window.{outside_window}
use enetcpp.Peer.Dispatch.{
  request_dispatch, dispatch_all, Sweep, extend, flush_run, pass, pass_incomplete, sweep_step,
  sweep, finish, peer_dispatch_incoming_unreliable_commands,
}
use enetcpp.Host.{Conn}

-- A command that may go to the application: unsequenced, or complete and of the channel's current
-- reliable number.
abbrev pub IsReady : ℕ → IncomingCommand → Type 0
IsReady current i =
    ((command_mask (header i.command).command == Number.send_unsequenced) ≡ true)
    ⊎ (((i.reliable_sequence_number == current) ≡ true) × ((i.fragments_remaining == 0) ≡ true))

-- What changes from one connection to the next: ready commands go to the end of the dispatched ones,
-- after which the peer waits for dispatch, and no data is subtracted from what waits.
pub record Delivers (current : ℕ) (c d : Conn) : Type 0 where
  pub more : List IncomingCommand
  pub delivered : d.peer.queues.dispatched_commands ≡ c.peer.queues.dispatched_commands ++ more
  pub ready : All (IsReady current) more
  pub flag : d.peer.needs_dispatch ≡ (c.peer.needs_dispatch || not (is_empty more))
  pub waiting : d.peer.total_waiting_data ≡ c.peer.total_waiting_data

is_empty-append :
    (xs ys : List IncomingCommand) → is_empty (xs ++ ys) ≡ (is_empty xs && is_empty ys)
is_empty-append [] ys = refl
is_empty-append (x ∷ xs) ys = refl

unmoved-Delivers : (current : ℕ) (c : Conn) → Delivers current c c
unmoved-Delivers current c = record {
  more = [];
  delivered = sym (append-nil c.peer.queues.dispatched_commands);
  ready = tt;
  flag = ground arith;
  waiting = refl;
}

onward-Delivers :
    (current : ℕ) (c d e : Conn)
    → Delivers current c d
    → Delivers current d e
    → Delivers current c e
onward-Delivers current c d e u v = record {
  more = u.more ++ v.more;
  delivered =
      v.delivered
      ∙ ap (λ (l : List IncomingCommand). l ++ v.more) u.delivered
      ∙ append_assoc c.peer.queues.dispatched_commands u.more v.more;
  ready = All-append (IsReady current) u.more v.more u.ready v.ready;
  flag = ground (arith, u.flag, v.flag, is_empty-append u.more v.more);
  waiting = v.waiting ∙ u.waiting;
}

pub dispatch_all-Delivers :
    (current : ℕ) (c : Conn) (l : List IncomingCommand)
    → is_empty l ≡ false
    → All (IsReady current) l
    → Delivers current c (dispatch_all c l)
unfolding dispatch_all request_dispatch
dispatch_all-Delivers current c l some_commands ready = record {
  more = l;
  delivered = ground arith;
  ready = ready;
  flag = ground (arith, some_commands);
  waiting = ground arith;
}

pub dispatch_all-flag :
    (c : Conn) (l : List IncomingCommand) → (dispatch_all c l).peer.needs_dispatch ≡ true
unfolding dispatch_all request_dispatch
dispatch_all-flag c l = ground arith

pub dispatch_all-delivered :
    (c : Conn) (l : List IncomingCommand)
    → (dispatch_all c l).peer.queues.dispatched_commands ≡ c.peer.queues.dispatched_commands ++ l
unfolding dispatch_all request_dispatch
dispatch_all-delivered c l = ground arith

-- Between two points of the loop.
record Goes (s t : Sweep) : Type 0 where
  current :
      t.channel.incoming_reliable_sequence_number ≡ s.channel.incoming_reliable_sequence_number
  reliable : t.channel.incoming_reliable_commands ≡ s.channel.incoming_reliable_commands
  delivers : Delivers s.channel.incoming_reliable_sequence_number s.conn t.conn
  ready : All (IsReady s.channel.incoming_reliable_sequence_number) t.run

flush_run-Goes :
    (s : Sweep)
    → All (IsReady s.channel.incoming_reliable_sequence_number) s.run
    → Goes s (flush_run s)
unfolding flush_run
flush_run-Goes s r = elim (Bool-cases (is_empty s.run)) [
  | inl e ↦
      rw e (record {
        current = refl;
        reliable = refl;
        delivers = unmoved-Delivers _ s.conn;
        ready = r;
      })
  | inr e ↦ rw e (record {
    current = refl;
    reliable = refl;
    delivers = dispatch_all-Delivers _ s.conn s.run e r;
    ready = tt;
  })
]

abbrev GoesOn : Sweep → Option Sweep → Type 0
GoesOn s none = Unit
GoesOn s (some t) = Goes s t

pass_incomplete-Goes :
    (s : Sweep) (i : IncomingCommand)
    → All (IsReady s.channel.incoming_reliable_sequence_number) s.run
    → Goes s (pass_incomplete s i)
unfolding pass_incomplete
pass_incomplete-Goes s i r =
    let g = flush_run-Goes s r in
    record { current = g.current; reliable = g.reliable; delivers = g.delivers; ready = g.ready }

sweep_step-Goes :
    (s : Sweep) (i : IncomingCommand)
    → All (IsReady s.channel.incoming_reliable_sequence_number) s.run
    → GoesOn s (sweep_step s i)
unfolding sweep_step
sweep_step-Goes s i r =
    elim (Bool-cases (command_mask (header i.command).command == Number.send_unsequenced)) [
      | inl e ↦ rw e (extended s.channel refl refl (inl e))
      | inr e ↦
          elim (Bool-cases
            (i.reliable_sequence_number == s.channel.incoming_reliable_sequence_number)) [
              | inl f ↦ elim (Bool-cases (i.fragments_remaining == 0)) [
                | inl g ↦ rw (e, f, g) (extended _ refl refl (inr (f, g)))
                | inr g ↦ rw (e, f, g) (pass_incomplete-Goes s i r)
              ]
              | inr f ↦
                  elim (Bool-cases (
                    outside_window i.reliable_sequence_number
                      s.channel.incoming_reliable_sequence_number)) [
                        | inl g ↦ rw (e, f, g) passed
                        | inr g ↦ rw (e, f, g) tt
                      ]
            ]
    ]
  where
    extended :
        (ch : Channel)
        → ch.incoming_reliable_sequence_number ≡ s.channel.incoming_reliable_sequence_number
        → ch.incoming_reliable_commands ≡ s.channel.incoming_reliable_commands
        → IsReady s.channel.incoming_reliable_sequence_number i
        → Goes s (extend (record s { channel = ch }) i)
    extended ch same_number same_queue h = record {
      current = same_number;
      reliable = same_queue;
      delivers = unmoved-Delivers s.channel.incoming_reliable_sequence_number s.conn;
      ready =
          All-append (IsReady s.channel.incoming_reliable_sequence_number) s.run (i ∷ []) r (h, tt);
    }

    passed : Goes s (pass (flush_run s) i (length s.kept + 1))
    passed =
        let g = flush_run-Goes s r in
        record {
          current = g.current;
          reliable = g.reliable;
          delivers = g.delivers;
          ready = g.ready;
        }

onward-Goes : (s t u : Sweep) → Goes s t → Goes t u → Goes s u
onward-Goes s t u g h = record {
  current = h.current ∙ g.current;
  reliable = h.reliable ∙ g.reliable;
  delivers =
      onward-Delivers _ s.conn t.conn u.conn g.delivers
        (subst (λ (n : ℕ). Delivers n t.conn u.conn) g.current h.delivers);
  ready = subst (λ (n : ℕ). All (IsReady n) u.run) g.current h.ready;
}

unmoved-Goes :
    (s : Sweep) → All (IsReady s.channel.incoming_reliable_sequence_number) s.run → Goes s s
unmoved-Goes s r = record {
  current = refl;
  reliable = refl;
  delivers = unmoved-Delivers _ s.conn;
  ready = r;
}

sweep-Goes :
    (s : Sweep) (queue : List IncomingCommand)
    → All (IsReady s.channel.incoming_reliable_sequence_number) s.run
    → Goes s (sweep s queue).0
unfolding sweep
sweep-Goes s [] r = unmoved-Goes s r
sweep-Goes s (i ∷ is) r = elim (Option-cases (sweep_step s i)) [
  | inl e ↦ rw (sweep, e) (unmoved-Goes s r)
  | inr (t, e) ↦
      let g : Goes s t = subst (GoesOn s) e (sweep_step-Goes s i r) in
      rw (sweep, e)
        (onward-Goes s t _ g
          (sweep-Goes t is (subst (λ (n : ℕ). All (IsReady n) t.run) (sym g.current) g.ready)))
]

-- From one channel of a connection to the next: the queue of reliable commands and the channel's
-- number stay.
pub record Keeps (ch ch' : Channel) : Type 0 where
  pub current : ch'.incoming_reliable_sequence_number ≡ ch.incoming_reliable_sequence_number
  pub reliable : ch'.incoming_reliable_commands ≡ ch.incoming_reliable_commands

-- Every command that the dispatch of unreliable commands hands to the application is ready: none is
-- a packet with a fragment missing, and only unsequenced ones are of another reliable number. They
-- follow what was dispatched before, and the reliable side of the channel stays. The data that waits
-- is counted as before, whatever packets the dispatch drops.
pub dispatch_unreliable-Delivers :
    (c : Conn) (ch : Channel) (queued : Option ℕ)
    → Delivers ch.incoming_reliable_sequence_number c
        (peer_dispatch_incoming_unreliable_commands c ch queued).0
      × Keeps ch (peer_dispatch_incoming_unreliable_commands c ch queued).1
unfolding peer_dispatch_incoming_unreliable_commands finish
dispatch_unreliable-Delivers c ch queued = (
  record {
    more = flushed.delivers.more;
    delivered = flushed.delivers.delivered;
    ready = flushed.delivers.ready;
    flag = flushed.delivers.flag;
    waiting = flushed.delivers.waiting;
  },
  record { current = flushed.current; reliable = flushed.reliable },
)
  where
    start : Sweep
    start = record { conn = c; channel = ch; kept = []; run = []; dropped = 0 }

    swept : Sweep
    swept = (sweep start ch.incoming_unreliable_commands).0

    loop : Goes start swept
    loop = sweep-Goes start ch.incoming_unreliable_commands tt

    flushed : Goes start (flush_run swept)
    flushed = onward-Goes start swept (flush_run swept) loop (
        flush_run-Goes swept
          (subst (λ (n : ℕ). All (IsReady n) swept.run) (sym loop.current) loop.ready))
