-- ===== src/Protocol/Datagram/Answers.antt =====
-- src/protocol.cpp, `enet_protocol_send_acknowledgements`: which acknowledgements a datagram answers.
use enetcpp.Base.{
  Bool-cases, List, [], ap, append-nil, append_assoc, arith, inl, inr, refl, sym, true, ℕ, ◌++◌,
  ◌<◌, ◌^◌, ◌∙◌, ◌∷◌, ◌≡◌, ◌⊎◌,
}
use mathlib.Core.List.{map}
use enetcpp.Command.Size
use enetcpp.Peer.{Acknowledgement}
use enetcpp.Peer.Dispatch.{request_dispatch}
use enetcpp.Host.{Conn}
use enetcpp.Protocol.Change.{change_state, dispatch_state}
use enetcpp.Protocol.Datagram.{Datagram, put_command}
use enetcpp.Protocol.Datagram.Acknowledgements.{
  acknowledging, acknowledge_all, conclude, is_full, send_acknowledgements, with_acknowledgements,
}
use enetcpp.Protocol.Datagram.Fit.{IsFit, put_command-IsFit}

-- The first acknowledgements of a queue are in the datagram, in order; the others stay in the queue,
-- for another datagram, and there are such only if this one has no room for the next.
pub record IsAnswered (mtu : ℕ) (d : Datagram) (queue : List Acknowledgement) (r : Conn × Datagram)
    : Type 0 where
  pub answered : List Acknowledgement
  pub left : List Acknowledgement
  pub whole : answered ++ left ≡ queue
  pub kept : r.0.peer.queues.acknowledgements ≡ left
  pub written : r.1.commands ≡ d.commands ++ map acknowledging answered
  pub same_mtu : r.0.peer.mtu ≡ mtu
  pub fit : IsFit mtu r.1
  pub stopped : (left ≡ []) ⊎ ((is_full r.0 r.1 ≡ true) × (r.0.peer.continue_sending ≡ true))

conclude-mtu : (c : Conn) (a : Acknowledgement) → (conclude c a).peer.mtu ≡ c.peer.mtu
unfolding conclude dispatch_state change_state request_dispatch
conclude-mtu c a = ground arith

acknowledge_all-IsAnswered :
    (mtu : ℕ) (c : Conn) (d : Datagram) (queue : List Acknowledgement)
    → mtu < 2 ^ 32
    → c.peer.mtu ≡ mtu
    → IsFit mtu d
    → IsAnswered mtu d queue (acknowledge_all c d queue)
unfolding acknowledge_all
acknowledge_all-IsAnswered mtu c d [] small same v = record {
  answered = [];
  left = [];
  whole = refl;
  kept = refl;
  written = sym (append-nil d.commands);
  same_mtu = same;
  fit = v;
  stopped = inl refl;
}
acknowledge_all-IsAnswered mtu c d (a ∷ rest) small same v = elim (Bool-cases (is_full c d)) [
  | inl e ↦
      rw (acknowledge_all, e)
        (record {
          answered = [];
          left = a ∷ rest;
          whole = refl;
          kept = refl;
          written = sym (append-nil d.commands);
          same_mtu = same;
          fit = v;
          stopped = inr (e, refl);
        })
  | inr e ↦
      let ih =
        acknowledge_all-IsAnswered mtu (with_acknowledgements (conclude c a) rest)
          (put_command d (acknowledging a) Size.acknowledge) rest small (conclude-mtu c a ∙ same)
          (put_command-IsFit mtu d small v (acknowledging a) Size.acknowledge (ground arith)
            (ground arith)) in
      rw (acknowledge_all, e)
        (record {
          answered = a ∷ ih.answered;
          left = ih.left;
          whole = ap (λ (l : List Acknowledgement). a ∷ l) ih.whole;
          kept = ih.kept;
          written =
              ih.written
              ∙ append_assoc d.commands (acknowledging a ∷ []) (map acknowledging ih.answered);
          same_mtu = ih.same_mtu;
          fit = ih.fit;
          stopped = ih.stopped;
        })
]

-- The acknowledgements of a peer are written in the order of their queue, each once, as far as the
-- datagram has room; those that are left stay in the queue with the flag by which sending goes on,
-- and the datagram still fits its arrays and the MTU. The MTU is a 32-bit value that the datagram
-- fits before.
pub send_acknowledgements-IsAnswered :
    (c : Conn) (d : Datagram)
    → c.peer.mtu < 2 ^ 32
    → IsFit c.peer.mtu d
    → IsAnswered c.peer.mtu d c.peer.queues.acknowledgements (send_acknowledgements c d)
unfolding send_acknowledgements
send_acknowledgements-IsAnswered c d small v =
    acknowledge_all-IsAnswered c.peer.mtu c d c.peer.queues.acknowledgements small refl v
