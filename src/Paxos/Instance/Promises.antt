-- ===== src/Paxos/Instance/Promises.antt =====
-- What an instance promises and accepts over a run.
use krafters.Prelude.{◌≡◌, ◌≢◌, ap, inl, inr, false, List, [], ◌∷◌, some, Bool-cases}
use mathlib.Core.Path.{subst}
use krafters.Paxos.Messages.{
  Among, ProposalId, before, before_opt, Prepare, Promise, Accept, Accepted, Message, prepare, nack,
  promise, accept, accepted, resolution, returns,
}
use krafters.Paxos.Messages.Order.{before_opt_trans, before_opt_irrefl}
use krafters.Paxos.Acceptor
use krafters.Paxos.Acceptor.{Acceptor}
use krafters.Paxos.Instance.{Instance, receive, receive_prepare, run}
use krafters.Paxos.Instance.Quiet.{
  Quiet, receive_nack-Quiet, receive_promise-Quiet, receive_accepted-Quiet,
}

-- The promise of an instance is not below `p`.
abbrev Promised : ProposalId → Instance → Type 0
Promised p i = before_opt i.acceptor.promised_id (some p) ≡ false

-- The id of an Accepted message.
abbrev id_of : Message → ProposalId
id_of (prepare m) = m.proposal_id
id_of (nack m) = m.proposal_id
id_of (promise m) = m.proposal_id
id_of (accept m) = m.proposal_id
id_of (accepted m) = m.proposal_id
id_of (resolution m) = record { number = 0; uid = m.from_uid }

-- Acceptor: the promise only grows, and what is accepted is not below it.
keep_prepare :
    (p : ProposalId) (msg : Prepare) (a : Acceptor)
    → before_opt a.promised_id (some p) ≡ false
    → before_opt (Acceptor.receive_prepare msg a).1.promised_id (some p) ≡ false
unfolding Acceptor.receive_prepare
keep_prepare p msg a h = elim (Bool-cases (before_opt (some msg.proposal_id) a.promised_id)) [
  | inl e ↦ rw (e, Acceptor.receive_prepare) h
  | inr e ↦
      rw (e, Acceptor.receive_prepare)
        (before_opt_trans (some msg.proposal_id) a.promised_id (some p) e h)
]

keep_accept :
    (p : ProposalId) (msg : Accept) (a : Acceptor)
    → before_opt a.promised_id (some p) ≡ false
    → before_opt (Acceptor.receive_accept msg a).1.promised_id (some p) ≡ false
unfolding Acceptor.receive_accept
keep_accept p msg a h = elim (Bool-cases (before_opt (some msg.proposal_id) a.promised_id)) [
  | inl e ↦ rw (e, Acceptor.receive_accept) h
  | inr e ↦
      rw (e, Acceptor.receive_accept)
        (before_opt_trans (some msg.proposal_id) a.promised_id (some p) e h)
]

promise_starts :
    (msg : Prepare) (a : Acceptor) (m : Promise)
    → (Acceptor.receive_prepare msg a).0 ≡ promise m
    → before_opt (Acceptor.receive_prepare msg a).1.promised_id (some msg.proposal_id) ≡ false
unfolding Acceptor.receive_prepare
promise_starts msg a m e = elim (Bool-cases (before_opt (some msg.proposal_id) a.promised_id)) [
  | inl g ↦ absurd (cc (rw (g, Acceptor.receive_prepare) at e))
  | inr g ↦ rw (g, Acceptor.receive_prepare) (before_opt_irrefl (some msg.proposal_id))
]

no_accepted :
    (msg : Prepare) (a : Acceptor) (out : Accepted)
    → (Acceptor.receive_prepare msg a).0 ≢ accepted out
unfolding Acceptor.receive_prepare
no_accepted msg a out e = elim (Bool-cases (before_opt (some msg.proposal_id) a.promised_id)) [
  | inl g ↦ cc (rw (g, Acceptor.receive_prepare) at e)
  | inr g ↦ cc (rw (g, Acceptor.receive_prepare) at e)
]

accepted_above :
    (p : ProposalId) (msg : Accept) (a : Acceptor) (out : Accepted)
    → before_opt a.promised_id (some p) ≡ false
    → (Acceptor.receive_accept msg a).0 ≡ accepted out
    → before out.proposal_id p ≡ false
unfolding Acceptor.receive_accept before_opt
accepted_above p msg a out h e =
    elim (Bool-cases (before_opt (some msg.proposal_id) a.promised_id)) [
      | inl g ↦ absurd (cc (rw (g, Acceptor.receive_accept) at e))
      | inr g ↦
          let same : msg.proposal_id ≡ out.proposal_id =
            ap id_of (rw (g, Acceptor.receive_accept) at e) in
          rw⁻¹ same (before_opt_trans (some msg.proposal_id) a.promised_id (some p) g h)
    ]

receive-Promised :
    (p : ProposalId) (msg : Message) (i : Instance) → Promised p i → Promised p (receive msg i).1
unfolding receive
receive-Promised p (prepare msg) i h = keep_prepare p msg i.acceptor h
receive-Promised p (accept msg) i h = keep_accept p msg i.acceptor h
receive-Promised p (nack msg) i h = h
receive-Promised p (promise msg) i h = h
receive-Promised p (accepted msg) i h = h
receive-Promised p (resolution msg) i h = h

receive-accepted :
    (p : ProposalId) (msg : Message) (i : Instance) (out : Accepted)
    → Promised p i
    → (receive msg i).0 ≡ returns (accepted out)
    → before out.proposal_id p ≡ false
unfolding receive
receive-accepted p (prepare msg) i out h e = absurd (no_accepted msg i.acceptor out (cc (e)))
receive-accepted p (accept msg) i out h e = accepted_above p msg i.acceptor out h (cc (e))
receive-accepted p (nack msg) i out h e = absurd (subst Quiet e (receive_nack-Quiet msg i.proposer))
receive-accepted p (promise msg) i out h e =
    absurd (subst Quiet e (receive_promise-Quiet msg i.proposer))
receive-accepted p (accepted msg) i out h e =
    absurd (subst Quiet e (receive_accepted-Quiet msg i.learner))
receive-accepted p (resolution msg) i out h e = cc

run-accepted :
    (p : ProposalId) (msgs : List Message) (i : Instance) (out : Accepted)
    → Promised p i
    → Among (returns (accepted out)) (run msgs i).0
    → before out.proposal_id p ≡ false
unfolding run
run-accepted p [] i out h found = absurd found
run-accepted p (msg ∷ msgs) i out h (inl e) = receive-accepted p msg i out h e
run-accepted p (msg ∷ msgs) i out h (inr later) =
    run-accepted p msgs (receive msg i).1 out (receive-Promised p msg i h) later

-- A promise is kept. Once an instance has answered a Prepare message with a Promise, then whatever
-- messages of any kind it handles, in any order, it accepts no proposal with a lower id.
pub receive_prepare-promise :
    (i : Instance) (msg : Prepare) (m : Promise) (msgs : List Message) (out : Accepted)
    → (receive_prepare msg i).0 ≡ returns (promise m)
    → Among (returns (accepted out)) (run msgs (receive_prepare msg i).1).0
    → before out.proposal_id msg.proposal_id ≡ false
unfolding receive_prepare
receive_prepare-promise i msg m msgs out e =
    run-accepted msg.proposal_id msgs (receive_prepare msg i).1 out
      (promise_starts msg i.acceptor m (cc e))
