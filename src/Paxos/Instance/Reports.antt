-- ===== src/Paxos/Instance/Reports.antt =====
-- What a Promise reports of the proposals that the instance has accepted.
use mathlib.Core.Path.{subst}
use krafters.Prelude.{
  Option, none, some, ◌∷◌, [], List, ℕ, ◌≢◌, sym, ap, ◌∙◌, ◌≡◌, refl, ◌⊎◌, inl, inr, false,
  Bool-cases,
}
use krafters.Text.{Text}
use krafters.Paxos.Messages.{
  Among, Promise, ProposalId, before, before_opt, Prepare, Accept, Accepted, Message, prepare, nack,
  promise, accept, accepted, resolution, Reply, returns,
}
use krafters.Paxos.Messages.Order.{before_opt_trans, before_opt_irrefl}
use krafters.Paxos.Acceptor
use krafters.Paxos.Acceptor.{Acceptor}
use krafters.Paxos.Instance.{
  paxos_instance, run, Instance, receive, receive_prepare, receive_accept,
}
use krafters.Paxos.Instance.Quiet.{
  Unaccepting, Unaccepting-of_Quiet, receive_nack-Quiet, receive_promise-Quiet,
  receive_accepted-Quiet,
}

-- No accepted id is above the promise.
abbrev IsLevel : Acceptor → Type 0
IsLevel a = before_opt a.promised_id a.accepted_id ≡ false

-- The acceptor `b` has the proposal of `a`, or one of the replies.
abbrev LastOf : Acceptor → List Reply → Acceptor → Type 0
LastOf a replies b =
    ((b.accepted_id ≡ a.accepted_id) × (b.accepted_value ≡ a.accepted_value))
    ⊎ ((out : Accepted) × Among (returns (accepted out)) replies
        × (b.accepted_id ≡ some out.proposal_id)
        × (b.accepted_value ≡ some out.proposal_value))

-- What one message does to an acceptor: nothing to its proposal, or the Accepted that it replies.
data Effect (r : Reply) (a b : Acceptor) : Type 0 where
  kept :
      b.accepted_id ≡ a.accepted_id
      → b.accepted_value ≡ a.accepted_value
      → Unaccepting r
      → Effect r a b
  took :
      (out : Accepted)
      → r ≡ returns (accepted out)
      → b.accepted_id ≡ some out.proposal_id
      → b.accepted_value ≡ some out.proposal_value
      → before_opt (some out.proposal_id) a.promised_id ≡ false
      → Effect r a b

prepare-Effect :
    (msg : Prepare) (a : Acceptor)
    → IsLevel a
    → Effect (returns (Acceptor.receive_prepare msg a).0) a (Acceptor.receive_prepare msg a).1
      × IsLevel (Acceptor.receive_prepare msg a).1
unfolding Acceptor.receive_prepare
prepare-Effect msg a h = elim (Bool-cases (before_opt (some msg.proposal_id) a.promised_id)) [
  | inl e ↦ rw (e, Acceptor.receive_prepare) (kept refl refl tt, h)
  | inr e ↦
      rw (e, Acceptor.receive_prepare)
        (kept refl refl tt, before_opt_trans (some msg.proposal_id) a.promised_id a.accepted_id e h)
]

accept-Effect :
    (msg : Accept) (a : Acceptor)
    → IsLevel a
    → Effect (returns (Acceptor.receive_accept msg a).0) a (Acceptor.receive_accept msg a).1
      × IsLevel (Acceptor.receive_accept msg a).1
unfolding Acceptor.receive_accept
accept-Effect msg a h = elim (Bool-cases (before_opt (some msg.proposal_id) a.promised_id)) [
  | inl e ↦ rw (e, Acceptor.receive_accept) (kept refl refl tt, h)
  | inr e ↦
      rw (e, Acceptor.receive_accept)
        (took _ refl refl refl e, before_opt_irrefl (some msg.proposal_id))
]

receive-Effect :
    (msg : Message) (i : Instance)
    → IsLevel i.acceptor
    → Effect (receive msg i).0 i.acceptor (receive msg i).1.acceptor
      × IsLevel (receive msg i).1.acceptor
unfolding receive receive_prepare receive_accept
receive-Effect (prepare msg) i h = prepare-Effect msg i.acceptor h
receive-Effect (accept msg) i h = accept-Effect msg i.acceptor h
receive-Effect (nack msg) i h =
    (kept refl refl (Unaccepting-of_Quiet _ (receive_nack-Quiet msg i.proposer)), h)
receive-Effect (promise msg) i h =
    (kept refl refl (Unaccepting-of_Quiet _ (receive_promise-Quiet msg i.proposer)), h)
receive-Effect (accepted msg) i h =
    (kept refl refl (Unaccepting-of_Quiet _ (receive_accepted-Quiet msg i.learner)), h)
receive-Effect (resolution msg) i h = (kept refl refl tt, h)

-- What a run has done to an acceptor: the last proposal has the highest id.
record Summary (a : Acceptor) (replies : List Reply) (b : Acceptor) : Type 0 where
  level : IsLevel b
  above_start : before_opt b.accepted_id a.accepted_id ≡ false
  above :
      (out : Accepted)
      → Among (returns (accepted out)) replies
      → before_opt b.accepted_id (some out.proposal_id) ≡ false
  last : LastOf a replies b

Unaccepting-accepted : (r : Reply) (out : Accepted) → Unaccepting r → r ≢ returns (accepted out)
Unaccepting-accepted r out q e = subst Unaccepting e q

id_of : Reply → Option ProposalId
id_of (returns (accepted m)) = some m.proposal_id
id_of _ = none

Summary-cons :
    (r : Reply) (rs : List Reply) (a b c : Acceptor)
    → IsLevel a
    → Effect r a b
    → Summary b rs c
    → Summary a (r ∷ rs) c
unfolding id_of
Summary-cons r rs a b c level_a (kept same_id same_value quiet) s = record {
  level = s.level;
  above_start = rw⁻¹ same_id s.above_start;
  above = λ out found. elim found [
    | inl e ↦ absurd (Unaccepting-accepted r out quiet e)
    | inr later ↦ s.above out later
  ];
  last = elim s.last [
    | inl (e, g) ↦ inl (e ∙ same_id, g ∙ same_value)
    | inr (out, found, e, g) ↦ inr (out, inr found, e, g)
  ];
}
Summary-cons r rs a b c level_a (took out reply id value fits) s =
    let from_out : before_opt c.accepted_id (some out.proposal_id) ≡ false =
      rw⁻¹ id s.above_start in
    record {
      level = s.level;
      above_start =
          before_opt_trans c.accepted_id (some out.proposal_id) a.accepted_id from_out
            (before_opt_trans (some out.proposal_id) a.promised_id a.accepted_id fits level_a);
      above = λ out' found. elim found [
        | inl e ↦
            let same : some out.proposal_id ≡ some out'.proposal_id = ap id_of (sym reply ∙ e) in
            rw⁻¹ same from_out
        | inr later ↦ s.above out' later
      ];
      last = elim s.last [
        | inl (e, g) ↦ inr (out, inl reply, e ∙ id, g ∙ value)
        | inr (out', found, e, g) ↦ inr (out', inr found, e, g)
      ];
    }

run-Summary :
    (msgs : List Message) (i : Instance)
    → IsLevel i.acceptor
    → Summary i.acceptor (run msgs i).0 (run msgs i).1.acceptor
unfolding run
run-Summary [] i h = record {
  level = h;
  above_start = before_opt_irrefl i.acceptor.accepted_id;
  above = λ out found. absurd found;
  last = inl (refl, refl);
}
run-Summary (msg ∷ msgs) i h =
    let (effect, level) = receive-Effect msg i h in
    let next = receive msg i in
    Summary-cons next.0 (run msgs next.1).0 i.acceptor next.1.acceptor (run msgs next.1).1.acceptor
      h effect (run-Summary msgs next.1 level)

reported_id : Reply → Option ProposalId
reported_id (returns (promise m)) = m.last_accepted_id
reported_id _ = none

reported_value : Reply → Option Text
reported_value (returns (promise m)) = m.last_accepted_value
reported_value _ = none

promise-fields :
    (msg : Prepare) (i : Instance) (m : Promise)
    → (receive_prepare msg i).0 ≡ returns (promise m)
    → (m.last_accepted_id ≡ i.acceptor.accepted_id)
      × (m.last_accepted_value ≡ i.acceptor.accepted_value)
unfolding receive_prepare Acceptor.receive_prepare reported_id reported_value
promise-fields msg i m e =
    elim (Bool-cases (before_opt (some msg.proposal_id) i.acceptor.promised_id)) [
      | inl g ↦ absurd (cc (rw (g, receive_prepare, Acceptor.receive_prepare) at e))
      | inr g ↦
          let same = rw (g, receive_prepare, Acceptor.receive_prepare) at e in
          (sym (ap reported_id same), sym (ap reported_value same))
    ]

-- A Promise reports the proposal to build on. After any run of messages from a new instance that has
-- accepted at least one proposal, a Promise carries the id and the value of a proposal that it has
-- accepted, and no proposal that it has accepted has a higher id.
pub promise-last_accepted :
    (uid quorum : ℕ) (msgs : List Message) (msg : Prepare) (m : Promise) (out : Accepted)
    → Among (returns (accepted out)) (run msgs (paxos_instance uid quorum none none none)).0
    → (receive_prepare msg (run msgs (paxos_instance uid quorum none none none)).1).0
      ≡ returns (promise m)
    → (top : Accepted) × Among
        (returns (accepted top))
        (run msgs (paxos_instance uid quorum none none none)).0
      × (m.last_accepted_id ≡ some top.proposal_id)
      × (m.last_accepted_value ≡ some top.proposal_value)
      × (before top.proposal_id out.proposal_id ≡ false)
unfolding paxos_instance before_opt
promise-last_accepted uid quorum msgs msg m out found e =
    let i = paxos_instance uid quorum none none none in
    let s = run-Summary msgs i refl in
    let (id, value) = promise-fields msg (run msgs i).1 m e in
    let high = s.above out found in
    elim s.last [
      | inl (g, h) ↦ absurd (cc (rw g at high))
      | inr (top, among, g, h) ↦ (top, among, id ∙ g, value ∙ h, rw g at high)
    ]
