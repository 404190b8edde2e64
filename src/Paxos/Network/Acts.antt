-- ===== src/Paxos/Network/Acts.antt =====
-- Every call of an instance keeps what holds of its node.
use krafters.Prelude.{ℕ, ◌≡◌, refl, sym, ap, ◌∙◌, true, List, ◌∷◌, ◌++◌, some}
use mathlib.Core.Path.{subst}
use krafters.Text.{Text}
use krafters.Sets.{contains}
use krafters.Paxos.Messages.{
  Among, ProposalId, Promise, Accept, Accepted, Message, prepare, nack, promise, accept, accepted,
  resolution, Reply, returns,
}
use krafters.Paxos.Acceptor
use krafters.Paxos.Acceptor.{Acceptor}
use krafters.Paxos.Proposer.{
  observe_proposal, prepare_next, propose_value, receive_nack, receive_promise,
}
use krafters.Paxos.Learner.{receive_accepted}
use krafters.Paxos.Instance.{Instance, receive, receive_prepare, receive_accept}
use krafters.Paxos.Instance.Quiet.{
  Quiet, receive_nack-Quiet, receive_promise-Quiet, propose_value-Quiet, receive_accepted-Silent,
}
use krafters.Paxos.Network.{
  System, Action, hears, prepares, proposes, act, sent_of, moved, Arrives, as_promise, as_accept,
  as_accepted, promises, accepts, accepteds,
}
use krafters.Paxos.Network.Acceptors.{Kept, receive_prepare-Kept, receive_accept-Kept}
use krafters.Paxos.Network.Proposers.{
  Proposing, observe_proposal-Proposing, prepare_next-Proposing, receive_nack-Proposing,
}
use krafters.Paxos.Network.Leaders.{propose_value-Proposing}
use krafters.Paxos.Network.Gathering.{receive_promise-Proposing}
use krafters.Paxos.Network.Sites.{
  only-Among, SentAccept, SentPromise, Fine, AllFine, receive_accepted-Learned,
}
use krafters.Paxos.Network.Replies.{Quiet-votes, Silent-sends, prepare_votes, accept_votes}

module _ (members : List ℕ) (q : ℕ) where
  module _ (s : System) (fine : AllFine members s q) (u : ℕ)
      (member : contains u members ≡ true) where
    abbrev K : ProposalId → Text → Type 0
    K = SentAccept members s

    abbrev After : Reply × Instance → Type 0
    After r = Fine members s q u (moved r (s u).log)

    -- A vote, which the acceptor sends while the proposer only observes.
    voted :
        (id : ProposalId) (m : Message) (a : Acceptor)
        → Kept K u a (promises (m ∷ (s u).log)) (accepteds (m ∷ (s u).log))
        → accepts (m ∷ (s u).log) ≡ accepts (s u).log
        → After (
          returns m,
          record (s u).node {
            proposer = observe_proposal (some id) (s u).node.proposer;
            acceptor = a;
          },
        )
    unfolding moved sent_of
    voted id m a kept none_sent = record {
      kept = kept;
      proposing =
          subst
            (Proposing K (SentPromise members s) q u
              (observe_proposal (some id) (s u).node.proposer))
            (sym none_sent)
            (observe_proposal-Proposing K (SentPromise members s) q u (accepts (s u).log) (some id)
              (s u).node.proposer (fine u member).proposing);
      learned = (fine u member).learned;
    }

    -- A turn of the proposer.
    proposed :
        (r : Reply) (p : _)
        → Quiet r
        → Proposing K (SentPromise members s) q u p (accepts (sent_of r ++ (s u).log))
        → After (r, record (s u).node { proposer = p })
    unfolding moved
    proposed r p quiet h = record {
      kept =
          let (same, same') = Quiet-votes r (s u).log quiet in
          rw (same, same') (fine u member).kept;
      proposing = h;
      learned = (fine u member).learned;
    }

    -- A Promise message for a proposal of this node's own has its node's Accept messages at hand.
    mine :
        (h : ProposalId) (v : Text)
        → K h v
        → h.uid ≡ u
        → (x : Accept) × Among x (accepts (s u).log) × (x.proposal_id ≡ h)
    mine h v (w, in_, x, here, own, value) e =
        let w_eq : w ≡ u = sym ((fine w in_).proposing.low x here).0 ∙ ap ProposalId.uid own ∙ e in
        (x, subst (λ w. Among x (accepts (s w).log)) w_eq here, own)

    hear_promise :
        (msg : Promise) (w : ℕ)
        → contains w members ≡ true
        → Among msg (promises (s w).log)
        → After (act (hears (promise msg)) (s u).node)
    unfolding act receive
    hear_promise msg w in_ here =
        let kept = (fine w in_).kept in
        let (known, low) = kept.told msg here in
        let (from, _) = kept.promised msg here in
        proposed (receive_promise msg (s u).node.proposer).0
          (receive_promise msg (s u).node.proposer).1
          (receive_promise-Quiet msg (s u).node.proposer)
          (receive_promise-Proposing K (SentPromise members s) q u (s u).log msg (s u).node.proposer
            (fine u member).proposing
            (subst (λ w. SentPromise members s w msg.proposal_id msg.last_accepted_id) (sym from)
              (in_, msg, here, refl, refl))
            known low mine)

    hear_accepted :
        (msg : Accepted) (w : ℕ)
        → contains w members ≡ true
        → Among msg (accepteds (s w).log)
        → After (act (hears (accepted msg)) (s u).node)
    unfolding act receive moved
    hear_accepted msg w in_ here =
        let l = (s u).node.learner in
        let r = (receive_accepted msg l).0 in
        let (same, same', same'') = Silent-sends r (s u).log (receive_accepted-Silent msg l) in
        record {
          kept = rw (same, same') (fine u member).kept;
          proposing = rw same'' (fine u member).proposing;
          learned =
              receive_accepted-Learned members s q u l msg (w, in_, here) (fine u member).learned;
        }

    hear_accept :
        (msg : Accept) (w : ℕ)
        → contains w members ≡ true
        → Among msg (accepts (s w).log)
        → After (act (hears (accept msg)) (s u).node)
    unfolding act receive receive_accept
    hear_accept msg w in_ here =
        let a = (s u).node.acceptor in
        voted msg.proposal_id (Acceptor.receive_accept msg a).0 (Acceptor.receive_accept msg a).1
          (receive_accept-Kept K u a (s u).log msg (w, in_, msg, here, refl, refl)
            (fine u member).kept)
          (accept_votes msg a (s u).log)

    pub act-Fine : (a : Action) → Arrives members s a → After (act a (s u).node)
    unfolding act receive receive_prepare prepare_next promises accepts accepteds moved sent_of
    act-Fine prepares arrives =
        proposed (prepare_next (s u).node.proposer).0 (prepare_next (s u).node.proposer).1 tt (
          prepare_next-Proposing K (SentPromise members s) q u (accepts (s u).log)
            (s u).node.proposer (fine u member).proposing)
    act-Fine (proposes v) arrives =
        proposed (propose_value v (s u).node.proposer).0 (propose_value v (s u).node.proposer).1
          (propose_value-Quiet v (s u).node.proposer)
          (propose_value-Proposing K (SentPromise members s) q u (s u).log v (s u).node.proposer
            (fine u member).proposing)
    act-Fine (hears (prepare msg)) arrives =
        let a = (s u).node.acceptor in
        voted msg.proposal_id (Acceptor.receive_prepare msg a).0 (Acceptor.receive_prepare msg a).1
          (receive_prepare-Kept K u a (s u).log msg (fine u member).kept)
          (prepare_votes msg a (s u).log)
    act-Fine (hears (accept msg)) (w, in_, here) =
        hear_accept msg w in_ (only-Among as_accept (accept msg) msg (s w).log refl here)
    act-Fine (hears (nack msg)) arrives =
        proposed (receive_nack msg (s u).node.proposer).0 (receive_nack msg (s u).node.proposer).1
          (receive_nack-Quiet msg (s u).node.proposer)
          (receive_nack-Proposing K (SentPromise members s) q u msg (s u).log (s u).node.proposer
            (fine u member).proposing)
    act-Fine (hears (promise msg)) (w, in_, here) =
        hear_promise msg w in_ (only-Among as_promise (promise msg) msg (s w).log refl here)
    act-Fine (hears (accepted msg)) (w, in_, here) =
        hear_accepted msg w in_ (only-Among as_accepted (accepted msg) msg (s w).log refl here)
    act-Fine (hears (resolution msg)) arrives = record {
      kept = (fine u member).kept;
      proposing = (fine u member).proposing;
      learned = (fine u member).learned;
    }
