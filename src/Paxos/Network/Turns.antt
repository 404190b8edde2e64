-- ===== src/Paxos/Network/Turns.antt =====
-- Every turn of a node keeps what holds of the nodes.
use krafters.Prelude.{
  ℕ, ◌≡◌, refl, sym, inl, inr, true, false, List, [], Option, Bool-cases, ◌==◌, arith,
}
use mathlib.Core.Path.{subst}
use krafters.Sets.{contains}
use krafters.Paxos.Messages.{Among, Message}
use krafters.Paxos.Messages.Order.{before_irrefl}
use krafters.Paxos.Learner.{hear}
use krafters.Paxos.Instance.{paxos_instance}
use krafters.Paxos.Network.{
  System, Action, act, sent_of, moved, turn, initial, Arrives, Reachable, begins, acts, only,
  as_promise, as_accept, as_accepted, promises, accepts, accepteds,
}
use krafters.Paxos.Network.Sites.{only-more, Fine, AllFine, More, Fine-mono}
use krafters.Paxos.Network.Acts.{act-Fine}

module _ (members : List ℕ) (q : ℕ) where
  module _ (s : System) (u : ℕ) (a : Action) where
    turn_self : (w : ℕ) → (w == u) ≡ true → turn u a s w ≡ moved (act a (s u).node) (s u).log
    unfolding turn
    turn_self w e = rw e

    turn_other : (w : ℕ) → (w == u) ≡ false → turn u a s w ≡ s w
    unfolding turn
    turn_other w e = rw e

    still :
        {A : Type 0} (f : Message → Option A) (w : ℕ) (x : A)
        → Among x (only f (s w).log)
        → Among x (only f (turn u a s w).log)
    unfolding moved
    still f w x here = elim (Bool-cases (w == u)) [
      | inr e ↦ rw (turn_other w e) here
      | inl e ↦
          let eq : w ≡ u = ground arith in
          rw (turn_self w e) (
            only-more f (sent_of (act a (s u).node).0) (s u).log x
              (subst (λ w. Among x (only f (s w).log)) eq here))
    ]

    turn-More : More members s (turn u a s)
    unfolding promises accepts accepteds
    turn-More = record {
      more_promises = still as_promise;
      more_accepts = still as_accept;
      more_accepteds = still as_accepted;
    }

    turn-AllFine :
        AllFine members s q
        → contains u members ≡ true
        → Arrives members s a
        → AllFine members (turn u a s) q
    turn-AllFine fine member arrives w in_ = elim (Bool-cases (w == u)) [
      | inr e ↦
          subst (Fine members (turn u a s) q w) (sym (turn_other w e))
            (Fine-mono members s (turn u a s) turn-More q w (s w) (fine w in_))
      | inl e ↦
          let eq : u ≡ w = ground arith in
          let now = moved (act a (s u).node) (s u).log in
          subst (Fine members (turn u a s) q w) (sym (turn_self w e)) (
            subst (λ w. Fine members (turn u a s) q w now) eq
              (Fine-mono members s (turn u a s) turn-More q u now
                (act-Fine members q s fine u member a arrives)))
    ]

  initial-AllFine : AllFine members (initial q) q
  unfolding initial paxos_instance promises accepts accepteds hear
  initial-AllFine u in_ = record {
    kept = record {
      named = refl;
      floor = refl;
      holds = λ h e. absurd (cc e);
      promised = λ p here. absurd here;
      told = λ p here. absurd here;
      voted = λ x here. absurd here;
      reported = λ p x here vote. absurd here;
    };
    proposing = record {
      named = refl;
      size = refl;
      own = refl;
      high = before_irrefl (initial q u).node.proposer.proposal_id;
      low = λ x here. absurd here;
      current = λ x here. absurd here;
      one = λ x y here. absurd here;
      backed = λ x here. absurd here;
      adopted = λ h e. absurd (cc e);
      gathered = λ us e. absurd (cc e);
      leads = λ e. absurd (cc e);
    };
    learned = ([], refl, λ x here. absurd here);
  }

  -- It holds in every state of the network.
  pub Reachable-AllFine : (s : System) → Reachable members q s → AllFine members s q
  Reachable-AllFine s begins = initial-AllFine
  Reachable-AllFine s (acts u a before_ member arrives r) =
      turn-AllFine before_ u a (Reachable-AllFine before_ r) member arrives
