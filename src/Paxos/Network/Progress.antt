-- ===== src/Paxos/Network/Progress.antt =====
-- A message that several members hear, one after the other.
use krafters.Prelude.{
  ℕ, ◌≡◌, refl, sym, ap, ◌∙◌, inl, inr, true, false, List, [], ◌∷◌, ◌++◌, Bool-cases, ◌==◌, arith,
}
use mathlib.Core.Path.{subst}
use krafters.Sets.{contains}
use krafters.Paxos.Messages.{Among, Message}
use krafters.Paxos.Acceptor.{Acceptor}
use krafters.Paxos.Proposer.{Proposer}
use krafters.Paxos.Learner.Tallies.{Distinct}
use krafters.Paxos.Learner.Complete.{other}
use krafters.Paxos.Instance.{Instance}
use krafters.Paxos.Network.{
  Action, Site, System, hears, act, sent_of, moved, turn, Arrives, Reachable, acts,
}
use krafters.Paxos.Network.Turns.{Reachable-AllFine}

abbrev pub Grows : System → System → Type 0
Grows s s' = (w : ℕ) (m : Message) → Among m (s w).log → Among m (s' w).log

pub Among-append : (m : Message) (new log : List Message) → Among m log → Among m (new ++ log)
Among-append m [] log here = here
Among-append m (x ∷ new) log here = inr (Among-append m new log here)

module _ (u : ℕ) (a : Action) (s : System) where
  pub turn_at : turn u a s u ≡ moved (act a (s u).node) (s u).log
  unfolding turn
  turn_at = let same : (u == u) ≡ true = ground arith in rw same refl

  pub turn_elsewhere : (w : ℕ) → (w == u) ≡ false → turn u a s w ≡ s w
  unfolding turn
  turn_elsewhere w e = rw e refl

  pub turn-Grows : Grows s (turn u a s)
  unfolding moved
  turn-Grows w m here = elim (Bool-cases (w == u)) [
    | inr e ↦ rw (turn_elsewhere w e) here
    | inl e ↦
        let eq : w ≡ u = ground arith in
        rw (eq, turn_at)
          (Among-append m (sent_of (act a (s u).node).0) (s u).log
            (subst (λ w. Among m (s w).log) eq here))
  ]

pub in_later : (u x : ℕ) (todo : List ℕ) → contains x todo ≡ true → contains x (u ∷ todo) ≡ true
unfolding contains
in_later u x todo later = elim (Bool-cases (u == x)) [ inl e ↦ rw e refl | inr e ↦ rw e later ]

out_later : (u x : ℕ) (todo : List ℕ) → contains x (u ∷ todo) ≡ false → contains x todo ≡ false
unfolding contains
out_later u x todo out = elim (Bool-cases (u == x)) [
  | inl e ↦ absurd (cc (rw e at out))
  | inr e ↦ rw e at out
]

out_apart : (u x : ℕ) (todo : List ℕ) → contains x (u ∷ todo) ≡ false → (x == u) ≡ false
unfolding contains
out_apart u x todo out = elim (Bool-cases (u == x)) [
  | inl e ↦ absurd (cc (rw e at out))
  | inr e ↦ ground arith
]

apart :
    (x u : ℕ) (todo : List ℕ) → contains u todo ≡ false → contains x todo ≡ true → (x == u) ≡ false
apart x u todo alone here = let no = other u x todo alone here in ground arith

-- The states that a network can come to from one.
pub data Continues (members : List ℕ) (start : System) : System → Type 0 where
  stays : Continues members start start
  goes :
      (u : ℕ) (action : Action) (s : System)
      → contains u members ≡ true
      → Arrives members s action
      → Continues members start s
      → Continues members start (turn u action s)

pub Continues-Reachable :
    (members : List ℕ) (q : ℕ) (start : System)
    → Reachable members q start
    → (s : System) → Continues members start s
    → Reachable members q s
Continues-Reachable members q start base s stays = base
Continues-Reachable members q start base s (goes u action t member arrives more) =
    acts u action t member arrives (Continues-Reachable members q start base t more)

-- What the members of a list have after they have heard the message.
pub record Round (members : List ℕ) (start : System) (p : ℕ) (Keep : Proposer → Type 0)
    (Q : ℕ → Acceptor → List Message → Type 0) (todo : List ℕ) (s : System) : Type 0 where
  pub after : System
  pub reached : Continues members start after
  pub grows : Grows s after
  pub keeps : Keep (after p).node.proposer
  pub learners : (w : ℕ) → (after w).node.learner ≡ (s w).node.learner
  pub others : (w : ℕ) → contains w todo ≡ false → (after w).node.acceptor ≡ (s w).node.acceptor
  pub done : (w : ℕ) → contains w todo ≡ true → Q w (after w).node.acceptor (after w).log

module _ (members : List ℕ) (q p : ℕ) (start : System) (base : Reachable members q start)
    (msg : Message) (Keep : Proposer → Type 0) (R : ℕ → Acceptor → Type 0)
    (Q : ℕ → Acceptor → List Message → Type 0)
    (hears_Q : (u : ℕ) (n : Instance) (log : List Message)
      → n.acceptor.network_uid ≡ u
      → R u n.acceptor
      → Q u (act (hears msg) n).1.acceptor (sent_of (act (hears msg) n).0 ++ log))
    (hears_learner : (n : Instance) → (act (hears msg) n).1.learner ≡ n.learner)
    (hears_Keep : (n : Instance) → Keep n.proposer → Keep (act (hears msg) n).1.proposer)
    (Q_more : (u : ℕ) (a : Acceptor) (log log' : List Message)
      → ((m : Message) → Among m log → Among m log')
      → Q u a log
      → Q u a log') where
  turn_learner : (u w : ℕ) (s : System) → (turn u (hears msg) s w).node.learner ≡ (s w).node.learner
  unfolding moved
  turn_learner u w s = elim (Bool-cases (w == u)) [
    | inr e ↦ rw (turn_elsewhere u (hears msg) s w e) refl
    | inl e ↦
        let eq : w ≡ u = ground arith in rw (eq, turn_at u (hears msg) s) (hears_learner (s u).node)
  ]

  turn-Keep :
      (u : ℕ) (s : System) → Keep (s p).node.proposer → Keep (turn u (hears msg) s p).node.proposer
  unfolding moved
  turn-Keep u s h = elim (Bool-cases (p == u)) [
    | inr e ↦ rw (turn_elsewhere u (hears msg) s p e) h
    | inl e ↦
        let eq : u ≡ p = ground arith in
        subst (λ u. Keep (turn u (hears msg) s p).node.proposer) (sym eq)
          (rw (turn_at p (hears msg) s) (hears_Keep (s p).node h))
  ]

  turn-Q :
      (u : ℕ) (s : System)
      → (s u).node.acceptor.network_uid ≡ u
      → R u (s u).node.acceptor
      → Q u (turn u (hears msg) s u).node.acceptor (turn u (hears msg) s u).log
  unfolding moved
  turn-Q u s named ready = rw (turn_at u (hears msg) s) (hears_Q u (s u).node (s u).log named ready)

  -- All of them hear it.
  pub all_hear :
      (todo : List ℕ) (s : System)
      → Continues members start s
      → Distinct todo
      → ((u : ℕ) → contains u todo ≡ true → contains u members ≡ true)
      → (w : ℕ) × (contains w members ≡ true) × Among msg (s w).log
      → Keep (s p).node.proposer
      → ((u : ℕ) → contains u todo ≡ true → R u (s u).node.acceptor)
      → Round members start p Keep Q todo s
  unfolding contains
  all_hear [] s reached distinct ins sender keep ready = record {
    after = s;
    reached = reached;
    grows = λ w m here. here;
    keeps = keep;
    learners = λ w. refl;
    others = λ w out. refl;
    done = λ w here. absurd (cc here);
  }
  all_hear (u ∷ todo) s reached (alone, distinct) ins (w, in_, here) keep ready =
      let s' = turn u (hears msg) s in
      let self : (u == u) ≡ true = ground arith in
      let member = ins u (rw self refl) in
      let named =
        (Reachable-AllFine members q s (Continues-Reachable members q start base s reached) u
          member).kept.named in
      let first = turn-Q u s named (ready u (rw self refl)) in
      let rest =
        all_hear todo s' (goes u (hears msg) s member (w, in_, here) reached) distinct
          (λ x later. ins x (in_later u x todo later))
          (w, in_, turn-Grows u (hears msg) s w msg here) (turn-Keep u s keep)
          (λ x later.
            subst (λ (site : Site). R x site.node.acceptor)
              (sym (turn_elsewhere u (hears msg) s x (apart x u todo alone later)))
              (ready x (in_later u x todo later))) in
      record {
        after = rest.after;
        reached = rest.reached;
        grows = λ x m old. rest.grows x m (turn-Grows u (hears msg) s x m old);
        keeps = rest.keeps;
        learners = λ x. rest.learners x ∙ turn_learner u x s;
        others = λ x out.
            rest.others x (out_later u x todo out)
            ∙ ap (λ (site : Site). site.node.acceptor)
                (turn_elsewhere u (hears msg) s x (out_apart u x todo out));
        done = λ x now. elim (Bool-cases (u == x)) [
          | inr e ↦ rest.done x (rw e at now)
          | inl e ↦
              let eq : u ≡ x = ground arith in
              subst (λ x. Q x (rest.after x).node.acceptor (rest.after x).log) eq
                (subst (λ a. Q u a (rest.after u).log) (sym (rest.others u alone))
                  (Q_more u (s' u).node.acceptor (s' u).log (rest.after u).log (rest.grows u)
                    first))
        ];
      }
