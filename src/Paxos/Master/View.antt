-- ===== src/Paxos/Master/View.antt =====
-- What paxos/master_strategy.py makes of the values of the chain.
use krafters.Prelude.{arith, ℕ, suc, ◌≡◌, refl, ap, ◌∙◌, List, [], ◌∷◌, Option, none, some}
use krafters.Text.{Text}
use krafters.Paxos.Master.{Master, Entry}
use krafters.Paxos.Master.Leases.{advance_instance, advance_by, update_lease}
use krafters.Paxos.Master.Kept.{update_lease-Kept}
use krafters.Paxos.Master.Entered.{enter_instance-chain}

-- What an application sees of a node: the instance, the current value and the master.
pub record View : Type 0 where
  pub instance_number : ℕ
  pub current_value : Option Text
  pub master : Option ℕ

abbrev pub view : Master → View
view a = record {
  instance_number = a.node.base.saved.instance_number;
  current_value = a.node.base.saved.current_value;
  master = a.master_uid;
}

-- A lease changes the master, an application value the value; each takes an instance.
abbrev pub apply_entry : Entry → View → View
apply_entry (some uid, value) v = record v {
  instance_number = suc v.instance_number;
  master = some uid;
}
apply_entry (none, value) v = record v {
  instance_number = suc v.instance_number;
  current_value = value;
}

abbrev pub apply_all : List (ℕ × Entry) → View → View
apply_all [] v = v
apply_all ((now, e) ∷ entries) v = apply_all entries (apply_entry e v)

View-path :
    (a b : View)
    → a.instance_number ≡ b.instance_number
    → a.current_value ≡ b.current_value
    → a.master ≡ b.master
    → a ≡ b
View-path a b i c m = ground arith

module _ (dumps : Entry → Text) (loads : Text → Option Entry) where
  -- The node learns that the instance is resolved, with the value that json.dumps wrote.
  abbrev pub learn : ℕ → Entry → Master → Master
  learn now e a =
      advance_instance dumps loads now (suc a.node.base.saved.instance_number) (dumps e) a

  abbrev pub learn_all : List (ℕ × Entry) → Master → Master
  learn_all [] a = a
  learn_all ((now, e) ∷ entries) a = learn_all entries (learn now e a)

  advance_by-view :
      (now : ℕ) (e : Entry) (a : Master)
      → view (advance_by dumps loads now (suc a.node.base.saved.instance_number) (some e) a)
        ≡ apply_entry e (view a)
  unfolding advance_by
  advance_by-view now (some uid, value) a =
      let b = update_lease dumps loads now (some uid) a in
      let ((s, t, u, w), m) = update_lease-Kept dumps loads now (some uid) a in
      let (i, c, x, m') =
        enter_instance-chain (suc a.node.base.saved.instance_number) b.node.base.saved.current_value
          b in
      View-path _ _ i (c ∙ ap (λ s. s.current_value) s) (m' ∙ m)
  advance_by-view now (none, value) a =
      let (i, c, x, m) = enter_instance-chain (suc a.node.base.saved.instance_number) value a in
      View-path _ _ i c m

  -- The chain under the master strategy refines two registers. If json.loads reads back what json.dumps
  -- writes, a node that learns any values one after the other, at any times, has advanced by one
  -- instance for each of them, holds the last application value among them (its old value if there is
  -- none) and knows the last node that was granted the lease (the old master if there is none).
  pub learn_all-view :
      ((e : Entry) → loads (dumps e) ≡ some e)
      → (entries : List (ℕ × Entry)) (a : Master)
      → view (learn_all entries a) ≡ apply_all entries (view a)
  unfolding advance_instance
  learn_all-view back [] a = refl
  learn_all-view back ((now, e) ∷ entries) a =
      learn_all-view back entries (learn now e a)
      ∙ ap (apply_all entries)
          (rw (back e) (advance_by-view now e (record a { master_attempt = _ })))
