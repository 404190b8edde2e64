-- ===== src/TestExecutor/Unwrapper/Resolved.antt =====
-- What resolve_ids returns: where each id comes from, its range, and that "rand" makes no loopback.
use krafters.Prelude.{
  ℕ, zero, suc, ◌≤◌, ◌≡◌, refl, ap, ◌⊎◌, inl, inr, true, ◌||◌, List, [], ◌∷◌, ◌++◌, ltb, ◌==◌,
  arith, Bool-cases,
}
use krafters.Text.{Text}
use krafters.TestExecutor.Errors.{ok}
use krafters.Sets.{contains, add}
use krafters.TestExecutor.Unwrapper.{
  Name, word, int, Kind, digits, rand, all, invalid, kind_of, referred, add_all, resolve,
}
use krafters.TestExecutor.Unwrapper.Draws.{contains-append}

-- The id `v` stands among the names as a number; "all" stands among them.
abbrev pub Mentions : ℕ → List Name → Type 0
Mentions v [] = ⊥
Mentions v (int i ∷ names) = Mentions v names
Mentions v (word t ∷ names) = (kind_of t ≡ digits v) ⊎ Mentions v names

abbrev pub HasAll : List Name → Type 0
HasAll [] = ⊥
HasAll (int i ∷ names) = HasAll names
HasAll (word t ∷ names) = (kind_of t ≡ all) ⊎ HasAll names

-- An id of the result comes from a number in range, from a value drawn, or from "all".
abbrev pub Source : ℕ → List Name → List ℕ → ℕ → Type 0
Source n names used v =
    (Mentions v names × (v ≤ n)) ⊎ ((contains v used ≡ true) ⊎ (HasAll names × (1 ≤ v) × (v ≤ n)))

pub contains-add : (a b : ℕ) (xs : List ℕ) → contains b (add a xs) ≡ (a == b || contains b xs)
unfolding contains add
contains-add a b xs = elim (Bool-cases (contains a xs)) [
  | inl e ↦ ground arith
  | inr e ↦ ground (arith, contains-append b xs (a ∷ []))
]

pub contains-add_all :
    (n b : ℕ) (xs : List ℕ)
    → contains b (add_all n xs) ≡ true
    → (contains b xs ≡ true) ⊎ ((1 ≤ b) × (b ≤ n))
unfolding add_all
contains-add_all zero b xs h = inl h
contains-add_all (suc n) b xs h =
    ground (arith, contains-add (suc n) b (add_all n xs), contains-add_all n b xs)

-- What a run of `resolve` has used of the values, and where the ids beyond `result` come from.
abbrev pub Explains : ℕ → List Name → List ℕ → List ℕ → List ℕ → List ℕ → Type 0
Explains n names values result out rest =
    (used : List ℕ) × (values ≡ used ++ rest)
    × ((v : ℕ) → contains v out ≡ true → (contains v result ≡ true) ⊎ Source n names used v)

rand-Explains :
    (n : ℕ) (t : Text) (names : List Name) (values result out rest : List ℕ)
    → kind_of t ≡ rand
    → ((vs rs : List ℕ) → resolve n names vs rs ≡ ok (out, rest) → Explains n names vs rs out rest)
    → resolve n (word t ∷ names) values result ≡ ok (out, rest)
    → Explains n (word t ∷ names) values result out rest
unfolding resolve contains
rand-Explains n t names [] result out rest e rec h = absurd (cc (rw (e, resolve) at h))
rand-Explains n t names (w ∷ values) result out rest e rec h =
    let (used, q, why) = rec values (add w result) (rw (e, resolve) at h) in
    (w ∷ used, ap (λ us. w ∷ us) q, λ v m. ground (arith, why v, contains-add w v result))

module _ (n : ℕ) (t : Text) (names : List Name) (values result out rest : List ℕ) where
  -- One more word in front of `names`.
  word-Explains :
      (k : Kind)
      → kind_of t ≡ k
      → ((vs rs : List ℕ)
          → resolve n names vs rs ≡ ok (out, rest)
          → Explains n names vs rs out rest)
      → resolve n (word t ∷ names) values result ≡ ok (out, rest)
      → Explains n (word t ∷ names) values result out rest
  unfolding resolve
  word-Explains (digits i) e rec h = elim (Bool-cases (ltb n i)) [
    | inl big ↦ absurd (cc (rw (e, big, resolve) at h))
    | inr small ↦
        let (used, q, why) = rec values (add i result) (rw (e, small, resolve) at h) in
        (used, q, λ v m. ground (arith, why v, contains-add i v result))
  ]
  word-Explains rand e rec h = rand-Explains n t names values result out rest e rec h
  word-Explains all e rec h =
      let (used, q, why) = rec values (add_all n result) (rw (e, resolve) at h) in
      (used, q, λ v m. ground (arith, why v, contains-add_all n v result))
  word-Explains invalid e rec h = absurd (cc (rw (e, resolve) at h))

pub resolve-Explains :
    (n : ℕ) (names : List Name) (values result out rest : List ℕ)
    → resolve n names values result ≡ ok (out, rest)
    → Explains n names values result out rest
unfolding resolve
resolve-Explains n [] values result out rest h = ([], cc, λ v m. inl (rw (← same) at m))
  where
    same : result ≡ out
    same = cc
resolve-Explains n (int i ∷ names) values result out rest h = absurd (cc)
resolve-Explains n (word t ∷ names) values result out rest h =
    word-Explains n t names values result out rest (kind_of t) refl
      (λ vs rs. resolve-Explains n names vs rs out rest) h

-- The first pass keeps the ids that it has and adds those that are mentioned.
abbrev pub Refers : List Name → List ℕ → List ℕ → Type 0
Refers names ids out =
    (v : ℕ) → ((contains v ids ≡ true) ⊎ Mentions v names) → contains v out ≡ true

word-Refers :
    (t : Text) (names : List Name) (ids out : List ℕ) (count count' : ℕ) (k : Kind)
    → kind_of t ≡ k
    → ((is : List ℕ) (c : ℕ) → referred names is c ≡ ok (out, count') → Refers names is out)
    → referred (word t ∷ names) ids count ≡ ok (out, count')
    → Refers (word t ∷ names) ids out
unfolding referred
word-Refers t names ids out count count' (digits i) e rec h v m =
    ground (arith, rec (add i ids) count (rw (e, referred) at h) v, contains-add i v ids)
word-Refers t names ids out count count' rand e rec h v m =
    ground (arith, rec ids (suc count) (rw (e, referred) at h) v)
word-Refers t names ids out count count' _ e rec h v m =
    ground (arith, rec ids count (rw (e, referred) at h) v)

pub referred-Refers :
    (names : List Name) (ids out : List ℕ) (count count' : ℕ)
    → referred names ids count ≡ ok (out, count')
    → Refers names ids out
unfolding referred
referred-Refers [] ids out count count' h v m = ground arith
referred-Refers (int i ∷ names) ids out count count' h v m = absurd (cc)
referred-Refers (word t ∷ names) ids out count count' h v m =
    word-Refers t names ids out count count' (kind_of t) refl
      (λ is c. referred-Refers names is out c count') h v m
