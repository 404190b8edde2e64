-- ===== src/Dict.antt =====
-- Python's dictionaries: a list of keys with their values, under a test of keys.
use krafters.Prelude.{
  ◌≡◌, refl, Bool, true, false, List, [], ◌∷◌, Option, none, some, if◌then◌else◌, Bool-cases, inl,
  inr,
}

module _ {ℓ κ} {K : Type ℓ} {A : Type κ} (same : K → K → Bool) where
  -- d.get(k)
  abbrev pub find : K → List (K × A) → Option A
  find k [] = none
  find k ((k', a) ∷ xs) = if same k' k then some a else find k xs

  -- d[k] = a
  abbrev pub put : K → A → List (K × A) → List (K × A)
  put k a [] = (k, a) ∷ []
  put k a ((k', a') ∷ xs) = if same k' k then (k', a) ∷ xs else (k', a') ∷ put k a xs

  -- del d[k]
  abbrev pub delete : K → List (K × A) → List (K × A)
  delete k [] = []
  delete k ((k', a') ∷ xs) = if same k' k then delete k xs else (k', a') ∷ delete k xs

module _ {ℓ κ} {K : Type ℓ} {A : Type κ} (same : K → K → Bool) where
  pub find-put_same :
      (k : K) (a : A) (xs : List (K × A)) → same k k ≡ true → find same k (put same k a xs) ≡ some a
  find-put_same k a [] h = rw h
  find-put_same k a ((k', a') ∷ xs) h = elim (Bool-cases (same k' k)) [
    | inl e ↦ rw (e, e)
    | inr e ↦ rw (e, e) (find-put_same k a xs h)
  ]

  -- Two keys that are alike for one are alike for the other.
  module _ (join : (a b c : K) → same a b ≡ true → same a c ≡ true → same b c ≡ true) where
    pub find-put_other :
        (k k' : K) (a : A) (xs : List (K × A))
        → same k k' ≡ false
        → find same k' (put same k a xs) ≡ find same k' xs
    find-put_other k k' a [] h = rw h
    find-put_other k k' a ((k'', a') ∷ xs) h = elim (Bool-cases (same k'' k)) [
      | inl e ↦ elim (Bool-cases (same k'' k')) [
        | inl g ↦ absurd (cc (join k'' k k' e g))
        | inr g ↦ rw (e, g)
      ]
      | inr e ↦ elim (Bool-cases (same k'' k')) [
        | inl g ↦ rw (e, g)
        | inr g ↦ rw (e, g) (find-put_other k k' a xs h)
      ]
    ]

    pub find-delete_other :
        (k k' : K) (xs : List (K × A))
        → same k k' ≡ false
        → find same k' (delete same k xs) ≡ find same k' xs
    find-delete_other k k' [] h = refl
    find-delete_other k k' ((k'', a') ∷ xs) h = elim (Bool-cases (same k'' k)) [
      | inl e ↦ elim (Bool-cases (same k'' k')) [
        | inl g ↦ absurd (cc (join k'' k k' e g))
        | inr g ↦ rw (e, g) (find-delete_other k k' xs h)
      ]
      | inr e ↦ elim (Bool-cases (same k'' k')) [
        | inl g ↦ rw (e, g)
        | inr g ↦ rw (e, g) (find-delete_other k k' xs h)
      ]
    ]

  pub find-delete_same : (k : K) (xs : List (K × A)) → find same k (delete same k xs) ≡ none
  find-delete_same k [] = refl
  find-delete_same k ((k', a') ∷ xs) = elim (Bool-cases (same k' k)) [
    | inl e ↦ rw e (find-delete_same k xs)
    | inr e ↦ rw (e, e) (find-delete_same k xs)
  ]
