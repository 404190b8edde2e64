-- ===== src/Regex/Sound.antt =====
-- `matches` of Regex.antt decides the language of a pattern, which is given here by recursion on the
-- pattern and knows nothing of derivatives.
use krafters.Prelude.{
  ℕ, ◌≡◌, refl, sym, ap, ◌∙◌, ◌⊎◌, inl, inr, true, [], ◌∷◌, ◌++◌, arith, Bool-cases,
}
use krafters.Text.{Text}
use krafters.Regex.{
  Regex, never, empty, class, seq, alt, star, seq_of, alt_of, nullable, deriv, matches,
}

-- Texts that are cut into pieces of `P`.
pub data Pieces (P : Text → Type 0) : Text → Type 0 where
  none : Pieces P []
  more : {a b t : Text} → P a → Pieces P b → t ≡ a ++ b → Pieces P t

abbrev pub InLang : Regex → Text → Type 0
InLang never t = ⊥
InLang empty t = t ≡ []
InLang (class p) t = (c : ℕ) × (t ≡ c ∷ []) × (p c ≡ true)
InLang (seq r s) t = (a : Text) × (b : Text) × (t ≡ a ++ b) × InLang r a × InLang s b
InLang (alt r s) t = InLang r t ⊎ InLang s t
InLang (star r) t = Pieces (InLang r) t

append_eq_nil : (a b : Text) → [] ≡ a ++ b → (a ≡ []) × (b ≡ [])
append_eq_nil [] b e = (refl, sym e)
append_eq_nil (x ∷ a) b e = absurd (cc)

seq_of_sound : (r s : Regex) (t : Text) → InLang (seq_of r s) t → InLang (seq r s) t
unfolding seq_of
seq_of_sound never s t h = absurd h
seq_of_sound empty s t h = ([], t, refl, refl, h)
seq_of_sound _ s t h = h

seq_of_complete : (r s : Regex) (t : Text) → InLang (seq r s) t → InLang (seq_of r s) t
unfolding seq_of
seq_of_complete never s t h = absurd h.3
seq_of_complete empty s t (a, b, e, ha, hb) = rw (e, ha) hb
seq_of_complete _ s t h = h

alt_of_sound : (r s : Regex) (t : Text) → InLang (alt_of r s) t → InLang (alt r s) t
unfolding alt_of
alt_of_sound never s t h = inr h
alt_of_sound r never t h = inl h
alt_of_sound _ _ t h = h

alt_of_complete : (r s : Regex) (t : Text) → InLang (alt r s) t → InLang (alt_of r s) t
unfolding alt_of
alt_of_complete never s t (inl h) = absurd h
alt_of_complete never s t (inr h) = h
alt_of_complete r never t (inl h) = h
alt_of_complete r never t (inr h) = absurd h
alt_of_complete _ _ t h = h

nullable_sound : (r : Regex) → nullable r ≡ true → InLang r []
unfolding nullable
nullable_sound never h = absurd (cc)
nullable_sound empty h = refl
nullable_sound (class p) h = absurd (cc)
nullable_sound (seq r s) h =
    ([], [], refl, nullable_sound r (ground arith), nullable_sound s (ground arith))
nullable_sound (alt r s) h = elim (Bool-cases (nullable r)) [
  | inl e ↦ inl (nullable_sound r e)
  | inr e ↦ inr (nullable_sound s (ground arith))
]
nullable_sound (star r) h = none

nullable_complete : (r : Regex) (t : Text) → InLang r t → t ≡ [] → nullable r ≡ true
unfolding nullable
nullable_complete never t h e = absurd h
nullable_complete empty t h e = refl
nullable_complete (class p) t (c, q, pc) e = absurd (cc)
nullable_complete (seq r s) t (a, b, q, ha, hb) e =
    let (ea, eb) = append_eq_nil a b (sym e ∙ q) in
    rw (nullable_complete r a ha ea, nullable_complete s b hb eb)
nullable_complete (alt r s) t (inl h) e = rw (nullable_complete r t h e)
nullable_complete (alt r s) t (inr h) e = ground (arith, nullable_complete s t h e)
nullable_complete (star r) t h e = refl

-- The first piece of a sequence loses or gains its first character.
module _ (c : ℕ) (r s : Regex) (t : Text) where
  seq_sound :
      ((a : Text) → InLang (deriv c r) a → InLang r (c ∷ a))
      → InLang (seq (deriv c r) s) t
      → InLang (seq r s) (c ∷ t)
  seq_sound f (a, b, q, ha, hb) = (c ∷ a, b, ap (λ u. c ∷ u) q, f a ha, hb)

  seq_either_sound :
      ((a : Text) → InLang (deriv c r) a → InLang r (c ∷ a))
      → (InLang (deriv c s) t → InLang s (c ∷ t))
      → nullable r ≡ true
      → InLang (alt (seq_of (deriv c r) s) (deriv c s)) t
      → InLang (seq r s) (c ∷ t)
  seq_either_sound f g e (inl h) = seq_sound f (seq_of_sound _ _ t h)
  seq_either_sound f g e (inr h) = ([], c ∷ t, refl, nullable_sound r e, g h)

  seq_complete :
      ((a u : Text) → InLang r a → a ≡ c ∷ u → InLang (deriv c r) u)
      → (u : Text) → (a b : Text) → InLang r a
      → InLang s b
      → u ≡ a ++ b
      → u ≡ c ∷ t
      → InLang (seq (deriv c r) s) t ⊎ ((nullable r ≡ true) × (b ≡ c ∷ t))
  seq_complete f u [] b ha hb q e = inr (nullable_complete r [] ha refl, sym q ∙ e)
  seq_complete f u (d ∷ a) b ha hb q e = inl (a, b, cc, f (d ∷ a) a ha (cc), hb)

star_sound :
    (c : ℕ) (r : Regex) (t : Text)
    → ((a : Text) → InLang (deriv c r) a → InLang r (c ∷ a))
    → InLang (seq (deriv c r) (star r)) t
    → InLang (star r) (c ∷ t)
star_sound c r t f (a, b, q, ha, hb) = more (f a ha) hb (ap (λ u. c ∷ u) q)

star_complete :
    (c : ℕ) (r : Regex) (t u : Text)
    → ((a v : Text) → InLang r a → a ≡ c ∷ v → InLang (deriv c r) v)
    → Pieces (InLang r) u
    → u ≡ c ∷ t
    → InLang (seq (deriv c r) (star r)) t
star_complete c r t u f none e = absurd (cc)
star_complete c r t u f (more {a = []} ha hb q) e = star_complete c r t _ f hb (sym q ∙ e)
star_complete c r t u f (more {a = d ∷ a} {b = b} ha hb q) e = (a, b, cc, f (d ∷ a) a ha (cc), hb)

deriv_sound : (c : ℕ) (r : Regex) (t : Text) → InLang (deriv c r) t → InLang r (c ∷ t)
unfolding deriv
deriv_sound c never t h = h
deriv_sound c empty t h = absurd h
deriv_sound c (class p) t h = elim (Bool-cases (p c)) [
  | inl e ↦ (c, ap (λ u. c ∷ u) (rw e at h), e)
  | inr e ↦ absurd (rw e at h)
]
deriv_sound c (seq r s) t h = elim (Bool-cases (nullable r)) [
  | inl e ↦
      seq_either_sound c r s t (deriv_sound c r) (deriv_sound c s t) e
        (alt_of_sound _ _ t (rw e at h))
  | inr e ↦ seq_sound c r s t (deriv_sound c r) (seq_of_sound _ _ t (rw e at h))
]
deriv_sound c (alt r s) t h = elim (alt_of_sound _ _ t h) [
  | inl g ↦ inl (deriv_sound c r t g)
  | inr g ↦ inr (deriv_sound c s t g)
]
deriv_sound c (star r) t h = star_sound c r t (deriv_sound c r) (seq_of_sound _ _ t h)

deriv_complete : (c : ℕ) (r : Regex) (u t : Text) → InLang r u → u ≡ c ∷ t → InLang (deriv c r) t
unfolding deriv
deriv_complete c never u t h e = h
deriv_complete c empty u t h e = absurd (cc)
deriv_complete c (class p) u t (d, q, pd) e =
    let same : d ≡ c = cc in let rest : t ≡ [] = cc in rw (rw same at pd) rest
deriv_complete c (seq r s) u t (a, b, q, ha, hb) e =
    let split_off : InLang (seq (deriv c r) s) t ⊎ ((nullable r ≡ true) × (b ≡ c ∷ t)) =
      seq_complete c r s t (deriv_complete c r) u a b ha hb q e in
    elim (Bool-cases (nullable r)) [
      | inl n ↦ rw n (
          alt_of_complete _ _ t (elim split_off [
            | inl g ↦ inl (seq_of_complete _ _ t g)
            | inr (n', eb) ↦ inr (deriv_complete c s b t hb eb)
          ]))
      | inr n ↦
          rw n (seq_of_complete _ _ t (elim split_off [ inl g ↦ g | inr (n', eb) ↦ absurd (cc) ]))
    ]
deriv_complete c (alt r s) u t (inl h) e = alt_of_complete _ _ t (inl (deriv_complete c r u t h e))
deriv_complete c (alt r s) u t (inr h) e = alt_of_complete _ _ t (inr (deriv_complete c s u t h e))
deriv_complete c (star r) u t h e =
    seq_of_complete _ _ t (star_complete c r t u (deriv_complete c r) h e)

-- `pattern.match(line)` succeeds exactly when some prefix of the line is in the pattern's language.
pub matches_sound :
    (r : Regex) (t : Text)
    → matches r t ≡ true
    → (a : Text) × (b : Text) × (t ≡ a ++ b) × InLang r a
unfolding matches
matches_sound r [] h = ([], [], refl, nullable_sound r h)
matches_sound r (c ∷ t) h = elim (Bool-cases (nullable r)) [
  | inl e ↦ ([], c ∷ t, refl, nullable_sound r e)
  | inr e ↦
      let (a, b, q, g) = matches_sound (deriv c r) t (ground arith) in
      (c ∷ a, b, ap (λ u. c ∷ u) q, deriv_sound c r a g)
]

pub matches_complete : (r : Regex) (a b t : Text) → InLang r a → t ≡ a ++ b → matches r t ≡ true
unfolding matches
matches_complete r [] b [] h e = nullable_complete r [] h refl
matches_complete r [] b (d ∷ t) h e = rw (nullable_complete r [] h refl)
matches_complete r (c ∷ a) b [] h e = absurd (cc)
matches_complete r (c ∷ a) b (d ∷ t) h e =
    ground (arith, matches_complete (deriv d r) a b t (deriv_complete d r (c ∷ a) a h (cc)) (cc))
