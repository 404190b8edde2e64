-- ===== src/Text/Pieces.antt =====
-- Texts that are split at a separator, which does not occur in some of their parts.
use krafters.Prelude.{
  ℕ, zero, suc, ◌≤◌, ◌<◌, ◌≡◌, refl, ap, Bool, true, false, ◌&&◌, not, List, [], ◌∷◌, ◌++◌, none,
  some, ◌==◌, arith, length, Option-cases, inl, inr,
}
use mathlib.Core.List.{append-nil, append_assoc}
use krafters.Text.{Text, strip_prefix, pieces, split_on, contains, replace}

-- No occurrence of the separator begins in the first part.
abbrev pub Skips : Text → Text → Text → Type 0
Skips sep [] rest = Unit {0}
Skips sep (c ∷ p) rest = (strip_prefix sep (c ∷ (p ++ rest)) ≡ none) × Skips sep p rest

-- A character that does not occur.
unfoldable pub lacks : ℕ → Text → Bool
lacks h [] = true
lacks h (c ∷ s) = not (h == c) && lacks h s

pub lacks-append :
    (h : ℕ) (s t : Text) → lacks h s ≡ true → lacks h t ≡ true → lacks h (s ++ t) ≡ true
unfolding lacks
lacks-append h [] t e g = g
lacks-append h (c ∷ s) t e g = ground (arith, lacks-append h s t)

pub lacks-Skips : (h : ℕ) (sep p rest : Text) → lacks h p ≡ true → Skips (h ∷ sep) p rest
unfolding lacks strip_prefix
lacks-Skips h sep [] rest e = tt
lacks-Skips h sep (c ∷ p) rest e =
    let other : (h == c) ≡ false = ground arith in
    (rw other refl, lacks-Skips h sep p rest (ground arith))

abbrev pub first_of : Text → Text
first_of [] = []
first_of (c ∷ s) = c ∷ []

-- A separator whose second character does not occur, also not right behind the part.
pub second-Skips :
    (g h : ℕ) (sep p rest : Text)
    → lacks h p ≡ true
    → lacks h (first_of rest) ≡ true
    → Skips (g ∷ h ∷ sep) p rest
unfolding lacks strip_prefix
second-Skips g h sep [] rest e f = tt
second-Skips g h sep (c ∷ []) [] e f = (ground arith, tt)
second-Skips g h sep (c ∷ []) (d ∷ rest) e f = (ground arith, tt)
second-Skips g h sep (c ∷ d ∷ p) rest e f =
    (ground arith, second-Skips g h sep (d ∷ p) rest (ground arith) f)

pub contains-Skips :
    (sep p rest : Text) → Skips sep p rest → contains sep (p ++ rest) ≡ contains sep rest
unfolding contains
contains-Skips sep [] rest s = refl
contains-Skips sep (c ∷ p) rest s = rw (s.0, contains) (contains-Skips sep p rest s.1)

-- The pieces of a text behind `acc`, with enough fuel.
abbrev pub Cuts : Text → Text → Text → List Text → Type 0
Cuts sep acc s out = (fuel : ℕ) → length s < fuel → pieces fuel sep acc s ≡ out

pub Cuts-split_on : (sep s : Text) (out : List Text) → Cuts sep [] s out → split_on sep s ≡ out
unfolding split_on
Cuts-split_on sep s out h = h (suc (length s)) (omega arith)

pub Cuts-nil : (sep acc : Text) → Cuts sep acc [] (acc ∷ [])
unfolding pieces
Cuts-nil sep acc zero lt = absurd (omega arith)
Cuts-nil sep acc (suc fuel) lt = refl

Cuts-next :
    (sep acc : Text) (c : ℕ) (s : Text) (out : List Text)
    → strip_prefix sep (c ∷ s) ≡ none
    → Cuts sep (acc ++ c ∷ []) s out
    → Cuts sep acc (c ∷ s) out
unfolding pieces
Cuts-next sep acc c s out e h zero lt = absurd (omega arith)
Cuts-next sep acc c s out e h (suc fuel) lt = rw (e, pieces) (h fuel (omega arith))

pub Cuts-sep :
    (sep acc : Text) (c : ℕ) (s rest : Text) (out : List Text)
    → strip_prefix sep (c ∷ s) ≡ some rest
    → length rest ≤ length s
    → Cuts sep [] rest out
    → Cuts sep acc (c ∷ s) (acc ∷ out)
unfolding pieces
Cuts-sep sep acc c s rest out e le h zero lt = absurd (omega arith)
Cuts-sep sep acc c s rest out e le h (suc fuel) lt =
    rw (e, pieces) (ap (λ out. acc ∷ out) (h fuel (omega arith)))

pub Cuts-Skips :
    (sep acc p rest : Text) (out : List Text)
    → Skips sep p rest
    → Cuts sep (acc ++ p) rest out
    → Cuts sep acc (p ++ rest) out
Cuts-Skips sep acc [] rest out s h = rw append-nil at h
Cuts-Skips sep acc (c ∷ p) rest out s h =
    Cuts-next sep acc c (p ++ rest) out s.0
      (Cuts-Skips sep (acc ++ c ∷ []) p rest out s.1 (rw (append_assoc acc (c ∷ []) p) h))

-- A text without the separator is one piece.
contains-Skips_all : (c : ℕ) (sep s : Text) → contains (c ∷ sep) s ≡ false → Skips (c ∷ sep) s []
unfolding contains
contains-Skips_all c sep [] e = tt
contains-Skips_all c sep (d ∷ s) e = elim (Option-cases (strip_prefix (c ∷ sep) (d ∷ s))) [
  | inl q ↦ (rw (append-nil s) q, contains-Skips_all c sep s (rw (q, contains) at e))
  | inr (rest, q) ↦ absurd (cc (rw (q, contains) at e))
]

pub Cuts-one :
    (c : ℕ) (sep acc s : Text)
    → contains (c ∷ sep) s ≡ false
    → Cuts (c ∷ sep) acc s ((acc ++ s) ∷ [])
Cuts-one c sep acc s e =
    let all =
      Cuts-Skips (c ∷ sep) acc s [] ((acc ++ s) ∷ []) (contains-Skips_all c sep s e)
        (Cuts-nil (c ∷ sep) (acc ++ s)) in
    rw (append-nil s) at all

pub replace-two :
    (old new s a b : Text) → split_on old s ≡ a ∷ b ∷ [] → replace old new s ≡ a ++ (new ++ b)
unfolding replace
replace-two old new s a b e = rw (e, replace) refl
