-- ===== src/Text/Numbers.antt =====
-- The decimal digits of a number, read back, and texts without white space.
use krafters.Prelude.{
  ℕ, zero, suc, ◌+◌, ◌/◌, ◌%◌, ◌<◌, ◌≡◌, refl, ap, ◌∙◌, sym, true, false, inl, inr, [], ◌∷◌, ◌++◌,
  some, ltb, Bool-cases, arith,
}
use mathlib.Core.List.{append-nil, append_assoc}
use krafters.Text.{
  Text, is_space, is_digit, all_digits, isdigit, decimal, digits_of, parse_int, str, words_from,
  rstrip,
}

digits_of-decimal :
    (fuel n : ℕ) (acc : Text) → n < fuel → decimal 0 (digits_of fuel n acc) ≡ decimal n acc
unfolding digits_of decimal
digits_of-decimal zero n acc h = absurd (omega arith)
digits_of-decimal (suc fuel) n acc h = elim (Bool-cases (ltb n 10)) [
  | inl e ↦ rw e (ap (λ k. decimal k acc) (ground arith))
  | inr e ↦ rw e (
      digits_of-decimal fuel (n / 10) ((b'0' + n % 10) ∷ acc) (ground arith)
      ∙ ap (λ k. decimal k acc) (ground arith))
]

digits_of-digits :
    (fuel n : ℕ) (acc : Text) → all_digits acc ≡ true → all_digits (digits_of fuel n acc) ≡ true
unfolding digits_of all_digits is_digit
digits_of-digits zero n acc h = h
digits_of-digits (suc fuel) n acc h =
    let more : all_digits ((b'0' + n % 10) ∷ acc) ≡ true = ground arith in
    elim (Bool-cases (ltb n 10)) [
      | inl e ↦ rw e more
      | inr e ↦ rw e (digits_of-digits fuel (n / 10) ((b'0' + n % 10) ∷ acc) more)
    ]

-- The digits of a number.
pub record Digits (s : Text) : Type 0 where
  pub digits : all_digits s ≡ true
  pub head : ℕ
  pub tail : Text
  pub shape : s ≡ head ∷ tail

digits_of-shape :
    (fuel n d : ℕ) (acc : Text)
    → (head : ℕ) × (tail : Text) × (digits_of fuel n (d ∷ acc) ≡ head ∷ tail)
unfolding digits_of
digits_of-shape zero n d acc = (d, acc, refl)
digits_of-shape (suc fuel) n d acc = elim (Bool-cases (ltb n 10)) [
  | inl e ↦ rw e (b'0' + n % 10, d ∷ acc, refl)
  | inr e ↦ rw e (digits_of-shape fuel (n / 10) (b'0' + n % 10) (d ∷ acc))
]

-- The text of a number is not empty and consists of digits.
pub str-Digits : (n : ℕ) → Digits (str n)
unfolding str digits_of all_digits
str-Digits n = elim (Bool-cases (ltb n 10)) [
  | inl e ↦ record {
    digits = digits_of-digits (suc n) n [] refl;
    head = b'0' + n % 10;
    tail = [];
    shape = rw e refl;
  }
  | inr e ↦
      let (h, t, eq) = digits_of-shape n (n / 10) (b'0' + n % 10) [] in
      record { digits = digits_of-digits (suc n) n [] refl; head = h; tail = t; shape = rw e eq }
]

isdigit_of : (s : Text) → Digits s → isdigit s ≡ true
unfolding isdigit
isdigit_of s d = rw d.shape (rw d.shape at d.digits)

-- int(str(n)) is n.
pub parse_int-str : (n : ℕ) → parse_int (str n) ≡ some n
unfolding parse_int str
parse_int-str n =
    let yes_ = isdigit_of (str n) (str-Digits n) in
    rw yes_ (ap some (digits_of-decimal (suc n) n [] (omega arith)))

not_space : (c : ℕ) → is_digit c ≡ true → is_space c ≡ false
unfolding is_digit is_space
not_space c h = ground arith

-- A word that digits continue.
pub words_from-digits :
    (acc s rest : Text)
    → all_digits s ≡ true
    → words_from acc (s ++ rest) ≡ words_from (acc ++ s) rest
unfolding words_from all_digits
words_from-digits acc [] rest h = ap (λ a. words_from a rest) (sym (append-nil acc))
words_from-digits acc (c ∷ s) rest h =
    let word = not_space c (ground arith) in
    rw word (words_from-digits (acc ++ c ∷ []) s rest (ground arith))
    ∙ ap (λ a. words_from a rest) (append_assoc acc (c ∷ []) s)

-- rstrip leaves a text whose end it leaves.
pub rstrip-append :
    (s : Text) (d : ℕ) (t : Text) → rstrip (d ∷ t) ≡ d ∷ t → rstrip (s ++ d ∷ t) ≡ s ++ d ∷ t
unfolding rstrip
rstrip-append [] d t h = h
rstrip-append (c ∷ []) d t h = rw (h, rstrip) refl
rstrip-append (c ∷ e ∷ s) d t h = rw (rstrip-append (e ∷ s) d t h, rstrip) refl

pub rstrip-digits : (s : Text) → all_digits s ≡ true → rstrip s ≡ s
unfolding rstrip all_digits
rstrip-digits [] h = refl
rstrip-digits (c ∷ []) h = let word = not_space c (ground arith) in rw word refl
rstrip-digits (c ∷ d ∷ s) h = rw (rstrip-digits (d ∷ s) (ground arith), rstrip) refl
