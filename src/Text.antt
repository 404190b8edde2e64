-- ===== src/Text.antt =====
-- What the scripts use of Python's `str`, over lists of ASCII codes: `split()`, `split(sep)`,
-- `replace`, `rstrip`, `isdigit`, `int`, `in` and `str` of a number.
pub mod Numbers
pub mod Pieces
use Prim.Native.Char.{code}
use Prim.Native.String.{String}
use krafters.Prelude.{
  ℕ, zero, suc, ◌+◌, ◌-◌, ◌*◌, ◌/◌, ◌%◌, Bool, true, false, ◌&&◌, ◌||◌, List, [], ◌∷◌, ◌++◌, Option,
  none, some, ◌≡◌, refl, arith, ltb, leb, ◌==◌, if◌then◌else◌, length,
}

abbrev pub Text : Type 0
Text = List ℕ

-- A quoted text as its codes.
abbrev pub codes : String → Text
codes String.[] = []
codes (String.◌∷◌ c s) = code c ∷ codes s

-- c.isspace(), for ASCII
unfoldable pub is_space : ℕ → Bool
is_space c = leb 9 c && leb c 13 || leb 28 c && leb c 32

unfoldable pub is_digit : ℕ → Bool
is_digit c = leb b'0' c && leb c b'9'

unfoldable pub text_eq : Text → Text → Bool
text_eq [] [] = true
text_eq (a ∷ s) (b ∷ t) = a == b && text_eq s t
text_eq _ _ = false

pub text_eq_refl : (s : Text) → text_eq s s ≡ true
unfolding text_eq
text_eq_refl [] = refl
text_eq_refl (c ∷ s) = ground (arith, text_eq_refl s)

unfoldable pub all_digits : Text → Bool
unfolding is_digit
all_digits [] = true
all_digits (c ∷ s) = is_digit c && all_digits s

-- s.isdigit(): at least one character, and digits only
unfoldable pub isdigit : Text → Bool
unfolding all_digits
isdigit [] = false
isdigit (c ∷ s) = all_digits (c ∷ s)

decimal : ℕ → Text → ℕ
decimal n [] = n
decimal n (c ∷ s) = decimal (n * 10 + (c - b'0')) s

-- int(s) on a text of digits; `none` is the ValueError.
unfoldable pub parse_int : Text → Option ℕ
unfolding isdigit decimal
parse_int s = if isdigit s then some (decimal 0 s) else none

-- str(n), by as many divisions as the number itself could need
digits_of : ℕ → ℕ → Text → Text
digits_of zero n acc = acc
digits_of (suc fuel) n acc =
    let acc' = (b'0' + n % 10) ∷ acc in
    let rest = digits_of fuel (n / 10) acc' in if ltb n 10 then acc' else rest

unfoldable pub str : ℕ → Text
unfolding digits_of
str n = digits_of (suc n) n []

unfoldable pub cons_word : Text → List Text → List Text
cons_word [] ws = ws
cons_word (c ∷ w) ws = (c ∷ w) ∷ ws

-- The words of `acc` followed by the text.
unfoldable pub words_from : Text → Text → List Text
unfolding is_space cons_word
words_from acc [] = cons_word acc []
words_from acc (c ∷ s) =
    if is_space c then cons_word acc (words_from [] s) else words_from (acc ++ c ∷ []) s

-- s.split()
unfoldable pub split : Text → List Text
unfolding words_from
split s = words_from [] s

-- s.startswith(p), with what follows
unfoldable pub strip_prefix : Text → Text → Option Text
strip_prefix [] s = some s
strip_prefix (a ∷ p) [] = none
strip_prefix (a ∷ p) (c ∷ s) = if a == c then strip_prefix p s else none

-- sep in s
unfoldable pub contains : Text → Text → Bool
unfolding strip_prefix
contains sep [] = elim (strip_prefix sep []) [ none ↦ false | some _ ↦ true ]
contains sep (c ∷ s) =
    let rest = contains sep s in elim (strip_prefix sep (c ∷ s)) [ none ↦ rest | some _ ↦ true ]

-- s.split(sep): the pieces between the occurrences of a non-empty separator, from the left.
-- One round of fuel is spent for each character or separator.
pub pieces : ℕ → Text → Text → Text → List Text
unfolding strip_prefix
pieces zero sep acc s = (acc ++ s) ∷ []
pieces (suc fuel) sep acc [] = acc ∷ []
pieces (suc fuel) sep acc (c ∷ s) = elim (strip_prefix sep (c ∷ s)) [
  | none ↦ pieces fuel sep (acc ++ c ∷ []) s
  | some rest ↦ acc ∷ pieces fuel sep [] rest
]

unfoldable pub split_on : Text → Text → List Text
unfolding pieces
split_on sep s = pieces (suc (length s)) sep [] s

join_with : Text → List Text → Text
join_with sep [] = []
join_with sep (p ∷ []) = p
join_with sep (p ∷ q ∷ ps) = p ++ (sep ++ join_with sep (q ∷ ps))

-- s.replace(old, new)
unfoldable pub replace : Text → Text → Text → Text
unfolding split_on join_with
replace old new s = join_with new (split_on old s)

-- s.rstrip()
unfoldable pub rstrip : Text → Text
unfolding is_space
rstrip [] = []
rstrip (c ∷ s) = elim (rstrip s) [ [] ↦ if is_space c then [] else c ∷ [] | d ∷ t ↦ c ∷ d ∷ t ]
