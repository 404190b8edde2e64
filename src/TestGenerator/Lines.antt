-- ===== src/TestGenerator/Lines.antt =====
-- The lines of test_generator.py, as test_executor.py reads them.
use krafters.Prelude.{
  ℕ, ◌≡◌, refl, sym, ap, ◌∙◌, true, false, ◌&&◌, [], ◌∷◌, ◌++◌, some, ◌==◌, arith, leb, inl, inr,
}
use mathlib.Core.List.{append-nil}
use krafters.Text.{
  Text, codes, split, words_from, cons_word, rstrip, is_digit, is_space, all_digits, parse_int,
}
use krafters.Text.Numbers.{Digits, words_from-digits, rstrip-append, rstrip-digits}
use krafters.Regex.{never, class, matches, deriv, nullable}
use krafters.Regex.Sound.{InLang, Pieces, matches_complete}
use krafters.Regex.{char, plus}
use krafters.TestExecutor.Line.{
  command, reset, run_command, open_do, times, unknown, read_line, classify, modify_link_pattern,
  modify_random_link_pattern, reset_pattern, run_pattern, do_pattern, times_pattern, get_times,
  run_params,
}

matches-never : (t : Text) → matches never t ≡ false
unfolding matches deriv nullable
matches-never [] = refl
matches-never (c ∷ t) = matches-never t

-- No pattern begins with a tab.
pub classify_tab : (t : Text) → classify (9 ∷ t) ≡ unknown
unfolding classify matches deriv nullable
classify_tab t = rw (matches-never t) refl

digit-Pieces : (s : Text) → all_digits s ≡ true → Pieces (InLang (class is_digit)) s
unfolding all_digits
digit-Pieces [] h = Pieces.none
digit-Pieces (c ∷ s) h = Pieces.more (c, refl, ground arith) (digit-Pieces s (ground arith)) refl

-- [0-9]+
pub number_lang : (s : Text) → Digits s → InLang (plus (class is_digit)) s
unfolding all_digits
number_lang s d =
    let all = rw d.shape at d.digits in
    rw d.shape
      (d.head ∷ [], d.tail, refl, (d.head, refl, ground arith), digit-Pieces d.tail (ground arith))

pub blank_lang : InLang (plus (char b' ')) (b' ' ∷ [])
blank_lang = (b' ' ∷ [], [], refl, (b' ', refl, refl), Pieces.none)

run_yes : (s : Text) → Digits s → matches run_pattern (codes "run " ++ s) ≡ true
unfolding run_pattern
run_yes s d =
    matches_complete run_pattern (codes "run " ++ (s ++ [])) [] (codes "run " ++ s)
      (
        [],
        codes "run " ++ (s ++ []),
        refl,
        Pieces.none,
        (
          codes "run",
          b' ' ∷ (s ++ []),
          refl,
          (
            codes "r",
            codes "un",
            refl,
            (b'r', refl, refl),
            (codes "u", codes "n", refl, (b'u', refl, refl), (b'n', refl, refl)),
          ),
          (
            b' ' ∷ [],
            s ++ [],
            refl,
            blank_lang,
            (s, [], refl, number_lang s d, ([], [], refl, inr refl, Pieces.none)),
          ),
        ),
      )
      (simp append-nil)

times_yes : (s : Text) → Digits s → matches times_pattern (s ++ codes " times") ≡ true
unfolding times_pattern
times_yes s d =
    matches_complete times_pattern (s ++ codes " times") [] (s ++ codes " times")
      (
        [],
        s ++ codes " times",
        refl,
        Pieces.none,
        (
          s,
          codes " times",
          refl,
          number_lang s d,
          (
            b' ' ∷ [],
            codes "times",
            refl,
            blank_lang,
            (
              codes "time",
              codes "s",
              refl,
              (
                codes "t",
                codes "ime",
                refl,
                (b't', refl, refl),
                (
                  codes "i",
                  codes "me",
                  refl,
                  (b'i', refl, refl),
                  (codes "m", codes "e", refl, (b'm', refl, refl), (b'e', refl, refl)),
                ),
              ),
              (codes "s", [], refl, inl (b's', refl, refl), Pieces.none),
            ),
          ),
        ),
      )
      (simp append-nil)

last_word : (s : Text) → Digits s → words_from [] s ≡ s ∷ []
unfolding words_from cons_word
last_word s d =
    ap (words_from []) (sym (append-nil s)) ∙ words_from-digits [] s [] d.digits ∙ rw d.shape refl

run_params-run :
    (s : Text) (n : ℕ)
    → Digits s
    → parse_int s ≡ some n
    → run_params (codes "run " ++ s) ≡ command (run_command n (codes "no_name"))
unfolding run_params split words_from cons_word is_space
run_params-run s n d e = rw (last_word s d, run_params, e) refl

classify-run :
    (s : Text) (n : ℕ)
    → Digits s
    → parse_int s ≡ some n
    → classify (codes "run " ++ s) ≡ command (run_command n (codes "no_name"))
unfolding classify matches deriv nullable
classify-run s n d e = rw (matches-never s, run_yes s d, run_params-run s n d e) refl

-- A digit begins no pattern but the last.
other_start : (c k : ℕ) → is_digit c ≡ true → leb b'0' k && leb k b'9' ≡ false → (c == k) ≡ false
unfolding is_digit
other_start c k h g = ground arith

no_link : (c : ℕ) (t : Text) → is_digit c ≡ true → matches modify_link_pattern (c ∷ t) ≡ false
unfolding modify_link_pattern matches deriv nullable
no_link c t h = rw (other_start c b' ' h refl, other_start c b'f' h refl) (matches-never t)

no_random_link :
    (c : ℕ) (t : Text) → is_digit c ≡ true → matches modify_random_link_pattern (c ∷ t) ≡ false
unfolding modify_random_link_pattern matches deriv nullable
no_random_link c t h = rw (other_start c b' ' h refl, other_start c b'o' h refl) (matches-never t)

no_reset : (c : ℕ) (t : Text) → is_digit c ≡ true → matches reset_pattern (c ∷ t) ≡ false
unfolding reset_pattern matches deriv nullable
no_reset c t h = rw (other_start c b' ' h refl, other_start c b'r' h refl) (matches-never t)

no_run : (c : ℕ) (t : Text) → is_digit c ≡ true → matches run_pattern (c ∷ t) ≡ false
unfolding run_pattern matches deriv nullable
no_run c t h = rw (other_start c b' ' h refl, other_start c b'r' h refl) (matches-never t)

no_do : (c : ℕ) (t : Text) → is_digit c ≡ true → matches do_pattern (c ∷ t) ≡ false
unfolding do_pattern matches deriv nullable
no_do c t h = rw (other_start c b' ' h refl, other_start c b'd' h refl) (matches-never t)

get_times-times :
    (s : Text) (n : ℕ) → Digits s → parse_int s ≡ some n → get_times (s ++ codes " times") ≡ some n
unfolding get_times split words_from cons_word is_space
get_times-times s n d e =
    rw (words_from-digits [] s (codes " times") d.digits, get_times, d.shape) (rw d.shape at e)

first_digit : (s : Text) (d : Digits s) → is_digit d.head ≡ true
unfolding all_digits
first_digit s d = let all = rw d.shape at d.digits in ground arith

classify_digit :
    (c : ℕ) (t : Text) (n : ℕ)
    → is_digit c ≡ true
    → matches times_pattern (c ∷ t) ≡ true
    → get_times (c ∷ t) ≡ some n
    → classify (c ∷ t) ≡ times n
unfolding classify
classify_digit c t n h timed e =
    rw (no_link c t h, no_random_link c t h, no_reset c t h, no_run c t h, no_do c t h, timed, e)
      refl

classify-times :
    (s : Text) (n : ℕ) → Digits s → parse_int s ≡ some n → classify (s ++ codes " times") ≡ times n
classify-times s n d e =
    let timed = times_yes s d in
    let got = get_times-times s n d e in
    let first = first_digit s d in
    rw d.shape (
      classify_digit d.head (d.tail ++ codes " times") n first (rw d.shape at timed)
        (rw d.shape at got))

pub read_line-rstrip :
    (s : Text) (c : ℕ) (t : Text) → s ≡ c ∷ t → rstrip s ≡ s → read_line s ≡ classify s
unfolding read_line
read_line-rstrip s c t shape e = rw (e, read_line, shape) refl

pub read_line-run :
    (s : Text) (n : ℕ)
    → Digits s
    → parse_int s ≡ some n
    → read_line (codes "run " ++ s) ≡ command (run_command n (codes "no_name"))
read_line-run s n d e =
    let ends = rw d.shape at (rstrip-digits s d.digits) in
    let kept : rstrip (codes "run " ++ s) ≡ codes "run " ++ s =
      rw d.shape (rstrip-append (codes "run ") d.head d.tail ends) in
    read_line-rstrip (codes "run " ++ s) b'r' (codes "un " ++ s) refl kept ∙ classify-run s n d e

times_end : rstrip (codes " times") ≡ codes " times"
unfolding rstrip is_space
times_end = refl

pub read_line-times :
    (s : Text) (n : ℕ) → Digits s → parse_int s ≡ some n → read_line (s ++ codes " times") ≡ times n
read_line-times s n d e =
    read_line-rstrip (s ++ codes " times") d.head (d.tail ++ codes " times")
      (ap (λ s. s ++ codes " times") d.shape) (rstrip-append s b' ' (codes "times") times_end)
    ∙ classify-times s n d e

pub read_line-do : read_line (codes "do") ≡ open_do
unfolding read_line rstrip is_space classify matches deriv nullable
read_line-do = refl

pub read_line-reset : read_line (codes "reset") ≡ command reset
unfolding read_line rstrip is_space classify matches deriv nullable
read_line-reset = refl

-- An indented line that is not blank is unknown.
pub read_line-tab : (l : Text) (c : ℕ) (t : Text) → rstrip l ≡ c ∷ t → read_line (9 ∷ l) ≡ unknown
unfolding read_line rstrip
read_line-tab l c t e = rw (e, rstrip, read_line) (classify_tab (c ∷ t))
