-- ===== src/TestExecutor/Line.antt =====
-- Parser of test_executor.py, one line at a time: the patterns, get_times and get_params.
mod Tests
use krafters.Prelude.{
  ℕ, Bool, true, false, not, ◌&&◌, ◌||◌, List, [], ◌∷◌, Option, none, some, leb, ◌==◌,
  if◌then◌else◌,
}
use krafters.Text.{Text, codes, is_digit, split, contains, split_on, replace, parse_int, rstrip}
use krafters.Regex.{Regex, class, seq, alt, star, empty, char, word, plus, optional, matches}

spaces : Regex
spaces = star (char b' ')

gap : Regex
gap = plus (char b' ')

number : Regex
unfolding is_digit
number = plus (class is_digit)

unfoldable pub lower : ℕ → Bool
lower c = leb b'a' c && leb c b'z'

label_char : ℕ → Bool
label_char c = leb b'A' c && leb c b'Z' || leb b'a' c && leb c b'z' || c == b'_'

-- (all +|(([0-9]+|rand) +)+)
unfoldable pub ids : Regex
unfolding gap number
ids = alt (seq (word (codes "all")) gap) (plus (seq (alt number (word (codes "rand"))) gap))

-- (bidirectional +)?set +[a-z]+.*
unfoldable pub rule : Regex
unfolding gap lower
rule = seq (optional (seq (word (codes "bidirectional")) gap)) (
    seq (word (codes "set"))
      (seq gap (seq (plus (class lower)) (star (class (λ c. not (c == 10)))))))

unfoldable pub modify_link_pattern : Regex
unfolding spaces gap ids rule
modify_link_pattern = seq spaces (
    seq (word (codes "from"))
      (seq gap (seq ids (seq (word (codes "to")) (seq gap (seq ids rule))))))

unfoldable pub modify_random_link_pattern : Regex
unfolding spaces gap number rule
modify_random_link_pattern = seq spaces (
    seq (word (codes "on")) (
      seq gap (
        seq number
          (seq gap (seq (word (codes "connection")) (seq (optional (char b's')) (seq gap rule)))))))

unfoldable pub reset_pattern : Regex
unfolding spaces
reset_pattern = seq spaces (seq (word (codes "reset")) spaces)

unfoldable pub run_pattern : Regex
unfolding spaces gap number label_char
run_pattern = seq spaces (
    seq (word (codes "run"))
      (seq gap (seq number (seq (optional (seq gap (plus (class label_char)))) spaces))))

unfoldable pub do_pattern : Regex
unfolding spaces
do_pattern = seq spaces (seq (word (codes "do")) spaces)

unfoldable pub times_pattern : Regex
unfolding spaces gap number
times_pattern =
    seq spaces
      (seq number (seq gap (seq (word (codes "time")) (seq (optional (char b's')) spaces))))

-- What a line asks for, with the arguments that `parse` passes to the CommandUnwrapper's method.
pub data Command : Type 0 where
  modify_link_from_to : List Text → List Text → Text → Bool → Command
  modify_random_link : ℕ → Text → Bool → Command
  reset : Command
  run_command : ℕ → Text → Command

-- The branch of `parse` that a line takes; `fails` is an exception inside that branch.
pub data Line : Type 0 where
  blank : Line
  command : Command → Line
  open_do : Line
  times : ℕ → Line
  unknown : Line
  fails : Line

unfoldable pub get_times : Text → Option ℕ
unfolding split parse_int
get_times test_line = elim (split test_line) [ [] ↦ none | t ∷ _ ↦ parse_int t ]

abbrev or_fails {ℓ} : {A : Type ℓ} → Option A → (A → Line) → Line
or_fails none f = fails
or_fails (some a) f = f a

-- xs[0] and xs[1]; `none` is the IndexError.
abbrev first {ℓ} : {A : Type ℓ} → List A → Option A
first [] = none
first (x ∷ xs) = some x

abbrev second {ℓ} : {A : Type ℓ} → List A → Option A
second (x ∷ y ∷ xs) = some y
second _ = none

-- get_params(test_line, "run") and int(params["nop"])
unfoldable pub run_params : Text → Line
unfolding split parse_int
run_params test_line = elim (split test_line) [
  | _ ∷ nop ∷ label ∷ _ ↦ or_fails (parse_int nop) λ n. command (run_command n label)
  | _ ∷ nop ∷ [] ↦ or_fails (parse_int nop) λ n. command (run_command n (codes "no_name"))
  | _ ↦ fails
]

-- The part before "set" without its " bidirectional", and whether it had one.
unfoldable pub strip_bidirectional : Text → Text
unfolding contains replace
strip_bidirectional s =
    if contains (codes " bidirectional ") s then replace (codes " bidirectional") [] s else s

-- get_params(test_line, "link")
unfoldable pub link_params : Text → Line
unfolding split_on strip_bidirectional contains replace split
link_params test_line =
    let parts = split_on (codes "set") test_line in
    or_fails (second parts) λ netem_command. or_fails (first parts) λ before.
      let ends = split_on (codes "to") (strip_bidirectional before) in
      or_fails (first ends) λ source. or_fails (second ends) λ destination. command (
        modify_link_from_to (split (replace (codes "from") [] source)) (split destination)
          netem_command (contains (codes " bidirectional ") before))

-- get_params(test_line, "rlink")
rlink_params : Text → Line
unfolding split_on strip_bidirectional contains replace split parse_int
rlink_params test_line =
    let parts = split_on (codes "set") test_line in
    or_fails (second parts) λ netem_command. or_fails (first parts) λ before.
      or_fails (first (split (replace (codes "on") [] (strip_bidirectional before)))) λ token.
        or_fails (parse_int token) λ connection_number. command (
          modify_random_link connection_number netem_command
            (contains (codes " bidirectional ") before))

-- The chain of tests in `parse`, on a line that `rstrip` has trimmed and that is not empty.
unfoldable pub classify : Text → Line
unfolding modify_link_pattern modify_random_link_pattern reset_pattern run_pattern do_pattern
    times_pattern matches link_params rlink_params run_params get_times
classify t =
    if matches modify_link_pattern t
    then link_params t
    else if matches modify_random_link_pattern t
    then rlink_params t
    else if matches reset_pattern t
    then command reset
    else if matches run_pattern t
    then run_params t
    else if matches do_pattern t
    then open_do
    else if matches times_pattern t
    then or_fails (get_times t) times
    else unknown

unfoldable pub read_line : Text → Line
unfolding rstrip classify
read_line raw = elim (rstrip raw) [ [] ↦ blank | c ∷ t ↦ classify (c ∷ t) ]
