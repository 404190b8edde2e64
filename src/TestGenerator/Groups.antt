-- ===== src/TestGenerator/Groups.antt =====
-- The sources and targets of a command of test_generator.py, as test_executor.py takes them apart.
use krafters.Prelude.{
  ℕ, ◌≡◌, refl, sym, ap, ◌∙◌, true, false, ◌==◌, List, [], ◌∷◌, ◌++◌, map, Option, none, some, inl,
  inr, arith,
}
use mathlib.Core.List.{append-nil, append_assoc}
use krafters.Text.{Text, codes, str, is_digit, is_space, all_digits, words_from, cons_word}
use krafters.Text.Numbers.{str-Digits, words_from-digits}
use krafters.Text.Pieces.{lacks, lacks-append}
use krafters.Regex.{Regex, class, seq, alt, word, plus, char}
use krafters.Regex.Sound.{InLang, Pieces}
use krafters.TestExecutor.Line.{ids}
use krafters.TestGenerator.{joined, node_str, new_group, nodes_of, group_str}
use krafters.TestGenerator.Lines.{number_lang, blank_lang}

-- What a command names: all nodes, or a group of nodes, where none is a random one.
pub data Ends : Type 0 where
  every : Ends
  group : Option ℕ → List (Option ℕ) → Ends

abbrev pub node_name : Option ℕ → Text
node_name none = codes "rand"
node_name (some i) = node_str i

abbrev pub names : Ends → List Text
names every = codes "all" ∷ []
names (group node nodes) = node_name node ∷ map node_name nodes

-- str(...) of the argument
abbrev pub ends_str : Ends → Text
ends_str every = codes "all"
ends_str (group node nodes) = group_str [] (new_group (node_name node ∷ map node_name nodes))

-- A text that names nodes, as the parser reads it.
pub record Reads (t : Text) (words : List Text) : Type 0 where
  pub no_s : lacks b's' t ≡ true
  pub no_t : lacks b't' t ≡ true
  pub no_f : lacks b'f' t ≡ true
  pub no_b : lacks b'b' t ≡ true
  pub split : words_from [] (t ++ b' ' ∷ []) ≡ words
  pub lang : InLang ids (t ++ b' ' ∷ [])

pub lacks-digits : (h : ℕ) (s : Text) → is_digit h ≡ false → all_digits s ≡ true → lacks h s ≡ true
unfolding lacks all_digits
lacks-digits h [] other d = refl
lacks-digits h (c ∷ s) other d =
    let apart : (h == c) ≡ false = ground (arith, ap is_digit) in
    rw (apart, lacks) (lacks-digits h s other (ground arith))

module _ (h : ℕ) (no_digit : is_digit h ≡ false) (not_rand : lacks h (codes "rand") ≡ true)
    (not_blank : (h == b' ') ≡ false) where
  lacks-node : (node : Option ℕ) → lacks h (node_name node) ≡ true
  unfolding node_str
  lacks-node none = not_rand
  lacks-node (some i) = lacks-digits h (str i) no_digit (str-Digits i).digits

  lacks-cons : (c : ℕ) (s : Text) → (h == c) ≡ false → lacks h s ≡ true → lacks h (c ∷ s) ≡ true
  unfolding lacks
  lacks-cons c s apart e = rw apart e

  lacks-joined :
      (node : Option ℕ) (nodes : List (Option ℕ))
      → lacks h (joined (node_name node ∷ map node_name nodes)) ≡ true
  unfolding joined
  lacks-joined node [] = lacks-node node
  lacks-joined node (next ∷ nodes) =
      let rest = lacks-joined next nodes in
      let blank : lacks h (b' ' ∷ joined (node_name next ∷ map node_name nodes)) ≡ true =
        lacks-cons b' ' (joined (node_name next ∷ map node_name nodes)) not_blank rest in
      lacks-append h (node_name node) (b' ' ∷ joined (node_name next ∷ map node_name nodes))
        (lacks-node node) blank

node-words :
    (node : Option ℕ) (rest : Text)
    → words_from [] (node_name node ++ b' ' ∷ rest) ≡ node_name node ∷ words_from [] rest
unfolding words_from cons_word is_space node_str
node-words none rest = refl
node-words (some i) rest =
    let d = str-Digits i in words_from-digits [] (str i) (b' ' ∷ rest) d.digits ∙ rw d.shape refl

joined-words :
    (node : Option ℕ) (nodes : List (Option ℕ))
    → words_from [] (joined (node_name node ∷ map node_name nodes) ++ b' ' ∷ [])
      ≡ node_name node ∷ map node_name nodes
unfolding joined
joined-words node [] = node-words node [] ∙ (unfold words_from cons_word in refl)
joined-words node (next ∷ nodes) =
    let rest = joined (node_name next ∷ map node_name nodes) in
    ap (words_from []) (append_assoc (node_name node) (b' ' ∷ rest) (b' ' ∷ []))
    ∙ node-words node (rest ++ b' ' ∷ [])
    ∙ ap (λ ws. node_name node ∷ ws) (joined-words next nodes)

pub word-InLang : (w : Text) → InLang (word w) w
word-InLang [] = refl
word-InLang (c ∷ []) = (c, refl, ground arith)
word-InLang (c ∷ d ∷ w) = (c ∷ [], d ∷ w, refl, (c, refl, ground arith), word-InLang (d ∷ w))

-- A node and a blank.
abbrev node_pattern : Regex
node_pattern = seq (alt (plus (class is_digit)) (word (codes "rand"))) (plus (char b' '))

node-InLang : (node : Option ℕ) → InLang node_pattern (node_name node ++ b' ' ∷ [])
unfolding node_str
node-InLang none = (codes "rand", b' ' ∷ [], refl, inr (word-InLang (codes "rand")), blank_lang)
node-InLang (some i) =
    (str i, b' ' ∷ [], refl, inl (number_lang (str i) (str-Digits i)), blank_lang)

joined-Pieces :
    (node : Option ℕ) (nodes : List (Option ℕ))
    → Pieces (InLang node_pattern) (joined (node_name node ∷ map node_name nodes) ++ b' ' ∷ [])
unfolding joined
joined-Pieces node [] =
    Pieces.more (node-InLang node) Pieces.none (sym (append-nil (node_name node ++ b' ' ∷ [])))
joined-Pieces node (next ∷ nodes) =
    let rest = joined (node_name next ∷ map node_name nodes) in
    Pieces.more (node-InLang node) (joined-Pieces next nodes) (simp append_assoc)

joined-InLang :
    (node : Option ℕ) (nodes : List (Option ℕ))
    → InLang (plus node_pattern) (joined (node_name node ∷ map node_name nodes) ++ b' ' ∷ [])
unfolding joined
joined-InLang node [] = (
  node_name node ++ b' ' ∷ [],
  [],
  sym (append-nil (node_name node ++ b' ' ∷ [])),
  node-InLang node,
  Pieces.none,
)
joined-InLang node (next ∷ nodes) =
    let rest = joined (node_name next ∷ map node_name nodes) in
    (
      node_name node ++ b' ' ∷ [],
      rest ++ b' ' ∷ [],
      simp append_assoc,
      node-InLang node,
      joined-Pieces next nodes,
    )

group_str-joined :
    (first : Option ℕ) (others : List (Option ℕ))
    → group_str [] (new_group (node_name first ∷ map node_name others))
      ≡ joined (node_name first ∷ map node_name others)
unfolding group_str new_group nodes_of
group_str-joined first others = refl

-- What names nodes is read as their names.
pub ends-Reads : (ends : Ends) → Reads (ends_str ends) (names ends)
unfolding lacks words_from cons_word is_space is_digit ids
ends-Reads every = record {
  no_s = refl;
  no_t = refl;
  no_f = refl;
  no_b = refl;
  split = refl;
  lang = inl (codes "all", b' ' ∷ [], refl, word-InLang (codes "all"), blank_lang);
}
ends-Reads (group first others) =
    let shape = group_str-joined first others in
    record {
      no_s = ap (lacks b's') shape ∙ lacks-joined b's' refl refl refl first others;
      no_t = ap (lacks b't') shape ∙ lacks-joined b't' refl refl refl first others;
      no_f = ap (lacks b'f') shape ∙ lacks-joined b'f' refl refl refl first others;
      no_b = ap (lacks b'b') shape ∙ lacks-joined b'b' refl refl refl first others;
      split = ap (λ t. words_from [] (t ++ b' ' ∷ [])) shape ∙ joined-words first others;
      lang = rw shape (inr (joined-InLang first others));
    }
