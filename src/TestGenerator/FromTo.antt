-- ===== src/TestGenerator/FromTo.antt =====
-- The `from ... to ... set ...` lines of test_generator.py, as test_executor.py takes them apart.
use krafters.Prelude.{ℕ, ◌≡◌, refl, sym, ap, ◌∙◌, Bool, true, false, List, [], ◌∷◌, ◌++◌, arith}
use mathlib.Core.List.{append-nil, append_assoc}
use krafters.Text.{
  Text, codes, split_on, replace, contains, split, strip_prefix, words_from, cons_word, is_space,
}
use krafters.Text.Pieces.{
  lacks, lacks-append, lacks-Skips, second-Skips, contains-Skips, Cuts-split_on, Cuts-nil, Cuts-sep,
  Cuts-Skips, Cuts-one, replace-two,
}
use krafters.TestExecutor.Line.{link_params, strip_bidirectional, command, modify_link_from_to}
use krafters.TestGenerator.{from_to_command}
use krafters.TestGenerator.Groups.{Reads}

-- Split at "set", of which there is one.
split_on-set :
    (before rule : Text)
    → lacks b's' before ≡ true
    → contains (codes "set") rule ≡ false
    → split_on (codes "set") (before ++ (codes "set " ++ rule)) ≡ before ∷ (b' ' ∷ rule) ∷ []
unfolding strip_prefix contains
split_on-set before rule no_s no_set =
    Cuts-split_on (codes "set") (before ++ (codes "set " ++ rule)) (before ∷ (b' ' ∷ rule) ∷ []) (
      Cuts-Skips (codes "set") [] before (codes "set " ++ rule) (before ∷ (b' ' ∷ rule) ∷ [])
        (lacks-Skips b's' (codes "et") before (codes "set " ++ rule) no_s)
        (Cuts-sep (codes "set") before b's' (codes "et " ++ rule) (b' ' ∷ rule) ((b' ' ∷ rule) ∷ [])
          refl (omega arith) (Cuts-one b's' (codes "et") [] (b' ' ∷ rule) no_set)))

-- Split at "to", of which there is one.
split_on-to :
    (source destination : Text)
    → lacks b't' source ≡ true
    → lacks b't' destination ≡ true
    → split_on (codes "to") (source ++ (codes "to" ++ destination)) ≡ source ∷ destination ∷ []
unfolding strip_prefix
split_on-to source destination no_t none_t =
    let last =
      Cuts-Skips (codes "to") [] destination [] (destination ∷ [])
        (lacks-Skips b't' (codes "o") destination [] none_t) (Cuts-nil (codes "to") destination) in
    Cuts-split_on (codes "to") (source ++ (codes "to" ++ destination)) (source ∷ destination ∷ []) (
      Cuts-Skips (codes "to") [] source (codes "to" ++ destination) (source ∷ destination ∷ [])
        (lacks-Skips b't' (codes "o") source (codes "to" ++ destination) no_t)
        (Cuts-sep (codes "to") source b't' (codes "o" ++ destination) destination (destination ∷ [])
          refl (omega arith) (rw (append-nil destination) at last)))

replace-from :
    (rest : Text) → lacks b'f' rest ≡ true → replace (codes "from") [] (codes "from" ++ rest) ≡ rest
unfolding strip_prefix
replace-from rest no_f =
    let last =
      Cuts-Skips (codes "from") [] rest [] (rest ∷ []) (lacks-Skips b'f' (codes "rom") rest [] no_f)
        (Cuts-nil (codes "from") rest) in
    let cut : split_on (codes "from") (codes "from" ++ rest) ≡ [] ∷ rest ∷ [] =
      Cuts-split_on (codes "from") (codes "from" ++ rest) ([] ∷ rest ∷ []) (
        Cuts-sep (codes "from") [] b'f' (codes "rom" ++ rest) rest (rest ∷ []) refl (omega arith)
          (rw (append-nil rest) at last)) in
    replace-two (codes "from") [] (codes "from" ++ rest) [] rest cut

contains-one_way :
    (before : Text) → lacks b'b' before ≡ true → contains (codes " bidirectional ") before ≡ false
unfolding contains lacks strip_prefix
contains-one_way before no_b =
    ap (contains (codes " bidirectional ")) (sym (append-nil before))
    ∙ contains-Skips (codes " bidirectional ") before []
        (second-Skips b' ' b'b' (codes "idirectional ") before [] no_b refl)

contains-both_ways :
    (before : Text)
    → lacks b'b' before ≡ true
    → contains (codes " bidirectional ") (before ++ codes " bidirectional ") ≡ true
unfolding contains lacks strip_prefix
contains-both_ways before no_b =
    contains-Skips (codes " bidirectional ") before (codes " bidirectional ")
      (second-Skips b' ' b'b' (codes "idirectional ") before (codes " bidirectional ") no_b refl)

strip-both_ways :
    (before : Text)
    → lacks b'b' before ≡ true
    → strip_bidirectional (before ++ codes " bidirectional ") ≡ before ++ b' ' ∷ []
unfolding strip_bidirectional strip_prefix lacks
strip-both_ways before no_b =
    let line = before ++ codes " bidirectional " in
    let cut : split_on (codes " bidirectional") line ≡ before ∷ (b' ' ∷ []) ∷ [] =
      Cuts-split_on (codes " bidirectional") line (before ∷ (b' ' ∷ []) ∷ []) (
        Cuts-Skips (codes " bidirectional") [] before (codes " bidirectional ")
          (before ∷ (b' ' ∷ []) ∷ [])
          (second-Skips b' ' b'b' (codes "idirectional") before (codes " bidirectional ") no_b refl)
          (Cuts-sep (codes " bidirectional") before b' ' (codes "bidirectional ") (b' ' ∷ [])
            ((b' ' ∷ []) ∷ []) refl (omega arith)
            (Cuts-one b' ' (codes "bidirectional") [] (b' ' ∷ []) refl))) in
    rw (contains-both_ways before no_b, strip_bidirectional)
      (replace-two (codes " bidirectional") [] line before (b' ' ∷ []) cut)

strip-one_way : (before : Text) → lacks b'b' before ≡ true → strip_bidirectional before ≡ before
unfolding strip_bidirectional
strip-one_way before no_b = rw (contains-one_way before no_b, strip_bidirectional) refl

-- The words between blanks.
split-blanks : (t : Text) → split (b' ' ∷ (t ++ b' ' ∷ [])) ≡ words_from [] (t ++ b' ' ∷ [])
unfolding split words_from cons_word is_space
split-blanks t = refl

link_params_lem :
    (line before rule stripped source destination : Text)
    → split_on (codes "set") line ≡ before ∷ rule ∷ []
    → strip_bidirectional before ≡ stripped
    → split_on (codes "to") stripped ≡ source ∷ destination ∷ []
    → link_params line
      ≡ command (
          modify_link_from_to
            (split (replace (codes "from") [] source))
            (split destination)
            rule
            (contains (codes " bidirectional ") before))
unfolding link_params
link_params_lem line before rule stripped source destination e f g = rw (e, link_params, f, g) refl

-- The line up to the words behind the targets, and those words.
abbrev pub start_of : Text → Text → Text
start_of s t = codes "from " ++ (s ++ (codes " to " ++ t))

abbrev pub ways : Bool → Text
ways true = codes " bidirectional "
ways false = codes " "

pub from_to_command-ways :
    (s t : Text) (b : Bool) (rule : Text)
    → from_to_command s t b rule ≡ (start_of s t ++ ways b) ++ (codes "set " ++ rule)
unfolding from_to_command
from_to_command-ways s t true rule = simp append_assoc
from_to_command-ways s t false rule = simp append_assoc

start_of-lacks :
    (c : ℕ) (s t : Text)
    → lacks c (codes "from ") ≡ true
    → lacks c (codes " to ") ≡ true
    → lacks c s ≡ true
    → lacks c t ≡ true
    → lacks c (start_of s t) ≡ true
start_of-lacks c s t e f g h =
    lacks-append c (codes "from ") (s ++ (codes " to " ++ t)) e
      (lacks-append c s (codes " to " ++ t) g (lacks-append c (codes " to ") t f h))

module _ {s t : Text} {sources targets : List Text} (from : Reads s sources)
    (to : Reads t targets) where
  ways_lem :
      (b : Bool)
      → (lacks b's' (start_of s t ++ ways b) ≡ true)
        × (strip_bidirectional (start_of s t ++ ways b) ≡ start_of s t ++ b' ' ∷ [])
        × (contains (codes " bidirectional ") (start_of s t ++ ways b) ≡ b)
  unfolding lacks
  ways_lem b =
      let no_s = start_of-lacks b's' s t refl refl from.no_s to.no_s in
      let no_b = start_of-lacks b'b' s t refl refl from.no_b to.no_b in
      let no_b' = lacks-append b'b' (start_of s t) (b' ' ∷ []) no_b refl in
      elim b
        as (λ b.
          (lacks b's' (start_of s t ++ ways b) ≡ true)
          × (strip_bidirectional (start_of s t ++ ways b) ≡ start_of s t ++ b' ' ∷ [])
          × (contains (codes " bidirectional ") (start_of s t ++ ways b) ≡ b)) [
            | true ↦ (
              lacks-append b's' (start_of s t) (codes " bidirectional ") no_s refl,
              strip-both_ways (start_of s t) no_b,
              contains-both_ways (start_of s t) no_b,
            )
            | false ↦ (
              lacks-append b's' (start_of s t) (codes " ") no_s refl,
              strip-one_way (start_of s t ++ b' ' ∷ []) no_b',
              contains-one_way (start_of s t ++ b' ' ∷ []) no_b',
            )
          ]

  ends_of :
      split_on (codes "to") (start_of s t ++ b' ' ∷ [])
      ≡ (codes "from " ++ (s ++ b' ' ∷ [])) ∷ (b' ' ∷ (t ++ b' ' ∷ [])) ∷ []
  unfolding lacks
  ends_of =
      let source = codes "from " ++ (s ++ b' ' ∷ []) in
      let destination = b' ' ∷ (t ++ b' ' ∷ []) in
      let shape : start_of s t ++ b' ' ∷ [] ≡ source ++ (codes "to" ++ destination) =
        simp append_assoc in
      ap (split_on (codes "to")) shape
      ∙ split_on-to source destination
          (lacks-append b't' (codes "from ") (s ++ b' ' ∷ []) refl
            (lacks-append b't' s (b' ' ∷ []) from.no_t refl))
          (lacks-append b't' (b' ' ∷ t) (b' ' ∷ []) to.no_t refl)

  source_words : split (replace (codes "from") [] (codes "from " ++ (s ++ b' ' ∷ []))) ≡ sources
  unfolding lacks
  source_words =
      ap split (
        replace-from (b' ' ∷ (s ++ b' ' ∷ []))
          (lacks-append b'f' (b' ' ∷ s) (b' ' ∷ []) from.no_f refl))
      ∙ split-blanks s
      ∙ from.split

  pub from_to_command-link_params :
      (b : Bool) (rule : Text)
      → contains (codes "set") rule ≡ false
      → link_params (from_to_command s t b rule)
        ≡ command (modify_link_from_to sources targets (b' ' ∷ rule) b)
  from_to_command-link_params b rule no_set =
      let (no_s, stripped, both) = ways_lem b in
      let before = start_of s t ++ ways b in
      let cut =
        ap (split_on (codes "set")) (from_to_command-ways s t b rule)
        ∙ split_on-set before rule no_s no_set in
      link_params_lem (from_to_command s t b rule) before (b' ' ∷ rule) (start_of s t ++ b' ' ∷ [])
        (codes "from " ++ (s ++ b' ' ∷ [])) (b' ' ∷ (t ++ b' ' ∷ [])) cut stripped ends_of
      ∙ rw (source_words, split-blanks t, to.split, both) refl
