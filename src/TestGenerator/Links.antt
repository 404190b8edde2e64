-- ===== src/TestGenerator/Links.antt =====
-- Whole tests of test_generator.py, line by line as test_executor.py reads them.
use krafters.Prelude.{
  ℕ, ◌≡◌, refl, sym, ap, ◌∙◌, Bool, true, false, not, ◌==◌, List, [], ◌∷◌, ◌++◌, map, inl, inr,
}
use mathlib.Core.List.{append_assoc}
use krafters.Text.{Text, codes, contains, strip_prefix, rstrip, str, is_space, is_digit}
use krafters.Text.Numbers.{str-Digits, parse_int-str, rstrip-append}
use krafters.Text.Pieces.{lacks-Skips, contains-Skips}
use krafters.Regex.{class, seq, star, char, word, plus, matches}
use krafters.Regex.Sound.{InLang, Pieces, matches_complete}
use krafters.TestExecutor.Line.{
  lower, rule, modify_link_pattern, command, modify_link_from_to, read_line, classify, run_command,
  times, open_do,
}
use krafters.TestExecutor.Line
use krafters.TestGenerator.{
  from_to_command, times_line, run, reset, set_rule, set_delay, set_loss, partition,
}
use krafters.TestGenerator.Groups.{
  Ends, ends_str, names, ends-Reads, Reads, word-InLang, lacks-digits,
}
use krafters.TestGenerator.Lines.{
  blank_lang, read_line-rstrip, read_line-run, read_line-times, read_line-do, read_line-reset,
}
use krafters.TestGenerator.FromTo.{
  start_of, ways, from_to_command-ways, from_to_command-link_params,
}

-- What follows the blank behind the targets, up to the first letter of the rule.
abbrev setting : Bool → ℕ → Text
setting true c = codes "bidirectional " ++ (codes "set " ++ c ∷ [])
setting false c = codes "set " ++ c ∷ []

module _ (c : ℕ) (low : lower c ≡ true) where
  set-InLang :
      InLang
        (seq
          (word (codes "set"))
          (seq (plus (char b' ')) (seq (plus (class lower)) (star (class (λ c. not (c == 10)))))))
        (codes "set " ++ c ∷ [])
  set-InLang = (
    codes "set",
    b' ' ∷ c ∷ [],
    refl,
    word-InLang (codes "set"),
    (
      b' ' ∷ [],
      c ∷ [],
      refl,
      blank_lang,
      (c ∷ [], [], refl, (c ∷ [], [], refl, (c, refl, low), Pieces.none), Pieces.none),
    ),
  )

  setting-InLang : (b : Bool) → InLang rule (setting b c)
  unfolding rule
  setting-InLang true = (
    codes "bidirectional ",
    codes "set " ++ c ∷ [],
    refl,
    inl (codes "bidirectional", b' ' ∷ [], refl, word-InLang (codes "bidirectional"), blank_lang),
    set-InLang,
  )
  setting-InLang false = ([], codes "set " ++ c ∷ [], refl, inr refl, set-InLang)

  module _ {s t : Text} {sources targets : List Text} (from : Reads s sources)
      (to : Reads t targets) where
    link_yes :
        (b : Bool) (rest : Text)
        → matches modify_link_pattern (from_to_command s t b (c ∷ rest)) ≡ true
    unfolding modify_link_pattern from_to_command
    link_yes b rest =
        let destination = (t ++ b' ' ∷ []) ++ setting b c in
        let source = (s ++ b' ' ∷ []) ++ (codes "to " ++ destination) in
        matches_complete modify_link_pattern (codes "from " ++ source) rest
          (from_to_command s t b (c ∷ rest))
          (
            [],
            codes "from " ++ source,
            refl,
            Pieces.none,
            (
              codes "from",
              b' ' ∷ source,
              refl,
              word-InLang (codes "from"),
              (
                b' ' ∷ [],
                source,
                refl,
                blank_lang,
                (
                  s ++ b' ' ∷ [],
                  codes "to " ++ destination,
                  refl,
                  from.lang,
                  (
                    codes "to",
                    b' ' ∷ destination,
                    refl,
                    word-InLang (codes "to"),
                    (
                      b' ' ∷ [],
                      destination,
                      refl,
                      blank_lang,
                      (t ++ b' ' ∷ [], setting b c, refl, to.lang, setting-InLang b),
                    ),
                  ),
                ),
              ),
            ),
          )
          (elim b
            as (λ b.
              from_to_command s t b (c ∷ rest)
              ≡ (codes "from "
                  ++ ((s ++ b' ' ∷ []) ++ (codes "to " ++ ((t ++ b' ' ∷ []) ++ setting b c))))
                ++ rest) [ true ↦ simp append_assoc | false ↦ simp append_assoc ])

    -- The line, which ends in the rule.
    pub read_line-from_to :
        (b : Bool) (rest : Text)
        → contains (codes "set") (c ∷ rest) ≡ false
        → rstrip (c ∷ rest) ≡ c ∷ rest
        → read_line (from_to_command s t b (c ∷ rest))
          ≡ command (modify_link_from_to sources targets (b' ' ∷ c ∷ rest) b)
    unfolding classify
    read_line-from_to b rest no_set trimmed =
        let line = from_to_command s t b (c ∷ rest) in
        let start = (start_of s t ++ ways b) ++ codes "set " in
        let shape : line ≡ start ++ c ∷ rest =
          from_to_command-ways s t b (c ∷ rest)
          ∙ sym (append_assoc (start_of s t ++ ways b) (codes "set ") (c ∷ rest)) in
        let kept : rstrip line ≡ line =
          ap rstrip shape ∙ rstrip-append start c rest trimmed ∙ sym shape in
        read_line-rstrip line b'f'
          ((((codes "rom " ++ (s ++ (codes " to " ++ t))) ++ ways b) ++ codes "set ") ++ c ∷ rest)
          shape kept
        ∙ rw (link_yes b rest, classify) (from_to_command-link_params from to b (c ∷ rest) no_set)

-- A rule with a number in it.
number-no_set :
    (n : ℕ) (end : Text)
    → contains (codes "set") end ≡ false
    → contains (codes "set") (str n ++ end) ≡ false
unfolding is_digit
number-no_set n end e =
    contains-Skips (codes "set") (str n) end (
      lacks-Skips b's' (codes "et") (str n) end
        (lacks-digits b's' (str n) refl (str-Digits n).digits))
    ∙ e

module _ (sources targets : Ends) where
  -- The executor's command.
  abbrev pub link : Text → Bool → Line.Line
  link rule b = command (modify_link_from_to (names sources) (names targets) (b' ' ∷ rule) b)

  read_line-rule :
      (b : Bool) (c : ℕ) (rest : Text)
      → lower c ≡ true
      → contains (codes "set") (c ∷ rest) ≡ false
      → rstrip (c ∷ rest) ≡ c ∷ rest
      → read_line (from_to_command (ends_str sources) (ends_str targets) b (c ∷ rest))
        ≡ link (c ∷ rest) b
  read_line-rule b c rest low no_set trimmed =
      read_line-from_to c low (ends-Reads sources) (ends-Reads targets) b rest no_set trimmed

  read_line-delay :
      (b : Bool) (n : ℕ)
      → let rule = codes "delay " ++ (str n ++ codes "ms") in
        read_line (from_to_command (ends_str sources) (ends_str targets) b rule) ≡ link rule b
  unfolding lower contains strip_prefix rstrip is_space
  read_line-delay b n =
      read_line-rule b b'd' (codes "elay " ++ (str n ++ codes "ms")) refl
        (number-no_set n (codes "ms") refl)
        (ap rstrip (sym (append_assoc (codes "delay ") (str n) (codes "ms")))
          ∙ rstrip-append (codes "delay " ++ str n) b'm' (codes "s") refl
          ∙ append_assoc (codes "delay ") (str n) (codes "ms"))

  read_line-loss :
      (b : Bool) (n : ℕ)
      → let rule = codes "loss " ++ (str n ++ codes "%") in
        read_line (from_to_command (ends_str sources) (ends_str targets) b rule) ≡ link rule b
  unfolding lower contains strip_prefix rstrip is_space
  read_line-loss b n =
      read_line-rule b b'l' (codes "oss " ++ (str n ++ codes "%")) refl
        (number-no_set n (codes "%") refl)
        (ap rstrip (sym (append_assoc (codes "loss ") (str n) (codes "%")))
          ∙ rstrip-append (codes "loss " ++ str n) b'%' [] refl
          ∙ append_assoc (codes "loss ") (str n) (codes "%"))

-- The executor reads the lines that the generator writes without an indentation. Let the sources
-- and the targets be "all" or a group of numbered and random nodes that is not empty, and let a
-- rule begin with a lower-case letter, not contain "set" and not end in white space. Then the lines
-- of reset, run, set_rule with this rule, set_delay, set_loss and partition, for all numbers and
-- bidirectional or not, are read as these commands with the names of the nodes, a blank before each
-- rule, and no name for the run; the line "n times" that ends `repeat` ends a loop of n rounds, and
-- "do" begins one.
pub read_line-generated :
    (n delay loss : ℕ) (sources targets : Ends) (b : Bool) (c : ℕ) (rest : Text)
    → lower c ≡ true
    → contains (codes "set") (c ∷ rest) ≡ false
    → rstrip (c ∷ rest) ≡ c ∷ rest
    → let s = ends_str sources in
      let t = ends_str targets in
      (map read_line (
          partition s t (
            set_loss loss s t b
              (set_delay delay s t b (set_rule (c ∷ rest) s t b (run n (reset []))))))
        ≡ command Line.reset
          ∷ command (run_command n (codes "no_name"))
          ∷ link sources targets (c ∷ rest) b
          ∷ link sources targets (codes "delay " ++ (str delay ++ codes "ms")) b
          ∷ link sources targets (codes "loss " ++ (str loss ++ codes "%")) b
          ∷ link sources targets (codes "loss 100%") true
          ∷ [])
      × (read_line (times_line n) ≡ times n)
      × (read_line (codes "do") ≡ open_do)
unfolding partition set_loss set_delay set_rule run reset
read_line-generated n delay loss sources targets b c rest low no_set trimmed =
    let d = str-Digits n in
    (
      rw
          (
            read_line-reset,
            read_line-run (str n) n d (parse_int-str n),
            read_line-rule sources targets b c rest low no_set trimmed,
            read_line-delay sources targets b delay,
            read_line-loss sources targets b loss,
            read_line-loss sources targets true 100,
          )
          (unfold str in refl),
      read_line-times (str n) n d (parse_int-str n),
      read_line-do,
    )
