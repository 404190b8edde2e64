-- ===== src/TestDaemon/Acks.antt =====
-- Which acknowledgement ends which append of a cluster.
use krafters.Prelude.{
  ℕ, ◌+◌, ◌≤◌, ◌<◌, ◌≡◌, refl, sym, ap, ◌∙◌, true, List, [], ◌∷◌, ◌++◌, Option, none, some, ltb,
  length, length-append, arith,
}
use mathlib.Core.List.{append_assoc, append-nil}
use krafters.Prelude.Int.{ℤ}
use krafters.TestDaemon.{
  Cluster, Event, append_entry, cluster_append_complete, acknowledged, minus, step, react,
  begin_append, end_append,
}

-- The daemon between two appends.
abbrev pub ready : Option ℕ → List ℤ → Cluster
ready ack results = record { cluster_ack = ack; res = none; results = results }

-- Appends that begin at the first time of a pair, and are acknowledged at the second: each before the
-- next begins.
abbrev pub in_turn : List (ℕ × ℕ) → List Event
in_turn [] = []
in_turn ((res, ack) ∷ appends) =
    append_entry (some res) ∷ cluster_append_complete ack ∷ acknowledged ∷ in_turn appends

-- The same, where the loop finds an acknowledgement before the append's own one is there.
abbrev pub early : List (ℕ × ℕ) → List Event
early [] = []
early ((res, ack) ∷ appends) =
    append_entry (some res) ∷ acknowledged ∷ cluster_append_complete ack ∷ early appends

abbrev pub own_times : List (ℕ × ℕ) → List ℤ
own_times [] = []
own_times ((res, ack) ∷ appends) = minus ack res ∷ own_times appends

-- Each append with the acknowledgement of the one before it.
abbrev pub shifted_times : ℕ → List (ℕ × ℕ) → List ℤ
shifted_times last [] = []
shifted_times last ((res, ack) ∷ appends) = minus last res ∷ shifted_times ack appends

abbrev pub last_ack : ℕ → List (ℕ × ℕ) → ℕ
last_ack last [] = last
last_ack last ((res, ack) ∷ appends) = last_ack ack appends

begins :
    (times res : ℕ) (ack : Option ℕ) (results : List ℤ)
    → length results < times
    → begin_append times (some res) none (ready ack results)
      ≡ record { cluster_ack = ack; res = some res; results = results }
unfolding begin_append
begins times res ack results room =
    let free : ltb (length results) times ≡ true = ground arith in rw free refl

-- Appends that are acknowledged in turn are measured from their own answer to their own
-- acknowledgement.
pub react-own_times :
    (times : ℕ) (appends : List (ℕ × ℕ)) (results : List ℤ)
    → length results + length appends ≤ times
    → react times (in_turn appends) (ready none results) ≡ ready none (results ++ own_times appends)
unfolding react step begin_append end_append
react-own_times times [] results room = ap (ready none) (sym (append-nil results))
react-own_times times ((res, ack) ∷ appends) results room =
    let fits : length (results ++ minus ack res ∷ []) + length appends ≤ times =
      omega (arith, length-append {0} results (minus ack res ∷ [])) in
    ap
      (λ s.
        react times (in_turn appends)
          (step times acknowledged (step times (cluster_append_complete ack) s)))
      (begins times res none results (omega arith))
    ∙ react-own_times times appends (results ++ minus ack res ∷ []) fits
    ∙ ap (ready none) (append_assoc results (minus ack res ∷ []) (own_times appends))

-- One acknowledgement too many shifts all that follows. If cluster_append_complete has been called once
-- more before the appends, at the time `late`, and each append finds CLUSTER_ACK set before its own
-- acknowledgement is there, then every append is measured up to the acknowledgement of the append before
-- it, the first up to `late`, and the last acknowledgement is left over for the next append.
pub react-shifted_times :
    (times late : ℕ) (appends : List (ℕ × ℕ)) (results : List ℤ)
    → length results + length appends ≤ times
    → react times (early appends) (ready (some late) results)
      ≡ ready (some (last_ack late appends)) (results ++ shifted_times late appends)
unfolding react step begin_append end_append
react-shifted_times times late [] results room = ap (ready (some late)) (sym (append-nil results))
react-shifted_times times late ((res, ack) ∷ appends) results room =
    let fits : length (results ++ minus late res ∷ []) + length appends ≤ times =
      omega (arith, length-append {0} results (minus late res ∷ [])) in
    ap
      (λ s.
        react times (early appends)
          (step times (cluster_append_complete ack) (step times acknowledged s)))
      (begins times res (some late) results (omega arith))
    ∙ react-shifted_times times ack appends (results ++ minus late res ∷ []) fits
    ∙ ap (ready (some (last_ack ack appends)))
        (append_assoc results (minus late res ∷ []) (shifted_times ack appends))
