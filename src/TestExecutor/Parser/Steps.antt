-- ===== src/TestExecutor/Parser/Steps.antt =====
-- What one round of the loop of `parse` does to the index and to the pointers.
use krafters.Prelude.{
  ℕ, zero, suc, ◌+◌, ◌-◌, ◌≤◌, ◌<◌, ◌≡◌, ◌≢◌, refl, sym, inl, inr, List, [], ◌∷◌, ◌++◌, some, arith,
  ltb, ◌==◌, if◌then◌else◌, length, get_elem?, get_elem?_of_lt, set, Option-cases, Bool-cases,
}
use mathlib.Core.Path.{subst}
use krafters.Prelude.Int.{ℤ, pos, negsuc, incr, decr, py_index}
use krafters.Text.{Text, rstrip}
use krafters.TestExecutor.Errors.{ok}
use krafters.TestExecutor.Line.{Line, blank, command, open_do, times, unknown, fails, read_line}
use krafters.TestExecutor.Parser.{
  Pointer, State, next_line, pointer_at, put_pointer, needs_pointer, open_pointer, do_line,
  close_loop, times_line, line_effect, round_end, round,
}

-- What a pointer has left of `m` repetitions, if it points at line `k`.
abbrev pub room : ℕ → ℕ → Pointer → ℕ
room m k p = if p.start == k then m - p.repetition else 0

abbrev pub weight : ℕ → ℕ → List Pointer → ℕ
weight m k [] = 0
weight m k (p ∷ ps) = room m k p + weight m k ps

weight-append :
    (m k : ℕ) (ps : List Pointer) (p : Pointer)
    → weight m k (ps ++ p ∷ []) ≡ weight m k ps + room m k p
weight-append m k [] p = omega arith
weight-append m k (q ∷ ps) p = omega (arith, weight-append m k ps p)

weight-set :
    (m k : ℕ) (ps : List Pointer) (i : ℕ) (p q : Pointer)
    → get_elem? ps i ≡ some p
    → weight m k (set ps i q) + room m k p ≡ weight m k ps + room m k q
weight-set m k [] i p q e = absurd (cc)
weight-set m k (x ∷ ps) zero p q e = let same : x ≡ p = cc in rw same (omega arith)
weight-set m k (x ∷ ps) (suc i) p q e = omega (arith, weight-set m k ps i p q e)

py_index-lt : (k : ℤ) (len i : ℕ) → py_index k len ≡ some i → i < len
py_index-lt (pos n) len i h = ground arith
py_index-lt (negsuc n) len i h = ground arith

-- An assignment to `pointers[k]` that succeeds writes in range.
put_pointer-eq_some :
    (k : ℤ) (q : Pointer) (ps : List Pointer) {qs : List Pointer}
    → put_pointer k q ps ≡ some qs
    → (i : ℕ) × (p : Pointer) × (py_index k (length ps) ≡ some i)
      × (get_elem? ps i ≡ some p)
      × (set ps i q ≡ qs)
unfolding put_pointer
put_pointer-eq_some k q ps h = elim (Option-cases (py_index k (length ps))) [
  | inl e ↦ absurd (cc (rw (e, put_pointer) at h))
  | inr (i, e) ↦
      let (p, g) = get_elem?_of_lt ps i (py_index-lt k _ i e) in
      (i, p, e, g, cc (rw (e, put_pointer) at h))
]

-- It trades the room of the pointer that stood there for that of the new one.
put_pointer-weight :
    (m j : ℕ) (k : ℤ) (q : Pointer) (ps qs : List Pointer)
    → put_pointer k q ps ≡ some qs
    → weight m j qs ≤ weight m j ps + room m j q
put_pointer-weight m j k q ps qs h =
    let (i, p, e, g, same) = put_pointer-eq_some k q ps h in
    rw (sym same) (omega (arith, weight-set m j ps i p q g))

put_pointer-weight_eq :
    (m j : ℕ) (k : ℤ) (p q : Pointer) (ps qs : List Pointer)
    → pointer_at k ps ≡ some p
    → put_pointer k q ps ≡ some qs
    → weight m j qs + room m j p ≡ weight m j ps + room m j q
unfolding pointer_at
put_pointer-weight_eq m j k p q ps qs at_k h =
    let (i, p', e, g, same) = put_pointer-eq_some k q ps h in
    let old : get_elem? ps i ≡ some p = rw (e, pointer_at) at at_k in
    rw (sym same) (weight-set m j ps i p q old)

-- One round: on to the next line, where only a `do` at this line can gain room; or back behind a
-- `do`, whose pointer then has lost room.
pub data Moves (m : ℕ) (s s' : State) : Type 0 where
  forward :
      s'.index ≡ suc s.index
      → ((k : ℕ) → k ≢ s.index → weight m k s'.pointers ≤ weight m k s.pointers)
      → Moves m s s'
  back :
      (j : ℕ)
      → s'.index ≡ suc j
      → weight m j s'.pointers < weight m j s.pointers
      → ((k : ℕ) → weight m k s'.pointers ≤ weight m k s.pointers)
      → Moves m s s'

open_pointer-weight :
    (m j : ℕ) (k : ℤ) (i : ℕ) (ps qs : List Pointer)
    → open_pointer k i ps ≡ some qs
    → j ≢ i
    → weight m j qs ≤ weight m j ps
unfolding open_pointer
open_pointer-weight m j k i ps qs h ne = elim (Bool-cases (needs_pointer k ps)) [
  | inl e ↦
      let same : (ps ++ fresh ∷ []) ≡ qs = cc (rw e at h) in
      rw (sym same) (ground (arith, weight-append m j ps fresh))
  | inr e ↦ ground (arith, put_pointer-weight m j k fresh ps qs (rw e at h))
]
  where
    fresh : Pointer
    fresh = record { start = i; repetition = 1 }

do_line-Moves : (m : ℕ) (s s' : State) → do_line s ≡ some s' → Moves m s (next_line s')
unfolding do_line
do_line-Moves m s s' h = elim (Option-cases (open_pointer (incr s.do_open) s.index s.pointers)) [
  | inl e ↦ absurd (cc (rw (e, do_line) at h))
  | inr (ps, e) ↦
      let same : record s { do_open = incr s.do_open; pointers = ps } ≡ s' =
        cc (rw (e, do_line) at h) in
      subst (λ t. Moves m s (next_line t)) same
        (forward refl λ k ne. open_pointer-weight m k (incr s.do_open) s.index s.pointers ps e ne)
]

close_loop-Moves :
    (m : ℕ) (s s' : State) (n : ℕ) (p : Pointer)
    → n ≤ m
    → pointer_at s.do_open s.pointers ≡ some p
    → close_loop s n p ≡ some s'
    → Moves m s (next_line s')
unfolding close_loop
close_loop-Moves m s s' n p small at_k h = elim (Bool-cases (ltb p.repetition n)) [
  | inl more ↦
      elim (Option-cases
        (put_pointer s.do_open (record p { repetition = suc p.repetition }) s.pointers)) [
          | inl e ↦ absurd (cc (rw (more, e) at h))
          | inr (ps, e) ↦
              let same : record s { index = p.start; pointers = ps } ≡ s' =
                cc (rw (more, e) at h) in
              subst (λ t. Moves m s (next_line t)) same
                (back p.start refl
                  (ground (
                    arith,
                    put_pointer-weight_eq m p.start s.do_open p
                        (record p { repetition = suc p.repetition }) s.pointers ps at_k e,
                  ))
                  (λ k. ground (
                    arith,
                    put_pointer-weight_eq m k s.do_open p
                        (record p { repetition = suc p.repetition }) s.pointers ps at_k e,
                  )))
        ]
  | inr e ↦
      let same : record s { do_open = decr s.do_open } ≡ s' = cc (rw e at h) in
      subst (λ t. Moves m s (next_line t)) same (forward refl λ k ne. omega arith)
]

times_line-Moves :
    (m : ℕ) (s s' : State) (n : ℕ) → n ≤ m → times_line s n ≡ some s' → Moves m s (next_line s')
unfolding times_line
times_line-Moves m s s' n small h = elim (Option-cases (pointer_at s.do_open s.pointers)) [
  | inl e ↦ absurd (cc (rw (e, times_line) at h))
  | inr (p, e) ↦ close_loop-Moves m s s' n p small e (rw (e, times_line) at h)
]

abbrev pub CountLe : ℕ → Line → Type 0
CountLe m (times n) = n ≤ m
CountLe m _ = Unit {0}

line-Moves :
    (m : ℕ) (raw : Text) (s s' : State) (l : Line)
    → CountLe m l
    → round_end raw s.index l (line_effect s l) ≡ ok s'
    → Moves m s s'
unfolding round_end line_effect
line-Moves m raw s s' blank small h =
    let same : next_line s ≡ s' = cc in subst (Moves m s) same (forward refl λ k ne. omega arith)
line-Moves m raw s s' (command c) small h =
    let same : next_line (record s {
      commands_list = s.commands_list ++ (record { call = c; line = suc s.index }) ∷ [];
    })
        ≡ s' =
      cc in
    subst (Moves m s) same (forward refl λ k ne. omega arith)
line-Moves m raw s s' open_do small h = elim (Option-cases (do_line s)) [
  | inl e ↦ absurd (cc (rw e at h))
  | inr (t, e) ↦ subst (Moves m s) (cc (rw e at h)) (do_line-Moves m s t e)
]
line-Moves m raw s s' (times n) small h = elim (Option-cases (times_line s n)) [
  | inl e ↦ absurd (cc (rw e at h))
  | inr (t, e) ↦ subst (Moves m s) (cc (rw e at h)) (times_line-Moves m s t n small e)
]
line-Moves m raw s s' unknown small h = absurd (cc)
line-Moves m raw s s' fails small h = absurd (cc)

pub round-Moves :
    (m : ℕ) (raw : Text) (s s' : State)
    → CountLe m (read_line raw)
    → round s raw ≡ ok s'
    → Moves m s s'
unfolding round
round-Moves m raw s s' small h = line-Moves m (rstrip raw) s s' (read_line raw) small h
