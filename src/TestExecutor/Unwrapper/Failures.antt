-- ===== src/TestExecutor/Unwrapper/Failures.antt =====
-- Commands that never reach the network: what CommandUnwrapper does with random links, and with
-- bidirectional links on a local cluster; and `reset`, which always does.
use krafters.Prelude.{
  ◌&&◌, ℕ, zero, suc, ◌+◌, ◌≤◌, ◌<◌, ◌≡◌, ◌≢◌, refl, ap, ◌∙◌, ◌↔◌, ◌⊎◌, inl, inr, Bool, true, false,
  List, [], ◌∷◌, ◌++◌, map, Option, none, some, ltb, ◌==◌, arith, length, length-append, Bool-cases,
  Option-cases,
}
use mathlib.Core.Path.{subst}
use krafters.Text.{Text, codes}
use krafters.TestExecutor.Errors.{Outcome, ok, raise, other, Outcome-cases}
use krafters.TestExecutor.Line.{reset, modify_random_link, modify_link_from_to}
use krafters.Sets.{contains, add}
use krafters.TestExecutor.Unwrapper.{
  kind_of, Name, word, int, Unwrapper, Rng, randrange, referred, draw_values, add_all, resolve,
  resolve_both, resolve_ids, local_guard, finish_link, modify_links, Links, select, select_links,
  no_links, modify_random_links, check, Action, modify,
}
use krafters.TestExecutor.Unwrapper.RandomLinks.{PairsComeUp, select_links_ends, select_links-le}
use krafters.TestExecutor.Unwrapper.Resolved.{contains-add, contains-add_all}

length-add : (a : ℕ) (xs : List ℕ) → 0 < length (add a xs)
unfolding add contains
length-add a [] = omega arith
length-add a (x ∷ xs) = ground (arith, length-append xs (a ∷ []))

-- A link that is selected has its source in the set.
abbrev IsFilled : Links → Type 0
IsFilled l = (l.n_selected ≡ 0) ⊎ (0 < length l.sources)

select-IsFilled : (s t : ℕ) (b : Bool) (l : Links) → IsFilled l → IsFilled (select s t b l)
unfolding select
select-IsFilled s t b l h = ground (arith, length-add s l.sources)

select_links-IsFilled :
    (fuel : ℕ) (rng : Rng) (k n wanted : ℕ) (b : Bool) (from : Option ℕ) (l out : Links) (k' : ℕ)
    → IsFilled l
    → select_links fuel rng k n wanted b from l ≡ some (out, k')
    → IsFilled out × (wanted ≤ out.n_selected)
unfolding select_links
select_links-IsFilled zero rng k n wanted b none l out k' h e = ground arith
select_links-IsFilled zero rng k n wanted b (some s) l out k' h e = absurd (cc)
select_links-IsFilled (suc fuel) rng k n wanted b none l out k' h e =
    elim (Bool-cases (ltb l.n_selected wanted)) [
      | inr enough ↦
          let same : l ≡ out = cc (rw (enough, select_links) at e) in
          subst (λ x. IsFilled x × (wanted ≤ x.n_selected)) same (h, ground arith)
      | inl more ↦
          select_links-IsFilled fuel rng (suc k) n wanted b (some (randrange rng k n + 1)) l out k'
            h (rw (more, select_links) at e)
    ]
select_links-IsFilled (suc fuel) rng k n wanted b (some s) l out k' h e =
    elim (Bool-cases ((randrange rng k n + 1) == s)) [
      | inl same ↦
          select_links-IsFilled fuel rng (suc k) n wanted b (some s) l out k' h
            (rw (same, select_links) at e)
      | inr other_id ↦
          select_links-IsFilled fuel rng (suc k) n wanted b none
            (select s (randrange rng k n + 1) b l) out k'
            (select-IsFilled s (randrange rng k n + 1) b l h) (rw (other_id, select_links) at e)
    ]

-- Integers have no `isdigit`.
referred-ints :
    (xs : List ℕ) (names : List Name)
    → 0 < length xs
    → referred (map int xs ++ names) [] 0 ≡ raise other
unfolding referred
referred-ints [] names h = absurd (omega arith)
referred-ints (x ∷ xs) names h = refl

modify_links-ints :
    (fuel : ℕ) (rng : Rng) (k : ℕ) (u : Unwrapper) (xs : List ℕ) (names : List Name) (rule : Text)
    (b : Bool)
    → 0 < length xs
    → modify_links fuel rng k u (map int xs) names rule b ≡ some (raise other, k)
unfolding modify_links resolve_ids finish_link
modify_links-ints fuel rng k u xs names rule b h =
    rw (referred-ints xs names h, modify_links, resolve_ids)

-- "on n connections set ..." ends in an error, so that no link is changed. For every n but 0 that is below
-- the number of nodes, and a stream in which every two different draws come up again and again, the first
-- one twice and then the second one, from some number of draws on the check of the command raises an
-- error that is no TestException, which attach_line swallows.
pub check-modify_random_link :
    (rng : Rng) (k : ℕ) (u : Unwrapper) (wanted : ℕ) (rule : Text) (b : Bool)
    → 0 < wanted
    → wanted < u.nodes_number
    → PairsComeUp rng u.nodes_number
    → (enough : ℕ) × (k' : ℕ) × ((fuel : ℕ)
        → enough ≤ fuel
        → check fuel rng k u (modify_random_link wanted rule b) ≡ some (raise other, k'))
unfolding check modify_random_links
check-modify_random_link rng k u wanted rule b pos few pairs =
    let n = u.nodes_number in
    let (enough, (l, k'), drawn) = select_links_ends rng n wanted b pairs few k in
    let (filled, counted) =
      select_links-IsFilled enough rng k n wanted b none no_links l k' (inl refl) drawn in
    let nodes : (n == 0 && ltb 0 wanted) ≡ false = ground arith in
    (
      enough,
      k',
      λ fuel le.
          let q = select_links-le enough fuel rng k n wanted b none no_links (l, k') le drawn in
          rw (nodes, q, check, modify_random_links)
            (modify_links-ints fuel rng k' u l.sources (map int l.targets) rule b (ground arith)),
    )

local_guard-bidirectional :
    (u : Unwrapper) (xs : List ℕ) → u.local_execution ≡ true → local_guard u xs true ≢ ok tt
unfolding local_guard
local_guard-bidirectional u xs h e = ground arith

finish_link-bidirectional :
    (u : Unwrapper) (rule : Text) (resolved : Outcome (List ℕ × List ℕ)) (action : Action)
    → u.local_execution ≡ true
    → finish_link u rule true resolved ≢ ok action
unfolding finish_link
finish_link-bidirectional u rule (raise x) action h e = cc
finish_link-bidirectional u rule (ok ids) action h e =
    elim (Outcome-cases (local_guard u ids.0 true)) [
      | inl (a, q) ↦ local_guard-bidirectional u ids.0 h q
      | inr (x, q) ↦ cc (rw (q, finish_link) at e)
    ]

-- A bidirectional link never changes on a local cluster: whatever the ids and the draws, the check
-- of the command returns no action.
pub check-local_bidirectional :
    (fuel : ℕ) (rng : Rng) (k : ℕ) (u : Unwrapper) (sources targets : List Text) (rule : Text)
    (action : Action) (k' : ℕ)
    → u.local_execution ≡ true
    → check fuel rng k u (modify_link_from_to sources targets rule true) ≢ some (ok action, k')
unfolding check modify_links
check-local_bidirectional fuel rng k u sources targets rule action k' is_local e =
    elim (Option-cases
      (resolve_ids fuel rng k u.nodes_number (map word sources) (map word targets))) [
        | inl q ↦ cc (rw (q, check, modify_links) at e)
        | inr ((resolved, j), q) ↦
            finish_link-bidirectional u rule resolved action is_local
              (cc (rw (q, check, modify_links) at e))
      ]

contains-add_all_range : (n v : ℕ) (xs : List ℕ) → 1 ≤ v → v ≤ n → contains v (add_all n xs) ≡ true
unfolding add_all
contains-add_all_range zero v xs h g = absurd (omega arith)
contains-add_all_range (suc n) v xs h g =
    ground (arith, contains-add (suc n) v (add_all n xs), contains-add_all_range n v xs)

add_all-new : (n : ℕ) → contains (suc n) (add_all n []) ≡ false
unfolding contains
add_all-new n = elim (Bool-cases (contains (suc n) (add_all n []))) [
  | inr e ↦ e
  | inl e ↦ ground (arith, contains-add_all n (suc n) [] e)
]

length-add_new : (a : ℕ) (xs : List ℕ) → contains a xs ≡ false → length (add a xs) ≡ suc (length xs)
unfolding add
length-add_new a xs h = ground (arith, length-append xs (a ∷ []))

length-add_all : (n : ℕ) → length (add_all n []) ≡ n
unfolding add_all
length-add_all zero = refl
length-add_all (suc n) =
    length-add_new (suc n) (add_all n []) (add_all-new n) ∙ ap suc (length-add_all n)

all_nodes : (n v : ℕ) → (contains v (add_all n []) ≡ true) ↔ ((1 ≤ v) × (v ≤ n))
unfolding contains
all_nodes n v =
    (λ h. ground (arith, contains-add_all n v [] h), λ h. contains-add_all_range n v [] h.0 h.1)

resolve_ids-all :
    (fuel : ℕ) (rng : Rng) (k n : ℕ)
    → resolve_ids fuel rng k n (word (codes "all") ∷ []) (word (codes "all") ∷ [])
      ≡ some (ok (add_all n [], add_all n []), k)
unfolding resolve_ids referred resolve_both resolve kind_of draw_values
resolve_ids-all fuel rng k n = let few : ltb n 0 ≡ false = ground arith in ground arith

local_guard-all :
    (u : Unwrapper) (xs : List ℕ)
    → length xs ≡ u.nodes_number
    → 0 < u.nodes_number
    → local_guard u xs false ≡ ok tt
unfolding local_guard
local_guard-all u xs h g = ground arith

-- `reset` sets every link. On every cluster, local or not, the command passes its checks with no
-- draw, and asks for "delay 0ms" from every node to every node: the ids 1 .. nodes_number.
pub check-reset :
    (fuel : ℕ) (rng : Rng) (k : ℕ) (u : Unwrapper)
    → 0 < u.nodes_number
    → (nodes : List ℕ) × (check fuel rng k u reset
        ≡ some (ok (modify nodes nodes (codes "delay 0ms") false), k))
      × ((v : ℕ) → (contains v nodes ≡ true) ↔ ((1 ≤ v) × (v ≤ u.nodes_number)))
unfolding check modify_links finish_link
check-reset fuel rng k u pos =
    let n : ℕ = u.nodes_number in
    (
      add_all n [],
      rw (resolve_ids-all fuel rng k n, check, modify_links)
          (rw (local_guard-all u (add_all n []) (length-add_all n) pos, finish_link)),
      all_nodes n,
    )
