-- ===== src/TestExecutor/Netem/Requests.antt =====
-- What modify_connections asks of the network managers, as a flat list of requests.
use krafters.Prelude.{
  ℕ, ◌≡◌, refl, sym, inl, inr, Bool, true, false, List, [], ◌∷◌, ◌++◌, ◌==◌, Bool-cases,
  if◌then◌else◌,
}
use mathlib.Core.Path.{fun_ext}
use krafters.Text.{Text}
use krafters.TestExecutor.Errors.{Outcome-cases}
use krafters.TestExecutor.Netem.{
  Remote, World, Exec, ◌>>=◌, ◌>>◌, pure, request, require, both_ways, modify_connection,
  modify_targets, modify_connections,
}

-- The requests (node, target) for one pair of ids: none for a loopback, and both for a
-- bidirectional link.
abbrev pub requests_between : ℕ → ℕ → Bool → List (ℕ × ℕ)
requests_between source target bidirectional =
    if source == target
    then []
    else (if bidirectional then (source, target) ∷ (target, source) ∷ [] else (source, target) ∷ [])

abbrev pub requests_from : ℕ → List ℕ → Bool → List (ℕ × ℕ)
requests_from source [] b = []
requests_from source (target ∷ targets) b =
    requests_between source target b ++ requests_from source targets b

-- The pairs of the cartesian product, sources first.
abbrev pub requests_for : List ℕ → List ℕ → Bool → List (ℕ × ℕ)
requests_for [] targets b = []
requests_for (source ∷ sources) targets b =
    requests_from source targets b ++ requests_for sources targets b

module _ (r : Remote) where
  -- The requests in order, up to the first that is refused.
  pub send_all : Text → List (ℕ × ℕ) → Exec r (Unit {0})
  unfolding request require
  send_all cmd [] = pure r tt
  send_all cmd ((node, target) ∷ rest) =
      ◌>>=◌ r (request r cmd node target)
        λ granted. ◌>>◌ r (require r cmd granted) (send_all cmd rest)

  -- What follows a request, in front of two pieces.
  granted-append :
      (cmd : Text) (xs ys : List (ℕ × ℕ)) (g : Bool) (w : World r)
      → send_all cmd (xs ++ ys) w ≡ ◌>>◌ r (send_all cmd xs) (send_all cmd ys) w
      → ◌>>◌ r (require r cmd g) (send_all cmd (xs ++ ys)) w
        ≡ ◌>>◌ r (◌>>◌ r (require r cmd g) (send_all cmd xs)) (send_all cmd ys) w
  unfolding require
  granted-append cmd xs ys true w h = h
  granted-append cmd xs ys false w h = refl

  send_all-append :
      (cmd : Text) (xs ys : List (ℕ × ℕ)) (w : World r)
      → send_all cmd (xs ++ ys) w ≡ ◌>>◌ r (send_all cmd xs) (send_all cmd ys) w
  unfolding send_all
  send_all-append cmd [] ys w = refl
  send_all-append cmd ((a, b) ∷ xs) ys w = elim (Outcome-cases (request r cmd a b w).0) [
    | inr (e, q) ↦ rw q
    | inl (g, q) ↦
        let v = (request r cmd a b w).1 in
        rw q (granted-append cmd xs ys g v (send_all-append cmd xs ys v))
  ]

  require-send_nil :
      (cmd : Text) (g : Bool) (w : World r)
      → require r cmd g w ≡ ◌>>◌ r (require r cmd g) (send_all cmd []) w
  unfolding require send_all
  require-send_nil cmd true w = refl
  require-send_nil cmd false w = refl

  second-send :
      (cmd : Text) (source target : ℕ) (g : Bool) (w : World r)
      → ◌>>=◌ r (both_ways r cmd source target g) (require r cmd) w
        ≡ ◌>>◌ r (require r cmd g) (send_all cmd ((target, source) ∷ [])) w
  unfolding both_ways require send_all
  second-send cmd source target false w = refl
  second-send cmd source target true w = elim (Outcome-cases (request r cmd target source w).0) [
    | inr (e, q) ↦ rw q
    | inl (g, q) ↦ rw q (require-send_nil cmd g (request r cmd target source w).1)
  ]

  connection-send :
      (cmd : Text) (source target : ℕ) (b : Bool) (w : World r)
      → modify_connection r source target cmd b w
        ≡ send_all cmd (requests_between source target b) w
  unfolding modify_connection send_all
  connection-send cmd source target false w = elim (Bool-cases (source == target)) [
    | inl same ↦ rw same
    | inr apart ↦ rw apart (elim (Outcome-cases (request r cmd source target w).0) [
      | inr (e, q) ↦ rw q
      | inl (g, q) ↦ rw q (require-send_nil cmd g (request r cmd source target w).1)
    ])
  ]
  connection-send cmd source target true w = elim (Bool-cases (source == target)) [
    | inl same ↦ rw same
    | inr apart ↦ rw apart (elim (Outcome-cases (request r cmd source target w).0) [
      | inr (e, q) ↦ rw q
      | inl (g, q) ↦ rw q (second-send cmd source target g (request r cmd source target w).1)
    ])
  ]

  targets-send :
      (cmd : Text) (source : ℕ) (targets : List ℕ) (b : Bool) (w : World r)
      → modify_targets r source targets cmd b w ≡ send_all cmd (requests_from source targets b) w
  unfolding modify_targets send_all
  targets-send cmd source [] b w = refl
  targets-send cmd source (t ∷ ts) b w =
      rw (connection-send cmd source t b w, fun_ext (targets-send cmd source ts b))
        (sym (send_all-append cmd (requests_between source t b) (requests_from source ts b) w))

  -- modify_connections sends one request for each ordered pair of a source and a target that differ,
  -- in order, and the request back behind each if the link is bidirectional; it stops at the first
  -- request that is refused, with a Netem Error, or that fails.
  pub modify_connections-send :
      (cmd : Text) (sources targets : List ℕ) (b : Bool) (w : World r)
      → modify_connections r sources targets cmd b w
        ≡ send_all cmd (requests_for sources targets b) w
  unfolding modify_connections send_all
  modify_connections-send cmd [] targets b w = refl
  modify_connections-send cmd (s ∷ sources) targets b w =
      rw (targets-send cmd s targets b w, fun_ext (modify_connections-send cmd sources targets b))
        (sym (send_all-append cmd (requests_from s targets b) (requests_for sources targets b) w))
