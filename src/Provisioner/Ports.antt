-- ===== src/Provisioner/Ports.antt =====
-- The ports and the ids of a local cluster.
use krafters.Prelude.{
  ℕ, suc, zero, ◌≤◌, ◌≡◌, refl, ap, inl, inr, true, false, List, [], ◌∷◌, ◌++◌, none, some,
  Bool-cases, ◌==◌, arith, map,
}
use mathlib.Core.Path.{subst}
use mathlib.Core.Option.{some-injective}
use krafters.Text.{Text, codes}
use krafters.Sets.{contains, add}
use krafters.Paxos.Messages.{Among}
use krafters.Paxos.Learner.Tallies.{Distinct}
use krafters.Paxos.Messenger.{Address, same_address}
use krafters.Paxos.Messenger.Addresses.{Apart, AllApart}
use krafters.Provisioner.{Machine, Pool, new_node}
use krafters.Provisioner.Local.{Draws, ◌>>=◌, draw_port, get_free_random_port, spin}

abbrev pub contact : Machine → ℕ × Address
contact m = (m.id, (m.address, m.port))

-- The ports of a cluster, two for each node.
abbrev pub ports : List Machine → List ℕ
ports [] = []
ports (m ∷ cluster) = m.port ∷ m.rpc_port ∷ ports cluster

-- A port that is drawn was not in the pool, and all that was in it stays.
record Drawn (pool : Pool) (port : ℕ) (pool' : Pool) : Type 0 where
  fresh : contains port pool.taken ≡ false
  now : contains port pool'.taken ≡ true
  kept : (p : ℕ) → contains p pool.taken ≡ true → contains p pool'.taken ≡ true

contains_end : (p : ℕ) (xs : List ℕ) → contains p (xs ++ p ∷ []) ≡ true
unfolding contains
contains_end p [] = ground arith
contains_end p (x ∷ xs) = rw (contains_end p xs) (ground arith)

contains_more : (p q : ℕ) (xs : List ℕ) → contains p xs ≡ true → contains p (xs ++ q ∷ []) ≡ true
unfolding contains
contains_more p q [] h = absurd (cc h)
contains_more p q (x ∷ xs) h = elim (Bool-cases (x == p)) [
  | inl e ↦ rw e
  | inr e ↦ rw (e, contains_more p q xs (rw e at h))
]

module _ (os_port : ℕ → ℕ) where
  draw_port-Drawn :
      (rounds : ℕ) (pool pool' : Pool) (port : ℕ)
      → draw_port os_port rounds pool ≡ some (port, pool')
      → Drawn pool port pool'
  unfolding draw_port add
  draw_port-Drawn zero pool pool' port e = absurd (cc e)
  draw_port-Drawn (suc rounds) pool pool' port e =
      let first = os_port pool.sockets in
      elim (Bool-cases (contains first pool.taken)) [
        | inl g ↦
            let later =
              draw_port-Drawn rounds (record pool { sockets = suc pool.sockets }) pool' port
                (rw g at e) in
            record { fresh = later.fresh; now = later.now; kept = later.kept }
        | inr g ↦
            subst (λ r. Drawn pool r.0 r.1)
              (some-injective
                (first, record { taken = pool.taken ++ first ∷ []; sockets = suc pool.sockets })
                (port, pool') (rw g at e))
              (record {
                fresh = g;
                now = contains_end first pool.taken;
                kept = λ p here. contains_more p first pool.taken here;
              })
      ]

-- What holds of the nodes from the id `i` on, which have drawn from the pool.
record Spun (i : ℕ) (pool : Pool) (cluster : List Machine) : Type 0 where
  apart : AllApart (map contact cluster)
  ids : (m : Machine) → Among m cluster → i ≤ m.id
  distinct : Distinct (ports cluster)
  fresh : (p : ℕ) → contains p (ports cluster) ≡ true → contains p pool.taken ≡ false

in_ports :
    (m : Machine) (cluster : List Machine)
    → Among m cluster
    → contains m.port (ports cluster) ≡ true
unfolding contains
in_ports m [] here = absurd here
in_ports m (n ∷ cluster) (inl e) =
    let same : (n.port == m.port) ≡ true = ground (arith, ap Machine.port e) in rw same
in_ports m (n ∷ cluster) (inr later) = ground (arith, in_ports m cluster later)

Apart-contacts :
    (p : ℕ × Address) (cluster : List Machine)
    → ((m : Machine)
        → Among m cluster
        → ((p.0 == m.id) ≡ false) × (same_address p.1 (m.address, m.port) ≡ false))
    → Apart p (map contact cluster)
Apart-contacts p [] h = tt
Apart-contacts p (m ∷ cluster) h =
    let (names, addresses) = h m (inl refl) in
    (names, addresses, Apart-contacts p cluster (λ n later. h n (inr later)))

-- A value outside a set is none of its elements.
differs : (p r : ℕ) (xs : List ℕ) → contains p xs ≡ true → contains r xs ≡ false → (p == r) ≡ false
differs p r xs h g = elim (Bool-cases (p == r)) [
  | inr e ↦ e
  | inl e ↦ let eq : p ≡ r = ground arith in absurd (cc (subst (λ p. contains p xs ≡ true) eq h, g))
]

apart_by_port : (a b : Text) (p r : ℕ) → (p == r) ≡ false → same_address (a, p) (b, r) ≡ false
unfolding same_address
apart_by_port a b p r h = ground (arith, h)

not_true : (p : ℕ) (xs : List ℕ) → (contains p xs ≡ true → ⊥) → contains p xs ≡ false
not_true p xs h = elim (Bool-cases (contains p xs)) [ inr e ↦ e | inl e ↦ absurd (h e) ]

new_node-Spun :
    (i port rpc_port : ℕ) (pool pool1 pool2 : Pool) (cluster : List Machine)
    → Drawn pool port pool1
    → Drawn pool1 rpc_port pool2
    → Spun (suc i) pool2 cluster
    → Spun i pool (new_node i port rpc_port ∷ cluster)
unfolding contains
new_node-Spun i port rpc_port pool pool1 pool2 cluster d d' h = record {
  apart = (
    Apart-contacts (contact (new_node i port rpc_port)) cluster (λ m here.
        let le : suc i ≤ m.id = h.ids m here in
        (
          ground arith,
          apart_by_port (codes "127.0.0.1") m.address port m.port (
              differs port m.port pool2.taken (d'.kept port d.now)
                (h.fresh m.port (in_ports m cluster here))),
        )),
    h.apart,
  );
  ids = λ m among. elim among [
    | inl e ↦ subst (λ m. i ≤ m.id) e (omega arith)
    | inr later ↦ let le = h.ids m later in omega arith
  ];
  distinct = (
    (let other = differs port rpc_port pool1.taken d.now d'.fresh in
        let later : contains port (ports cluster) ≡ false =
          not_true port (ports cluster) (λ here. cc (h.fresh port here, d'.kept port d.now)) in
        ground arith),
    (not_true rpc_port (ports cluster) (λ here. cc (h.fresh rpc_port here, d'.now)), h.distinct),
  );
  fresh = λ p here. not_true p pool.taken (λ was. elim (Bool-cases (port == p)) [
    | inl e ↦
        let eq : port ≡ p = ground arith in
        cc (subst (λ p. contains p pool.taken ≡ false) eq d.fresh, was)
    | inr e ↦ elim (Bool-cases (rpc_port == p)) [
      | inl g ↦
          let eq : rpc_port ≡ p = ground arith in
          cc (subst (λ p. contains p pool1.taken ≡ false) eq d'.fresh, d.kept p was)
      | inr g ↦ cc (h.fresh p (rw (e, g) at here), d'.kept p (d.kept p was))
    ]
  ]);
}

-- A program that gives a result has run its first part.
pub ran :
    {A B : Type 0} (m : Draws A) (f : A → Draws B) (pool : Pool) (r : B × Pool)
    → (m >>= f) pool ≡ some r
    → (a : A) × (pool' : Pool) × (m pool ≡ some (a, pool')) × (f a pool' ≡ some r)
ran m f pool r e = split (m pool) refl e
  where
    split :
        (o : _)
        → m pool ≡ o
        → (elim o [ none ↦ none | some (a, pool') ↦ f a pool' ]) ≡ some r
        → (a : _) × (pool' : Pool) × (m pool ≡ some (a, pool')) × (f a pool' ≡ some r)
    split none g h = absurd (cc h)
    split (some (a, pool')) g h = (a, pool', g, h)

module _ (os_port : ℕ → ℕ) (fuel : ℕ) where
  spin-Spun :
      (n i : ℕ) (pool pool' : Pool) (cluster : List Machine)
      → spin os_port fuel n i pool ≡ some (cluster, pool')
      → Spun i pool cluster
  unfolding spin get_free_random_port contains
  spin-Spun zero i pool pool' cluster e =
      subst (λ r. Spun i pool r.0) (some-injective ([], pool) (cluster, pool') e)
        (record {
          apart = tt;
          ids = λ m here. absurd here;
          distinct = tt;
          fresh = λ p here. absurd (cc here);
        })
  spin-Spun (suc n) i pool pool' cluster e =
      let (port, pool1, some1, e1) =
        ran (get_free_random_port os_port fuel) _ pool (cluster, pool') e in
      let (rpc_port, pool2, some2, e2) =
        ran (get_free_random_port os_port fuel) _ pool1 (cluster, pool') e1 in
      let (rest, pool3, some3, e3) =
        ran (spin os_port fuel n (suc i)) _ pool2 (cluster, pool') e2 in
      subst (λ r. Spun i pool r.0)
        (some-injective (new_node i port rpc_port ∷ rest, pool3) (cluster, pool') e3)
        (new_node-Spun i port rpc_port pool pool1 pool2 rest
          (draw_port-Drawn os_port fuel pool pool1 port some1)
          (draw_port-Drawn os_port fuel pool1 pool2 rpc_port some2)
          (spin-Spun n (suc i) pool2 pool3 rest some3))

  -- No two nodes of a local cluster share a port. The ports of the algorithm and of the network managers
  -- are all different, whatever free ports the system offers.
  pub spin-ports :
      (n i : ℕ) (pool pool' : Pool) (cluster : List Machine)
      → spin os_port fuel n i pool ≡ some (cluster, pool')
      → Distinct (ports cluster)
  spin-ports n i pool pool' cluster e = (spin-Spun n i pool pool' cluster e).distinct

  pub spin-contacts :
      (n i : ℕ) (pool pool' : Pool) (cluster : List Machine)
      → spin os_port fuel n i pool ≡ some (cluster, pool')
      → AllApart (map contact cluster)
  spin-contacts n i pool pool' cluster e = (spin-Spun n i pool pool' cluster e).apart
