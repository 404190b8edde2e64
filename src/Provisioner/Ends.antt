-- ===== src/Provisioner/Ends.antt =====
-- The drawing of ports ends for a system that does not offer taken ports forever.
use krafters.Prelude.{
  ℕ, suc, zero, ◌<◌, ◌≤◌, ◌+◌, ◌*◌, ◌≡◌, ◌⊎◌, refl, sym, inl, inr, true, false, List, [], ◌∷◌, none,
  some, Bool-cases, ◌==◌, arith, length, length-append,
}
use mathlib.Core.Path.{subst}
use krafters.Sets.{contains, add}
use krafters.Paxos.Learner.Tallies.{Distinct}
use krafters.Paxos.Network.Members.{Within, Distinct-length}
use krafters.Provisioner.{Machine, Pool, new_node}
use krafters.Provisioner.Local.{Draws, ◌>>=◌, draw_port, get_free_random_port, spin}

-- Where less than `fuel` ports are taken, there is one among any `fuel` sockets in a row that is not.
abbrev pub Offers : (ℕ → ℕ) → ℕ → Type 0
Offers os_port fuel =
    (taken : List ℕ) (start : ℕ)
    → length taken < fuel
    → (k : ℕ) × (k < fuel) × (contains (os_port (start + k)) taken ≡ false)

then_ :
    {A B : Type 0} (m : Draws A) (f : A → Draws B) (pool pool' : Pool) (a : A) {r : B × Pool}
    → m pool ≡ some (a, pool')
    → f a pool' ≡ some r
    → (m >>= f) pool ≡ some r
then_ m f pool pool' a {r} e g =
    subst (λ o. elim o [ none ↦ none | some (a, pool') ↦ f a pool' ] ≡ some r) (sym e) g

-- A port is given, and the pool has one more.
abbrev Gives : Draws ℕ → Pool → Type 0
Gives m pool =
    (port : ℕ) × (pool' : Pool) × (m pool ≡ some (port, pool'))
    × (length pool'.taken ≡ suc (length pool.taken))

length-add : (p : ℕ) (xs : List ℕ) → contains p xs ≡ false → length (add p xs) ≡ suc (length xs)
unfolding add
length-add p xs e = rw e (omega (arith, length-append xs (p ∷ [])))

module _ (os_port : ℕ → ℕ) where
  -- The first port is free.
  took :
      (rounds : ℕ) (pool : Pool)
      → contains (os_port pool.sockets) pool.taken ≡ false
      → Gives (draw_port os_port (suc rounds)) pool
  unfolding draw_port
  took rounds pool e =
      let port = os_port pool.sockets in
      (
        port,
        record { taken = add port pool.taken; sockets = suc pool.sockets },
        rw (e, draw_port),
        length-add port pool.taken e,
      )

  draw_port_ends :
      (rounds k : ℕ) (pool : Pool)
      → k < rounds
      → contains (os_port (pool.sockets + k)) pool.taken ≡ false
      → Gives (draw_port os_port rounds) pool
  unfolding draw_port
  draw_port_ends zero k pool lt free = absurd (omega arith)
  draw_port_ends (suc rounds) zero pool lt free =
      let same : pool.sockets + 0 ≡ pool.sockets = omega arith in took rounds pool (rw same at free)
  draw_port_ends (suc rounds) (suc k) pool lt free =
      elim (Bool-cases (contains (os_port pool.sockets) pool.taken)) [
        | inr e ↦ took rounds pool e
        | inl e ↦
            let same : pool.sockets + suc k ≡ suc pool.sockets + k = omega arith in
            let (port, pool', gives, size) =
              draw_port_ends rounds k (record pool { sockets = suc pool.sockets }) (omega arith)
                (rw same at free) in
            (port, pool', rw (e, draw_port) gives, size)
      ]

  module _ (fuel : ℕ) (fair : Offers os_port fuel) where
    port_ends :
        (pool : Pool) → length pool.taken < fuel → Gives (get_free_random_port os_port fuel) pool
    unfolding get_free_random_port
    port_ends pool room =
        let (k, lt, free) = fair pool.taken pool.sockets room in draw_port_ends fuel k pool lt free

    -- Ports for all nodes are found. If the system offers a port that is not taken among any `fuel`
    -- sockets in a row while less than `fuel` are taken, and there is room for two ports for each node,
    -- then the loop over the nodes ends with as many nodes as were asked for.
    pub spin_ends :
        (n i : ℕ) (pool : Pool)
        → length pool.taken + 2 * n ≤ fuel
        → (cluster : List Machine) × (pool' : Pool) × (spin os_port fuel n i pool
            ≡ some (cluster, pool'))
          × (length cluster ≡ n)
    unfolding spin
    spin_ends zero i pool room = ([], pool, refl, refl)
    spin_ends (suc n) i pool room =
        let (port, pool1, e1, size1) = port_ends pool (omega arith) in
        let (rpc_port, pool2, e2, size2) = port_ends pool1 (omega arith) in
        let (rest, pool3, e3, size) = spin_ends n (suc i) pool2 (omega arith) in
        (
          new_node i port rpc_port ∷ rest,
          pool3,
          then_ (get_free_random_port os_port fuel) _ pool pool1 port e1 (
              then_ (get_free_random_port os_port fuel) _ pool1 pool2 rpc_port e2
                (then_ (spin os_port fuel n (suc i)) _ pool2 pool3 rest e3 refl)),
          omega arith,
        )

  offered : ℕ → ℕ → List ℕ
  offered start zero = []
  offered start (suc n) = os_port start ∷ offered (suc start) n

  module _ (injective : (a b : ℕ) → os_port a ≡ os_port b → a ≡ b) where
    not_offered : (a start n : ℕ) → a < start → contains (os_port a) (offered start n) ≡ false
    unfolding offered contains
    not_offered a start zero lt = refl
    not_offered a start (suc n) lt = elim (Bool-cases (os_port start == os_port a)) [
      | inr e ↦ rw (e, not_offered a (suc start) n (omega arith))
      | inl e ↦
          let same : os_port start ≡ os_port a = ground arith in
          let eq = injective start a same in absurd (omega arith)
    ]

    offered-Distinct : (start n : ℕ) → Distinct (offered start n)
    unfolding offered
    offered-Distinct start zero = tt
    offered-Distinct start (suc n) =
        (not_offered start (suc start) n (omega arith), offered-Distinct (suc start) n)

    offered-length : (start n : ℕ) → length (offered start n) ≡ n
    unfolding offered
    offered-length start zero = refl
    offered-length start (suc n) = let rest = offered-length (suc start) n in omega arith

    search :
        (start n : ℕ) (taken : List ℕ)
        → ((k : ℕ) × (k < n) × (contains (os_port (start + k)) taken ≡ false))
          ⊎ Within (offered start n) taken
    unfolding offered contains
    search start zero taken = inr (λ u here. absurd (cc here))
    search start (suc n) taken = elim (Bool-cases (contains (os_port start) taken)) [
      | inr e ↦
          inl (zero, omega arith, (let same : start + 0 ≡ start = omega arith in rw (same, e)))
      | inl e ↦ elim (search (suc start) n taken) [
        | inl (k, lt, free) ↦ inl (
          suc k,
          omega arith,
          (let same : start + suc k ≡ suc start + k = omega arith in rw same free),
        )
        | inr within ↦ inr (λ u here. elim (Bool-cases (os_port start == u)) [
          | inl g ↦
              let eq : os_port start ≡ u = ground arith in subst (λ u. contains u taken ≡ true) eq e
          | inr g ↦ within u (rw g at here)
        ])
      ]
    ]

    -- A system that never offers a port again offers enough.
    pub Offers-injective : (fuel : ℕ) → Offers os_port fuel
    Offers-injective fuel taken start room = elim (search start fuel taken) [
      | inl found ↦ found
      | inr within ↦
          let le =
            Distinct-length (offered start fuel) taken (offered-Distinct start fuel) within in
          let size = offered-length start fuel in absurd (omega arith)
    ]
