-- ===== src/Paxos/Messenger/Addresses.antt =====
-- The two-way mapping of names and addresses.
use krafters.Prelude.{ℕ, ◌≡◌, refl, inl, inr, true, false, List, [], ◌∷◌, none, some, ◌==◌, arith}
use mathlib.Core.Path.{subst}
use krafters.Text.{Text, text_eq, text_eq_refl}
use krafters.Paxos.Messages.{Among}
use krafters.Paxos.Messenger.{Address, same_address, uid_of, address_of}

-- No two peers have one name, and no two have one address.
abbrev pub Apart : ℕ × Address → List (ℕ × Address) → Type 0
Apart p [] = Unit {0}
Apart p (q ∷ rest) = ((p.0 == q.0) ≡ false) × (same_address p.1 q.1 ≡ false) × Apart p rest

abbrev pub AllApart : List (ℕ × Address) → Type 0
AllApart [] = Unit {0}
AllApart (p ∷ rest) = Apart p rest × AllApart rest

text_eq_sym : (a b : Text) → text_eq a b ≡ text_eq b a
unfolding text_eq
text_eq_sym [] [] = refl
text_eq_sym [] (b ∷ bs) = refl
text_eq_sym (a ∷ as_) [] = refl
text_eq_sym (a ∷ as_) (b ∷ bs) = ground (arith, text_eq_sym as_ bs)

same_address_refl : (a : Address) → same_address a a ≡ true
unfolding same_address
same_address_refl a = ground (arith, text_eq_refl a.0)

pub same_address_sym : (a b : Address) → same_address a b ≡ same_address b a
unfolding same_address
same_address_sym a b = ground (arith, text_eq_sym a.0 b.0)

pub Apart-Among :
    (p q : ℕ × Address) (rest : List (ℕ × Address))
    → Apart p rest
    → Among q rest
    → ((p.0 == q.0) ≡ false) × (same_address p.1 q.1 ≡ false)
Apart-Among p q [] h found = absurd found
Apart-Among p q (r ∷ rest) (names, addresses, h) (inl e) = rw (← e) (names, addresses)
Apart-Among p q (r ∷ rest) (names, addresses, h) (inr later) = Apart-Among p q rest h later

uid_of-none :
    (uid : ℕ) (a : Address) (rest : List (ℕ × Address)) → Apart (uid, a) rest → uid_of a rest ≡ none
unfolding uid_of
uid_of-none uid a [] h = refl
uid_of-none uid a ((u, b) ∷ rest) (names, apart, h) =
    rw (uid_of-none uid a rest h, same_address_sym b a, apart)

address_of-none :
    (uid : ℕ) (a : Address) (rest : List (ℕ × Address))
    → Apart (uid, a) rest
    → address_of uid rest ≡ none
unfolding address_of
address_of-none uid a [] h = refl
address_of-none uid a ((u, b) ∷ rest) (names, apart, h) =
    ground (arith, address_of-none uid a rest h)

found_first :
    (p : ℕ × Address) (rest : List (ℕ × Address))
    → Apart p rest
    → (address_of p.0 (p ∷ rest) ≡ some p.1) × (uid_of p.1 (p ∷ rest) ≡ some p.0)
unfolding uid_of address_of
found_first (u, b) rest apart =
    let same : (u == u) ≡ true = ground arith in
    (
      rw (address_of-none u b rest apart, same),
      rw (uid_of-none u b rest apart, same_address_refl b),
    )

-- Names and addresses are found from each other. Where no two peers share a name or an address, the
-- address that a packet for a peer goes to is the one whose packets are taken as that peer's.
pub uid_of-address_of :
    (uid : ℕ) (a : Address) (peers : List (ℕ × Address))
    → AllApart peers
    → Among (uid, a) peers
    → (address_of uid peers ≡ some a) × (uid_of a peers ≡ some uid)
unfolding uid_of address_of
uid_of-address_of uid a [] h found = absurd found
uid_of-address_of uid a ((u, b) ∷ rest) (apart, h) (inl e) =
    subst
      (λ p. (address_of p.0 ((u, b) ∷ rest) ≡ some p.1) × (uid_of p.1 ((u, b) ∷ rest) ≡ some p.0)) e
      (found_first (u, b) rest apart)
uid_of-address_of uid a ((u, b) ∷ rest) (apart, h) (inr later) =
    let (to, from) = uid_of-address_of uid a rest h later in (rw to, rw from)
