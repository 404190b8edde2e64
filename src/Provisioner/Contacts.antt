-- ===== src/Provisioner/Contacts.antt =====
-- The peers that main of paxos/custom_server.py reads from a node's configuration file.
use krafters.Prelude.{
  ℕ, ◌≡◌, refl, sym, ap, ◌∙◌, inl, inr, false, List, [], ◌∷◌, ◌++◌, some, Bool-cases, ◌==◌, arith,
  map,
}
use mathlib.Core.Path.{subst}
use krafters.Text.{Text}
use krafters.Paxos.Messages.{Among}
use krafters.Paxos.Messenger.{Address, same_address, uid_of, address_of}
use krafters.Paxos.Messenger.Addresses.{
  Apart, AllApart, Apart-Among, same_address_sym, uid_of-address_of,
}
use krafters.Provisioner.{Machine, PeerConfig, Config, Pool, peer_configs, get_node_config}
use krafters.Provisioner.Local.{spin}
use krafters.Provisioner.Ports.{contact, spin-contacts}

abbrev pub peer_contact : PeerConfig → ℕ × Address
peer_contact peer = (peer.id, (peer.address, peer.port))

-- {peer["id"]: (peer["address"], peer["port"]) for peer in configuration["peers"]}, and the host itself
unfoldable pub paxos_peers : Config → List (ℕ × Address)
paxos_peers configuration =
    map peer_contact configuration.peers
    ++ (configuration.host_id, (configuration.host_address, configuration.host_port)) ∷ []

abbrev others : List ℕ → ℕ → List Machine → List (ℕ × Address)
others extra id cluster = map peer_contact (peer_configs extra id cluster)

module _ (extra : List ℕ) (node : Machine) where
  Apart-others :
      (p : ℕ × Address) (cluster : List Machine)
      → Apart p (map contact cluster)
      → Apart p (others extra node.id cluster)
  unfolding peer_configs
  Apart-others p [] h = tt
  Apart-others p (m ∷ cluster) (names, addresses, h) = elim (Bool-cases (m.id == node.id)) [
    | inl e ↦ rw (e, peer_configs) (Apart-others p cluster h)
    | inr e ↦ rw (e, peer_configs) (names, addresses, Apart-others p cluster h)
  ]

  Apart-append :
      (p q : ℕ × Address) (xs : List (ℕ × Address))
      → Apart p xs
      → (p.0 == q.0) ≡ false
      → same_address p.1 q.1 ≡ false
      → Apart p (xs ++ q ∷ [])
  Apart-append p q [] h names addresses = (names, addresses, tt)
  Apart-append p q (x ∷ xs) (n, a, h) names addresses =
      (n, a, Apart-append p q xs h names addresses)

  Among-contacts :
      (m : Machine) (cluster : List Machine)
      → Among m cluster
      → Among (contact m) (map contact cluster)
  Among-contacts m [] here = absurd here
  Among-contacts m (n ∷ cluster) (inl e) = inl (ap contact e)
  Among-contacts m (n ∷ cluster) (inr later) = inr (Among-contacts m cluster later)

  -- The host behind the others.
  all_apart :
      (cluster : List Machine)
      → AllApart (map contact cluster)
      → ((m : Machine)
          → Among m cluster
          → (m.id == node.id) ≡ false
          → same_address (contact m).1 (contact node).1 ≡ false)
      → AllApart (others extra node.id cluster ++ contact node ∷ [])
  unfolding peer_configs
  all_apart [] h far = (tt, tt)
  all_apart (m ∷ cluster) (apart, h) far =
      let rest = all_apart cluster h (λ n later e. far n (inr later) e) in
      elim (Bool-cases (m.id == node.id)) [
        | inl e ↦ rw (e, peer_configs) rest
        | inr e ↦
            rw (e, peer_configs)
              (
                Apart-append (contact m) (contact node) (others extra node.id cluster)
                    (Apart-others (contact m) cluster apart) e (far m (inl refl) e),
                rest,
              )
      ]

  -- Two nodes with different names have different addresses.
  far_apart :
      (a b : Machine) (cluster : List Machine)
      → AllApart (map contact cluster)
      → Among a cluster
      → Among b cluster
      → (a.id == b.id) ≡ false
      → same_address (contact a).1 (contact b).1 ≡ false
  far_apart a b [] h a_in b_in e = absurd a_in
  far_apart a b (m ∷ cluster) (apart, h) (inl g) (inl f) e =
      let same : a.id ≡ b.id = sym (ap Machine.id g) ∙ ap Machine.id f in absurd (ground arith)
  far_apart a b (m ∷ cluster) (apart, h) (inl g) (inr later) e =
      subst (λ a. same_address (contact a).1 (contact b).1 ≡ false) g
        (Apart-Among (contact m) (contact b) (map contact cluster) apart
          (Among-contacts b cluster later)).1
  far_apart a b (m ∷ cluster) (apart, h) (inr later) (inl f) e =
      same_address_sym (contact a).1 (contact b).1
      ∙ subst (λ b. same_address (contact b).1 (contact a).1 ≡ false) f
          (Apart-Among (contact m) (contact a) (map contact cluster) apart
            (Among-contacts a cluster later)).1
  far_apart a b (m ∷ cluster) (apart, h) (inr later) (inr later') e =
      far_apart a b cluster h later later' e

  Among-last : (p : ℕ × Address) (xs : List (ℕ × Address)) → Among p (xs ++ p ∷ [])
  Among-last p [] = inl refl
  Among-last p (x ∷ xs) = inr (Among-last p xs)

  Among-left : (p q : ℕ × Address) (xs : List (ℕ × Address)) → Among p xs → Among p (xs ++ q ∷ [])
  Among-left p q [] here = absurd here
  Among-left p q (x ∷ xs) (inl e) = inl e
  Among-left p q (x ∷ xs) (inr later) = inr (Among-left p q xs later)

  Among-others :
      (m : Machine) (cluster : List Machine)
      → Among m cluster
      → (m.id == node.id) ≡ false
      → Among (contact m) (others extra node.id cluster)
  unfolding peer_configs
  Among-others m [] here e = absurd here
  Among-others m (n ∷ cluster) (inl g) e =
      let other : (n.id == node.id) ≡ false = rw g e in
      rw (other, peer_configs) (inl (ap contact g))
  Among-others m (n ∷ cluster) (inr later) e = elim (Bool-cases (n.id == node.id)) [
    | inl g ↦ rw (g, peer_configs) (Among-others m cluster later e)
    | inr g ↦ rw (g, peer_configs) (inr (Among-others m cluster later e))
  ]

-- The nodes of a local cluster find each other. In the file of every node, the name of each other node
-- has the address that it listens on, and packets from that address are taken as its packets.
pub spin-address_of :
    (os_port : ℕ → ℕ) (fuel n i : ℕ) (pool pool' : Pool) (cluster : List Machine)
    → spin os_port fuel n i pool ≡ some (cluster, pool')
    → (mode : Text) (extra : List ℕ) (node m : Machine) → Among node cluster
    → Among m cluster
    → (m.id == node.id) ≡ false
    → let peers = paxos_peers (get_node_config cluster node mode extra) in
      (address_of m.id peers ≡ some (m.address, m.port))
      × (uid_of (m.address, m.port) peers ≡ some m.id)
unfolding paxos_peers get_node_config
spin-address_of os_port fuel n i pool pool' cluster e mode extra node m node_in m_in other =
    let apart = spin-contacts os_port fuel n i pool pool' cluster e in
    uid_of-address_of m.id (m.address, m.port) (others extra node.id cluster ++ contact node ∷ [])
      (all_apart extra node cluster apart
        (λ a a_in differ. far_apart extra node a node cluster apart a_in node_in differ))
      (Among-left extra node (contact m) (contact node) (others extra node.id cluster)
        (Among-others extra node m cluster m_in other))
