-- ===== src/ControlPlane/Certs/Manager/Calls.antt =====
-- The calls of the manager's certificates: those of the two functions that create a secret.
use kink.Base.{
  Bool, true, ◌≡◌, some, success, every, arith, Option-cases, inl, inr, Dict, String, List, [], ◌∷◌,
  Action, wrapping, or_panic, or_raise, ◌>>=◌,
}
use kink.Api.{Cluster, KinkControlPlane}
use kink.Platform.{Platform}
use kink.Client.{Client, Call, World, read}
use kink.Client.Grows.{
  Grows, Adds-none, >>=-Grows, wrapping-Grows, read-Grows, or_panic-Grows, or_panic->>=-Grows,
  or_raise->>=-Grows, range->>=-Grows,
}
use kink.ControlPlane.Certs.Pki.{KinkCert, Kubeadm, Pki}
use kink.ControlPlane.Certs.Catalogue.{mutate, get_config, get_certs}
use kink.ControlPlane.Certs.Tree.{CertificateTree, as_map, cert_tree_from}
use kink.ControlPlane.Certs.Tree.Held.{held_leaf, held_branch}
use kink.ControlPlane.Certs.Secrets.{
  write_failure, create_ca_secret, create_sa_secret, create_from_ca,
}
use kink.ControlPlane.Certs.Manager.Pair.{sa_private, sa_public, sa_pair}
use kink.ControlPlane.Certs.Manager.{
  create_leaves, store_ca, create_ca, create_cas, create_tree, lookup_or_generate_cas,
}

get_config-name :
    (k k' : KinkCert) (cluster : Cluster) → get_config k cluster ≡ some k' → k'.name ≡ k.name
unfolding get_config
get_config-name k k' cluster e = elim (Option-cases (mutate k.config_mutators k.config cluster)) [
  | inl bad ↦ absurd (ground arith)
  | inr (cfg, good) ↦ ground arith
]

module _ (P : Platform) {C : Client} (pki : Pki C) (cluster : Cluster) (kcp : KinkControlPlane)
    (Q : Call → Type 0) (held : String → Bool)
    (secret : (k : KinkCert) (crt : pki.Certificate) (key : pki.Signer)
      → held k.name ≡ true
      → Grows Q (create_ca_secret P pki kcp cluster k crt key))
    (sa : (crt : pki.RsaPublicKey) (key : pki.RsaPrivateKey)
      → Grows Q (create_sa_secret P pki kcp cluster "sa" crt key)) where
  leaf-Grows :
      (leaf : KinkCert) (ca_cert : pki.Certificate) (ca_key : pki.Signer)
      → held leaf.name ≡ true
      → Grows {C = C} Q (create_from_ca P pki kcp cluster leaf ca_cert ca_key)
  unfolding create_from_ca
  leaf-Grows leaf ca_cert ca_key h =
      or_panic->>=-Grows Q (get_config leaf cluster)
        (λ k. read (pki.new_cert_and_key ca_cert ca_key k.config) >>= λ p.
          wrapping (write_failure cluster leaf) (create_ca_secret P pki kcp cluster k p.0 p.1))
        (λ k e.
          >>=-Grows Q (read (pki.new_cert_and_key ca_cert ca_key k.config))
            (λ p.
              wrapping (write_failure cluster leaf) (create_ca_secret P pki kcp cluster k p.0 p.1))
            (read-Grows Q (pki.new_cert_and_key ca_cert ca_key k.config))
            (λ p.
              wrapping-Grows Q (write_failure cluster leaf)
                (create_ca_secret P pki kcp cluster k p.0 p.1)
                (secret k p.0 p.1 (ground (arith, get_config-name leaf k cluster e)))))

  leaves-Grows :
      (leaves : List KinkCert) (ca_cert : pki.Certificate) (ca_key : pki.Signer)
      → every (held_leaf held) leaves ≡ true
      → Grows {C = C} Q (create_leaves P pki kcp cluster leaves ca_cert ca_key)
  unfolding create_leaves
  leaves-Grows [] ca_cert ca_key h = λ w. Adds-none Q w
  leaves-Grows (leaf ∷ rest) ca_cert ca_key h =
      >>=-Grows Q (create_from_ca P pki kcp cluster leaf ca_cert ca_key)
        (λ _. create_leaves P pki kcp cluster rest ca_cert ca_key)
        (leaf-Grows leaf ca_cert ca_key (ground arith))
        (λ _. leaves-Grows rest ca_cert ca_key (ground arith))

  ca-Grows :
      (ca : KinkCert) (leaves : List KinkCert)
      → held_branch held (ca, leaves) ≡ true
      → Grows {C = C} Q (create_ca P pki kcp cluster ca leaves)
  unfolding create_ca store_ca
  ca-Grows ca leaves h =
      let store : KinkCert → pki.Certificate × pki.Signer → Action (World C) (Unit {0}) =
        λ k p. store_ca P pki kcp cluster ca k leaves p.0 p.1 in
      or_panic->>=-Grows Q (get_config ca cluster)
        (λ k. read (pki.new_certificate_authority k.config) >>= store k)
        (λ k e.
          >>=-Grows Q (read (pki.new_certificate_authority k.config)) (store k)
            (read-Grows Q (pki.new_certificate_authority k.config))
            (λ p.
              >>=-Grows Q
                (wrapping (write_failure cluster ca) (create_ca_secret P pki kcp cluster k p.0 p.1))
                (λ _. create_leaves P pki kcp cluster leaves p.0 p.1)
                (wrapping-Grows Q (write_failure cluster ca)
                  (create_ca_secret P pki kcp cluster k p.0 p.1)
                  (secret k p.0 p.1 (ground (arith, get_config-name ca k cluster e))))
                (λ _. leaves-Grows leaves p.0 p.1 (ground arith))))

  cas-Grows :
      (tree : CertificateTree)
      → every (held_branch held) tree ≡ true
      → Grows {C = C} Q (create_cas P pki kcp cluster tree)
  unfolding create_cas
  cas-Grows [] h = λ w. Adds-none Q w
  cas-Grows ((ca, leaves) ∷ rest) h =
      >>=-Grows Q (create_ca P pki kcp cluster ca leaves) (λ _. create_cas P pki kcp cluster rest)
        (ca-Grows ca leaves (ground arith)) (λ _. cas-Grows rest (ground arith))

  sa_pair-Grows : (key : pki.Signer) → Grows Q ((sa_pair P pki kcp cluster) key)
  sa_pair-Grows key =
      >>=-Grows Q (or_panic (pki.public_rsa key)) ((sa_public P pki kcp cluster) key)
        (or_panic-Grows Q (pki.public_rsa key))
        (λ public.
          >>=-Grows Q (or_panic (pki.as_rsa key)) ((sa_private P pki kcp cluster) public)
            (or_panic-Grows Q (pki.as_rsa key)) (λ private. sa public private))

  -- The tests hold of every tree that the round may make, in whatever order it is run through.
  abbrev pub HoldsTrees : Kubeadm → Type 0
  HoldsTrees K =
      let m = as_map (get_certs P K) in
      (s t : C.State) (tree : CertificateTree)
      → cert_tree_from m (C.range_order _ s m) [] ≡ success tree
      → every (held_branch held) (C.range_order _ t tree) ≡ true

  pub cas_round-Grows :
      (K : Kubeadm) → HoldsTrees K → Grows Q (lookup_or_generate_cas P pki kcp cluster K)
  unfolding lookup_or_generate_cas create_tree
  cas_round-Grows K trees =
      let m = as_map (get_certs P K) in
      let keys : Action (World C) (Unit {0}) =
        read pki.new_private_key >>= (sa_pair P pki kcp cluster) in
      let run : CertificateTree → Action (World C) (Unit {0}) =
        λ tree. create_tree P pki kcp cluster tree >>= λ _. keys in
      let build : Dict KinkCert → Action (World C) (Unit {0}) =
        λ order. or_raise (cert_tree_from m order []) >>= run in
      range->>=-Grows Q m build (λ s.
        or_raise->>=-Grows Q (cert_tree_from m (C.range_order _ s m) []) run (λ tree e.
          >>=-Grows Q (create_tree P pki kcp cluster tree) (λ _. keys)
            (range->>=-Grows Q tree (create_cas P pki kcp cluster)
              (λ t. cas-Grows (C.range_order _ t tree) (trees s t tree e)))
            (λ _.
              >>=-Grows Q (read pki.new_private_key) (sa_pair P pki kcp cluster)
                (read-Grows Q pki.new_private_key) sa_pair-Grows)))
