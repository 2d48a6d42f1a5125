-- ===== src/ControlPlane/Certs/Manager/Whole.antt =====
-- How `LookupOrGenerateCAs` ends.
use kink.Base.{
  or_raise-IsReturned, or_raise-eq-ok, every, every-Perm, every-append, Bool, true, false, ◌==◌,
  ◌≡◌, refl, some, List, [], ◌∷◌, Dict, lookup, success, failed, Try, Error, arith, IsReturned,
  >>=-IsReturned, Action, or_panic, or_raise, ◌>>=◌, Option-cases, inl, inr, Bool-cases, String,
  is_not_found,
}
use kink.Api.{Cluster, ClusterNetwork, KinkControlPlane, Secret}
use kink.Platform.{Platform}
use kink.Client.{Client, NeverPanics, RangesAll, World, read, create_secret}
use kink.ControlPlane.Certs.Pki.{KinkCert, Kubeadm, Pki}
use kink.ControlPlane.Certs.AltNames.{svc_subnet}
use kink.ControlPlane.Certs.AltNames.Covers.{add_alt_names-returns}
use kink.ControlPlane.Certs.Catalogue.{get_config, mutate, get_certs, api_server_cert}
use kink.ControlPlane.Certs.Tree.{
  CertificateMap, CertificateTree, as_map, add_leaves, place, cert_tree_from,
}
use kink.ControlPlane.Certs.Tree.Shape.{Try-cases}
use kink.ControlPlane.Certs.Secrets.{secret_key, secret_with, build_sa_secret, create_sa_secret}
use kink.ControlPlane.Certs.Manager.{create_tree, lookup_or_generate_cas}
use kink.ControlPlane.Certs.Manager.Pair.{sa_private, sa_public, sa_pair}
use kink.ControlPlane.Certs.Manager.Returns.{
  MakesRsaKeys, is_configurable, all_configurable, entry_configurable, tree_configurable,
  create_cas-IsReturned,
}

module _ (cluster : Cluster) where
  abbrev entries_configurable : Dict KinkCert → Bool
  entries_configurable = every (λ e. is_configurable cluster e.1)

  lookup-configurable :
      (m : CertificateMap) (n : String) (c : KinkCert)
      → entries_configurable m ≡ true
      → lookup n m ≡ some c
      → is_configurable cluster c ≡ true
  lookup-configurable [] n c h e = absurd (ground arith)
  lookup-configurable ((k, d) ∷ m) n c h e = elim (Bool-cases (n == k)) [
    | inl here ↦ let same : c ≡ d = ground arith in rw same (ground arith)
    | inr there ↦ lookup-configurable m n c (ground arith) (ground arith)
  ]

  add_leaves-configurable :
      (ca : KinkCert) (leaves : List KinkCert) (tree : CertificateTree)
      → is_configurable cluster ca ≡ true
      → all_configurable cluster leaves ≡ true
      → tree_configurable cluster tree ≡ true
      → tree_configurable cluster (add_leaves ca leaves tree) ≡ true
  unfolding add_leaves
  add_leaves-configurable ca leaves [] a b c = ground arith
  add_leaves-configurable ca leaves ((ca', ls) ∷ tree) a b c = ground (
    arith,
    every-append (is_configurable cluster) ls leaves,
    add_leaves-configurable ca leaves tree,
  )

  place-configurable :
      (m : CertificateMap) (cert : KinkCert) (tree tree' : CertificateTree)
      → entries_configurable m ≡ true
      → is_configurable cluster cert ≡ true
      → tree_configurable cluster tree ≡ true
      → place m cert tree ≡ success tree'
      → tree_configurable cluster tree' ≡ true
  unfolding place
  place-configurable m cert tree tree' known a b e = elim (Bool-cases (cert.ca_name == "")) [
    | inl root ↦
        let same : tree' ≡ add_leaves cert [] tree = ground arith in
        rw same (add_leaves-configurable cert [] tree a refl b)
    | inr leaf ↦ elim (Option-cases (lookup cert.ca_name m)) [
      | inl unknown ↦ absurd (ground arith)
      | inr (ca, found) ↦
          let same : tree' ≡ add_leaves ca (cert ∷ []) tree = ground arith in
          rw same (
            add_leaves-configurable ca (cert ∷ []) tree
              (lookup-configurable m cert.ca_name ca known found) (ground arith) b)
    ]
  ]

  cert_tree-configurable :
      (m : CertificateMap) (order : Dict KinkCert) (tree tree' : CertificateTree)
      → entries_configurable m ≡ true
      → entries_configurable order ≡ true
      → tree_configurable cluster tree ≡ true
      → cert_tree_from m order tree ≡ success tree'
      → tree_configurable cluster tree' ≡ true
  unfolding cert_tree_from
  cert_tree-configurable m [] tree tree' known h b e =
      let same : tree' ≡ tree = ground arith in rw same b
  cert_tree-configurable m ((n, cert) ∷ rest) tree tree' known h b e =
      elim (Try-cases (place m cert tree)) [
        | inl (x, bad) ↦ absurd (ground arith)
        | inr (next, good) ↦
            cert_tree-configurable m rest next tree' known (ground arith)
              (place-configurable m cert tree next known (ground arith) b good) (ground arith)
      ]

module _ (P : Platform) (K : Kubeadm) (cluster : Cluster) {network : ClusterNetwork}
    {subnet : String} (net : svc_subnet cluster ≡ some (network, subnet)) where
  api_server-configurable : is_configurable cluster (api_server_cert P K) ≡ true
  unfolding get_config mutate
  api_server-configurable =
      let (cfg, e) =
        add_alt_names-returns P K (api_server_cert P K).config cluster network subnet net in
      ground (arith, e)

  own-configurable : entries_configurable cluster (as_map (get_certs P K)) ≡ true
  unfolding as_map get_certs get_config mutate
  own-configurable = ground (arith, api_server-configurable)

module _ (P : Platform) (K : Kubeadm) {C : Client} (calm : NeverPanics C) (all : RangesAll C)
    (pki : Pki C) (keys : MakesRsaKeys pki) (kcp : KinkControlPlane) (cluster : Cluster) where
  sa-IsReturned :
      (name : String) (crt : pki.RsaPublicKey) (key : pki.RsaPrivateKey) (w : World C)
      → IsReturned (create_sa_secret P pki kcp cluster name crt key w).0
  unfolding create_sa_secret build_sa_secret
  sa-IsReturned name crt key w = go (C.get_secret (secret_key cluster name) w.server) refl
    where
      missing :
          (e : Error) (s : C.State)
          → C.get_secret (secret_key cluster name) w.server ≡ (failed e, s)
          → (b : Bool) → is_not_found e ≡ b
          → (t : Try String) → pki.encode_public_key_pem crt ≡ t
          → IsReturned (create_sa_secret P pki kcp cluster name crt key w).0
      missing e s g false nf t a = ground arith
      missing e s g true nf (failed x) a = absurd (keys.encoded crt x a)
      missing e s g true nf (success text) a = ground (
        arith,
        calm (create_secret (secret_with P kcp cluster name text (pki.encode_private_key_pem key)))
            s tt,
      )

      go :
          (r : Try Secret × C.State)
          → C.get_secret (secret_key cluster name) w.server ≡ r
          → IsReturned (create_sa_secret P pki kcp cluster name crt key w).0
      go (success sec, s) g = ground arith
      go (failed e, s) g = missing e s g (is_not_found e) refl (pki.encode_public_key_pem crt) refl

  sa_pair-IsReturned :
      (key : pki.Signer) (w : World C) → IsReturned ((sa_pair P pki kcp cluster) key w).0
  sa_pair-IsReturned key w =
      >>=-IsReturned (or_panic (pki.public_rsa key)) ((sa_public P pki kcp cluster) key) w
        (ground (arith, keys.public key))
        (λ public v _.
          >>=-IsReturned (or_panic (pki.as_rsa key)) ((sa_private P pki kcp cluster) public) v
            (ground (arith, keys.private key)) (λ private u _. sa-IsReturned "sa" public private u))

  tree-IsReturned :
      (tree : CertificateTree) (w : World C)
      → tree_configurable cluster tree ≡ true
      → IsReturned (create_tree P pki kcp cluster tree w).0
  unfolding create_tree
  tree-IsReturned tree w h =
      create_cas-IsReturned P calm pki keys kcp cluster (C.range_order _ w.server tree) w (
        every-Perm (entry_configurable cluster) tree (C.range_order _ w.server tree)
          (all _ w.server tree) h)

  -- If no write call panics, a `range` meets each entry of a map once, all keys are RSA keys that can
  -- be encoded, and the cluster sets its network and its services, then `LookupOrGenerateCAs`
  -- returns, whatever else the server answers.
  pub lookup_or_generate_cas-IsReturned :
      {network : ClusterNetwork} {subnet : String}
      → svc_subnet cluster ≡ some (network, subnet)
      → (w : World C) → IsReturned (lookup_or_generate_cas P pki kcp cluster K w).0
  unfolding lookup_or_generate_cas
  lookup_or_generate_cas-IsReturned net w =
      let m = as_map (get_certs P K) in
      let own = own-configurable P K cluster net in
      let order = C.range_order _ w.server m in
      let ordered = every-Perm (λ e. is_configurable cluster e.1) m order (all _ w.server m) own in
      let pair : Action (World C) (Unit {0}) =
        read pki.new_private_key >>= (sa_pair P pki kcp cluster) in
      let run : CertificateTree → Action (World C) (Unit {0}) =
        λ tree. create_tree P pki kcp cluster tree >>= λ _. pair in
      >>=-IsReturned (or_raise (cert_tree_from m order [])) run w
        (or_raise-IsReturned (cert_tree_from m order []) w)
        (λ tree v made.
          >>=-IsReturned (create_tree P pki kcp cluster tree) (λ _. pair) v
            (tree-IsReturned tree v (
              cert_tree-configurable cluster m order [] tree own ordered refl
                (or_raise-eq-ok (cert_tree_from m order []) w made)))
            (λ _ u _.
              >>=-IsReturned (read pki.new_private_key) (sa_pair P pki kcp cluster) u (ground arith)
                (λ key t _. sa_pair-IsReturned key t)))
