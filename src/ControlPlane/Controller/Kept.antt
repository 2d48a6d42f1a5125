-- ===== src/ControlPlane/Controller/Kept.antt =====
-- The round of a control plane whose secrets are in place.
use kink.Base.{
  String, Bool, true, false, ◌||◌, ◌==◌, eq_iff, ◌≡◌, refl, List, [], ◌∷◌, ◌++◌, map, All, every,
  every-Perm, Action, success, arith, append-nil, Bool-cases, inl, inr,
}
use kink.Api.{Cluster, KinkControlPlane, Secret}
use kink.Platform.{Platform}
use kink.Client.{Client, Call, World, RangesAll}
use kink.Client.Grows.{Grows, Adds}
use kink.ControlPlane.Certs.Pki.{KinkCert, Kubeadm, Pki}
use kink.ControlPlane.Certs.Catalogue.{get_certs}
use kink.ControlPlane.Certs.Tree.{CertificateTree, as_map, cert_tree_from}
use kink.ControlPlane.Certs.Tree.Held.{held_entry, held_branch, cert_tree_from-held}
use kink.ControlPlane.Certs.Secrets.{secret_key, create_ca_secret, create_sa_secret}
use kink.ControlPlane.Certs.Manager.{kubeconfig_key, lookup_or_generate_kubeconfig}
use kink.ControlPlane.Certs.Manager.Calls.{cas_round-Grows}
use kink.ControlPlane.Controller.{provision}
use kink.ControlPlane.Controller.Frame.{IsScaling}
use kink.ControlPlane.Controller.Frame.Parts.{provision-Grows}
use kink.ControlPlane.Controller.Frame.Scaling.{machines-Scales, status-Scales}

-- The names that a round looks up besides the kubeconfig's: those of the certificates of `GetCerts`
-- and the service account's.
abbrev pub looked_up : Platform → Kubeadm → List String
looked_up P K = map (λ k. k.name) (get_certs P K) ++ ("sa" ∷ [])

-- Whenever it is asked, the server has a secret under each name that the round looks up.
abbrev pub HoldsSecrets : Platform → Client → Kubeadm → Cluster → Type 0
HoldsSecrets P C K cluster =
    (s : C.State)
    → All (λ name. (sec : Secret) × ((C.get_secret (secret_key cluster name) s).0 ≡ success sec))
        (looked_up P K)
      × ((sec : Secret) × ((C.get_secret (kubeconfig_key P cluster) s).0 ≡ success sec))

abbrev is_among : List String → String → Bool
is_among [] name = false
is_among (n ∷ ns) name = (n == name) || is_among ns name

among-All :
    (R : String → Type 0) (ns : List String) (name : String)
    → All R ns
    → is_among ns name ≡ true
    → R name
among-All R [] name h e = absurd (ground arith)
among-All R (n ∷ ns) name (h, hs) e = elim (Bool-cases (n == name)) [
  | inl same ↦ rw ((eq_iff n name).0 same) at h
  | inr other ↦ among-All R ns name hs (ground arith)
]

module _ (P : Platform) (K : Kubeadm) where
  certs-held : every (held_entry (is_among (looked_up P K))) (as_map (get_certs P K)) ≡ true
  unfolding as_map get_certs
  certs-held = refl

  sa-held : is_among (looked_up P K) "sa" ≡ true
  unfolding get_certs
  sa-held = refl

module _ (P : Platform) {C : Client} (pki : Pki C) (cluster : Cluster) (kcp : KinkControlPlane)
    (K : Kubeadm) (all : RangesAll C) (holds : HoldsSecrets P C K cluster) where
  abbrev HoldsOne : C.State → String → Type 0
  HoldsOne s name = (sec : Secret) × ((C.get_secret (secret_key cluster name) s).0 ≡ success sec)

  abbrev Q : Call → Type 0
  Q = IsScaling P C cluster kcp

  -- A lookup that succeeds, and then nothing.
  found-Grows :
      (w : World C) (m : Action (World C) (Unit {0}))
      → (m w).1.calls ≡ w.calls
      → Adds Q w.calls (m w).1
  found-Grows w m e = ([], ground (arith, append-nil w.calls), tt)

  secret-Grows :
      (k : KinkCert) (crt : pki.Certificate) (key : pki.Signer)
      → is_among (looked_up P K) k.name ≡ true
      → Grows Q (create_ca_secret P pki kcp cluster k crt key)
  unfolding create_ca_secret
  secret-Grows k crt key h w =
      let (sec, e) = among-All (HoldsOne w.server) (looked_up P K) k.name (holds w.server).0 h in
      found-Grows w (create_ca_secret P pki kcp cluster k crt key) (ground arith)

  sa-Grows :
      (crt : pki.RsaPublicKey) (key : pki.RsaPrivateKey)
      → Grows Q (create_sa_secret P pki kcp cluster "sa" crt key)
  unfolding create_sa_secret
  sa-Grows crt key w =
      let (sec, e) =
        among-All (HoldsOne w.server) (looked_up P K) "sa" (holds w.server).0 (sa-held P K) in
      found-Grows w (create_sa_secret P pki kcp cluster "sa" crt key) (ground arith)

  kubeconfig-Grows : Grows {C = C} Q (lookup_or_generate_kubeconfig P kcp cluster)
  unfolding lookup_or_generate_kubeconfig
  kubeconfig-Grows w =
      let (sec, e) = (holds w.server).1 in
      found-Grows w (lookup_or_generate_kubeconfig P kcp cluster) (ground arith)

  trees-held :
      (s t : C.State) (tree : CertificateTree)
      → cert_tree_from (as_map (get_certs P K)) (C.range_order _ s (as_map (get_certs P K))) []
        ≡ success tree
      → every (held_branch (is_among (looked_up P K))) (C.range_order _ t tree) ≡ true
  trees-held s t tree e =
      let held = is_among (looked_up P K) in
      let m = as_map (get_certs P K) in
      let order = C.range_order _ s m in
      every-Perm (held_branch held) tree (C.range_order _ t tree) (all _ t tree) (
        cert_tree_from-held held m (certs-held P K) order [] tree
          (every-Perm (held_entry held) m order (all _ s m) (certs-held P K)) refl e)

  -- If a `range` meets each entry of a map once, and whenever it is asked the server has a secret
  -- under each name that the round looks up, which are the names of the certificates of `GetCerts`,
  -- of the service account's key pair and of the kubeconfig, then `Reconcile` of a control plane makes
  -- behind its guards no call about a secret, whatever else the server answers and however the round
  -- ends: it creates machines of this control plane, deletes listed ones, and updates the control
  -- plane's status, and keeps all certificates and keys.
  pub provision-IsScaling :
      (w : World C) → Adds (IsScaling P C cluster kcp) w.calls (provision P K pki cluster kcp w).1
  provision-IsScaling =
      provision-Grows P K pki cluster kcp Q
        (cas_round-Grows P pki cluster kcp Q (is_among (looked_up P K)) secret-Grows sa-Grows K
          trees-held)
        kubeconfig-Grows (machines-Scales P C cluster kcp) (status-Scales P C cluster kcp)
