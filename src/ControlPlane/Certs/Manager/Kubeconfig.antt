-- ===== src/ControlPlane/Certs/Manager/Kubeconfig.antt =====
-- `LookupOrGenerateKubeconfig` as a whole.
use kink.Base.{
  Bool, true, false, ◌≡◌, refl, ◌⊎◌, inl, inr, [], ◌∷◌, ◌++◌, success, failed, Try, Error, ok, err,
  is_not_found, arith,
}
use kink.Api.{Cluster, KinkControlPlane, Secret, control_plane_group_version}
use kink.Platform.{Platform}
use kink.Client.{Client, Call, World, create_kubeconfig}
use kink.ControlPlane.Certs.Manager.{cluster_key, kubeconfig_key, lookup_or_generate_kubeconfig}

module _ (P : Platform) (kcp : KinkControlPlane) (cluster : Cluster) where
  -- The creation of the kubeconfig, for the cluster's endpoint and owned by the control plane.
  abbrev pub kubeconfig_call : Call
  kubeconfig_call =
      create_kubeconfig (cluster_key cluster) (P.endpoint_string cluster.control_plane_endpoint)
        (P.new_controller_ref kcp.meta control_plane_group_version "KinkControlPlane")

module _ (P : Platform) {C : Client} (kcp : KinkControlPlane) (cluster : Cluster) where
  -- The three ways in which the call ends, from what the server has answered.
  abbrev pub EndsAsAnswered : World C → Type 0
  EndsAsAnswered w =
      let (got, s) = C.get_secret (kubeconfig_key P cluster) w.server in
      let (result, w') = lookup_or_generate_kubeconfig P {C = C} kcp cluster w in
      ((sec : Secret) × (got ≡ success sec) × (result ≡ ok tt) × (w'.calls ≡ w.calls))
      ⊎ ((e : Error) × (got ≡ failed e)
          × (is_not_found e ≡ true)
          × (result ≡ (C.submit (kubeconfig_call P kcp cluster) s).0)
          × (w'.calls ≡ w.calls ++ (kubeconfig_call P kcp cluster ∷ [])))
      ⊎ ((e : Error) × (got ≡ failed e)
          × (is_not_found e ≡ false)
          × (result ≡ err e)
          × (w'.calls ≡ w.calls))

  -- The server hands out the kubeconfig: nothing is written, and the call succeeds. It says that
  -- there is none: the kubeconfig is created, once, for the cluster's endpoint and owned by the
  -- control plane, and the call ends as the creation does. It gives another error: nothing is
  -- written, and the call ends with this error.
  pub lookup_or_generate_kubeconfig-EndsAsAnswered : (w : World C) → EndsAsAnswered w
  unfolding lookup_or_generate_kubeconfig
  lookup_or_generate_kubeconfig-EndsAsAnswered w =
      go (C.get_secret (kubeconfig_key P cluster) w.server) refl
    where
      missing :
          (e : Error) (s : C.State)
          → C.get_secret (kubeconfig_key P cluster) w.server ≡ (failed e, s)
          → (b : Bool) → is_not_found e ≡ b
          → EndsAsAnswered w
      missing e s g true nf = inr (inl (e, ground arith, nf, ground arith, ground arith))
      missing e s g false nf = inr (inr (e, ground arith, nf, ground arith, ground arith))

      go :
          (r : Try Secret × C.State)
          → C.get_secret (kubeconfig_key P cluster) w.server ≡ r
          → EndsAsAnswered w
      go (success sec, s) g = inl (sec, ground arith, ground arith, ground arith)
      go (failed e, s) g = missing e s g (is_not_found e) refl
