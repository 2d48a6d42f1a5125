-- ===== src/ControlPlane/Controller/Returns.antt =====
-- How the round of a control plane ends.
use kink.Base.{
  ℕ, ◌<◌, some, pos, int32_half, Bool, true, false, ◌≡◌, refl, List, String, success, failed, Try,
  Error, Action, pure, attempt, wrapping, IsReturned, >>=-IsReturned, attempt-IsReturned, arith,
  is_not_found,
}
use kink.Api.{Cluster, ClusterNetwork, KinkControlPlane, KinkMachine, Secret}
use kink.Platform.{Platform}
use kink.Client.{Client, NeverPanics, RangesAll, World, read, write, update_control_plane_status}
use kink.Reconcile.{then, Outcome, done, retry, retry_with}
use kink.ControlPlane.Certs.Pki.{Kubeadm, Pki}
use kink.ControlPlane.Certs.AltNames.{svc_subnet}
use kink.ControlPlane.Certs.Manager.{
  lookup_or_generate_cas, lookup_or_generate_kubeconfig, kubeconfig_key,
}
use kink.ControlPlane.Certs.Manager.Kubeconfig.{kubeconfig_call}
use kink.ControlPlane.Certs.Manager.Returns.{MakesRsaKeys}
use kink.ControlPlane.Certs.Manager.Whole.{lookup_or_generate_cas-IsReturned}
use kink.ControlPlane.Scale.{desired_replicas, lookup_or_create_machines}
use kink.ControlPlane.Scale.Bounds.{lookup_or_create_machines_bounds}
use kink.ControlPlane.Status.{
  report_control_plane_status, with_replicas, count_replicas, no_replicas,
}
use kink.ControlPlane.Controller.{provision}

module _ (P : Platform) (K : Kubeadm) {C : Client} (calm : NeverPanics C) (kcp : KinkControlPlane)
    (cluster : Cluster) where
  kubeconfig-IsReturned :
      (w : World C) → IsReturned (lookup_or_generate_kubeconfig P {C = C} kcp cluster w).0
  unfolding lookup_or_generate_kubeconfig
  kubeconfig-IsReturned w = go (C.get_secret (kubeconfig_key P cluster) w.server) refl
    where
      missing :
          (e : Error) (s : C.State)
          → C.get_secret (kubeconfig_key P cluster) w.server ≡ (failed e, s)
          → (b : Bool) → is_not_found e ≡ b
          → IsReturned (lookup_or_generate_kubeconfig P {C = C} kcp cluster w).0
      missing e s g true nf = ground (arith, calm (kubeconfig_call P kcp cluster) s tt)
      missing e s g false nf = ground arith

      go :
          (r : Try Secret × C.State)
          → C.get_secret (kubeconfig_key P cluster) w.server ≡ r
          → IsReturned (lookup_or_generate_kubeconfig P {C = C} kcp cluster w).0
      go (success sec, s) g = ground arith
      go (failed e, s) g = missing e s g (is_not_found e) refl

  status-IsReturned : (w : World C) → IsReturned (report_control_plane_status P {C = C} kcp w).0
  unfolding report_control_plane_status
  status-IsReturned w =
      let list = C.list_machines kcp.meta.namespace kcp.spec.cluster_name in
      let update : List KinkMachine → Action (World C) (Unit {0}) = λ kms.
        write (
          update_control_plane_status (with_replicas kcp (count_replicas P kcp kms no_replicas))) in
      >>=-IsReturned (wrapping "failed to list machines" (read list)) update w (ground arith)
        (λ kms v _.
          calm
            (update_control_plane_status (with_replicas kcp (count_replicas P kcp kms no_replicas)))
            v.server tt)

  then-IsReturned :
      (m : Action (World C) (Unit {0})) (stop : Error → Outcome) (rest : Action (World C) Outcome)
      → ((w : World C) → IsReturned (m w).0)
      → ((w : World C) → IsReturned (rest w).0)
      → (w : World C) → IsReturned (then m stop rest w).0
  then-IsReturned m stop rest first later w =
      let next : Try (Unit {0}) → Action (World C) Outcome =
        λ t. elim t [ failed e ↦ pure (stop e) | success _ ↦ rest ] in
      >>=-IsReturned (attempt m) next w (attempt-IsReturned m w (first w))
        (λ t v _. elim t as (λ t. IsReturned (next t v).0) [ failed e ↦ tt | success _ ↦ later v ])

  -- Behind its guards the round of a control plane returns, whatever else the server answers, if no
  -- write call panics, a `range` meets each entry of a map once, all keys are RSA keys that can be
  -- encoded, the cluster sets its network and its services, and the number of replicas is neither
  -- negative nor above what an `int32` holds.
  pub provision-IsReturned :
      RangesAll C
      → (pki : Pki C) → MakesRsaKeys pki
      → {network : ClusterNetwork} {subnet : String} → svc_subnet cluster ≡ some (network, subnet)
      → (r : ℕ) → desired_replicas kcp ≡ pos r
      → r < int32_half
      → (w : World C) → IsReturned (provision P K pki cluster kcp w).0
  unfolding provision
  provision-IsReturned all pki keys net r wanted bound =
      let cas = lookup_or_generate_cas P pki kcp cluster K in
      let kubeconfig : Action (World C) (Unit {0}) =
        wrapping "failed to retrieve kubeconfig Secret"
          (lookup_or_generate_kubeconfig P kcp cluster) in
      let machines = lookup_or_create_machines P {C = C} cluster kcp in
      let report = report_control_plane_status P {C = C} kcp in
      let from_report = then report retry_with (pure done) in
      let from_machines = then machines retry_with from_report in
      let wrapped : (w : World C) → IsReturned (kubeconfig w).0 =
        λ w. ground (arith, kubeconfig-IsReturned w) in
      then-IsReturned cas (λ _. retry) (then kubeconfig retry_with from_machines)
        (lookup_or_generate_cas-IsReturned P K calm all pki keys kcp cluster net)
        (then-IsReturned kubeconfig retry_with from_machines wrapped (
          then-IsReturned machines retry_with from_report
            (λ w. (lookup_or_create_machines_bounds P calm cluster kcp r bound wanted w).0)
            (then-IsReturned report retry_with (pure done) status-IsReturned (λ _. tt))))
