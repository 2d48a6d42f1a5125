-- ===== src/ControlPlane/Controller.antt =====
-- `Reconcile` of kinkcontrolplane_controller.go.
pub mod Guards
pub mod Steps
pub mod Frame
pub mod Kept
pub mod Returns
use kink.Base.{
  true, false, ◌||◌, not, Action, pure, attempt, wrapping, ◌>>=◌, success, failed, is_not_found,
  if◌then◌else◌,
}
use kink.Api.{NamespacedName, Cluster, KinkControlPlane}
use kink.Platform.{Platform}
use kink.Client.{Client, World, read}
use kink.Reconcile.{Outcome, done, retry, retry_with}
use kink.ControlPlane.Certs.Pki.{Kubeadm, Pki}
use kink.ControlPlane.Certs.Manager.{lookup_or_generate_cas, lookup_or_generate_kubeconfig}
use kink.ControlPlane.Scale.{lookup_or_create_machines}
use kink.ControlPlane.Status.{report_control_plane_status}

abbrev pub cluster_of_control_plane : KinkControlPlane → NamespacedName
cluster_of_control_plane kcp = record {
  namespace = kcp.meta.namespace;
  name = kcp.spec.cluster_name;
}

module _ (P : Platform) (K : Kubeadm) {C : Client} (pki : Pki C) where
  -- Steps 2 to 5.
  unfoldable pub provision : Cluster → KinkControlPlane → Action (World C) Outcome
  provision cluster kcp = do
    cas ← attempt (lookup_or_generate_cas P pki kcp cluster K)
    elim cas [
      | failed e ↦ pure retry
      | success _ ↦ do
        kubeconfig ← attempt (
            wrapping "failed to retrieve kubeconfig Secret"
              (lookup_or_generate_kubeconfig P kcp cluster))
        elim kubeconfig [
          | failed e ↦ pure (retry_with e)
          | success _ ↦ do
            machines ← attempt (lookup_or_create_machines P cluster kcp)
            elim machines [
              | failed e ↦ pure (retry_with e)
              | success _ ↦ do
                status ← attempt (report_control_plane_status P kcp)
                elim status [ failed e ↦ pure (retry_with e) | success _ ↦ pure done ]
            ]
        ]
    ]

  -- The two guards on the cluster.
  unfoldable pub reconcile_ready : Cluster → KinkControlPlane → Action (World C) Outcome
  reconcile_ready cluster kcp = elim (not cluster.infrastructure_ready) [
    | true ↦ pure done
    | false ↦
        elim (not (P.endpoint_is_valid cluster.control_plane_endpoint)
          || P.endpoint_is_zero cluster.control_plane_endpoint) [
            | true ↦ pure done
            | false ↦ provision cluster kcp
          ]
  ]

  unfoldable pub reconcile_control_plane : NamespacedName → Action (World C) Outcome
  reconcile_control_plane req = do
    got ← attempt (read (C.get_control_plane req))
    elim got [
      | failed e ↦ pure (if is_not_found e then done else retry)
      | success kcp ↦ do
        found ← attempt (read (C.get_cluster (cluster_of_control_plane kcp)))
        elim found [ failed e ↦ pure retry | success cluster ↦ reconcile_ready cluster kcp ]
    ]
