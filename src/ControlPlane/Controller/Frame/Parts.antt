-- ===== src/ControlPlane/Controller/Frame/Parts.antt =====
-- The calls of a round behind its guards: those of its four steps.
use kink.Base.{Action, pure, wrapping}
use kink.Api.{Cluster, KinkControlPlane}
use kink.Platform.{Platform}
use kink.Client.{Client, Call, World}
use kink.Client.Grows.{Grows, Adds-none, wrapping-Grows}
use kink.Client.Then.{then-Grows}
use kink.Reconcile.{then, done, retry, retry_with}
use kink.ControlPlane.Certs.Pki.{Kubeadm, Pki}
use kink.ControlPlane.Certs.Manager.{lookup_or_generate_cas, lookup_or_generate_kubeconfig}
use kink.ControlPlane.Scale.{lookup_or_create_machines}
use kink.ControlPlane.Status.{report_control_plane_status}
use kink.ControlPlane.Controller.{provision}

module _ (P : Platform) (K : Kubeadm) {C : Client} (pki : Pki C) (cluster : Cluster)
    (kcp : KinkControlPlane) (Q : Call → Type 0) where
  pub provision-Grows :
      Grows Q (lookup_or_generate_cas P pki kcp cluster K)
      → Grows {C = C} Q (lookup_or_generate_kubeconfig P kcp cluster)
      → Grows {C = C} Q (lookup_or_create_machines P cluster kcp)
      → Grows {C = C} Q (report_control_plane_status P kcp)
      → Grows Q (provision P K pki cluster kcp)
  unfolding provision
  provision-Grows first second third fourth =
      let kubeconfig : Action (World C) (Unit {0}) =
        wrapping "failed to retrieve kubeconfig Secret"
          (lookup_or_generate_kubeconfig P kcp cluster) in
      let machines = lookup_or_create_machines P {C = C} cluster kcp in
      let report = report_control_plane_status P {C = C} kcp in
      let from_report = then report retry_with (pure done) in
      let from_machines = then machines retry_with from_report in
      then-Grows Q (lookup_or_generate_cas P pki kcp cluster K) (λ _. retry)
        (then kubeconfig retry_with from_machines) first
        (then-Grows Q kubeconfig retry_with from_machines
          (wrapping-Grows Q "failed to retrieve kubeconfig Secret"
            (lookup_or_generate_kubeconfig P kcp cluster) second)
          (then-Grows Q machines retry_with from_report third
            (then-Grows Q report retry_with (pure done) fourth (λ w. Adds-none Q w))))
