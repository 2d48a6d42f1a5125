-- ===== src/ControlPlane/Controller/Steps.antt =====
-- The steps of `Reconcile` of a control plane behind its guards.
use kink.Base.{true, none, ◌≡◌, ◌⊎◌, ok, err, Result, arith}
use kink.Api.{NamespacedName, Cluster, KinkControlPlane}
use kink.Platform.{Platform}
use kink.Client.{Client, World}
use kink.Reconcile.{Outcome, done}
use kink.ControlPlane.Certs.Pki.{Kubeadm, Pki}
use kink.ControlPlane.Certs.Manager.{lookup_or_generate_cas, lookup_or_generate_kubeconfig}
use kink.ControlPlane.Scale.{lookup_or_create_machines}
use kink.ControlPlane.Status.{report_control_plane_status}
use kink.ControlPlane.Controller.{provision, reconcile_ready, reconcile_control_plane}

-- A controller that returned returns no error by itself, and asks for another round with an error.
abbrev pub RetriesErrors : Result Outcome → Type 0
RetriesErrors (ok o) = (o.error ≡ none) ⊎ (o.requeue ≡ true)
RetriesErrors (err e) = ⊥
RetriesErrors _ = Unit

module _ (P : Platform) (K : Kubeadm) {C : Client} (pki : Pki C) where
  -- Behind the guards a round that ends without a retry has run the four steps, in this order, each
  -- to its success: the certificates, the kubeconfig, the machines and the status.
  pub provision-done :
      (cluster : Cluster) (kcp : KinkControlPlane) (w w' : World C)
      → provision P K pki cluster kcp w ≡ (ok done, w')
      → (u v x : World C) × (lookup_or_generate_cas P pki kcp cluster K w ≡ (ok tt, u))
        × (lookup_or_generate_kubeconfig P kcp cluster u ≡ (ok tt, v))
        × (lookup_or_create_machines P cluster kcp v ≡ (ok tt, x))
        × (report_control_plane_status P kcp x ≡ (ok tt, w'))
  unfolding provision
  provision-done cluster kcp w w' h =
      let u = (lookup_or_generate_cas P pki kcp cluster K w).1 in
      let v = (lookup_or_generate_kubeconfig P kcp cluster u).1 in
      let x = (lookup_or_create_machines P cluster kcp v).1 in
      (u, v, x, ground arith, ground arith, ground arith, ground arith)

  -- An error that `Reconcile` of a control plane hands to the controller runtime comes with a
  -- request for another round.
  pub reconcile_control_plane-RetriesErrors :
      (req : NamespacedName) (w : World C) → RetriesErrors (reconcile_control_plane P K pki req w).0
  unfolding reconcile_control_plane reconcile_ready provision
  reconcile_control_plane-RetriesErrors req w = ground arith
