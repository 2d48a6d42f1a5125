-- ===== src/System.antt =====
-- The running program: the three controllers that main.go registers with one manager, whose rounds
-- run in any order and for any request, between changes that others make to the API server's objects.
pub mod Lawful
pub mod Returns
use kink.Base.{◌≡◌, Result}
use kink.Api.{NamespacedName}
use kink.Platform.{Platform}
use kink.Client.{Client, World}
use kink.Reconcile.{Outcome}
use kink.ControlPlane.Certs.Pki.{Kubeadm, Pki}
use kink.ControlPlane.Controller.{reconcile_control_plane}
use kink.Infrastructure.Machine.Controller.{reconcile_machine}
use kink.Infrastructure.ClusterController.{reconcile_cluster}

module _ (P : Platform) (K : Kubeadm) {C : Client} (pki : Pki C) where
  -- A round of one of the controllers, however it ends, or a change of the server's objects from
  -- elsewhere.
  pub data Step : World C → World C → Type 0 where
    control_plane_round :
        {w w' : World C} (req : NamespacedName) (r : Result Outcome)
        → reconcile_control_plane P K pki req w ≡ (r, w')
        → Step w w'
    machine_round :
        {w w' : World C} (req : NamespacedName) (r : Result Outcome)
        → reconcile_machine P req w ≡ (r, w')
        → Step w w'
    cluster_round :
        {w w' : World C} (req : NamespacedName) (r : Result Outcome)
        → reconcile_cluster req w ≡ (r, w')
        → Step w w'
    elsewhere : {w w' : World C} (s : C.State) → w' ≡ record w { server = s } → Step w w'

  pub data Reach (w : World C) : World C → Type 0 where
    here : Reach w w
    next : {u v : World C} → Reach w u → Step u v → Reach w v
