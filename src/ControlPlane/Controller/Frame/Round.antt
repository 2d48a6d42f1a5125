-- ===== src/ControlPlane/Controller/Frame/Round.antt =====
-- The round behind the guards, and the calls that are allowed.
use kink.Base.{Action}
use kink.Api.{Cluster, KinkControlPlane}
use kink.Platform.{Platform}
use kink.Client.{Client, Call, World}
use kink.Client.Grows.{Grows-weaken, Grows, Adds}
use kink.ControlPlane.Certs.Pki.{Kubeadm, Pki}
use kink.ControlPlane.Scale.{lookup_or_create_machines}
use kink.ControlPlane.Status.{report_control_plane_status}
use kink.ControlPlane.Controller.{provision}
use kink.ControlPlane.Controller.Frame.Parts.{provision-Grows}
use kink.ControlPlane.Controller.Frame.{IsAllowed, IsScaling, IsScaling-IsAllowed}
use kink.ControlPlane.Controller.Frame.Keys.{cas_round-Stays, kubeconfig-Stays}
use kink.ControlPlane.Controller.Frame.Scaling.{machines-Scales, status-Scales}

module _ (P : Platform) {C : Client} (pki : Pki C) (cluster : Cluster)
    (kcp : KinkControlPlane) where
  abbrev Q : Call → Type 0
  Q = IsAllowed P C cluster kcp

  -- Whatever the server answers and however the steps end, `Reconcile` of a control plane makes
  -- behind its guards no other calls than these: it creates secrets and machines of this control
  -- plane in the cluster's namespace, under its labels and its owner, creates the kubeconfig of the
  -- cluster, deletes machines that were listed for the cluster, and updates the status of the control
  -- plane with its metadata and its spec as they were. It may also create a nil secret.
  pub provision-IsAllowed :
      (K : Kubeadm) (w : World C)
      → Adds (IsAllowed P C cluster kcp) w.calls (provision P K pki cluster kcp w).1
  provision-IsAllowed K =
      let scaled : (m : Action (World C) (Unit {0}))
          → Grows (IsScaling P C cluster kcp) m
          → Grows Q m =
        Grows-weaken (IsScaling P C cluster kcp) Q (IsScaling-IsAllowed P C cluster kcp) in
      provision-Grows P K pki cluster kcp Q (cas_round-Stays P pki cluster kcp K)
        (kubeconfig-Stays P pki cluster kcp)
        (scaled (lookup_or_create_machines P cluster kcp) (machines-Scales P C cluster kcp))
        (scaled (report_control_plane_status P kcp) (status-Scales P C cluster kcp))
