-- ===== src/System/Lawful.antt =====
-- Every call of the running program is one that its controller may make.
use mathlib.Core.Path.{subst}
use kink.Base.{◌≡◌, sym, ap, ◌⊎◌, inl, inr, Result}
use kink.Api.{NamespacedName}
use kink.Platform.{Platform}
use kink.Client.{Client, Call, World, RangesAll}
use kink.Client.Grows.{Grows, Adds, Adds-none, Adds-trans, Grows-weaken}
use kink.Reconcile.{Outcome}
use kink.ControlPlane.Certs.Pki.{Kubeadm, Pki}
use kink.ControlPlane.Controller.{reconcile_control_plane}
use kink.ControlPlane.Controller.Frame.Whole.{
  IsControlPlaneRoundCall, reconcile_control_plane-Grows,
}
use kink.Infrastructure.Machine.Controller.{reconcile_machine}
use kink.Infrastructure.Machine.Frame.Round.{IsMachineRoundCall, reconcile_machine-Grows}
use kink.Infrastructure.ClusterController.{reconcile_cluster}
use kink.Infrastructure.ClusterController.Frame.{IsClusterRoundCall, reconcile_cluster-Grows}
use kink.System.{
  Step, control_plane_round, machine_round, cluster_round, elsewhere, Reach, here, next,
}

-- One of the controllers may make the call for some request.
abbrev pub IsLawful : Platform → Client → Call → Type 0
IsLawful P C call =
    (req : NamespacedName) × (IsControlPlaneRoundCall P C req call
      ⊎ (IsMachineRoundCall P C req call ⊎ IsClusterRoundCall C req call))

module _ (P : Platform) (K : Kubeadm) {C : Client} (pki : Pki C) (all : RangesAll C) where
  round-Adds :
      (Q : Call → Type 0) (weaken : (c : Call) → Q c → IsLawful P C c)
      (m : World C → Result Outcome × World C)
      → Grows {C = C} Q m
      → (w w' : World C) (r : Result Outcome) → m w ≡ (r, w')
      → Adds (IsLawful P C) w.calls w'
  round-Adds Q weaken m h w w' r e =
      subst (Adds (IsLawful P C) w.calls) (ap (λ t. t.1) e)
        (Grows-weaken Q (IsLawful P C) weaken m h w)

  Step-IsLawful : {w w' : World C} → Step P K pki w w' → Adds (IsLawful P C) w.calls w'
  Step-IsLawful {w} {w'} (control_plane_round req r e) =
      round-Adds (IsControlPlaneRoundCall P C req) (λ c q. (req, inl q))
        (reconcile_control_plane P K pki req) (reconcile_control_plane-Grows P K pki req) w w' r e
  Step-IsLawful {w} {w'} (machine_round req r e) =
      round-Adds (IsMachineRoundCall P C req) (λ c q. (req, inr (inl q))) (reconcile_machine P req)
        (reconcile_machine-Grows P all req) w w' r e
  Step-IsLawful {w} {w'} (cluster_round req r e) =
      round-Adds (IsClusterRoundCall C req) (λ c q. (req, inr (inr q))) (reconcile_cluster req)
        (reconcile_cluster-Grows req) w w' r e
  Step-IsLawful {w} {w'} (elsewhere s e) =
      subst (Adds (IsLawful P C) w.calls) (sym e)
        (Adds-none (IsLawful P C) (record w { server = s }))

  -- Whatever rounds the three controllers run, in whatever order and however they end, and whatever
  -- others do to the server's objects in between, if a `range` meets each entry of a map once then
  -- the program makes only calls that one of its controllers may make for a request: those allowed
  -- for a control plane and its cluster, which the server handed out, and only if this cluster's
  -- infrastructure is ready and its endpoint valid and not zero; those allowed for a machine and its
  -- cluster, which the server handed out, namely to create a pod from one of the machine's four
  -- templates, to create etcd's service, and to update the machine's status with its metadata and
  -- its spec as they were; and the update that marks a KinkCluster, as the server handed it out, as
  -- ready.
  pub Reach-IsLawful : {w w' : World C} → Reach P K pki w w' → Adds (IsLawful P C) w.calls w'
  Reach-IsLawful {w} here = Adds-none (IsLawful P C) w
  Reach-IsLawful {w} {w'} (next {u} {v} before step) =
      Adds-trans (IsLawful P C) w.calls u w' (Reach-IsLawful before) (Step-IsLawful step)
