-- ===== src/ControlPlane/Controller/Frame/Whole.antt =====
-- A whole round of the control plane's controller, its guards included, and the calls that are
-- allowed.
use kink.Base.{
  ◌≡◌, refl, Bool, true, false, ◌||◌, not, Action, pure, attempt, ◌>>=◌, success, failed,
  is_not_found, if◌then◌else◌, arith,
}
use kink.Api.{NamespacedName, Cluster, KinkControlPlane}
use kink.Platform.{Platform}
use kink.Client.{Client, Call, World, read}
use kink.Client.Grows.{Grows, Adds-none, Grows-weaken}
use kink.Client.Gives.{lookup-Grows}
use kink.Reconcile.{Outcome, done, retry}
use kink.ControlPlane.Certs.Pki.{Kubeadm, Pki}
use kink.ControlPlane.Controller.{
  cluster_of_control_plane, provision, reconcile_ready, reconcile_control_plane,
}
use kink.ControlPlane.Controller.Guards.{IsReachable}
use kink.ControlPlane.Controller.Frame.{IsAllowed}
use kink.ControlPlane.Controller.Frame.Round.{provision-IsAllowed}

-- The call is allowed for a control plane and a cluster that the server hands out for the request,
-- and the cluster can be reached.
abbrev pub IsControlPlaneRoundCall : Platform → Client → NamespacedName → Call → Type 0
IsControlPlaneRoundCall P C req call =
    (kcp : KinkControlPlane) × (cluster : Cluster) × (s : C.State) × (t : C.State)
    × ((C.get_control_plane req s).0 ≡ success kcp)
    × ((C.get_cluster (cluster_of_control_plane kcp) t).0 ≡ success cluster)
    × IsReachable P cluster
    × IsAllowed P C cluster kcp call

module _ (P : Platform) (K : Kubeadm) {C : Client} (pki : Pki C) where
  -- Behind the guards, the cluster can be reached.
  ready-Grows :
      (Q : Call → Type 0) (cluster : Cluster) (kcp : KinkControlPlane)
      → (IsReachable P cluster → Grows {C = C} Q (provision P K pki cluster kcp))
      → Grows {C = C} Q (reconcile_ready P K pki cluster kcp)
  unfolding reconcile_ready
  ready-Grows Q cluster kcp h = first (not cluster.infrastructure_ready) refl
    where
      waits : Grows {C = C} Q (pure done)
      waits w = Adds-none Q w

      endpoint : Bool → Action (World C) Outcome
      endpoint b = elim b [ true ↦ pure done | false ↦ provision P K pki cluster kcp ]

      second :
          not cluster.infrastructure_ready ≡ false
          → (b : Bool)
          → (not (P.endpoint_is_valid cluster.control_plane_endpoint)
              || P.endpoint_is_zero cluster.control_plane_endpoint)
            ≡ b
          → Grows {C = C} Q (endpoint b)
      second e true f = waits
      second e false f = h (ground arith, ground arith, ground arith)

      ready : Bool → Action (World C) Outcome
      ready b = elim b [
        | true ↦ pure done
        | false ↦ endpoint (
            not (P.endpoint_is_valid cluster.control_plane_endpoint)
            || P.endpoint_is_zero cluster.control_plane_endpoint)
      ]

      first : (b : Bool) → not cluster.infrastructure_ready ≡ b → Grows {C = C} Q (ready b)
      first true e = waits
      first false e =
          second e
            (not (P.endpoint_is_valid cluster.control_plane_endpoint)
              || P.endpoint_is_zero cluster.control_plane_endpoint)
            refl

  found-Grows :
      (req : NamespacedName) (kcp : KinkControlPlane) (s : C.State)
      → (C.get_control_plane req s).0 ≡ success kcp
      → (cluster : Cluster) (t : C.State)
      → (C.get_cluster (cluster_of_control_plane kcp) t).0 ≡ success cluster
      → Grows {C = C} (IsControlPlaneRoundCall P C req) (reconcile_ready P K pki cluster kcp)
  found-Grows req kcp s e cluster t f =
      ready-Grows (IsControlPlaneRoundCall P C req) cluster kcp (λ reachable.
        Grows-weaken (IsAllowed P C cluster kcp) (IsControlPlaneRoundCall P C req)
          (λ c q. (kcp, cluster, s, t, e, f, reachable, q)) (provision P K pki cluster kcp)
          (provision-IsAllowed P pki cluster kcp K))

  pub reconcile_control_plane-Grows :
      (req : NamespacedName)
      → Grows {C = C} (IsControlPlaneRoundCall P C req) (reconcile_control_plane P K pki req)
  unfolding reconcile_control_plane
  reconcile_control_plane-Grows req =
      let L = IsControlPlaneRoundCall P C req in
      let found : KinkControlPlane → Action (World C) Outcome = λ kcp.
        attempt (read (C.get_cluster (cluster_of_control_plane kcp))) >>= λ t. elim t [
          | failed e ↦ pure retry
          | success cluster ↦ reconcile_ready P K pki cluster kcp
        ] in
      lookup-Grows L (C.get_control_plane req) (λ e. if is_not_found e then done else retry) found
        (λ kcp s e.
          lookup-Grows L (C.get_cluster (cluster_of_control_plane kcp)) (λ _. retry)
            (λ cluster. reconcile_ready P K pki cluster kcp) (found-Grows req kcp s e))
