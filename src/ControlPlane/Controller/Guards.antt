-- ===== src/ControlPlane/Controller/Guards.antt =====
-- The guards of `Reconcile` of a control plane.
use kink.Base.{true, false, ◌≡◌, refl, ◌⊎◌, inl, inr, success, failed, ok, Try, arith}
use kink.Api.{NamespacedName, Cluster, KinkControlPlane}
use kink.Platform.{Platform}
use kink.Client.{Client, World}
use kink.Reconcile.{done}
use kink.ControlPlane.Certs.Pki.{Kubeadm, Pki}
use kink.ControlPlane.Controller.{
  cluster_of_control_plane, reconcile_ready, reconcile_control_plane,
}

-- The infrastructure is ready, and the endpoint is set.
abbrev pub IsReachable : Platform → Cluster → Type 0
IsReachable P cluster =
    (cluster.infrastructure_ready ≡ true)
    × (P.endpoint_is_valid cluster.control_plane_endpoint ≡ true)
    × (P.endpoint_is_zero cluster.control_plane_endpoint ≡ false)

module _ (P : Platform) (K : Kubeadm) {C : Client} (pki : Pki C) where
  reconcile_ready-guards :
      (cluster : Cluster) (kcp : KinkControlPlane) (w : World C)
      → (reconcile_ready P K pki cluster kcp w ≡ (ok done, w)) ⊎ IsReachable P cluster
  unfolding reconcile_ready
  reconcile_ready-guards cluster kcp w = ground arith

  -- `Reconcile` of a control plane makes no write call, unless the server has handed out the control
  -- plane and its cluster, the cluster's infrastructure is ready, and its endpoint is valid and not
  -- zero.
  pub writes_only_if_IsReachable :
      (req : NamespacedName) (w : World C)
      → ((reconcile_control_plane P K pki req w).1.calls ≡ w.calls)
        ⊎ ((kcp : KinkControlPlane) × (cluster : Cluster) × (s : C.State) × ((C.get_control_plane
                req w.server).0
              ≡ success kcp)
            × ((C.get_cluster (cluster_of_control_plane kcp) s).0 ≡ success cluster)
            × IsReachable P cluster)
  unfolding reconcile_control_plane
  writes_only_if_IsReachable req w = go (C.get_control_plane req w.server) refl
    where
      found :
          (kcp : KinkControlPlane) (s : C.State)
          → C.get_control_plane req w.server ≡ (success kcp, s)
          → (r : Try Cluster × C.State) → C.get_cluster (cluster_of_control_plane kcp) s ≡ r
          → ((reconcile_control_plane P K pki req w).1.calls ≡ w.calls)
            ⊎ ((kcp : KinkControlPlane) × (cluster : Cluster) × (s : C.State)
                × ((C.get_control_plane req w.server).0 ≡ success kcp)
                × ((C.get_cluster (cluster_of_control_plane kcp) s).0 ≡ success cluster)
                × IsReachable P cluster)
      found kcp s e (failed x, t) f = inl (ground arith)
      found kcp s e (success cluster, t) f =
          elim (reconcile_ready-guards cluster kcp (record w { server = t })) [
            | inl waits ↦ inl (ground arith)
            | inr reachable ↦ inr (kcp, cluster, s, ground arith, ground arith, reachable)
          ]

      go :
          (r : Try KinkControlPlane × C.State)
          → C.get_control_plane req w.server ≡ r
          → ((reconcile_control_plane P K pki req w).1.calls ≡ w.calls)
            ⊎ ((kcp : KinkControlPlane) × (cluster : Cluster) × (s : C.State)
                × ((C.get_control_plane req w.server).0 ≡ success kcp)
                × ((C.get_cluster (cluster_of_control_plane kcp) s).0 ≡ success cluster)
                × IsReachable P cluster)
      go (failed x, s) e = inl (ground arith)
      go (success kcp, s) e = found kcp s e (C.get_cluster (cluster_of_control_plane kcp) s) refl
