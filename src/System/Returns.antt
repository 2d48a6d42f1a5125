-- ===== src/System/Returns.antt =====
-- How the rounds of the controllers end.
use kink.Base.{
  ℕ, ◌<◌, ◌≡◌, ◌≢◌, refl, ap, pos, int32_half, Option, none, some, inl, inr, String, arith, Action,
  pure, attempt, ◌>>=◌, Try, success, failed, Error, is_not_found, if◌then◌else◌, IsReturned,
  >>=-IsReturned, attempt-eq-ok,
}
use kink.Api.{NamespacedName, Cluster, ClusterNetwork, KinkControlPlane, KinkCluster}
use kink.Platform.{Platform}
use kink.Client.{
  Client, NeverPanics, RangesAll, World, read, read-eq-ok, write, update_cluster_status,
}
use kink.Reconcile.{Outcome, done, retry, retry_with}
use kink.ControlPlane.Certs.Pki.{Kubeadm, Pki}
use kink.ControlPlane.Certs.AltNames.{svc_subnet}
use kink.ControlPlane.Certs.Manager.Returns.{MakesRsaKeys}
use kink.ControlPlane.Scale.{desired_replicas}
use kink.ControlPlane.Controller.{
  cluster_of_control_plane, provision, reconcile_ready, reconcile_control_plane,
}
use kink.ControlPlane.Controller.Returns.{provision-IsReturned}
use kink.Infrastructure.Templates.Util.{service_cidr}
use kink.Infrastructure.Machine.Controller.{reconcile_machine}
use kink.Infrastructure.Machine.Controller.Returns.{HandsOutRanges, reconcile_machine-IsReturned}
use kink.Infrastructure.ClusterController.{mark_ready, reconcile_cluster}

-- Every control plane that the server hands out asks for a number of machines that is not negative.
abbrev pub HandsOutReplicas : Client → Type 0
HandsOutReplicas C =
    (key : NamespacedName) (s : C.State) (kcp : KinkControlPlane)
    → (C.get_control_plane key s).0 ≡ success kcp
    → (r : ℕ) × (desired_replicas kcp ≡ pos r) × (r < int32_half)

-- A lookup whose error ends the round, and what follows.
module _ {C : Client} {A : Type 0} (f : C.State → Try A × C.State)
    (stop : Try A → Action (World C) Outcome) where
  lookup-IsReturned :
      ((a : A) (s : C.State)
        → (f s).0 ≡ success a
        → (v : World C) → IsReturned (stop (success a) v).0)
      → ((e : Error) (v : World C) → IsReturned (stop (failed e) v).0)
      → (w : World C) → IsReturned ((attempt (read f) >>= stop) w).0
  lookup-IsReturned found lost w =
      >>=-IsReturned (attempt (read f)) stop w (ground arith) (λ t v tried.
        elim (attempt-eq-ok (read f) w tried) [
          | inl (a, e, got) ↦ rw e (found a w.server (ap (λ x. x.0) (read-eq-ok f w got).0) v)
          | inr (x, e, _) ↦ rw e (lost x v)
        ])

subnet_of_ranges :
    (cluster : Cluster)
    → service_cidr cluster ≢ none
    → (network : ClusterNetwork) × (subnet : String) × (svc_subnet cluster ≡ some (network, subnet))
unfolding service_cidr svc_subnet
subnet_of_ranges cluster set = go (svc_subnet cluster) refl
  where
    go :
        (o : Option (ClusterNetwork × String))
        → svc_subnet cluster ≡ o
        → (network : ClusterNetwork) × (subnet : String) × (svc_subnet cluster
            ≡ some (network, subnet))
    go none e = absurd (set (ground arith))
    go (some (network, subnet)) e = (network, subnet, e)

module _ (P : Platform) (K : Kubeadm) {C : Client} (pki : Pki C) (calm : NeverPanics C)
    (all : RangesAll C) (keys : MakesRsaKeys pki) (ranges : HandsOutRanges C)
    (replicas : HandsOutReplicas C) where
  ready-IsReturned :
      (cluster : Cluster) (kcp : KinkControlPlane) (w : World C)
      → IsReturned (provision P K pki cluster kcp w).0
      → IsReturned (reconcile_ready P K pki cluster kcp w).0
  unfolding reconcile_ready
  ready-IsReturned cluster kcp w h = ground arith

  control_plane-IsReturned :
      (req : NamespacedName) (w : World C) → IsReturned (reconcile_control_plane P K pki req w).0
  unfolding reconcile_control_plane
  control_plane-IsReturned req w =
      let found : KinkControlPlane → Try Cluster → Action (World C) Outcome = λ kcp t. elim t [
        | failed e ↦ pure retry
        | success cluster ↦ reconcile_ready P K pki cluster kcp
      ] in
      let got : Try KinkControlPlane → Action (World C) Outcome = λ t. elim t [
        | failed e ↦ pure (if is_not_found e then done else retry)
        | success kcp ↦ attempt (read (C.get_cluster (cluster_of_control_plane kcp))) >>= found kcp
      ] in
      lookup-IsReturned (C.get_control_plane req) got
        (λ kcp s e v.
          let key = cluster_of_control_plane kcp in
          let (r, wanted, bound) = replicas req s kcp e in
          lookup-IsReturned (C.get_cluster key) (found kcp)
            (λ cluster t f u.
              let (network, subnet, net) = subnet_of_ranges cluster (ranges key t cluster f).0 in
              ready-IsReturned cluster kcp u
                (provision-IsReturned P K calm kcp cluster all pki keys net r wanted bound u))
            (λ x u. tt) v)
        (λ x v. tt) w

  cluster-IsReturned : (req : NamespacedName) (w : World C) → IsReturned (reconcile_cluster req w).0
  unfolding reconcile_cluster
  cluster-IsReturned req w =
      let got : Try KinkCluster → Action (World C) Outcome = λ t. elim t [
        | failed e ↦ pure (if is_not_found e then done else retry)
        | success cluster ↦ attempt (write (update_cluster_status (mark_ready cluster))) >>= λ t.
            elim t [ failed e ↦ pure (retry_with e) | success _ ↦ pure done ]
      ] in
      lookup-IsReturned (C.get_kink_cluster req) got
        (λ cluster s e v.
          ground (arith, calm (update_cluster_status (mark_ready cluster)) v.server tt))
        (λ x v. tt) w

  -- Every round of each of the three controllers returns, for any request and whatever else the server
  -- answers: none panics and no loop goes on for ever, if no write call panics, a `range` meets each
  -- entry of a map once, all keys are RSA keys that can be encoded, every cluster that is handed out
  -- sets its network ranges, and every control plane that is handed out asks for no negative number
  -- of machines.
  pub rounds-IsReturned :
      (req : NamespacedName) (w : World C)
      → IsReturned (reconcile_control_plane P K pki req w).0
        × IsReturned (reconcile_machine P req w).0
        × IsReturned (reconcile_cluster {C = C} req w).0
  rounds-IsReturned req w = (
    control_plane-IsReturned req w,
    reconcile_machine-IsReturned P calm ranges req w,
    cluster-IsReturned req w,
  )
