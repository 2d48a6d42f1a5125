-- ===== src/Infrastructure/ClusterController/Frame.antt =====
-- A round of the cluster's controller, and the calls that are allowed.
use kink.Base.{
  ◌≡◌, refl, Action, pure, attempt, ◌>>=◌, Try, success, failed, is_not_found, if◌then◌else◌,
}
use kink.Api.{NamespacedName, KinkCluster}
use kink.Client.{Client, Call, World, write, update_cluster_status}
use kink.Client.Grows.{Grows, Adds-none, >>=-Grows, attempt-Grows, write-Grows}
use kink.Client.Gives.{lookup-Grows}
use kink.Reconcile.{Outcome, done, retry, retry_with}
use kink.Infrastructure.ClusterController.{mark_ready, reconcile_cluster}

-- The call marks an object as ready that the server hands out for the request.
abbrev pub IsClusterRoundCall : Client → NamespacedName → Call → Type 0
IsClusterRoundCall C req call =
    (cluster : KinkCluster) × (s : C.State) × ((C.get_kink_cluster req s).0 ≡ success cluster)
    × (call ≡ update_cluster_status (mark_ready cluster))

module _ {C : Client} (req : NamespacedName) where
  pub reconcile_cluster-Grows : Grows {C = C} (IsClusterRoundCall C req) (reconcile_cluster req)
  unfolding reconcile_cluster
  reconcile_cluster-Grows =
      let Q = IsClusterRoundCall C req in
      let update : KinkCluster → Action (World C) (Unit {0}) =
        λ cluster. write (update_cluster_status (mark_ready cluster)) in
      let next : Try (Unit {0}) → Action (World C) Outcome =
        λ t. elim t [ failed e ↦ pure (retry_with e) | success _ ↦ pure done ] in
      lookup-Grows Q (C.get_kink_cluster req) (λ e. if is_not_found e then done else retry)
        (λ cluster. attempt (update cluster) >>= next)
        (λ cluster s e.
          >>=-Grows Q (attempt (update cluster)) next
            (attempt-Grows Q (update cluster)
              (write-Grows Q (update_cluster_status (mark_ready cluster)) (cluster, s, e, refl)))
            (λ t. elim t as (λ t. Grows Q (next t)) [
              | failed x ↦ λ w. Adds-none Q w
              | success _ ↦ λ w. Adds-none Q w
            ]))
