-- ===== src/Infrastructure/ClusterController.antt =====
-- controllers/infrastructure/kinkcluster_controller.go
pub mod MarksReady
pub mod Frame
use kink.Base.{true, Action, pure, attempt, ◌>>=◌, success, failed, is_not_found, if◌then◌else◌}
use kink.Api.{NamespacedName, KinkCluster}
use kink.Client.{Client, World, read, write, update_cluster_status}
use kink.Reconcile.{Outcome, done, retry, retry_with}

-- `cluster.Status.Ready = true`
abbrev pub mark_ready : KinkCluster → KinkCluster
mark_ready cluster = record cluster { status = record (cluster.status) { ready = true } }

module _ {C : Client} where
  unfoldable pub reconcile_cluster : NamespacedName → Action (World C) Outcome
  reconcile_cluster req = do
    got ← attempt (read (C.get_kink_cluster req))
    elim got [
      | failed e ↦ pure (if is_not_found e then done else retry)
      | success cluster ↦ do
        updated ← attempt (write (update_cluster_status (mark_ready cluster)))
        elim updated [ failed e ↦ pure (retry_with e) | success _ ↦ pure done ]
    ]
