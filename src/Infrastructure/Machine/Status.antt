-- ===== src/Infrastructure/Machine/Status.antt =====
-- `updateMachineStatus` of kinkmachine_controller.go.
pub mod Ready
use kink.Base.{Bool, true, false, none, List, [], ◌∷◌, ◌==◌, Action, ◌>>=◌, if◌then◌else◌}
use kink.Api.{Cluster, KinkMachine, Pod}
use kink.Platform.{Platform}
use kink.Client.{Client, World, read, write, update_machine_status}

module _ (P : Platform) (machine : KinkMachine) where
  -- The loop over the pods, from its start with `Ready` true to its end or its `break`.
  unfoldable pub pods_ready : List Pod → Bool
  pods_ready [] = true
  pods_ready (pod ∷ rest) =
      let later = pods_ready rest in
      if P.is_owned_by_object pod.meta machine.meta
      then if pod.phase == P.pod_running then later else false
      else later

abbrev pub with_status : KinkMachine → Bool → KinkMachine
with_status machine ready = record machine {
  status = record (machine.status) { ready = ready; failure_message = none; failure_reason = none };
}

module _ (P : Platform) {C : Client} where
  unfoldable pub report_machine_status : Cluster → KinkMachine → Action (World C) (Unit {0})
  report_machine_status cluster machine = do
    pods ← read (C.list_pods cluster.meta.namespace cluster.meta.name)
    write (update_machine_status (with_status machine (pods_ready P machine pods)))
