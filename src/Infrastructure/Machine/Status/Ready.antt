-- ===== src/Infrastructure/Machine/Status/Ready.antt =====
-- When `updateMachineStatus` reports a machine ready.
use kink.Base.{◌≡◌, ◌↔◌, true, List, [], ◌∷◌, All, arith, eq_iff}
use kink.Api.{KinkMachine, Pod}
use kink.Platform.{Platform}
use kink.Infrastructure.Machine.Status.{pods_ready}

module _ (P : Platform) (machine : KinkMachine) where
  -- The pod is another owner's, or it runs.
  abbrev pub RunsIfOwned : Pod → Type 0
  RunsIfOwned pod = P.is_owned_by_object pod.meta machine.meta ≡ true → pod.phase ≡ P.pod_running

  -- The loop with its `break` reports ready exactly when each listed pod of the machine runs. So it
  -- reports ready also where no pod of the machine is listed, with no API server that could receive
  -- requests.
  pub pods_ready_iff : (pods : List Pod) → (pods_ready P machine pods ≡ true) ↔ All RunsIfOwned pods
  unfolding pods_ready
  pods_ready_iff [] = ground arith
  pods_ready_iff (pod ∷ pods) = ground (arith, eq_iff pod.phase P.pod_running, pods_ready_iff pods)
