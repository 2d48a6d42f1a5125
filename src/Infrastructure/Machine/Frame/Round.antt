-- ===== src/Infrastructure/Machine/Frame/Round.antt =====
-- A round of the machine's controller, and the calls that are allowed.
use kink.Base.{
  ◌≡◌, List, Action, pure, attempt, ◌>>=◌, Try, success, failed, is_not_found, if◌then◌else◌,
}
use kink.Api.{NamespacedName, Cluster, KinkMachine, Pod}
use kink.Platform.{Platform}
use kink.Client.{Client, Call, World, RangesAll, read, write, update_machine_status}
use kink.Client.Grows.{
  Grows, Adds-none, >>=-Grows, attempt-Grows, read-Grows, write-Grows, Grows-weaken,
}
use kink.Client.Gives.{
  Gives, OnSuccess, Gives-of_Grows, pure-Gives, >>=-Gives, attempt-Gives, Gives-Grows, lookup-Grows,
}
use kink.Reconcile.{Outcome, done, retry}
use kink.Infrastructure.Machine.Setup.{lookup_or_setup_control_plane}
use kink.Infrastructure.Machine.Status.{report_machine_status, with_status, pods_ready}
use kink.Infrastructure.Machine.Controller.{
  cluster_of_machine, finish, reconcile_found, reconcile_with, reconcile_machine,
}
use kink.Infrastructure.Machine.Frame.{Q, IsMachineCall, IsSameMachine}
use kink.Infrastructure.Machine.Frame.Setup.{set_up-Gives}

module _ (P : Platform) {C : Client} (cluster : Cluster) (machine : KinkMachine) where
  report-Grows :
      (m : KinkMachine)
      → IsSameMachine machine m
      → Grows {C = C} (Q P cluster machine) (report_machine_status P cluster m)
  unfolding report_machine_status
  report-Grows m same =
      let list = C.list_pods cluster.meta.namespace cluster.meta.name in
      let update : List Pod → Call =
        λ pods. update_machine_status (with_status m (pods_ready P m pods)) in
      >>=-Grows (Q P cluster machine) (read list) (λ pods. write (update pods))
        (read-Grows (Q P cluster machine) list)
        (λ pods. write-Grows (Q P cluster machine) (update pods) same)

  finish-Grows :
      (m : KinkMachine)
      → IsSameMachine machine m
      → Grows {C = C} (Q P cluster machine) (finish P cluster m)
  unfolding finish
  finish-Grows m same =
      let report = report_machine_status P {C = C} cluster m in
      let next : Try (Unit {0}) → Action (World C) Outcome =
        λ t. elim t [ failed e ↦ pure retry | success _ ↦ pure done ] in
      >>=-Grows (Q P cluster machine) (attempt report) next
        (attempt-Grows (Q P cluster machine) report (report-Grows m same))
        (λ t. elim t as (λ t. Grows (Q P cluster machine) (next t)) [
          | failed e ↦ λ w. Adds-none (Q P cluster machine) w
          | success _ ↦ λ w. Adds-none (Q P cluster machine) w
        ])

  pub reconcile_found-Grows :
      RangesAll C → Grows {C = C} (Q P cluster machine) (reconcile_found P cluster machine)
  unfolding reconcile_found
  reconcile_found-Grows all =
      let R = IsSameMachine machine in
      let set_up = lookup_or_setup_control_plane P {C = C} cluster machine in
      let next : Try KinkMachine → Action (World C) Outcome =
        λ t. elim t [ failed e ↦ pure retry | success machine' ↦ finish P cluster machine' ] in
      Gives-Grows (Q P cluster machine) (λ _. Unit {0}) (attempt set_up >>= next)
        (>>=-Gives (Q P cluster machine) (OnSuccess R) (λ _. Unit {0}) (attempt set_up) next
          (attempt-Gives (Q P cluster machine) R set_up (set_up-Gives P cluster machine all))
          (λ t.
            elim t as (λ t. OnSuccess R t → Gives (Q P cluster machine) (λ _. Unit {0}) (next t)) [
              | failed e ↦ λ r. pure-Gives (Q P cluster machine) (λ _. Unit {0}) retry tt
              | success m ↦ λ same.
                  Gives-of_Grows (Q P cluster machine) (finish P cluster m) (finish-Grows m same)
            ]))

-- The call is allowed for a machine and a cluster that the server hands out for the request.
abbrev pub IsMachineRoundCall : Platform → Client → NamespacedName → Call → Type 0
IsMachineRoundCall P C req call =
    (machine : KinkMachine) × (cluster : Cluster) × (s : C.State) × (t : C.State) × ((C.get_machine
        req s).0
      ≡ success machine)
    × ((C.get_cluster (cluster_of_machine P machine) t).0 ≡ success cluster)
    × IsMachineCall P cluster machine call

module _ (P : Platform) {C : Client} (all : RangesAll C) (req : NamespacedName) where
  with-Grows :
      (machine : KinkMachine) (s : C.State)
      → (C.get_machine req s).0 ≡ success machine
      → Grows {C = C} (IsMachineRoundCall P C req) (reconcile_with P machine)
  unfolding reconcile_with
  with-Grows machine s e =
      lookup-Grows (IsMachineRoundCall P C req) (C.get_cluster (cluster_of_machine P machine))
        (λ _. retry) (λ cluster. reconcile_found P cluster machine)
        (λ cluster t f.
          Grows-weaken (IsMachineCall P cluster machine) (IsMachineRoundCall P C req)
            (λ c q. (machine, cluster, s, t, e, f, q)) (reconcile_found P cluster machine)
            (reconcile_found-Grows P cluster machine all))

  pub reconcile_machine-Grows : Grows {C = C} (IsMachineRoundCall P C req) (reconcile_machine P req)
  unfolding reconcile_machine
  reconcile_machine-Grows =
      lookup-Grows (IsMachineRoundCall P C req) (C.get_machine req)
        (λ e. if is_not_found e then done else retry) (reconcile_with P) with-Grows
