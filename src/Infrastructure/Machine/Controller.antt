-- ===== src/Infrastructure/Machine/Controller.antt =====
-- `Reconcile` of kinkmachine_controller.go.
pub mod Reports
pub mod Returns
use kink.Base.{
  Action, pure, attempt, ◌>>=◌, success, failed, is_not_found, if◌then◌else◌, get_label,
}
use kink.Api.{NamespacedName, Cluster, KinkMachine}
use kink.Platform.{Platform}
use kink.Client.{Client, World, read}
use kink.Reconcile.{Outcome, done, retry}
use kink.Infrastructure.Machine.Setup.{lookup_or_setup_control_plane}
use kink.Infrastructure.Machine.Status.{report_machine_status}

module _ (P : Platform) where
  abbrev pub cluster_of_machine : KinkMachine → NamespacedName
  cluster_of_machine machine = record {
    namespace = machine.meta.namespace;
    name = get_label P.cluster_label_name machine.meta.labels;
  }

module _ (P : Platform) {C : Client} where
  -- The part of `Reconcile` behind the set-up.
  unfoldable pub finish : Cluster → KinkMachine → Action (World C) Outcome
  finish cluster machine = do
    updated ← attempt (report_machine_status P cluster machine)
    elim updated [ failed e ↦ pure retry | success _ ↦ pure done ]

  -- The part of `Reconcile` behind the two lookups.
  unfoldable pub reconcile_found : Cluster → KinkMachine → Action (World C) Outcome
  reconcile_found cluster machine = do
    set_up ← attempt (lookup_or_setup_control_plane P cluster machine)
    elim set_up [ failed e ↦ pure retry | success machine' ↦ finish cluster machine' ]

  -- The part of `Reconcile` behind the lookup of the machine.
  unfoldable pub reconcile_with : KinkMachine → Action (World C) Outcome
  unfolding reconcile_found
  reconcile_with machine = do
    found ← attempt (read (C.get_cluster (cluster_of_machine P machine)))
    elim found [ failed e ↦ pure retry | success cluster ↦ reconcile_found cluster machine ]

  unfoldable pub reconcile_machine : NamespacedName → Action (World C) Outcome
  unfolding reconcile_with
  reconcile_machine req = do
    got ← attempt (read (C.get_machine req))
    elim got [
      | failed e ↦ pure (if is_not_found e then done else retry)
      | success machine ↦ reconcile_with machine
    ]
