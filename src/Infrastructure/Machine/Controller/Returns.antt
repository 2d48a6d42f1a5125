-- ===== src/Infrastructure/Machine/Controller/Returns.antt =====
-- How `Reconcile` of a machine ends.
use kink.Base.{
  ◌≡◌, none, List, ok, panic, success, failed, arith, IsReturned, >>=-IsReturned,
  attempt-IsReturned, attempt-eq-ok, inl, inr, ap, is_not_found, if◌then◌else◌, Try, Action,
  attempt, pure,
}
use kink.Api.{NamespacedName, Cluster, KinkMachine, Pod}
use kink.Platform.{Platform}
use kink.Client.{Client, NeverPanics, World, update_machine_status, read, read-eq-ok, write}
use kink.Reconcile.{Outcome, done, retry}
use kink.Infrastructure.Templates.Util.{service_cidr}
use kink.Infrastructure.Machine.Setup.{lookup_or_setup_control_plane}
use kink.Infrastructure.Machine.Setup.Returns.{
  HasRanges, lookup_or_setup_control_plane-IsReturned, lookup_or_setup_control_plane_without_ranges,
}
use kink.Infrastructure.Machine.Status.{report_machine_status, with_status, pods_ready}
use kink.Infrastructure.Machine.Controller.{
  reconcile_found, finish, reconcile_with, reconcile_machine, cluster_of_machine,
}

-- Every cluster that the server hands out sets its network ranges.
abbrev pub HandsOutRanges : Client → Type 0
HandsOutRanges C =
    (key : NamespacedName) (s : C.State) (cluster : Cluster)
    → (C.get_cluster key s).0 ≡ success cluster
    → HasRanges cluster

module _ (P : Platform) {C : Client} (calm : NeverPanics C) where
  report-IsReturned :
      (cluster : Cluster) (machine : KinkMachine) (w : World C)
      → IsReturned (report_machine_status P cluster machine w).0
  unfolding report_machine_status
  report-IsReturned cluster machine w =
      >>=-IsReturned (read (C.list_pods cluster.meta.namespace cluster.meta.name))
        (λ pods. write (update_machine_status (with_status machine (pods_ready P machine pods)))) w
        (ground arith)
        (λ pods v _.
          calm (update_machine_status (with_status machine (pods_ready P machine pods))) v.server
            tt)

  finish-IsReturned :
      (cluster : Cluster) (machine : KinkMachine) (w : World C)
      → IsReturned (finish P cluster machine w).0
  unfolding finish
  finish-IsReturned cluster machine w = ground (arith, report-IsReturned cluster machine w)

  reconcile_found-IsReturned :
      (cluster : Cluster) (machine : KinkMachine) (w : World C)
      → HasRanges cluster
      → IsReturned (reconcile_found P cluster machine w).0
  unfolding reconcile_found finish
  reconcile_found-IsReturned cluster machine w ranges =
      let set_up = lookup_or_setup_control_plane P {C = C} cluster machine in
      let next : Try KinkMachine → Action (World C) Outcome =
        λ t. elim t [ failed e ↦ pure retry | success m ↦ finish P cluster m ] in
      let step : (t : Try KinkMachine) (v : World C) → IsReturned (next t v).0 = λ t v.
        elim t as (λ t. IsReturned (next t v).0) [
          | failed e ↦ tt
          | success m ↦ finish-IsReturned cluster m v
        ] in
      >>=-IsReturned (attempt set_up) next w
        (attempt-IsReturned set_up w
          (lookup_or_setup_control_plane-IsReturned P cluster machine calm ranges w))
        (λ t v _. step t v)

  reconcile_with-IsReturned :
      HandsOutRanges C
      → (machine : KinkMachine) (w : World C) → IsReturned (reconcile_with P machine w).0
  unfolding reconcile_with
  reconcile_with-IsReturned ranges machine w =
      let key = cluster_of_machine P machine in
      let get = read {C = C} (C.get_cluster key) in
      let next : Try Cluster → Action (World C) Outcome =
        λ t. elim t [ failed e ↦ pure retry | success c ↦ reconcile_found P c machine ] in
      let step : (t : Try Cluster) (v : World C)
          → attempt get w ≡ (ok t, v)
          → IsReturned (next t v).0 =
        λ t v tried. elim (attempt-eq-ok get w tried) [
          | inl (c, e, got) ↦ rw e (
              reconcile_found-IsReturned c machine v
                (ranges key w.server c (ap (λ x. x.0) (read-eq-ok (C.get_cluster key) w got).0)))
          | inr (x, e, _) ↦ rw e tt
        ] in
      >>=-IsReturned (attempt get) next w (ground arith) step

  -- If no write call panics and every cluster that is handed out sets its network ranges, then
  -- `Reconcile` of a machine returns, whatever else the server answers.
  pub reconcile_machine-IsReturned :
      HandsOutRanges C
      → (req : NamespacedName) (w : World C) → IsReturned (reconcile_machine P req w).0
  unfolding reconcile_machine
  reconcile_machine-IsReturned ranges req w =
      let next : Try KinkMachine → Action (World C) Outcome = λ t. elim t [
        | failed e ↦ pure (if is_not_found e then done else retry)
        | success m ↦ reconcile_with P m
      ] in
      let step : (t : Try KinkMachine) (v : World C) → IsReturned (next t v).0 = λ t v.
        elim t as (λ t. IsReturned (next t v).0) [
          | failed e ↦ tt
          | success m ↦ reconcile_with-IsReturned ranges m v
        ] in
      >>=-IsReturned (attempt (read (C.get_machine req))) next w (ground arith) (λ t v _. step t v)

module _ (P : Platform) {C : Client} where
  -- If the service ranges of the cluster are unset and the pods are listed, then the round of a
  -- machine panics behind its two lookups.
  pub reconcile_machine_without_ranges :
      (cluster : Cluster) (machine : KinkMachine) (w : World C) {pods : List Pod} {s : C.State}
      → service_cidr cluster ≡ none
      → C.list_pods cluster.meta.namespace cluster.meta.name w.server ≡ (success pods, s)
      → (reconcile_found P cluster machine w).0 ≡ panic
  unfolding reconcile_found
  reconcile_machine_without_ranges cluster machine w nil listed =
      ground (arith, lookup_or_setup_control_plane_without_ranges P cluster machine w nil listed)
