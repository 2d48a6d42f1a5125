-- ===== src/Infrastructure/Machine/Controller/Reports.antt =====
-- What `Reconcile` of a machine reports.
use kink.Base.{
  Bool, ◌≡◌, refl, >>=-eq-ok, attempt-eq-ok, Action, Try, attempt, pure, inl, inr, none, List, [],
  ◌∷◌, ◌++◌, Result, ok, err, success, failed, arith,
}
use kink.Api.{NamespacedName, Cluster, KinkMachine, Pod}
use kink.Platform.{Platform}
use kink.Client.{Client, Call, World, write, read, read-eq-ok, update_machine_status}
use kink.Reconcile.{Outcome, done, retry}
use kink.Infrastructure.Machine.Setup.{lookup_or_setup_control_plane}
use kink.Infrastructure.Machine.Setup.Services.{control_plane_forgets_pods}
use kink.Infrastructure.Machine.Status.{report_machine_status, with_status, pods_ready}
use kink.Infrastructure.Machine.Controller.{finish, reconcile_found, reconcile_machine}

-- A controller that returned has returned an outcome without an error.
abbrev pub ReportsNoError : Result Outcome → Type 0
ReportsNoError (ok o) = o.error ≡ none
ReportsNoError (err e) = ⊥
ReportsNoError _ = Unit

module _ (P : Platform) {C : Client} where
  -- `Reconcile` of a machine never hands an error to the controller runtime.
  pub reconcile_machine-ReportsNoError :
      (req : NamespacedName) (w : World C) → ReportsNoError (reconcile_machine P req w).0
  unfolding reconcile_machine finish
  reconcile_machine-ReportsNoError req w = ground arith

  report-calls :
      (cluster : Cluster) (machine : KinkMachine) (w w' : World C)
      → report_machine_status P cluster machine w ≡ (ok tt, w')
      → (ready : Bool) × (w'.calls
          ≡ w.calls ++ (update_machine_status (with_status machine ready) ∷ []))
  unfolding report_machine_status
  report-calls cluster machine w w' h =
      let list = C.list_pods cluster.meta.namespace cluster.meta.name in
      let update : List Pod → Action (World C) (Unit {0}) =
        λ pods. write (update_machine_status (with_status machine (pods_ready P machine pods))) in
      let (pods, v, listed, wrote) = >>=-eq-ok (read list) update w h in
      let (_, quiet) = read-eq-ok list w listed in (pods_ready P machine pods, ground arith)

  finish-done :
      (cluster : Cluster) (machine : KinkMachine) (w w' : World C)
      → finish P cluster machine w ≡ (ok done, w')
      → report_machine_status P cluster machine w ≡ (ok tt, w')
  unfolding finish
  finish-done cluster machine w w' h = ground arith

  reconcile_found-eq-done :
      (cluster : Cluster) (machine : KinkMachine) (w w' : World C)
      → reconcile_found P cluster machine w ≡ (ok done, w')
      → (m : KinkMachine) × (v : World C) × (lookup_or_setup_control_plane P cluster machine w
          ≡ (ok m, v))
        × (report_machine_status P cluster m v ≡ (ok tt, w'))
  unfolding reconcile_found
  reconcile_found-eq-done cluster machine w w' h =
      let set_up = lookup_or_setup_control_plane P {C = C} cluster machine in
      let next : Try KinkMachine → Action (World C) Outcome =
        λ t. elim t [ failed e ↦ pure retry | success m ↦ finish P cluster m ] in
      let (t, v, tried, rest) = >>=-eq-ok (attempt set_up) next w h in
      elim (attempt-eq-ok set_up w tried) [
        | inl (m, e, done) ↦ (m, v, done, finish-done cluster m v w' (ground arith))
        | inr (e, f, _) ↦ absurd (ground arith)
      ]

  -- Behind its two lookups, a round that ends without a retry has written the machine's status
  -- last: with no reference to a pod, and with neither a failure reason nor a failure message.
  pub reconcile_found-done :
      (cluster : Cluster) (machine : KinkMachine) (w w' : World C)
      → reconcile_found P cluster machine w ≡ (ok done, w')
      → (before : List Call) × (m : KinkMachine) × (w'.calls
          ≡ before ++ (update_machine_status m ∷ []))
        × (m.status.pods ≡ [])
        × (m.status.failure_reason ≡ none)
        × (m.status.failure_message ≡ none)
  reconcile_found-done cluster machine w w' h =
      let (m, v, set_up, reported) = reconcile_found-eq-done cluster machine w w' h in
      let (ready, calls) = report-calls cluster m v w' reported in
      (
        v.calls,
        with_status m ready,
        calls,
        control_plane_forgets_pods P cluster machine m w v set_up,
        refl,
        refl,
      )
