-- ===== src/ControlPlane/Controller/Frame/Scaling.antt =====
-- `lookupOrCreateMachines`, and the calls that are allowed.
use kink.ControlPlane.Status.{
  report_control_plane_status, with_replicas, count_replicas, no_replicas,
}
use kink.Base.{
  wrapping, length, ℕ, zero, suc, ◌-◌, ℤ, ltb_ℤ, to_int32, String, ◌<>◌, ◌≡◌, refl, Bool, true,
  false, Option, none, some, List, [], Try, success, failed, Action, pure, attempt, panicking,
  ◌>>=◌, ◌>>◌, arith, append-nil, ap,
}
use kink.Api.{Cluster, KinkControlPlane, KinkMachine}
use kink.Platform.{Platform}
use kink.Client.{
  read, update_control_plane_status, Client, Call, World, write, generate, create_machine,
  delete_machine,
}
use kink.Client.Grows.{
  Grows, Adds, Adds-none, >>=-Grows, attempt-Grows, wrapping-Grows, read-Grows, write-Grows,
  generate-Grows,
}
use kink.ControlPlane.Scale.{
  loop_rounds, desired_replicas, item_before, new_machine, create_machines, delete_machines,
  scale_machines, lookup_or_create_machines,
}
use kink.ControlPlane.Controller.Frame.{WasListed, IsScaling}

module _ (P : Platform) (C : Client) (cluster : Cluster) (kcp : KinkControlPlane) where
  abbrev Q : Call → Type 0
  Q = IsScaling P C cluster kcp

  creating-Scales :
      (rounds i : ℕ) (replicas : ℤ)
      → Grows {C = C} Q (create_machines P cluster kcp rounds i replicas)
  unfolding create_machines
  creating-Scales zero i replicas = λ w. Adds-none Q w
  creating-Scales (suc rounds) i replicas =
      let later = creating-Scales rounds (suc i) replicas in
      let call : String → Action (World C) (Unit {0}) =
        λ name. write (create_machine (new_machine P cluster kcp name)) in
      let next : String → Action (World C) (Unit {0}) =
        λ name. attempt (call name) >> create_machines P cluster kcp rounds (suc i) replicas in
      let round : Bool → Action (World C) (Unit {0}) =
        λ b. elim b [ false ↦ pure tt | true ↦ generate (cluster.meta.name <> "-") >>= next ] in
      elim (ltb_ℤ (to_int32 i) replicas) as (λ b. Grows Q (round b)) [
        | false ↦ (λ w. Adds-none Q w)
        | true ↦
            >>=-Grows Q (generate (cluster.meta.name <> "-")) next
              (generate-Grows Q (cluster.meta.name <> "-"))
              (λ name.
                >>=-Grows Q (attempt (call name))
                  (λ _. create_machines P cluster kcp rounds (suc i) replicas)
                  (attempt-Grows Q (call name)
                    (write-Grows Q (create_machine (new_machine P cluster kcp name)) (name, refl)))
                  (λ _. later))
      ]

  module _ (s : C.State) (kms : List KinkMachine)
      (listed : (C.list_machines cluster.meta.namespace cluster.meta.name s).0 ≡ success kms) where
    before-WasListed :
        (i : ℕ) (m : KinkMachine) → item_before i kms ≡ some m → WasListed P C cluster kcp m
    before-WasListed zero m e = absurd (ground arith)
    before-WasListed (suc i) m e = (s, kms, i, listed, e)

    deleting-Scales :
        (rounds i : ℕ) (replicas : ℤ) → Grows {C = C} Q (delete_machines rounds i replicas kms)
    unfolding delete_machines
    deleting-Scales zero i replicas = λ w. Adds-none Q w
    deleting-Scales (suc rounds) i replicas =
        let later = deleting-Scales rounds (i - 1) replicas in
        let next : Action (World C) (Unit {0}) = delete_machines rounds (i - 1) replicas kms in
        let item : Option KinkMachine → Action (World C) (Unit {0}) = λ o. elim o [
          | none ↦ panicking
          | some m ↦ attempt (write (delete_machine m)) >>= λ _. next
        ] in
        let round : Bool → Action (World C) (Unit {0}) =
          λ b. elim b [ false ↦ pure tt | true ↦ item (item_before i kms) ] in
        let found : (o : Option KinkMachine) → item_before i kms ≡ o → Grows Q (item o) = λ o.
          elim o as (λ o. item_before i kms ≡ o → Grows Q (item o)) [
            | none ↦ λ e w. Adds-none Q w
            | some m ↦ λ e.
                >>=-Grows Q (attempt (write (delete_machine m))) (λ _. next)
                  (attempt-Grows Q (write (delete_machine m))
                    (write-Grows Q (delete_machine m) (before-WasListed i m e)))
                  (λ _. later)
          ] in
        elim (ltb_ℤ replicas (to_int32 i)) as (λ b. Grows Q (round b)) [
          | false ↦ (λ w. Adds-none Q w)
          | true ↦ found (item_before i kms) refl
        ]

    scaling-Scales : (replicas : ℤ) → Grows {C = C} Q (scale_machines P cluster kcp kms replicas)
    unfolding scale_machines
    scaling-Scales replicas =
        >>=-Grows Q (create_machines P cluster kcp loop_rounds (length kms) replicas)
          (λ _. delete_machines loop_rounds (length kms) replicas kms)
          (creating-Scales loop_rounds (length kms) replicas)
          (λ _. deleting-Scales loop_rounds (length kms) replicas)

  pub machines-Scales : Grows {C = C} Q (lookup_or_create_machines P cluster kcp)
  unfolding lookup_or_create_machines
  machines-Scales w = go (C.list_machines cluster.meta.namespace cluster.meta.name w.server) refl
    where
      go :
          (t : Try (List KinkMachine) × C.State)
          → C.list_machines cluster.meta.namespace cluster.meta.name w.server ≡ t
          → Adds Q w.calls (lookup_or_create_machines P cluster kcp w).1
      go (success kms, s) e =
          let (x, first, p) =
            scaling-Scales w.server kms (ap (λ t. t.0) e) (desired_replicas kcp)
              (record w { server = s }) in
          (x, ground arith, p)
      go (failed x, s) e = ([], ground (arith, append-nil w.calls), tt)

  pub status-Scales : Grows {C = C} Q (report_control_plane_status P kcp)
  unfolding report_control_plane_status with_replicas
  status-Scales =
      let list = C.list_machines kcp.meta.namespace kcp.spec.cluster_name in
      let update : List KinkMachine → KinkControlPlane =
        λ kms. with_replicas kcp (count_replicas P kcp kms no_replicas) in
      >>=-Grows Q (wrapping "failed to list machines" (read list))
        (λ kms. write (update_control_plane_status (update kms)))
        (wrapping-Grows Q "failed to list machines" (read list) (read-Grows Q list))
        (λ kms. write-Grows Q (update_control_plane_status (update kms)) (refl, refl))
