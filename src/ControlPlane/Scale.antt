-- ===== src/ControlPlane/Scale.antt =====
-- `lookupOrCreateMachines` of kinkcontrolplane_controller.go.
pub mod Creates
pub mod Deletes
pub mod Reaches
pub mod Converges
pub mod Bounds
use kink.Base.{
  ℕ, zero, suc, ◌-◌, ℤ, pos, ltb_ℤ, to_int32, int32_mod, String, ◌<>◌, Option, none, some, true,
  false, List, [], ◌∷◌, length, get_elem?, Action, pure, attempt, wrapping, panicking,
  out_of_rounds, ◌>>=◌, ◌>>◌,
}
use kink.Api.{Cluster, KinkControlPlane, KinkMachine, control_plane_group_version}
use kink.Platform.{Platform}
use kink.Client.{Client, World, read, write, generate, create_machine, delete_machine}

-- `int32` has this many values, so neither loop makes more rounds.
unfoldable pub loop_rounds : ℕ
loop_rounds = int32_mod

-- The pointer is nil where the user gives no number.
abbrev pub desired_replicas : KinkControlPlane → ℤ
desired_replicas kcp = elim kcp.spec.replicas [ none ↦ pos 0 | some n ↦ n ]

-- `kms.Items[i-1]`, where an index outside the slice is a panic.
abbrev pub item_before : ℕ → List KinkMachine → Option KinkMachine
item_before zero items = none
item_before (suc i) items = get_elem? items i

module _ (P : Platform) where
  abbrev pub new_machine : Cluster → KinkControlPlane → String → KinkMachine
  new_machine cluster kcp name = record {
    meta = record {
      name = name;
      namespace = cluster.meta.namespace;
      uid = "";
      labels = some (
          (P.cluster_label_name, cluster.meta.name)
          ∷ (P.machine_control_plane_label_name, "")
          ∷ []);
      owner_references =
          P.new_controller_ref kcp.meta control_plane_group_version "KinkControlPlane" ∷ [];
    };
    spec = record { version = kcp.spec.version };
    status = record { pods = []; ready = false; failure_reason = none; failure_message = none };
  }

module _ (P : Platform) {C : Client} (cluster : Cluster) (kcp : KinkControlPlane) where
  -- `for i := len(kms.Items); int32(i) < replicas; i++`
  unfoldable pub create_machines : ℕ → ℕ → ℤ → Action (World C) (Unit {0})
  create_machines zero i replicas = λ w. (out_of_rounds, w)
  create_machines (suc rounds) i replicas = elim (ltb_ℤ (to_int32 i) replicas) [
    | false ↦ pure tt
    | true ↦ do
      name ← generate (cluster.meta.name <> "-")
      attempt (write (create_machine (new_machine P cluster kcp name)))
      create_machines rounds (suc i) replicas
  ]

module _ {C : Client} where
  -- `for i := len(kms.Items); int32(i) > replicas; i--`
  unfoldable pub delete_machines : ℕ → ℕ → ℤ → List KinkMachine → Action (World C) (Unit {0})
  delete_machines zero i replicas items = λ w. (out_of_rounds, w)
  delete_machines (suc rounds) i replicas items = elim (ltb_ℤ replicas (to_int32 i)) [
    | false ↦ pure tt
    | true ↦ elim (item_before i items) [
      | none ↦ panicking
      | some m ↦ do
        attempt (write (delete_machine m))
        delete_machines rounds (i - 1) replicas items
    ]
  ]

module _ (P : Platform) {C : Client} where
  -- The two loops.
  unfoldable pub scale_machines :
      Cluster → KinkControlPlane → List KinkMachine → ℤ → Action (World C) (Unit {0})
  scale_machines cluster kcp kms replicas = do
    create_machines P cluster kcp loop_rounds (length kms) replicas
    delete_machines loop_rounds (length kms) replicas kms

  unfoldable pub lookup_or_create_machines :
      Cluster → KinkControlPlane → Action (World C) (Unit {0})
  unfolding scale_machines
  lookup_or_create_machines cluster kcp = do
    kms ←
        wrapping "failed to list machines"
          (read (C.list_machines cluster.meta.namespace cluster.meta.name))
    scale_machines cluster kcp kms (desired_replicas kcp)
