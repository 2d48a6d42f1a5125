-- ===== src/Tests/Memory.antt =====
-- An API server in memory, which stores the objects that it is given.
use kink.Base.{
  ℕ, zero, suc, String, ◌<>◌, ◌==◌, ◌&&◌, Bool, List, [], ◌∷◌, ◌++◌, Try, success, failed,
  not_found, ok, err, Result, false, ◌||◌, ◌≤◌, if◌then◌else◌,
}
use mathlib.Core.List.Perm
use text.Mathlib.TextLemmas.{length-append as size-append}
use Prim.Native.String.{count as size}
use kink.Api.{
  NamespacedName, ObjectMeta, Cluster, KinkCluster, KinkControlPlane, KinkMachine, Pod, Service,
  Secret,
}
use kink.Platform.{Platform}
use kink.Client.Keeps.{IsFree, IsNotAmong, KeepsMachines}
use kink.Base.{◌≡◌, refl, ap, ◌∙◌, arith, eq_iff}
use kink.Client.{
  Client, Call, create_machine, delete_machine, create_pod, create_service, create_secret,
  NeverPanics, RangesAll,
}

pub record Store : Type 0 where
  pub control_planes : List KinkControlPlane
  pub clusters : List Cluster
  pub kink_clusters : List KinkCluster
  pub machines : List KinkMachine
  pub pods : List Pod
  pub services : List Service
  pub secrets : List Secret
  pub names : ℕ

abbrev pub has_key : NamespacedName → ObjectMeta → Bool
has_key key meta = (meta.namespace == key.namespace) && (meta.name == key.name)

abbrev pub find : {A : Type 0} → (A → ObjectMeta) → NamespacedName → List A → Try A
find meta key [] = failed not_found
find meta key (x ∷ xs) = if has_key key (meta x) then success x else find meta key xs

abbrev without : String → List KinkMachine → List KinkMachine
without name [] = []
without name (m ∷ ms) = if m.meta.name == name then ms else m ∷ without name ms

abbrev apply : Call → Store → Store
apply (create_machine m) s = record s { machines = s.machines ++ (m ∷ []) }
apply (delete_machine m) s = record s { machines = without m.meta.name s.machines }
apply (create_pod p) s = record s { pods = s.pods ++ (p ∷ []) }
apply (create_service x) s = record s { services = s.services ++ (x ∷ []) }
apply (create_secret x) s = record s { secrets = s.secrets ++ (x ∷ []) }
apply _ s = s

abbrev suffix : ℕ → String
suffix zero = "a"
suffix (suc n) = suffix n <> "a"

abbrev pub memory : Client
memory = record {
  State = Store;
  get_control_plane = λ key s. (find (λ x. x.meta) key s.control_planes, s);
  get_cluster = λ key s. (find (λ x. x.meta) key s.clusters, s);
  get_machine = λ key s. (find (λ x. x.meta) key s.machines, s);
  get_kink_cluster = λ key s. (find (λ x. x.meta) key s.kink_clusters, s);
  get_secret = λ key s. (find (λ x. x.meta) key s.secrets, s);
  list_machines = λ _ _ s. (success s.machines, s);
  list_pods = λ _ _ s. (success s.pods, s);
  list_services = λ _ _ s. (success s.services, s);
  submit = λ c s. (ok tt, apply c s);
  generate_name = λ base s. (base <> suffix s.names, record s { names = suc s.names });
  range_order = λ A s l. l;
}

pub memory-NeverPanics : NeverPanics memory
memory-NeverPanics c s h = tt

pub memory-RangesAll : RangesAll memory
memory-RangesAll A s l = Perm.refl l

pub without-append :
    (m : KinkMachine) (before after : List KinkMachine)
    → IsNotAmong m before
    → without m.meta.name (before ++ (m ∷ after)) ≡ before ++ after
without-append m [] after h = ground (arith, eq_iff m.meta.name m.meta.name)
without-append m (x ∷ before) after (h, hs) =
    ground (arith, eq_iff x.meta.name m.meta.name, without-append m before after hs)

abbrev is_taken : String → List KinkMachine → Bool
is_taken name [] = false
is_taken name (m ∷ ms) = (m.meta.name == name) || is_taken name ms

pub free-is_taken :
    (name : String) (ms : List KinkMachine) → IsFree name ms → is_taken name ms ≡ false
free-is_taken name [] h = refl
free-is_taken name (m ∷ ms) (h, hs) =
    ground (arith, eq_iff m.meta.name name, free-is_taken name ms hs)

-- A text that is longer than the name of each machine.
abbrev all_names : List KinkMachine → String
all_names [] = "a"
all_names (m ∷ ms) = m.meta.name <> all_names ms

abbrev refusing : Call → Store → Result (Unit {0}) × Store
refusing (create_machine m) s =
    if is_taken m.meta.name s.machines
    then (err not_found, s)
    else (ok tt, apply (create_machine m) s)
refusing c s = (ok tt, apply c s)

-- The same server, which refuses to create a machine under a name that is taken, with a generator of
-- free names.
abbrev pub careful : Client
careful = record memory {
  submit = refusing;
  generate_name = λ base s. (base <> all_names s.machines, s);
}

all_names-long : (ms : List KinkMachine) → 1 ≤ size (all_names ms)
all_names-long [] = omega arith
all_names-long (m ∷ ms) = omega (arith, size-append m.meta.name (all_names ms), all_names-long ms)

pub IsFree-of_long :
    (name : String) (ms : List KinkMachine) → size (all_names ms) ≤ size name → IsFree name ms
IsFree-of_long name [] h = tt
IsFree-of_long name (m ∷ ms) h = (
  (λ e. omega (arith, ap size e, size-append m.meta.name (all_names ms), all_names-long ms)),
  IsFree-of_long name ms (omega (arith, size-append m.meta.name (all_names ms))),
)

module _ (P : Platform) (cluster : Cluster) where
  abbrev pub careful_machines : KeepsMachines P careful cluster
  careful_machines = record {
    stored = λ s. s.machines;
    others = λ s. [];
    listed = λ s. refl;
    named = λ base s. (
      refl,
      IsFree-of_long (base <> all_names s.machines) s.machines
          (omega (arith, size-append base (all_names s.machines))),
      tt,
    );
    created = λ m s _ _ free _.
        let open_name = free-is_taken m.meta.name s.machines free in
        (rw open_name refl, rw open_name refl);
    deleted = λ m s before after e h.
        (refl, ap (without m.meta.name) e ∙ without-append m before after h);
  }
