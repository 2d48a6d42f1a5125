-- ===== src/Client.antt =====
-- The API server behind `client.Client`, the name generator and the order in which Go runs through
-- a map: an unknown state that answers each call as it likes. The model records the write calls.
pub mod Grows
pub mod Gives
pub mod Then
pub mod Keeps
use mathlib.Core.List.{Perm}
use kink.Base.{
  ◌≡◌, refl, arith, IsReturned, String, List, [], ◌∷◌, ◌++◌, Try, success, failed, Result, ok, err,
  Action,
}
use kink.Api.{
  NamespacedName, OwnerReference, Cluster, KinkCluster, KinkControlPlane, KinkMachine, Pod, Service,
  Secret,
}

-- The calls that change the cluster.
pub data Call : Type 0 where
  create_machine delete_machine update_machine_status : KinkMachine → Call
  create_pod : Pod → Call
  create_service : Service → Call
  create_secret : Secret → Call
  -- `r.Create(ctx, sec)` with a nil secret
  create_nil_secret : Call
  -- `kubeconfig.CreateSecretWithOwner`: cluster, endpoint, owner
  create_kubeconfig : NamespacedName → String → OwnerReference → Call
  update_control_plane_status : KinkControlPlane → Call
  update_cluster_status : KinkCluster → Call

pub record Client : Type 1 where
  pub State : Type 0
  pub get_control_plane : NamespacedName → State → Try KinkControlPlane × State
  pub get_cluster : NamespacedName → State → Try Cluster × State
  pub get_machine : NamespacedName → State → Try KinkMachine × State
  pub get_kink_cluster : NamespacedName → State → Try KinkCluster × State
  pub get_secret : NamespacedName → State → Try Secret × State
  -- `List` in a namespace, by the value of the cluster label.
  pub list_machines : String → String → State → Try (List KinkMachine) × State
  pub list_pods : String → String → State → Try (List Pod) × State
  pub list_services : String → String → State → Try (List Service) × State
  -- A write may fail, and panics on a nil object.
  pub submit : Call → State → Result (Unit {0}) × State
  -- `names.SimpleNameGenerator.GenerateName`
  pub generate_name : String → State → String × State
  -- The order in which a `range` over a map meets its entries.
  pub range_order : (A : Type 0) → State → List A → List A

-- A `range` meets each entry of the map once.
abbrev pub RangesAll : Client → Type 1
RangesAll C = (A : Type 0) (s : C.State) (l : List A) → Perm (C.range_order A s l) l

-- The call is one on an object, and not on a nil pointer.
abbrev pub HasObject : Call → Type 0
HasObject create_nil_secret = ⊥
HasObject _ = Unit

-- No write call on an object panics.
abbrev pub NeverPanics : Client → Type 0
NeverPanics C = (c : Call) (s : C.State) → HasObject c → IsReturned (C.submit c s).0

pub record World (C : Client) : Type 0 where
  pub server : C.State
  -- The write calls so far, in order.
  pub calls : List Call

module _ {C : Client} where
  abbrev pub read : {A : Type 0} → (C.State → Try A × C.State) → Action (World C) A
  read f w =
      let (t, s) = f w.server in
      elim t [
        | success a ↦ (ok a, record w { server = s })
        | failed e ↦ (err e, record w { server = s })
      ]

  -- The world behind a write.
  abbrev pub submitted : Call → World C → World C
  submitted c w = record { server = (C.submit c w.server).1; calls = w.calls ++ (c ∷ []) }

  abbrev pub write : Call → Action (World C) (Unit {0})
  write c w = ((C.submit c w.server).0, submitted c w)

  abbrev pub generate : String → Action (World C) String
  generate base w =
      let (name, s) = C.generate_name base w.server in (ok name, record w { server = s })

  abbrev pub range : {A : Type 0} → List A → Action (World C) (List A)
  range {A} l w = (ok (C.range_order A w.server l), w)

  -- A read that returned has read from the server, and made no write call.
  pub read-eq-ok :
      {A : Type 0} (f : C.State → Try A × C.State) (w : World C) {a : A} {w' : World C}
      → read f w ≡ (ok a, w')
      → (f w.server ≡ (success a, w'.server)) × (w'.calls ≡ w.calls)
  read-eq-ok {A} f w {a} {w'} h = go (f w.server) refl
    where
      go :
          (r : Try A × C.State)
          → f w.server ≡ r
          → (f w.server ≡ (success a, w'.server)) × (w'.calls ≡ w.calls)
      go (success x, s) e = (ground arith, ground arith)
      go (failed x, s) e = absurd (ground arith)
