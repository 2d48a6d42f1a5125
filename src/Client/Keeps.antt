-- ===== src/Client/Keeps.antt =====
-- What the scaling of machines relies on, of a server that refuses none of its calls: the machines of
-- a cluster are a list, to which a creation under a free name adds and from which a deletion takes.
use kink.Base.{String, ◌≡◌, ◌≢◌, List, [], ◌∷◌, ◌++◌, All, success, ok, get_label}
use kink.Api.{Cluster, KinkMachine}
use kink.Platform.{Platform}
use kink.Client.{Client, create_machine, delete_machine}

-- No machine of the list has this name.
abbrev pub IsFree : String → List KinkMachine → Type 0
IsFree name = All (λ x. x.meta.name ≢ name)

-- No machine of the list has this one's name.
abbrev pub IsNotAmong : KinkMachine → List KinkMachine → Type 0
IsNotAmong m = IsFree m.meta.name

-- Names are unique in a namespace.
abbrev pub HasDistinctNames : List KinkMachine → Type 0
HasDistinctNames [] = Unit
HasDistinctNames (m ∷ ms) = IsNotAmong m ms × HasDistinctNames ms

pub record KeepsMachines (P : Platform) (C : Client) (cluster : Cluster) : Type 0 where
  -- The machines in the cluster's namespace that carry its label, and the others in the namespace.
  pub stored : C.State → List KinkMachine
  pub others : C.State → List KinkMachine
  pub listed :
      (s : C.State)
      → C.list_machines cluster.meta.namespace cluster.meta.name s ≡ (success (stored s), s)
  -- A generated name is free, and is generated without a change of the cluster's machines.
  pub named :
      (base : String) (s : C.State)
      → let (name, t) = C.generate_name base s in
        (stored t ≡ stored s) × IsFree name (stored t) × IsFree name (others t)
  -- A creation under a name that is free in the namespace succeeds.
  pub created :
      (m : KinkMachine) (s : C.State)
      → m.meta.namespace ≡ cluster.meta.namespace
      → get_label P.cluster_label_name m.meta.labels ≡ cluster.meta.name
      → IsFree m.meta.name (stored s)
      → IsFree m.meta.name (others s)
      → ((C.submit (create_machine m) s).0 ≡ ok tt)
        × (stored (C.submit (create_machine m) s).1 ≡ stored s ++ (m ∷ []))
  -- A deletion takes the machine of this name away.
  pub deleted :
      (m : KinkMachine) (s : C.State) (before after : List KinkMachine)
      → stored s ≡ before ++ (m ∷ after)
      → IsNotAmong m before
      → ((C.submit (delete_machine m) s).0 ≡ ok tt)
        × (stored (C.submit (delete_machine m) s).1 ≡ before ++ after)
