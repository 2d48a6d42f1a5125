-- ===== src/Tests/System.antt =====
-- The whole program, run on the server in memory.
use kink.Base.{
  ℕ, suc, ◌≡◌, refl, true, pos, [], ◌∷◌, All, AnyOf, inl, inr, success, failed, not_found,
  if◌then◌else◌, ltb, arith, ok,
}
use kink.Manager.{Runtime, Process, default_flags, program, init, main}
use kink.Manager.Types.{kubernetes, cluster_api, LibraryTypes}
use kink.Manager.Registrations.{
  kink_machine_type, control_plane_registration, machine_registration, cluster_registration,
}
use kink.Manager.Starts.{plan, Ending, program_lem}
use kink.Manager.Watched.{
  HasLibraryTypes, IsSetUp, IsInScheme, named_types, named_types-IsInScheme, control_plane_owns,
}
use kink.ControlPlane.Scale.{new_machine}
use kink.Infrastructure.Templates.Etcd.{etcd_service_template}
use kink.Api.{KinkMachine, Service, control_plane_group_version}
use kink.Client.{Call, World, create_machine}
use kink.Client.Grows.{Adds}
use kink.ControlPlane.Controller.{reconcile_control_plane}
use kink.Infrastructure.Machine.Controller.{reconcile_machine}
use kink.Infrastructure.ClusterController.{reconcile_cluster}
use kink.System.{Reach, here, next, control_plane_round, machine_round, cluster_round, elsewhere}
use kink.System.Lawful.{IsLawful, Reach-IsLawful}
use kink.Tests.Memory.{memory, memory-RangesAll}
use kink.Tests.Objects.{platform, prod, prod_key, control_plane, machine, server}
use mathlib.Core.List.Perm
use kink.Base.{IsReturned}
use kink.Client.{Client}
use kink.Infrastructure.Templates.Util.{service_cidr, pod_cidr}
use kink.Infrastructure.Machine.Controller.Returns.{HandsOutRanges}
use kink.System.Returns.{HandsOutReplicas, rounds-IsReturned}
use kink.Tests.Pki.{kubeadm, pki, text_keys, text_keys-MakesRsaKeys}

abbrev start : World memory
start = server prod (machine "m1" true ∷ []) []

abbrev marked : World memory
marked = (reconcile_cluster prod_key start).1

abbrev scaled : World memory
scaled = (reconcile_control_plane platform kubeadm pki prod_key marked).1

-- Somebody deletes the secrets.
abbrev robbed : World memory
robbed = record scaled { server = record (scaled.server) { secrets = [] } }

abbrev set_up : World memory
set_up = (reconcile_machine platform (record prod_key { name = "m1" }) robbed).1

run : Reach platform kubeadm pki start set_up
run =
    next
      (next (next (next here (cluster_round prod_key _ refl)) (control_plane_round prod_key _ refl))
        (elsewhere _ refl))
      (machine_round (record prod_key { name = "m1" }) _ refl)

Reach-IsLawful_example : Adds (IsLawful platform memory) start.calls set_up
Reach-IsLawful_example = Reach-IsLawful platform kubeadm pki memory-RangesAll run

-- The libraries' groups of types.
abbrev libraries : LibraryTypes
libraries = record {
  client_go_types =
      kubernetes "Pod" ∷ kubernetes "Service" ∷ kubernetes "Secret" ∷ kubernetes "ConfigMap" ∷ [];
  cluster_api_types = cluster_api "Cluster" ∷ cluster_api "ClusterList" ∷ [];
}

libraries-HasLibraryTypes : HasLibraryTypes libraries
libraries-HasLibraryTypes = record {
  config_maps = inr (inr (inr (inl refl)));
  secrets = inr (inr (inl refl));
  services = inr (inl refl);
  pods = inl refl;
  clusters = inl refl;
}

-- A runtime whose state counts the commands and that fails at the one of this number.
abbrev failing_at : ℕ → Runtime
failing_at n = record {
  State = ℕ;
  perform = λ c s. (if ltb s n then success tt else failed not_found, suc s);
}

-- A runtime in which every command succeeds.
abbrev begun : Process (failing_at 99)
begun = (program default_flags (record { state = 0; commands = [] })).1

begun-ok :
    program {R = failing_at 99} default_flags (record { state = 0; commands = [] }) ≡ (ok tt, begun)
unfolding program init main
begun-ok = refl

named_types-IsInScheme_example :
    All
      (λ r. IsSetUp begun.commands r × All (IsInScheme libraries begun.commands) (named_types r))
      (control_plane_registration ∷ machine_registration ∷ cluster_registration ∷ [])
named_types-IsInScheme_example =
    named_types-IsInScheme libraries libraries-HasLibraryTypes (failing_at 99) default_flags 0 begun
      begun-ok

abbrev new_machine_call : Call
new_machine_call = create_machine (new_machine platform prod (control_plane (pos 3)) "prod-a")

control_plane_owns_example :
    AnyOf kink_machine_type control_plane_registration.owns
    × (platform.new_controller_ref
            (control_plane (pos 3)).meta
            control_plane_group_version
            "KinkControlPlane"
          ∷ []
        ≡ platform.new_controller_ref
            (control_plane (pos 3)).meta
            control_plane_group_version
            "KinkControlPlane"
          ∷ [])
control_plane_owns_example =
    control_plane_owns platform memory prod (control_plane (pos 3)) new_machine_call
      kink_machine_type
      (platform.new_controller_ref (control_plane (pos 3)).meta control_plane_group_version
          "KinkControlPlane"
        ∷ [])
      ("prod-a", refl) refl

abbrev m1 : KinkMachine
m1 = machine "m1" true

abbrev etcd_service : Service
etcd_service = etcd_service_template platform prod m1

abbrev fresh : Process (failing_at 8)
fresh = record { state = 0; commands = [] }

program_lem_example : Ending (failing_at 8) (plan default_flags) fresh (program default_flags fresh)
program_lem_example = program_lem (failing_at 8) default_flags fresh

-- The server in memory, except that it hands out one cluster and one control plane.
abbrev settled : Client
settled = record memory {
  get_cluster = λ key s. (success prod, s);
  get_control_plane = λ key s. (success (control_plane (pos 3)), s);
}

settled-HandsOutRanges : HandsOutRanges settled
unfolding service_cidr pod_cidr
settled-HandsOutRanges key s cluster e = let same : cluster ≡ prod = cc in rw same (cc, cc)

settled-HandsOutReplicas : HandsOutReplicas settled
settled-HandsOutReplicas key s kcp e =
    let same : kcp ≡ control_plane (pos 3) = cc in (3, rw same refl, omega arith)

rounds-IsReturned_example :
    IsReturned
      (reconcile_control_plane platform kubeadm
        (text_keys settled)
        prod_key
        (record { server = start.server; calls = [] })).0
    × IsReturned
        (reconcile_machine platform {C = settled} prod_key
          (record { server = start.server; calls = [] })).0
    × IsReturned
        (reconcile_cluster {C = settled} prod_key (record { server = start.server; calls = [] })).0
rounds-IsReturned_example =
    rounds-IsReturned platform kubeadm {C = settled} (text_keys settled) (λ c s _. tt)
      (λ A s l. Perm.refl l) (text_keys-MakesRsaKeys settled) settled-HandsOutRanges
      settled-HandsOutReplicas prod_key (record { server = start.server; calls = [] })
