-- ===== src/Tests/ControlPlanes.antt =====
-- The controller of the control planes, run on the server in memory.
use mathlib.Core.List.{reverse}
use kink.Base.{
  ◌+◌, ◌<◌, ◌≡◌, ◌↔◌, ◌⊎◌, refl, true, false, pos, negsuc, some, List, [], ◌∷◌, ◌++◌, map, length,
  drop, ok, panic, success, Result, arith, int32_half, to_int32,
}
use kink.Api.{Cluster, KinkControlPlane, KinkMachine, ObjectReference}
use kink.Client.{World, delete_machine, update_control_plane_status}
use kink.Reconcile.{Outcome, done}
use kink.ControlPlane.Scale.{
  scale_machines, create_machines, delete_machines, loop_rounds, lookup_or_create_machines,
}
use kink.ControlPlane.Scale.Creates.{generated_names, creation}
use kink.ControlPlane.Scale.Reaches.{
  lookup_or_create_machines_lem, lookup_or_create_machines_negative,
}
use kink.ControlPlane.Status.{report_control_plane_status}
use kink.ControlPlane.Status.Counts.{
  is_ready, is_unavailable, is_ours, report_control_plane_status-counts,
}
use kink.ControlPlane.Watch.{cluster_object, cluster_to_control_plane}
use kink.ControlPlane.Watch.Requests.{request_for, cluster_to_control_plane_iff}
use kink.ControlPlane.Certs.AltNames.{
  add_alt_names, add_endpoint, alt_names_for, get_api_server_alt_names, svc_subnet,
}
use kink.ControlPlane.Certs.Catalogue.{get_certs, get_config, mutate}
use kink.ControlPlane.Certs.Tree.{as_map, cert_tree_from, place, add_leaves}
use kink.ControlPlane.Certs.Secrets.{
  create_ca_secret, build_cert_secret, create_from_ca, create_sa_secret, build_sa_secret,
}
use kink.ControlPlane.Certs.Manager.{
  create_tree, create_cas, create_ca, store_ca, create_leaves, lookup_or_generate_cas,
  lookup_or_generate_kubeconfig,
}
use kink.ControlPlane.Controller.{cluster_of_control_plane, provision, reconcile_control_plane}
use kink.ControlPlane.Controller.Guards.{IsReachable, writes_only_if_IsReachable}
use kink.ControlPlane.Controller.Steps.{
  RetriesErrors, provision-done, reconcile_control_plane-RetriesErrors,
}
use kink.Base.{count}
use kink.Client.Grows.{Adds}
use kink.ControlPlane.Controller.Frame.{IsAllowed, IsScaling}
use kink.ControlPlane.Controller.Kept.{looked_up, HoldsSecrets, provision-IsScaling}
use kink.Client.{Client}
use kink.Tests.Pki.{text_keys}
use kink.ControlPlane.Certs.Secrets.{secret_with}
use kink.ControlPlane.Controller.Frame.Round.{provision-IsAllowed}
use kink.Base.{IsReturned}
use kink.Tests.Objects.{network}
use kink.ControlPlane.Scale.Bounds.{lookup_or_create_machines_bounds}
use kink.Base.{int32_mod}
use kink.Client.{Call}
use mathlib.Core.List.Perm
use kink.Api.{Secret}
use kink.ControlPlane.Certs.Catalogue.{get_certs}
use kink.Tests.Objects.{named}
use kink.Tests.Memory.{find, memory, careful, memory-NeverPanics}
use kink.Tests.Objects.{platform, prod, prod_key, control_plane, control_plane_ref, machine, server}
use kink.Tests.Pki.{kubeadm, pki}

abbrev machines : List KinkMachine
machines = machine "m1" true ∷ machine "m2" false ∷ machine "m3" true ∷ []

abbrev before : World memory
before = server prod machines []

few : length machines < int32_half
few = omega arith

abbrev carefully : World careful
carefully = record { server = before.server; calls = [] }

abbrev called : Result (Unit {0}) × World careful
called = lookup_or_create_machines platform prod (control_plane (pos 5)) carefully

lookup_or_create_machines_lem_example :
    let names = generated_names platform memory prod (control_plane (pos 5)) 2 before.server in
    (length names ≡ 2)
    × ((w' : World memory) × (lookup_or_create_machines platform prod (control_plane (pos 5)) before
          ≡ (ok tt, w'))
        × (w'.calls
            ≡ before.calls
              ++ (map (creation platform prod (control_plane (pos 5))) names
                  ++ map delete_machine (reverse (drop 5 machines)))))
lookup_or_create_machines_lem_example =
    lookup_or_create_machines_lem platform memory-NeverPanics prod (control_plane (pos 5)) machines
      before refl few 5 refl (omega arith)

lookup_or_create_machines_negative_example :
    (w' : World memory) × (lookup_or_create_machines platform prod (control_plane (negsuc 0)) before
      ≡ (panic, w'))
    × (w'.calls ≡ before.calls ++ map delete_machine (reverse machines))
lookup_or_create_machines_negative_example =
    lookup_or_create_machines_negative platform memory-NeverPanics prod (control_plane (negsuc 0))
      machines before refl few 0 refl

abbrev kcp : KinkControlPlane
kcp = control_plane (pos 3)

report_control_plane_status-counts_example :
    (k : KinkControlPlane) × ((report_control_plane_status platform kcp before).1.calls
      ≡ before.calls ++ (update_control_plane_status k ∷ []))
    × (k.status.ready_replicas ≡ pos (count (is_ready platform kcp) machines))
    × (k.status.unavailable_replicas ≡ pos (count (is_unavailable platform kcp) machines))
    × (count (is_ready platform kcp) machines + count (is_unavailable platform kcp) machines
        ≡ count (is_ours platform kcp) machines)
    × ((k.status.ready ≡ true) ↔ (0 < count (is_ready platform kcp) machines))
    × (k.status.initialized ≡ k.status.ready)
    × (k.status.external_managed_control_plane ≡ true)
    × (k.meta ≡ kcp.meta)
    × (k.spec ≡ kcp.spec)
report_control_plane_status-counts_example =
    report_control_plane_status-counts platform kcp before machines refl few

writes_only_if_IsReachable_example :
    ((reconcile_control_plane platform kubeadm pki prod_key before).1.calls ≡ before.calls)
    ⊎ ((k : KinkControlPlane) × (cluster : Cluster) × (s : memory.State)
        × ((memory.get_control_plane prod_key before.server).0 ≡ success k)
        × ((memory.get_cluster (cluster_of_control_plane k) s).0 ≡ success cluster)
        × IsReachable platform cluster)
writes_only_if_IsReachable_example = writes_only_if_IsReachable platform kubeadm pki prod_key before

abbrev round : Result Outcome × World memory
round = provision platform kubeadm pki prod kcp before

abbrev with_cas : World memory
with_cas = (lookup_or_generate_cas platform pki kcp prod kubeadm before).1

abbrev with_kubeconfig : World memory
with_kubeconfig = (lookup_or_generate_kubeconfig platform kcp prod with_cas).1

abbrev with_machines : World memory
with_machines = (lookup_or_create_machines platform prod kcp with_kubeconfig).1

cas-eq-ok : lookup_or_generate_cas platform pki kcp prod kubeadm before ≡ (ok tt, with_cas)
unfolding lookup_or_generate_cas cert_tree_from as_map get_certs place create_tree create_cas
    add_leaves create_ca get_config store_ca create_ca_secret build_cert_secret create_leaves
    create_from_ca add_alt_names create_sa_secret add_endpoint alt_names_for
    get_api_server_alt_names svc_subnet mutate build_sa_secret
cas-eq-ok = refl

kubeconfig-eq-ok :
    lookup_or_generate_kubeconfig platform kcp prod with_cas ≡ (ok tt, with_kubeconfig)
unfolding lookup_or_generate_kubeconfig lookup_or_generate_cas cert_tree_from as_map get_certs place
    create_tree create_cas add_leaves create_ca get_config store_ca create_ca_secret
    build_cert_secret create_leaves create_from_ca add_alt_names create_sa_secret add_endpoint
    alt_names_for get_api_server_alt_names svc_subnet mutate build_sa_secret
kubeconfig-eq-ok = refl

machines-eq-ok :
    lookup_or_create_machines platform prod kcp with_kubeconfig ≡ (ok tt, with_machines)
unfolding lookup_or_create_machines scale_machines create_machines delete_machines loop_rounds
    lookup_or_generate_kubeconfig lookup_or_generate_cas cert_tree_from as_map get_certs place
    create_tree create_cas add_leaves create_ca get_config store_ca create_ca_secret
    build_cert_secret create_leaves create_from_ca add_alt_names create_sa_secret add_endpoint
    alt_names_for get_api_server_alt_names svc_subnet mutate build_sa_secret to_int32
machines-eq-ok = refl

round-eq-ok : round ≡ (ok done, round.1)
unfolding provision report_control_plane_status
round-eq-ok = ground (arith, cas-eq-ok, kubeconfig-eq-ok, machines-eq-ok)

provision-done_example :
    (u v x : World memory) × (lookup_or_generate_cas platform pki kcp prod kubeadm before
      ≡ (ok tt, u))
    × (lookup_or_generate_kubeconfig platform kcp prod u ≡ (ok tt, v))
    × (lookup_or_create_machines platform prod kcp v ≡ (ok tt, x))
    × (report_control_plane_status platform kcp x ≡ (ok tt, round.1))
provision-done_example = provision-done platform kubeadm pki prod kcp before round.1 round-eq-ok

provision-IsAllowed_example : Adds (IsAllowed platform memory prod kcp) before.calls round.1
provision-IsAllowed_example = provision-IsAllowed platform pki prod kcp kubeadm before

reconcile_control_plane-RetriesErrors_example :
    RetriesErrors (reconcile_control_plane platform kubeadm pki prod_key before).0
reconcile_control_plane-RetriesErrors_example =
    reconcile_control_plane-RetriesErrors platform kubeadm pki prod_key before

cluster_to_control_plane_iff_example :
    (cluster_to_control_plane (cluster_object prod) ≡ some (request_for control_plane_ref ∷ [])) ↔ (
      (r : ObjectReference) × (prod.control_plane_ref ≡ some r)
      × (r.kind ≡ "KinkControlPlane")
      × (request_for r ≡ request_for control_plane_ref))
cluster_to_control_plane_iff_example = cluster_to_control_plane_iff prod control_plane_ref

prod-network : svc_subnet prod ≡ some (network, "10.96.0.0/16")
unfolding svc_subnet
prod-network = refl

lookup_or_create_machines_bounds_example :
    IsReturned (lookup_or_create_machines platform prod (control_plane (pos 1)) before).0
    × ((new : List Call) × ((lookup_or_create_machines platform prod
            (control_plane (pos 1))
            before).1.calls
          ≡ before.calls ++ new)
        × (length new < int32_mod))
lookup_or_create_machines_bounds_example =
    lookup_or_create_machines_bounds platform memory-NeverPanics prod (control_plane (pos 1)) 1
      (omega arith) refl before

-- Secrets under the names that the round looks up.
abbrev stored_secrets : List Secret
stored_secrets =
    map (λ name. secret_with platform kcp prod name "crt" "key") (looked_up platform kubeadm)
    ++ (record {
      meta = named (platform.kubeconfig_secret_name "prod") "u-kubeconfig" [];
      contents = [];
      secret_type = "";
    }
        ∷ [])

-- The server in memory, except that it keeps these secrets and has no others.
abbrev holding : Client
holding = record memory { get_secret = λ key s. (find (λ x. x.meta) key stored_secrets, s) }

holding-HoldsSecrets : HoldsSecrets platform holding kubeadm prod
unfolding get_certs
holding-HoldsSecrets s =
    (((_, refl), ((_, refl), ((_, refl), ((_, refl), ((_, refl), ((_, refl), tt)))))), (_, refl))

provision-IsScaling_example :
    Adds
      (IsScaling platform holding prod kcp)
      []
      (provision platform kubeadm
        (text_keys holding)
        prod
        kcp
        (record { server = before.server; calls = [] })).1
provision-IsScaling_example =
    provision-IsScaling platform (text_keys holding) prod kcp kubeadm (λ A s l. Perm.refl l)
      holding-HoldsSecrets (record { server = before.server; calls = [] })
