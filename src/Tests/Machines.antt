-- ===== src/Tests/Machines.antt =====
-- The controllers of the infrastructure, run on the server in memory.
use mathlib.Core.Option
use kink.Infrastructure.Machine.Setup.Often.{
  ListsOwn, makes_other, creates_scheduler, nothing, again, schedulers_accumulate,
}
use kink.Base.{String, every, count, ◌≤◌}
use mathlib.Core.List.{Mem, Perm, mem-cons_self, mem-cons_of_mem, mem-map_of_mem}
use kink.Base.{
  ◌≡◌, ◌↔◌, ◌<>◌, refl, true, false, none, some, List, [], ◌∷◌, ◌++◌, map, All, ok, panic,
  if◌then◌else◌, Result,
}
use kink.Api.{KinkMachine, Pod, etcd, api_server}
use kink.Client.{create_pod, World, Call, create_service, update_machine_status}
use kink.Reconcile.{Outcome, done}
use kink.Infrastructure.ClusterController.{reconcile_cluster}
use kink.Infrastructure.ClusterController.MarksReady.{MarksReady, reconcile_cluster_lem}
use kink.Infrastructure.Templates.Util.{get_secret_volumes, service_cidr, pod_cidr}
use kink.Infrastructure.Templates.Etcd.{etcd_pod_template, etcd_service_template}
use kink.Infrastructure.Templates.ApiServer.{api_server_pod_template}
use kink.Infrastructure.Templates.Scheduler.{scheduler_pod_template}
use kink.Infrastructure.Templates.ControllerManager.{controller_manager_pod_template}
use kink.Infrastructure.Templates.Agree.{volumes-get_certs}
use kink.Infrastructure.Machine.Scan.{scan_pods, scan_services, note_owned, note_role}
use kink.Infrastructure.Machine.Scan.Roles.{is_played, last_pod}
use kink.Infrastructure.Machine.Setup.{
  clear_pods, setup_pods, setup_services, get_control_plane_service_templates,
  get_control_plane_pod_templates, lookup_or_setup_pods, lookup_or_setup_services,
  lookup_or_setup_control_plane, pod_reference,
}
use kink.Infrastructure.Machine.Setup.Missing.{Templates, missing}
use kink.Infrastructure.Machine.Setup.Templates.{drawn, templates_of}
use kink.Infrastructure.Machine.Setup.Pods.{
  lookup_or_setup_pods-calls, lookup_or_setup_pods-references,
}
use kink.Infrastructure.Machine.Setup.Services.{
  lookup_or_setup_services-calls, control_plane_forgets_pods,
}
use kink.Infrastructure.Machine.Status.{pods_ready, report_machine_status}
use kink.Infrastructure.Machine.Status.Ready.{RunsIfOwned, pods_ready_iff}
use kink.Infrastructure.Machine.Controller.{reconcile_found, reconcile_machine, finish}
use kink.Infrastructure.Machine.Controller.Reports.{
  ReportsNoError, reconcile_machine-ReportsNoError, reconcile_found-done,
}
use kink.Infrastructure.Machine.Controller.Returns.{reconcile_machine_without_ranges}
use kink.ControlPlane.Certs.Catalogue.{get_certs}
use kink.ControlPlane.Certs.Secrets.{cert_secret_name}
use kink.Tests.Memory.{memory, memory-RangesAll, memory-NeverPanics}
use kink.Tests.Objects.{
  platform-HasDistinctLabels, platform, prod, prod_key, bare, machine, pod_of, server,
}
use kink.Tests.Pki.{kubeadm}

abbrev first : KinkMachine
first = machine "m1" false

-- An API server's pod and etcd's are listed.
abbrev pods : List Pod
pods = pod_of first api_server ∷ pod_of first etcd ∷ []

abbrev before : World memory
before = server prod (first ∷ []) pods

abbrev set_up : Result KinkMachine × World memory
set_up = lookup_or_setup_pods platform prod first before

-- Both references are to the pod that is listed last.
abbrev referring : KinkMachine
referring = record first {
  status = record (first.status) {
    pods = pod_reference (pod_of first etcd) ∷ pod_reference (pod_of first etcd) ∷ [];
  };
}

set_up-eq-ok : set_up ≡ (ok referring, set_up.1)
unfolding lookup_or_setup_pods get_control_plane_pod_templates etcd_pod_template
    api_server_pod_template controller_manager_pod_template scheduler_pod_template service_cidr
    pod_cidr setup_pods scan_pods note_owned note_role
set_up-eq-ok = refl

lookup_or_setup_pods-calls_example :
    (service_didr pod_range : String) × (service_cidr prod ≡ some service_didr)
    × (pod_cidr prod ≡ some pod_range)
    × ((order : Templates) × Perm order (
          templates_of platform prod first
            (drawn memory prod before.server service_didr pod_range).0)
        × (set_up.1.calls
            ≡ before.calls
              ++ missing (λ role. is_played platform first role (map (λ p. p.meta) pods)) order))
lookup_or_setup_pods-calls_example =
    lookup_or_setup_pods-calls platform prod first referring before set_up.1 pods refl set_up-eq-ok
      memory-RangesAll

lookup_or_setup_pods-references_example :
    All (λ ref. Option.map pod_reference (last_pod none pods) ≡ some ref) referring.status.pods
lookup_or_setup_pods-references_example =
    lookup_or_setup_pods-references platform prod first referring before set_up.1 pods refl
      set_up-eq-ok

-- The server in memory, at the start and behind one set-up of a machine without pods.
abbrev empty : World memory
empty = server prod [] []

abbrev once : Result KinkMachine × World memory
once = lookup_or_setup_pods platform prod first empty

once-eq-ok : once ≡ (ok first, once.1)
unfolding lookup_or_setup_pods get_control_plane_pod_templates etcd_pod_template
    api_server_pod_template controller_manager_pod_template scheduler_pod_template service_cidr
    pod_cidr setup_pods scan_pods note_owned note_role
once-eq-ok = refl

abbrev two_times : Result KinkMachine × World memory
two_times = lookup_or_setup_pods platform prod first once.1

abbrev returned_machine : Result KinkMachine → KinkMachine
returned_machine (ok m) = m
returned_machine _ = first

-- The machine with references to the last pod only, for the three roles that are found.
abbrev second : KinkMachine
second = returned_machine two_times.0

two_times-eq-ok : two_times ≡ (ok second, two_times.1)
unfolding lookup_or_setup_pods get_control_plane_pod_templates etcd_pod_template
    api_server_pod_template controller_manager_pod_template scheduler_pod_template service_cidr
    pod_cidr setup_pods scan_pods note_owned note_role kink.Infrastructure.Templates.Etcd.etcd_pod
    kink.Infrastructure.Templates.ApiServer.api_server_pod
    kink.Infrastructure.Templates.ControllerManager.controller_manager_pod
    kink.Infrastructure.Templates.Scheduler.scheduler_pod
two_times-eq-ok = refl

created-own :
    (P : Pod → Type 0) (ps : List Pod) (calls : List Call)
    → ((p : Pod) → Mem p ps → Mem (create_pod p) calls)
    → All (λ p. P p → (q : Pod) × Mem (create_pod q) calls × (p.meta.labels ≡ q.meta.labels)) ps
created-own P [] calls f = tt
created-own P (p ∷ ps) calls f =
    ((λ _. (p, f p mem-cons_self, refl)), created-own P ps calls (λ q m. f q (mem-cons_of_mem p m)))

once-ListsOwn : ListsOwn platform prod first once.1
unfolding lookup_or_setup_pods get_control_plane_pod_templates etcd_pod_template
    api_server_pod_template controller_manager_pod_template scheduler_pod_template service_cidr
    pod_cidr setup_pods scan_pods note_owned note_role
once-ListsOwn t ps e =
    let same : ps ≡ once.1.server.pods = cc in
    rw same (
      created-own (λ p. platform.is_owned_by_object p.meta first.meta ≡ true) once.1.server.pods
        once.1.calls (λ p m. mem-map_of_mem create_pod m))

schedulers_accumulate_example :
    (every makes_other two_times.1.calls ≡ true) × (2 ≤ count creates_scheduler two_times.1.calls)
schedulers_accumulate_example =
    schedulers_accumulate platform {C = memory} prod first platform-HasDistinctLabels
      memory-RangesAll (again second (again first nothing once-eq-ok) two_times-eq-ok) refl
      (once-ListsOwn, ((λ t ps e. let same : ps ≡ [] = cc in rw same tt), tt))

bare-unset : service_cidr bare ≡ none
unfolding service_cidr
bare-unset = refl

abbrev services : Result KinkMachine × World memory
services = lookup_or_setup_services platform prod first before

services-eq-ok : services ≡ (ok first, services.1)
unfolding lookup_or_setup_services setup_services scan_services get_control_plane_service_templates
services-eq-ok = refl

lookup_or_setup_services-calls_example :
    (w' : World memory) × (lookup_or_setup_services platform prod first before
      ≡ (ok (clear_pods first), w'))
    × (w'.calls
        ≡ before.calls
          ++ (if is_played platform first etcd (map (λ x. x.meta) before.server.services)
              then []
              else create_service (etcd_service_template platform prod first) ∷ []))
lookup_or_setup_services-calls_example =
    lookup_or_setup_services-calls platform prod first before [] memory-RangesAll memory-NeverPanics
      refl

abbrev control_plane_set_up : Result KinkMachine × World memory
control_plane_set_up = lookup_or_setup_control_plane platform prod first before

control_plane_set_up-eq-ok : control_plane_set_up ≡ (ok first, control_plane_set_up.1)
unfolding lookup_or_setup_control_plane lookup_or_setup_services setup_services scan_services
    get_control_plane_service_templates lookup_or_setup_pods get_control_plane_pod_templates
    etcd_pod_template api_server_pod_template controller_manager_pod_template scheduler_pod_template
    service_cidr pod_cidr setup_pods scan_pods note_owned note_role
control_plane_set_up-eq-ok = refl

control_plane_forgets_pods_example : first.status.pods ≡ []
control_plane_forgets_pods_example =
    control_plane_forgets_pods platform prod first first before control_plane_set_up.1
      control_plane_set_up-eq-ok

pods_ready_iff_example :
    (pods_ready platform first pods ≡ true) ↔ All (RunsIfOwned platform first) pods
pods_ready_iff_example = pods_ready_iff platform first pods

reconcile_machine-ReportsNoError_example :
    ReportsNoError (reconcile_machine platform (record prod_key { name = "m1" }) before).0
reconcile_machine-ReportsNoError_example =
    reconcile_machine-ReportsNoError platform (record prod_key { name = "m1" }) before

abbrev round : Result Outcome × World memory
round = reconcile_found platform prod first before

round-eq-ok : round ≡ (ok done, round.1)
unfolding reconcile_found finish report_machine_status lookup_or_setup_control_plane
    lookup_or_setup_services setup_services scan_services get_control_plane_service_templates
    lookup_or_setup_pods get_control_plane_pod_templates etcd_pod_template api_server_pod_template
    controller_manager_pod_template scheduler_pod_template service_cidr pod_cidr setup_pods
    scan_pods note_owned note_role
round-eq-ok = refl

reconcile_found-done_example :
    (earlier : List Call) × (m : KinkMachine) × (round.1.calls
      ≡ earlier ++ (update_machine_status m ∷ []))
    × (m.status.pods ≡ [])
    × (m.status.failure_reason ≡ none)
    × (m.status.failure_message ≡ none)
reconcile_found-done_example = reconcile_found-done platform prod first before round.1 round-eq-ok

reconcile_machine_without_ranges_example :
    (reconcile_found platform bare first (server bare (first ∷ []) pods)).0 ≡ panic
reconcile_machine_without_ranges_example =
    reconcile_machine_without_ranges platform bare first (server bare (first ∷ []) pods) bare-unset
      refl

abbrev cluster_round : World memory
cluster_round = (reconcile_cluster prod_key before).1

cluster_round-eq-ok : reconcile_cluster prod_key before ≡ (ok done, cluster_round)
unfolding reconcile_cluster
cluster_round-eq-ok = refl

reconcile_cluster_lem_example : MarksReady prod_key before cluster_round done
reconcile_cluster_lem_example =
    reconcile_cluster_lem prod_key before cluster_round done cluster_round-eq-ok

volumes-get_certs_example :
    let (volumes, mounts) = get_secret_volumes platform prod in
    let certs = map (λ k. k.name) (get_certs platform kubeadm) ++ ("sa" ∷ []) in
    (map (λ v. v.secret_name) volumes ≡ map (cert_secret_name prod) certs)
    × (map (λ v. v.name) volumes ≡ map (λ m. m.name) mounts)
    × (map (λ m. m.mount_path) mounts
        ≡ map (λ n. platform.default_certificates_dir <> ("/" <> n)) certs)
volumes-get_certs_example = volumes-get_certs platform kubeadm prod first
