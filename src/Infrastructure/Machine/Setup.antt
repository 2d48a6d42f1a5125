-- ===== src/Infrastructure/Machine/Setup.antt =====
-- `lookupOrSetupPods`, `lookupOrSetupServices` and `lookupOrSetupControlPlane` of
-- kinkmachine_controller.go. The machine is a pointer in the source: here it is passed on.
pub mod Missing
pub mod Templates
pub mod Pods
pub mod Again
pub mod Often
pub mod Services
pub mod Returns
use kink.Base.{
  none, some, List, [], ◌∷◌, ◌++◌, Dict, lookup, Action, pure, attempt, ◌>>=◌, ◌>>◌, or_panic,
}
use kink.Api.{
  Cluster, KinkMachine, ObjectReference, Pod, Service, ControlPlaneRole, etcd, api_server,
  controller_manager, scheduler,
}
use kink.Platform.{Platform}
use kink.Client.{Client, World, read, write, range, create_pod, create_service}
use kink.Infrastructure.Templates.Etcd.{etcd_pod_template, etcd_service_template}
use kink.Infrastructure.Templates.ApiServer.{api_server_pod_template}
use kink.Infrastructure.Templates.ControllerManager.{controller_manager_pod_template}
use kink.Infrastructure.Templates.Scheduler.{scheduler_pod_template}
use kink.Infrastructure.Machine.Scan.{Address, PodScan, dereference, scan_pods, scan_services}

-- `machine.Status.Pods = nil`
abbrev pub clear_pods : KinkMachine → KinkMachine
clear_pods machine = record machine { status = record (machine.status) { pods = [] } }

abbrev pub pod_reference : Pod → ObjectReference
pod_reference pod = record {
  name = pod.meta.name;
  namespace = pod.meta.namespace;
  uid = pod.meta.uid;
  api_version = "";
  kind = "Pod";
}

-- `machine.Status.Pods = append(machine.Status.Pods, podRef)`
abbrev pub add_pod : Pod → KinkMachine → KinkMachine
add_pod pod machine = record machine {
  status = record (machine.status) { pods = machine.status.pods ++ (pod_reference pod ∷ []) };
}

unfoldable pub get_control_plane_service_templates :
    Platform → Cluster → KinkMachine → List (ControlPlaneRole × Service)
get_control_plane_service_templates P cluster machine =
    (etcd, etcd_service_template P cluster machine) ∷ []

module _ (P : Platform) {C : Client} where
  -- The map has an entry for each of the four roles.
  unfoldable pub get_control_plane_pod_templates :
      Cluster → KinkMachine → Action (World C) (List (ControlPlaneRole × Pod))
  get_control_plane_pod_templates cluster machine = do
    etcd_pod ← etcd_pod_template P cluster machine
    api_server_pod ← api_server_pod_template P cluster machine
    manager_pod ← controller_manager_pod_template P cluster machine
    scheduler_pod ← scheduler_pod_template P cluster machine
    pure (
        (scheduler, scheduler_pod)
        ∷ (controller_manager, manager_pod)
        ∷ (api_server, api_server_pod)
        ∷ (etcd, etcd_pod)
        ∷ [])

module _ {C : Client} where
  -- The loop over the pod templates.
  unfoldable pub setup_pods :
      PodScan → List (ControlPlaneRole × Pod) → KinkMachine → Action (World C) KinkMachine
  setup_pods scan [] machine = pure machine
  setup_pods scan ((t, pt) ∷ rest) machine = elim (lookup t scan.pod_map) [
    | some address ↦ do
      pod ← or_panic (dereference scan address)
      setup_pods scan rest (add_pod pod machine)
    | none ↦ do write (create_pod pt); setup_pods scan rest machine
  ]

  -- The loop over the service templates, which goes on after a failure.
  unfoldable pub setup_services :
      Dict Address → List (ControlPlaneRole × Service) → Action (World C) (Unit {0})
  setup_services svc_map [] = pure tt
  setup_services svc_map ((t, st) ∷ rest) = elim (lookup t svc_map) [
    | some _ ↦ setup_services svc_map rest
    | none ↦ do attempt (write (create_service st)); setup_services svc_map rest
  ]

module _ (P : Platform) {C : Client} where
  unfoldable pub lookup_or_setup_pods : Cluster → KinkMachine → Action (World C) KinkMachine
  lookup_or_setup_pods cluster machine = do
    pods ← read (C.list_pods cluster.meta.namespace cluster.meta.name)
    let scan = scan_pods P machine pods (record { pod = none; pod_map = [] })
    templates ← get_control_plane_pod_templates P cluster machine
    order ← range templates
    setup_pods scan order (clear_pods machine)

  unfoldable pub lookup_or_setup_services : Cluster → KinkMachine → Action (World C) KinkMachine
  lookup_or_setup_services cluster machine = do
    services ← read (C.list_services cluster.meta.namespace cluster.meta.name)
    let svc_map = scan_services P machine services []
    order ← range (get_control_plane_service_templates P cluster machine)
    setup_services svc_map order
    pure (clear_pods machine)

  unfoldable pub lookup_or_setup_control_plane :
      Cluster → KinkMachine → Action (World C) KinkMachine
  lookup_or_setup_control_plane cluster machine = do
    with_pods ← lookup_or_setup_pods cluster machine
    lookup_or_setup_services cluster with_pods
