-- ===== src/Infrastructure/Machine/Frame.antt =====
-- The calls that a round of the machine's controller is allowed to make.
pub mod Setup
pub mod Round
use mathlib.Core.List
use mathlib.Core.List.Perm
use kink.Base.{
  ◌≡◌, refl, List, [], ◌∷◌, ◌++◌, map, none, some, Option, All, Action, pure, attempt, ◌>>=◌, ◌>>◌,
  or_panic, lookup, Try, success, failed, String, ◌<>◌, Dict, arith,
}
use mathlib.Core.List.{Mem, Perm, mem-map_of_mem}
use kink.Api.{
  NamespacedName, Cluster, KinkMachine, Pod, ControlPlaneRole, Service, etcd, api_server,
  controller_manager, scheduler,
}
use kink.Platform.{Platform}
use kink.Client.{
  Client, Call, World, RangesAll, read, write, range, generate, create_pod, create_service,
  update_machine_status,
}
use kink.Client.Grows.{
  Grows, Adds-none, >>=-Grows, attempt-Grows, read-Grows, write-Grows, or_panic-Grows,
  generate-Grows,
}
use kink.Client.Gives.{
  Gives, OnSuccess, Gives-intro, pure-Gives, >>=-Gives, attempt-Gives, read-Gives, range-Gives,
  Gives-Grows,
}
use kink.Reconcile.{Outcome, done, retry}
use kink.Infrastructure.Templates.Util.{service_cidr, pod_cidr}
use kink.Infrastructure.Templates.Etcd.{etcd_pod, etcd_pod_template, etcd_service_template}
use kink.Infrastructure.Templates.ApiServer.{api_server_pod, api_server_pod_template}
use kink.Infrastructure.Templates.ControllerManager.{
  controller_manager_pod, controller_manager_pod_template,
}
use kink.Infrastructure.Templates.Scheduler.{scheduler_pod, scheduler_pod_template}
use kink.Infrastructure.Machine.Scan.{Address, PodScan, dereference, scan_pods, scan_services}
use kink.Infrastructure.Machine.Setup.{
  add_pod, clear_pods, get_control_plane_pod_templates, get_control_plane_service_templates,
  setup_pods, setup_services, lookup_or_setup_pods, lookup_or_setup_services,
  lookup_or_setup_control_plane,
}
use kink.Infrastructure.Machine.Setup.Missing.{Templates}
use kink.Infrastructure.Machine.Setup.Templates.{TemplateValues, templates_of, get_templates-eq-ok}
use kink.Infrastructure.Machine.Status.{report_machine_status, with_status, pods_ready}

-- The pod comes from one of the four templates for the machine.
abbrev pub IsTemplatePod : Platform → Cluster → KinkMachine → Pod → Type 0
IsTemplatePod P cluster machine pod =
    (v : TemplateValues) × Mem pod (map (λ e. e.1) (templates_of P cluster machine v))

abbrev pub IsSameMachine : KinkMachine → KinkMachine → Type 0
IsSameMachine machine m = (m.meta ≡ machine.meta) × (m.spec ≡ machine.spec)

-- What the controller may do for one machine.
abbrev pub IsMachineCall : Platform → Cluster → KinkMachine → Call → Type 0
IsMachineCall P cluster machine (create_pod pod) = IsTemplatePod P cluster machine pod
IsMachineCall P cluster machine (create_service service) =
    service ≡ etcd_service_template P cluster machine
IsMachineCall P cluster machine (update_machine_status m) = IsSameMachine machine m
IsMachineCall P cluster machine _ = ⊥

module _ (P : Platform) (cluster : Cluster) (machine : KinkMachine) where
  abbrev pub Q : Call → Type 0
  Q = IsMachineCall P cluster machine

module _ (P : Platform) {C : Client} (cluster : Cluster) (machine : KinkMachine) where
  -- A template that generates a name and makes a pod of it.
  named-Grows :
      {A : Type 0} (base : String) (pod : String → A)
      → Grows {C = C} (Q P cluster machine) (generate base >>= λ name. pure (pod name))
  named-Grows base pod =
      >>=-Grows (Q P cluster machine) (generate base) (λ name. pure (pod name))
        (generate-Grows (Q P cluster machine) base) (λ name w. Adds-none (Q P cluster machine) w)

  etcd-Grows : Grows {C = C} (Q P cluster machine) (etcd_pod_template P cluster machine)
  unfolding etcd_pod_template
  etcd-Grows = named-Grows (cluster.meta.name <> "-etcd-") (etcd_pod P cluster machine)

  api_server-Grows : Grows {C = C} (Q P cluster machine) (api_server_pod_template P cluster machine)
  unfolding api_server_pod_template
  api_server-Grows =
      let base = cluster.meta.name <> "-apiserver-" in
      >>=-Grows (Q P cluster machine) (or_panic (service_cidr cluster))
        (λ didr. generate base >>= λ name. pure (api_server_pod P cluster machine didr name))
        (or_panic-Grows (Q P cluster machine) (service_cidr cluster))
        (λ didr. named-Grows base (api_server_pod P cluster machine didr))

  scheduler-Grows : Grows {C = C} (Q P cluster machine) (scheduler_pod_template P cluster machine)
  unfolding scheduler_pod_template
  scheduler-Grows =
      let base = cluster.meta.name <> "-apiserver-" in
      >>=-Grows (Q P cluster machine) (or_panic (service_cidr cluster))
        (λ didr. generate base >>= λ name. pure (scheduler_pod P cluster machine didr name))
        (or_panic-Grows (Q P cluster machine) (service_cidr cluster))
        (λ didr. named-Grows base (scheduler_pod P cluster machine didr))

  manager-Grows :
      Grows {C = C} (Q P cluster machine) (controller_manager_pod_template P cluster machine)
  unfolding controller_manager_pod_template
  manager-Grows =
      let base = cluster.meta.name <> "-controller-manager-" in
      let pod : String → String → Action (World C) Pod = λ didr range.
        generate base >>= λ name. pure (controller_manager_pod P cluster machine didr range name) in
      >>=-Grows (Q P cluster machine) (or_panic (service_cidr cluster))
        (λ didr. or_panic (pod_cidr cluster) >>= pod didr)
        (or_panic-Grows (Q P cluster machine) (service_cidr cluster))
        (λ didr.
          >>=-Grows (Q P cluster machine) (or_panic (pod_cidr cluster)) (pod didr)
            (or_panic-Grows (Q P cluster machine) (pod_cidr cluster))
            (λ range. named-Grows base (controller_manager_pod P cluster machine didr range)))

  templates-Grows :
      Grows {C = C} (Q P cluster machine) (get_control_plane_pod_templates P cluster machine)
  unfolding get_control_plane_pod_templates
  templates-Grows =
      let all : Pod → Pod → Pod → Pod → Action (World C) Templates = λ a b c d.
        pure ((scheduler, d) ∷ (controller_manager, c) ∷ (api_server, b) ∷ (etcd, a) ∷ []) in
      let last : Pod → Pod → Pod → Action (World C) Templates =
        λ a b c. scheduler_pod_template P cluster machine >>= all a b c in
      let manager : Pod → Pod → Action (World C) Templates =
        λ a b. controller_manager_pod_template P cluster machine >>= last a b in
      let api : Pod → Action (World C) Templates =
        λ a. api_server_pod_template P cluster machine >>= manager a in
      >>=-Grows (Q P cluster machine) (etcd_pod_template P cluster machine) api etcd-Grows (λ a.
        >>=-Grows (Q P cluster machine) (api_server_pod_template P cluster machine) (manager a)
          api_server-Grows
          (λ b.
            >>=-Grows (Q P cluster machine) (controller_manager_pod_template P cluster machine)
              (last a b) manager-Grows
              (λ c.
                >>=-Grows (Q P cluster machine) (scheduler_pod_template P cluster machine)
                  (all a b c) scheduler-Grows (λ d w. Adds-none (Q P cluster machine) w))))

  pub templates-Gives :
      Gives {C = C}
        (Q P cluster machine)
        (λ ts. (v : TemplateValues) × (ts ≡ templates_of P cluster machine v))
        (get_control_plane_pod_templates P cluster machine)
  templates-Gives =
      Gives-intro (Q P cluster machine)
        (λ ts. (v : TemplateValues) × (ts ≡ templates_of P cluster machine v))
        (get_control_plane_pod_templates P cluster machine) templates-Grows
        (λ w w' ts h.
          let (v, e, kept, services, pods, _) = get_templates-eq-ok P cluster machine w w' ts h in
          (v, e))
