-- ===== src/Infrastructure/Machine/Setup/Templates.antt =====
-- The pod templates of a machine, for the names and address ranges that the run met.
use kink.Base.{String, ◌<>◌, ◌≡◌, refl, some, [], ◌∷◌, ok, arith, Option-cases, inl, inr}
use kink.Api.{Cluster, KinkMachine, etcd, api_server, controller_manager, scheduler}
use kink.Platform.{Platform}
use kink.Client.{Client, World}
use kink.Infrastructure.Templates.Util.{service_cidr, pod_cidr}
use kink.Infrastructure.Templates.Etcd.{etcd_pod, etcd_pod_template}
use kink.Infrastructure.Templates.ApiServer.{api_server_pod, api_server_pod_template}
use kink.Infrastructure.Templates.ControllerManager.{
  controller_manager_pod, controller_manager_pod_template,
}
use kink.Infrastructure.Templates.Scheduler.{scheduler_pod, scheduler_pod_template}
use kink.Infrastructure.Machine.Setup.{get_control_plane_pod_templates}
use kink.Infrastructure.Machine.Setup.Missing.{Templates}

pub record TemplateValues : Type 0 where
  pub etcd_name : String
  pub api_server_name : String
  pub manager_name : String
  pub scheduler_name : String
  pub service_didr : String
  pub pod_range : String

-- The values where the ranges are these: the four names are generated one after the other.
abbrev pub drawn : (C : Client) → Cluster → C.State → String → String → TemplateValues × C.State
drawn C cluster s service_didr pod_range =
    let a = C.generate_name (cluster.meta.name <> "-etcd-") s in
    let b = C.generate_name (cluster.meta.name <> "-apiserver-") a.1 in
    let c = C.generate_name (cluster.meta.name <> "-controller-manager-") b.1 in
    let d = C.generate_name (cluster.meta.name <> "-apiserver-") c.1 in
    (
      record {
        etcd_name = a.0;
        api_server_name = b.0;
        manager_name = c.0;
        scheduler_name = d.0;
        service_didr = service_didr;
        pod_range = pod_range;
      },
      d.1,
    )

abbrev pub templates_of : Platform → Cluster → KinkMachine → TemplateValues → Templates
templates_of P cluster machine v =
    (scheduler, scheduler_pod P cluster machine v.service_didr v.scheduler_name)
    ∷ (
      controller_manager,
      controller_manager_pod P cluster machine v.service_didr v.pod_range v.manager_name,
    )
    ∷ (api_server, api_server_pod P cluster machine v.service_didr v.api_server_name)
    ∷ (etcd, etcd_pod P cluster machine v.etcd_name)
    ∷ []

module _ (P : Platform) {C : Client} (cluster : Cluster) (machine : KinkMachine) where
  pub get_templates-eq-ok :
      (w w' : World C) (templates : Templates)
      → get_control_plane_pod_templates P cluster machine w ≡ (ok templates, w')
      → (v : TemplateValues) × (templates ≡ templates_of P cluster machine v)
        × (w'.calls ≡ w.calls)
        × (service_cidr cluster ≡ some v.service_didr)
        × (pod_cidr cluster ≡ some v.pod_range)
        × (v ≡ (drawn C cluster w.server v.service_didr v.pod_range).0)
  unfolding get_control_plane_pod_templates etcd_pod_template api_server_pod_template
      controller_manager_pod_template scheduler_pod_template
  get_templates-eq-ok w w' templates h = elim (Option-cases (service_cidr cluster)) [
    | inl nil ↦ absurd (ground arith)
    | inr (service_didr, e) ↦ elim (Option-cases (pod_cidr cluster)) [
      | inl nil ↦ absurd (ground arith)
      | inr (pod_range, f) ↦ (
        (drawn C cluster w.server service_didr pod_range).0,
        ground arith,
        ground arith,
        e,
        f,
        refl,
      )
    ]
  ]
