-- ===== src/Infrastructure/Machine/Setup/Returns.antt =====
-- How the set-up of a machine ends.
use kink.Base.{
  ◌≡◌, ◌≢◌, none, some, List, [], ◌∷◌, panic, success, lookup, arith, IsReturned, >>=-IsReturned,
  Option-cases, inl, inr, Action, pure, ◌>>=◌, ◌>>◌,
}
use kink.Api.{Cluster, KinkMachine, Pod, ControlPlaneRole, Service}
use kink.Platform.{Platform}
use kink.Client.{Client, NeverPanics, World, create_pod, create_service, submitted, read, range}
use kink.Infrastructure.Templates.Util.{service_cidr, pod_cidr}
use kink.Infrastructure.Templates.Etcd.{etcd_pod_template}
use kink.Infrastructure.Templates.ApiServer.{api_server_pod_template}
use kink.Infrastructure.Templates.ControllerManager.{controller_manager_pod_template}
use kink.Infrastructure.Templates.Scheduler.{scheduler_pod_template}
use kink.Infrastructure.Machine.Scan.{
  Address, PodScan, dereference, scan_pods, scan_services, note_owned, loop_variable,
}
use kink.Infrastructure.Machine.Setup.{
  add_pod, clear_pods, get_control_plane_pod_templates, get_control_plane_service_templates,
  setup_pods, setup_services, lookup_or_setup_pods, lookup_or_setup_services,
  lookup_or_setup_control_plane,
}
use kink.Infrastructure.Machine.Setup.Missing.{Templates}
use kink.Infrastructure.Machine.Setup.Pods.{scan_of}

-- The pointers to the network ranges are set.
abbrev pub HasRanges : Cluster → Type 0
HasRanges cluster = (service_cidr cluster ≢ none) × (pod_cidr cluster ≢ none)

-- An entry of the map points to a pod.
abbrev Points : PodScan → Type 0
Points scan =
    (t : ControlPlaneRole) (a : Address)
    → lookup t scan.pod_map ≡ some a
    → dereference scan a ≢ none

scan_pods-Points :
    (P : Platform) (machine : KinkMachine) (pods : List Pod) (scan : PodScan)
    → Points scan
    → Points (scan_pods P machine pods scan)
unfolding scan_pods
scan_pods-Points P machine [] scan h = h
scan_pods-Points P machine (p ∷ pods) scan h =
    scan_pods-Points P machine pods _ (λ t a e. some_pod a)
  where
    some_pod :
        (a : Address)
        → dereference
            (record { pod = some p; pod_map = note_owned P machine p.meta scan.pod_map })
            a
          ≢ none
    some_pod loop_variable = cc

module _ {C : Client} (calm : NeverPanics C) where
  setup_pods-IsReturned :
      (scan : PodScan) (points : Points scan) (templates : Templates) (machine : KinkMachine)
      (w : World C)
      → IsReturned (setup_pods scan templates machine w).0
  unfolding setup_pods
  setup_pods-IsReturned scan points [] machine w = tt
  setup_pods-IsReturned scan points ((t, pt) ∷ rest) machine w =
      elim (Option-cases (lookup t scan.pod_map)) [
        | inl absent ↦ ground (
          arith,
          calm (create_pod pt) w.server tt,
          setup_pods-IsReturned scan points rest machine (submitted (create_pod pt) w),
        )
        | inr (a, found) ↦ elim (Option-cases (dereference scan a)) [
          | inl dangling ↦ absurd (points t a found dangling)
          | inr (pod, e) ↦
              ground (arith, setup_pods-IsReturned scan points rest (add_pod pod machine) w)
        ]
      ]

  setup_services-IsReturned :
      (m : List (ControlPlaneRole × Address)) (templates : List (ControlPlaneRole × Service))
      (w : World C)
      → IsReturned (setup_services m templates w).0
  unfolding setup_services
  setup_services-IsReturned m [] w = tt
  setup_services-IsReturned m ((t, st) ∷ rest) w = ground (
    arith,
    calm (create_service st) w.server tt,
    setup_services-IsReturned m rest w,
    setup_services-IsReturned m rest (submitted (create_service st) w),
  )

module _ (P : Platform) {C : Client} (cluster : Cluster) (machine : KinkMachine) where
  templates-IsReturned :
      HasRanges cluster
      → (w : World C) → IsReturned (get_control_plane_pod_templates P cluster machine w).0
  unfolding get_control_plane_pod_templates etcd_pod_template api_server_pod_template
      controller_manager_pod_template scheduler_pod_template
  templates-IsReturned (services, pods) w = ground arith

  module _ (calm : NeverPanics C) (ranges : HasRanges cluster) where
    setup_from-IsReturned :
        (pods : List Pod) (templates : Templates) (w : World C)
        → IsReturned
            (setup_pods
              (scan_of P machine pods)
              (C.range_order _ w.server templates)
              (clear_pods machine)
              w).0
    setup_from-IsReturned pods templates w =
        setup_pods-IsReturned calm (scan_of P machine pods)
          (scan_pods-Points P machine pods _ (λ t a e. cc)) (C.range_order _ w.server templates)
          (clear_pods machine) w

    lookup_or_setup_pods-IsReturned :
        (w : World C) → IsReturned (lookup_or_setup_pods P cluster machine w).0
    unfolding lookup_or_setup_pods
    lookup_or_setup_pods-IsReturned w =
        let list = read (C.list_pods cluster.meta.namespace cluster.meta.name) in
        let make = get_control_plane_pod_templates P {C = C} cluster machine in
        let fill : List Pod → Templates → Action (World C) KinkMachine = λ pods templates. do
          order ← range templates
          setup_pods (scan_of P machine pods) order (clear_pods machine)
        in let next : List Pod → Action (World C) KinkMachine = λ pods. make >>= fill pods in
          >>=-IsReturned list next w (ground arith) (λ pods v _.
            >>=-IsReturned make (fill pods) v (templates-IsReturned ranges v)
              (λ templates u _. setup_from-IsReturned pods templates u))

    lookup_or_setup_services-IsReturned :
        (m : KinkMachine) (w : World C) → IsReturned (lookup_or_setup_services P cluster m w).0
    unfolding lookup_or_setup_services
    lookup_or_setup_services-IsReturned m w =
        let list = read (C.list_services cluster.meta.namespace cluster.meta.name) in
        let next : List Service → Action (World C) KinkMachine = λ services. do
          order ← range (get_control_plane_service_templates P cluster m)
          setup_services (scan_services P m services []) order
          pure (clear_pods m)
        in >>=-IsReturned list next w (ground arith) (λ services v _.
          let m' = scan_services P m services [] in
          let order = C.range_order _ v.server (get_control_plane_service_templates P cluster m) in
          >>=-IsReturned (setup_services m' order) (λ _. pure (clear_pods m)) v
            (setup_services-IsReturned calm m' order v) (λ _ _ _. tt))

    pub lookup_or_setup_control_plane-IsReturned :
        (w : World C) → IsReturned (lookup_or_setup_control_plane P cluster machine w).0
    unfolding lookup_or_setup_control_plane
    lookup_or_setup_control_plane-IsReturned w =
        >>=-IsReturned (lookup_or_setup_pods P {C = C} cluster machine)
          (λ m. lookup_or_setup_services P cluster m) w (lookup_or_setup_pods-IsReturned w)
          (λ m v _. lookup_or_setup_services-IsReturned m v)

  -- A cluster whose service ranges are not set makes the set-up panic once the pods are listed.
  pub lookup_or_setup_control_plane_without_ranges :
      (w : World C) {pods : List Pod} {s : C.State}
      → service_cidr cluster ≡ none
      → C.list_pods cluster.meta.namespace cluster.meta.name w.server ≡ (success pods, s)
      → (lookup_or_setup_control_plane P cluster machine w).0 ≡ panic
  unfolding lookup_or_setup_control_plane lookup_or_setup_pods get_control_plane_pod_templates
      etcd_pod_template api_server_pod_template
  lookup_or_setup_control_plane_without_ranges w nil listed = ground arith
