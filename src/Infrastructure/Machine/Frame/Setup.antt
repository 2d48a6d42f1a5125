-- ===== src/Infrastructure/Machine/Frame/Setup.antt =====
-- The set-up of a machine, and the calls that are allowed.
use mathlib.Core.List.Perm
use mathlib.Core.Path.{subst}
use mathlib.Core.List.{Mem, Perm, mem-map_of_mem, mem-cons_self, mem-cons_of_mem, perm-replicate}
use kink.Base.{
  ◌≡◌, refl, List, [], ◌∷◌, map, none, some, Option, All, Action, pure, attempt, ◌>>=◌, ◌>>◌,
  or_panic, lookup, Dict, arith,
}
use kink.Api.{Cluster, KinkMachine, Pod, ControlPlaneRole, Service, etcd}
use kink.Platform.{Platform}
use kink.Client.{Client, World, RangesAll, read, write, range, create_pod, create_service}
use kink.Client.Grows.{
  Grows, Adds-none, >>=-Grows, attempt-Grows, read-Grows, write-Grows, or_panic-Grows,
}
use kink.Client.Gives.{Gives, Gives-of_Grows, pure-Gives, >>=-Gives, range-Gives}
use kink.Infrastructure.Templates.Etcd.{etcd_service_template}
use kink.Infrastructure.Machine.Scan.{Address, PodScan, dereference, scan_pods, scan_services}
use kink.Infrastructure.Machine.Setup.{
  add_pod, clear_pods, get_control_plane_pod_templates, get_control_plane_service_templates,
  setup_pods, setup_services, lookup_or_setup_pods, lookup_or_setup_services,
  lookup_or_setup_control_plane,
}
use kink.Infrastructure.Machine.Setup.Missing.{Templates}
use kink.Infrastructure.Machine.Setup.Services.{entry-IsSet}
use kink.Infrastructure.Machine.Setup.Templates.{TemplateValues, templates_of}
use kink.Infrastructure.Machine.Frame.{Q, IsTemplatePod, IsSameMachine, templates-Gives}

All-of_mem {ℓ κ} :
    {A : Type ℓ} (R : A → Type κ) (xs : List A) → ((x : A) → Mem x xs → R x) → All R xs
All-of_mem R [] h = tt
All-of_mem R (x ∷ xs) h = (h x mem-cons_self, All-of_mem R xs (λ y m. h y (mem-cons_of_mem x m)))

module _ (P : Platform) (cluster : Cluster) (machine : KinkMachine) where
  -- The map's entries in any order.
  abbrev AreTemplates : Templates → Type 0
  AreTemplates = All (λ e. IsTemplatePod P cluster machine e.1)

  range-AreTemplates :
      (v : TemplateValues) (ts order : Templates)
      → ts ≡ templates_of P cluster machine v
      → Perm order ts
      → AreTemplates order
  range-AreTemplates v ts order e p =
      All-of_mem (λ e. IsTemplatePod P cluster machine e.1) order
        (λ x m. (
          v,
          subst (λ ts. Mem x.1 (map (λ e. e.1) ts)) e
              (mem-map_of_mem (λ e. e.1) ((Perm.mem_iff p).0 m)),
        ))

  service-eq :
      (m : KinkMachine)
      → IsSameMachine machine m
      → etcd_service_template P cluster m ≡ etcd_service_template P cluster machine
  unfolding etcd_service_template
  service-eq m (meta, spec) = ground arith

module _ (P : Platform) {C : Client} (cluster : Cluster) (machine : KinkMachine) where
  setup_pods-Gives :
      (scan : PodScan) (ts : Templates) (m : KinkMachine)
      → AreTemplates P cluster machine ts
      → IsSameMachine machine m
      → Gives {C = C} (Q P cluster machine) (IsSameMachine machine) (setup_pods scan ts m)
  unfolding setup_pods
  setup_pods-Gives scan [] m h same =
      pure-Gives (Q P cluster machine) (IsSameMachine machine) m same
  setup_pods-Gives scan ((t, pt) ∷ rest) m (h, hs) same =
      let R = IsSameMachine machine in
      let skip = setup_pods-Gives scan rest m hs same in
      let found : Pod → Action (World C) KinkMachine =
        λ pod. setup_pods scan rest (add_pod pod m) in
      let later : (pod : Pod) → Gives (Q P cluster machine) R (found pod) =
        λ pod. setup_pods-Gives scan rest (add_pod pod m) hs same in
      let round : Option Address → Action (World C) KinkMachine = λ o. elim o [
        | some address ↦ or_panic (dereference scan address) >>= found
        | none ↦ write (create_pod pt) >> setup_pods scan rest m
      ] in
      elim (lookup t scan.pod_map) as (λ o. Gives (Q P cluster machine) R (round o)) [
        | some address ↦
            >>=-Gives (Q P cluster machine) (λ _. Unit {0}) R (or_panic (dereference scan address))
              found
              (Gives-of_Grows (Q P cluster machine) (or_panic (dereference scan address))
                (or_panic-Grows (Q P cluster machine) (dereference scan address)))
              (λ pod _. later pod)
        | none ↦
            >>=-Gives (Q P cluster machine) (λ _. Unit {0}) R (write (create_pod pt))
              (λ _. setup_pods scan rest m)
              (Gives-of_Grows (Q P cluster machine) (write (create_pod pt))
                (write-Grows (Q P cluster machine) (create_pod pt) h))
              (λ _ _. skip)
      ]

  pods-Gives :
      RangesAll C
      → Gives {C = C}
          (Q P cluster machine)
          (IsSameMachine machine)
          (lookup_or_setup_pods P cluster machine)
  unfolding lookup_or_setup_pods
  pods-Gives all =
      let R = IsSameMachine machine in
      let list = C.list_pods cluster.meta.namespace cluster.meta.name in
      let templates = get_control_plane_pod_templates P {C = C} cluster machine in
      let scan : List Pod → PodScan =
        λ pods. scan_pods P machine pods (record { pod = none; pod_map = [] }) in
      let run : PodScan → Templates → Action (World C) KinkMachine =
        λ s order. setup_pods s order (clear_pods machine) in
      let ranged : PodScan → Templates → Action (World C) KinkMachine =
        λ s ts. range ts >>= run s in
      >>=-Gives (Q P cluster machine) (λ _. Unit {0}) R (read list)
        (λ pods. templates >>= ranged (scan pods))
        (Gives-of_Grows (Q P cluster machine) (read list) (read-Grows (Q P cluster machine) list))
        (λ pods _.
          >>=-Gives (Q P cluster machine)
            (λ ts. (v : TemplateValues) × (ts ≡ templates_of P cluster machine v)) R templates
            (ranged (scan pods)) (templates-Gives P cluster machine)
            (λ ts (v, e).
              >>=-Gives (Q P cluster machine) (λ order. Perm order ts) R (range ts)
                (run (scan pods)) (range-Gives (Q P cluster machine) all ts)
                (λ order p.
                  setup_pods-Gives (scan pods) order (clear_pods machine)
                    (range-AreTemplates P cluster machine v ts order e p) (refl, refl))))

  setup_services-Grows :
      (svc_map : Dict Address) (order : List (ControlPlaneRole × Service))
      → All (λ e. e.1 ≡ etcd_service_template P cluster machine) order
      → Grows {C = C} (Q P cluster machine) (setup_services svc_map order)
  unfolding setup_services
  setup_services-Grows svc_map [] h = λ w. Adds-none (Q P cluster machine) w
  setup_services-Grows svc_map ((t, st) ∷ rest) (h, hs) =
      let skip = setup_services-Grows svc_map rest hs in
      let later : Action (World C) (Unit {0}) = setup_services svc_map rest in
      let create : Action (World C) (Unit {0}) = write (create_service st) in
      let round : Option Address → Action (World C) (Unit {0}) =
        λ o. elim o [ some _ ↦ later | none ↦ attempt create >> later ] in
      elim (lookup t svc_map) as (λ o. Grows (Q P cluster machine) (round o)) [
        | some _ ↦ skip
        | none ↦
            >>=-Grows (Q P cluster machine) (attempt create) (λ _. later)
              (attempt-Grows (Q P cluster machine) create
                (write-Grows (Q P cluster machine) (create_service st) h))
              (λ _. skip)
      ]

  services-Gives :
      RangesAll C
      → (m : KinkMachine) → IsSameMachine machine m
      → Gives {C = C}
          (Q P cluster machine)
          (IsSameMachine machine)
          (lookup_or_setup_services P cluster m)
  unfolding lookup_or_setup_services get_control_plane_service_templates
  services-Gives all m same =
      let R = IsSameMachine machine in
      let list = C.list_services cluster.meta.namespace cluster.meta.name in
      let entry : ControlPlaneRole × Service = (etcd, etcd_service_template P cluster m) in
      let seen : List Service → Dict Address = λ services. scan_services P m services [] in
      let last : Action (World C) KinkMachine = pure (clear_pods m) in
      let run : Dict Address → List (ControlPlaneRole × Service) → Action (World C) KinkMachine =
        λ svc_map order. setup_services svc_map order >>= λ _. last in
      >>=-Gives (Q P cluster machine) (λ _. Unit {0}) R (read list)
        (λ services. range (entry ∷ []) >>= run (seen services))
        (Gives-of_Grows (Q P cluster machine) (read list) (read-Grows (Q P cluster machine) list))
        (λ services _.
          >>=-Gives (Q P cluster machine) (λ order. Perm order (entry ∷ [])) R (range (entry ∷ []))
            (run (seen services)) (range-Gives (Q P cluster machine) all (entry ∷ []))
            (λ order p.
              >>=-Gives (Q P cluster machine) (λ _. Unit {0}) R
                (setup_services (seen services) order) (λ _. last)
                (Gives-of_Grows (Q P cluster machine) (setup_services (seen services) order) (
                  setup_services-Grows (seen services) order (
                    rw ((perm-replicate entry-IsSet 1 entry).0 p)
                      (service-eq P cluster machine m same, tt))))
                (λ _ _. pure-Gives (Q P cluster machine) R (clear_pods m) same)))

  pub set_up-Gives :
      RangesAll C
      → Gives {C = C}
          (Q P cluster machine)
          (IsSameMachine machine)
          (lookup_or_setup_control_plane P cluster machine)
  unfolding lookup_or_setup_control_plane
  set_up-Gives all =
      >>=-Gives (Q P cluster machine) (IsSameMachine machine) (IsSameMachine machine)
        (lookup_or_setup_pods P cluster machine) (lookup_or_setup_services P cluster)
        (pods-Gives all) (services-Gives all)
