-- ===== src/Infrastructure/Machine/Setup/Pods.antt =====
-- `lookupOrSetupPods` as a whole.
use mathlib.Core.Option
use mathlib.Core.Path.{subst}
use mathlib.Core.List.{Perm}
use kink.Base.{
  String, Bool, true, false, ◌||◌, ◌≡◌, refl, none, some, List, [], ◌++◌, map, ok, success, arith,
  All, >>=-eq-ok, ◌∙◌, Action, ◌>>=◌,
}
use kink.Api.{Cluster, KinkMachine, Pod}
use kink.Platform.{Platform}
use kink.Client.{Client, World, RangesAll, range}
use kink.Infrastructure.Templates.Util.{service_cidr, pod_cidr}
use kink.Infrastructure.Machine.Scan.{PodScan, scan_pods}
use kink.Infrastructure.Machine.Scan.Roles.{
  is_played, lookup-scan_pods, last_pod, dereference-scan_pods,
}
use kink.Infrastructure.Machine.Setup.{
  lookup_or_setup_pods, get_control_plane_pod_templates, setup_pods, clear_pods, pod_reference,
}
use kink.Infrastructure.Machine.Setup.Missing.{
  Templates, missing, references, add_references, creations, creations-eq-missing, references-All,
  setup_pods-calls, setup_pods-machine,
}
use kink.Infrastructure.Machine.Setup.Templates.{
  TemplateValues, drawn, templates_of, get_templates-eq-ok,
}

or_false : (b : Bool) → (b || false) ≡ b
or_false true = refl
or_false false = refl

-- The scan of the listed pods, from its start.
abbrev pub scan_of : Platform → KinkMachine → List Pod → PodScan
scan_of P machine pods = scan_pods P machine pods (record { pod = none; pod_map = [] })

-- The values are the cluster's ranges and the names that the generator gives from this state on.
abbrev pub HasRanges : (C : Client) → Cluster → C.State → TemplateValues → Type 0
HasRanges C cluster s v =
    (service_cidr cluster ≡ some v.service_didr)
    × (pod_cidr cluster ≡ some v.pod_range)
    × (v ≡ (drawn C cluster s v.service_didr v.pod_range).0)

-- What a set-up that began with these calls has done.
abbrev Run :
    Platform
    → (C : Client) → Cluster
    → KinkMachine
    → List Pod
    → World C
    → KinkMachine
    → World C
    → Type 0
Run P C cluster machine pods w machine' w' =
    (v : TemplateValues) × (t : C.State) × HasRanges C cluster w.server v
    × (let order = C.range_order _ t (templates_of P cluster machine v) in
        let scan = scan_of P machine pods in
        (w'.calls ≡ w.calls ++ creations scan order)
        × (machine' ≡ add_references (references scan order) (clear_pods machine)))

module _ (P : Platform) {C : Client} (cluster : Cluster) (machine machine' : KinkMachine)
    (pods : List Pod) where
  -- From the templates on.
  Run-from :
      (w v w' : World C) (templates : Templates)
      → get_control_plane_pod_templates P cluster machine w ≡ (ok templates, v)
      → setup_pods
          (scan_of P machine pods)
          (C.range_order _ v.server templates)
          (clear_pods machine)
          v
        ≡ (ok machine', w')
      → Run P C cluster machine pods w machine' w'
  Run-from w v w' templates made set_up =
      let (values, same, quiet, services, nodes, names) =
        get_templates-eq-ok P cluster machine w v templates made in
      let order = C.range_order _ v.server templates in
      let scan = scan_of P machine pods in
      (
        values,
        v.server,
        (services, nodes, names),
        (
          rw (← same, ← quiet)
              (setup_pods-calls scan order (clear_pods machine) machine' v w' set_up),
          rw (← same) (setup_pods-machine scan order (clear_pods machine) machine' v w' set_up),
        ),
      )

module _ (P : Platform) {C : Client} (cluster : Cluster) (machine machine' : KinkMachine)
    (w w' : World C) {s : C.State} (pods : List Pod)
    (listed : C.list_pods cluster.meta.namespace cluster.meta.name w.server ≡ (success pods, s))
    (returned : lookup_or_setup_pods P cluster machine w ≡ (ok machine', w')) where
  setup-Run : Run P C cluster machine pods (record w { server = s }) machine' w'
  unfolding lookup_or_setup_pods
  setup-Run =
      let rest : Templates → Action (World C) KinkMachine = λ templates. do
        order ← range templates
        setup_pods (scan_of P machine pods) order (clear_pods machine)
      in let make = get_control_plane_pod_templates P {C = C} cluster machine in
        let w1 : World C = record w { server = s } in
        let later : (make >>= rest) w1 ≡ (ok machine', w') = ground arith in
        let (templates, v, made, set_up) = >>=-eq-ok make rest w1 later in
        Run-from P cluster machine machine' pods w1 v w' templates made set_up

  -- The calls, for the values and the order that the run met.
  pub setup-missing :
      (v : TemplateValues) × (t : C.State) × HasRanges C cluster s v
      × (w'.calls
          ≡ w.calls
            ++ missing
                (λ role. is_played P machine role (map (λ p. p.meta) pods))
                (C.range_order _ t (templates_of P cluster machine v)))
  setup-missing =
      let (v, t, ranges, (calls, _)) = setup-Run in
      let order = C.range_order _ t (templates_of P cluster machine v) in
      (
        v,
        t,
        ranges,
        rw
            (← creations-eq-missing (scan_of P machine pods) _
              (λ role. lookup-scan_pods P machine role pods _ ∙ or_false _) order)
            calls,
      )

  -- After a listing that succeeds, and if a `range` meets each entry of a map once, a successful
  -- set-up has run through the four roles' templates, made from the cluster's two ranges and from
  -- the names that the generator gives behind the listing, in some order. It has created one pod for
  -- each role that no listed pod of the machine plays, from this role's template, in this order, and
  -- nothing else.
  pub lookup_or_setup_pods-calls :
      RangesAll C
      → (service_didr pod_range : String) × (service_cidr cluster ≡ some service_didr)
        × (pod_cidr cluster ≡ some pod_range)
        × ((order : Templates) × Perm order
              (templates_of P cluster machine (drawn C cluster s service_didr pod_range).0)
            × (w'.calls
                ≡ w.calls
                  ++ missing (λ role. is_played P machine role (map (λ p. p.meta) pods)) order))
  lookup_or_setup_pods-calls all =
      let (v, t, (services, nodes, names), calls) = setup-missing in
      let order = C.range_order _ t (templates_of P cluster machine v) in
      (
        v.service_didr,
        v.pod_range,
        services,
        nodes,
        (
          order,
          subst (λ x. Perm order (templates_of P cluster machine x)) names
              (all _ t (templates_of P cluster machine v)),
          calls,
        ),
      )

  -- After a listing that succeeds, every reference that a successful set-up records is to the last
  -- pod of the list, whatever its role is and whosever it is.
  pub lookup_or_setup_pods-references :
      All (λ ref. Option.map pod_reference (last_pod none pods) ≡ some ref) machine'.status.pods
  lookup_or_setup_pods-references =
      let (v, t, _, (_, e)) = setup-Run in
      rw e (
        references-All (scan_of P machine pods) (last_pod none pods)
          (dereference-scan_pods P machine pods _) _)
