-- ===== src/Infrastructure/Machine/Setup/Services.antt =====
-- `lookupOrSetupServices`, and `lookupOrSetupControlPlane`, which runs it last.
use mathlib.Core.List.{perm-replicate}
use text.Mathlib.TextEquality.{IsScalar-prop}
use kink.Base.{
  String, ◌≡◌, List, [], ◌∷◌, ◌++◌, append-nil, map, ok, success, arith, if◌then◌else◌,
  Option-cases, inl, inr, lookup,
}
use kink.Api.{Cluster, KinkMachine, Service, etcd}
use kink.Platform.{Platform}
use kink.Client.{Client, RangesAll, NeverPanics, World, submitted, create_service}
use kink.Infrastructure.Templates.Etcd.{etcd_service_template}
use kink.Infrastructure.Machine.Scan.Roles.{is_played, lookup-scan_services}
use kink.Infrastructure.Machine.Scan.{scan_services}
use kink.Infrastructure.Machine.Setup.{
  lookup_or_setup_services, lookup_or_setup_control_plane, setup_services, clear_pods,
  get_control_plane_service_templates,
}

pub entry-IsSet : IsSet (String × Service)
entry-IsSet = hlevel IsScalar-prop

singleton_range :
    (C : Client)
    → RangesAll C
    → (s : C.State) (e : String × Service) → C.range_order _ s (e ∷ []) ≡ e ∷ []
singleton_range C all s e = (perm-replicate entry-IsSet 1 e).0 (all _ s (e ∷ []))

module _ (P : Platform) {C : Client} (cluster : Cluster) (machine machine' : KinkMachine)
    (w w' : World C) where
  services-clear_pods :
      lookup_or_setup_services P cluster machine w ≡ (ok machine', w')
      → machine' ≡ clear_pods machine
  unfolding lookup_or_setup_services
  services-clear_pods h = ground arith

  -- A successful set-up of the control plane leaves no reference to a pod in the machine's status,
  -- whatever pods it found.
  pub control_plane_forgets_pods :
      lookup_or_setup_control_plane P cluster machine w ≡ (ok machine', w')
      → machine'.status.pods ≡ []
  unfolding lookup_or_setup_control_plane lookup_or_setup_services
  control_plane_forgets_pods h = ground arith

module _ (P : Platform) {C : Client} (cluster : Cluster) (machine : KinkMachine) (w : World C) where
  -- After a listing that succeeds, if a `range` meets each entry of a map once and no call panics,
  -- the set-up of the services returns the machine without references to pods, whatever the server
  -- answers to the creation. It has tried once to create the etcd service if no listed service of
  -- the machine plays this role, and has made no other call.
  pub lookup_or_setup_services-calls :
      {s : C.State} (services : List Service)
      → RangesAll C
      → NeverPanics C
      → C.list_services cluster.meta.namespace cluster.meta.name w.server ≡ (success services, s)
      → (w' : World C) × (lookup_or_setup_services P cluster machine w
          ≡ (ok (clear_pods machine), w'))
        × (w'.calls
            ≡ w.calls
              ++ (if is_played P machine etcd (map (λ x. x.meta) services)
                  then []
                  else create_service (etcd_service_template P cluster machine) ∷ []))
  unfolding lookup_or_setup_services setup_services get_control_plane_service_templates
  lookup_or_setup_services-calls {s} services all calm listed =
      let service = etcd_service_template P cluster machine in
      let order = singleton_range C all s (etcd, service) in
      let found = lookup-scan_services P machine etcd services [] in
      elim (Option-cases (lookup etcd (scan_services P machine services []))) [
        | inr (a, played) ↦ (
          record w { server = s },
          ground (arith, order),
          ground (arith, append-nil w.calls, found),
        )
        | inl absent ↦ (
          submitted (create_service service) (record w { server = s }),
          ground (arith, order, calm (create_service service) s tt),
          ground (arith, found),
        )
      ]
