-- ===== src/Infrastructure/Machine/Setup/Again.antt =====
-- The roles of the pods that a machine's templates make, and which roles a list of pods plays.
use mathlib.Core.Logic.Or
use mathlib.Core.List.{Mem, Mem-prop, not-mem-nil, mem-cons, mem-cons_self, mem-cons_of_mem}
use kink.Base.{
  String, Bool, true, false, ◌≡◌, refl, ◌⊎◌, inl, inr, List, [], ◌∷◌, map, success, arith, All,
  Bool-cases, eq_iff, ap, every, not,
}
use kink.Api.{
  Cluster, KinkMachine, ObjectMeta, Pod, ControlPlaneRole, etcd, api_server, controller_manager,
  scheduler,
}
use kink.Platform.{Platform, HasDistinctLabels}
use kink.Client.{create_pod}
use kink.Infrastructure.Role.{get_control_plane_role}
use kink.Infrastructure.Templates.Etcd.{etcd_pod}
use kink.Infrastructure.Templates.ApiServer.{api_server_pod}
use kink.Infrastructure.Templates.ControllerManager.{controller_manager_pod}
use kink.Infrastructure.Templates.Scheduler.{scheduler_pod}
use kink.Infrastructure.Machine.Scan.Roles.{is_played, plays}
use kink.Infrastructure.Machine.Setup.Missing.{Templates, missing}
use kink.Infrastructure.Machine.Setup.Templates.{TemplateValues, templates_of}

-- The role label is one that the templates of a machine set.
abbrev pub HasTemplateRole : ObjectMeta → Type 0
HasTemplateRole meta =
    (get_control_plane_role meta ≡ success etcd)
    ⊎ (get_control_plane_role meta ≡ success api_server)
    ⊎ (get_control_plane_role meta ≡ success controller_manager)

module _ (P : Platform) (D : HasDistinctLabels P) (cluster : Cluster) (machine : KinkMachine) where
  -- If the Cluster API's label is not the role label, each of the four pods that the templates make
  -- has one of the roles etcd, apiserver and controller-manager.
  pub templates_of-HasTemplateRole :
      (v : TemplateValues) → All (λ e. HasTemplateRole e.1.meta) (templates_of P cluster machine v)
  unfolding get_control_plane_role etcd_pod api_server_pod controller_manager_pod scheduler_pod
  templates_of-HasTemplateRole v =
      let ne = D.cluster_ne_role in
      ground (
        arith,
        eq_iff "kink.openbce.io/role" P.cluster_label_name,
        eq_iff "kink.openbce.io/role" "kink.openbce.io/role",
      )

plays-scheduler : (meta : ObjectMeta) → HasTemplateRole meta → plays scheduler meta ≡ false
unfolding plays
plays-scheduler meta (inl e) = rw (e, plays)
plays-scheduler meta (inr (inl e)) = rw (e, plays)
plays-scheduler meta (inr (inr e)) = rw (e, plays)

pub is_played-none :
    (P : Platform) (machine : KinkMachine) (role : String) (pods : List Pod)
    → All (λ p. P.is_owned_by_object p.meta machine.meta ≡ true → plays role p.meta ≡ false) pods
    → is_played P machine role (map (λ p. p.meta) pods) ≡ false
is_played-none P machine role [] h = refl
is_played-none P machine role (p ∷ pods) (h, hs) =
    elim (Bool-cases (P.is_owned_by_object p.meta machine.meta)) [
      | inl owned ↦ rw (owned, h owned) (is_played-none P machine role pods hs)
      | inr other ↦ rw other (is_played-none P machine role pods hs)
    ]

pub mem-missing :
    (played : String → Bool) (t : ControlPlaneRole) (pt : Pod) (templates : Templates)
    → played t ≡ false
    → Mem (t, pt) templates
    → Mem (create_pod pt) (missing played templates)
mem-missing played t pt [] h m = absurd (not-mem-nil m)
mem-missing played t pt ((u, pu) ∷ rest) h m =
    Or.elim Mem-prop (mem-cons.0 m)
      (λ e.
        let same : t ≡ u = ap (λ x. x.0) e in
        let pod : pt ≡ pu = ap (λ x. x.1) e in rw (← same, h, pod) mem-cons_self)
      (λ later. elim (Bool-cases (played u)) [
        | inl skip ↦ rw skip (mem-missing played t pt rest h later)
        | inr add ↦ rw add (mem-cons_of_mem _ (mem-missing played t pt rest h later))
      ])

-- A pod with the same labels plays the same roles.
pub plays-labels :
    (role : String) (meta meta' : ObjectMeta)
    → meta.labels ≡ meta'.labels
    → plays role meta ≡ plays role meta'
unfolding plays get_control_plane_role
plays-labels role meta meta' e = rw e refl

-- No template's pod plays the scheduler's role.
abbrev pub plays_other : Pod → Bool
plays_other pod = not (plays scheduler pod.meta)

pub templates_of-plays_other :
    (P : Platform) (D : HasDistinctLabels P) (cluster : Cluster) (machine : KinkMachine)
    (v : TemplateValues)
    → every (λ e. plays_other e.1) (templates_of P cluster machine v) ≡ true
templates_of-plays_other P D cluster machine v =
    let (a, (b, (c, (d, _)))) = templates_of-HasTemplateRole P D cluster machine v in
    rw (plays-scheduler _ a, plays-scheduler _ b, plays-scheduler _ c, plays-scheduler _ d) refl
