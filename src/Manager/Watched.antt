-- ===== src/Manager/Watched.antt =====
-- What the controllers are registered for, against what they create and what the scheme knows.
use kink.Base.{
  ◌≡◌, refl, inl, inr, Option, none, some, List, [], ◌∷◌, ◌++◌, map, All, arith, AnyOf,
  AnyOf-of_get, get_elem?, ℕ, ◌≢◌, sym, ap, ◌∙◌, ok, Error,
}
use kink.Api.{OwnerReference, Cluster, KinkControlPlane, control_plane_group_version}
use kink.Platform.{Platform}
use kink.Client.{
  Client, Call, create_machine, create_pod, create_service, create_secret, create_kubeconfig,
  delete_machine, update_machine_status, create_nil_secret, update_control_plane_status,
  update_cluster_status,
}
use kink.ControlPlane.Controller.Frame.{IsAllowed}
use kink.Manager.Types.{
  ObjectType, kubernetes, cluster_api, SchemeGroup, client_go_group, cluster_api_group,
  control_plane_beta, infrastructure_beta, LibraryTypes, types_of,
}
use kink.Manager.Registrations.{
  Registration, kink_control_plane_type, kink_machine_type, kink_cluster_type,
  control_plane_registration, machine_registration, cluster_registration,
}
use kink.Manager.{
  Flags, Command, add_to_scheme, get_config_or_die, new_manager, set_up_with_manager,
  add_healthz_check, add_readyz_check, start, Runtime, Process, program,
}
use kink.Manager.Starts.{plan, ending, program_lem}

-- Every type that the registration names.
abbrev pub named_types : Registration → List ObjectType
named_types r = r.for_type ∷ (r.owns ++ map (λ w. w.0) r.watches)

-- What the libraries document: their groups have these types.
pub record HasLibraryTypes (L : LibraryTypes) : Type 0 where
  pub config_maps : AnyOf (kubernetes "ConfigMap") L.client_go_types
  pub secrets : AnyOf (kubernetes "Secret") L.client_go_types
  pub services : AnyOf (kubernetes "Service") L.client_go_types
  pub pods : AnyOf (kubernetes "Pod") L.client_go_types
  pub clusters : AnyOf (cluster_api "Cluster") L.cluster_api_types

-- A group with this type is added to the scheme by one of the commands.
abbrev pub IsInScheme : LibraryTypes → List Command → ObjectType → Type 0
IsInScheme L commands t =
    (g : SchemeGroup) × AnyOf (add_to_scheme g) commands × AnyOf t (types_of L g)

-- The controller is set up by one of the commands.
abbrev pub IsSetUp : List Command → Registration → Type 0
IsSetUp commands r = AnyOf (set_up_with_manager r) commands

-- The type of the object that a call creates, and the object's owners.
abbrev pub created : Call → Option (ObjectType × List OwnerReference)
created (create_machine m) = some (kink_machine_type, m.meta.owner_references)
created (create_pod p) = some (kubernetes "Pod", p.meta.owner_references)
created (create_service s) = some (kubernetes "Service", s.meta.owner_references)
created (create_secret s) = some (kubernetes "Secret", s.meta.owner_references)
created (create_kubeconfig key endpoint owner) = some (kubernetes "Secret", owner ∷ [])
created _ = none

module _ (P : Platform) (C : Client) (cluster : Cluster) (kcp : KinkControlPlane) where
  -- What the controller of a control plane may create has one owner, the control plane, and is of a
  -- type that the controller is registered to own: so a change of it wakes the controller.
  pub control_plane_owns :
      (call : Call) (t : ObjectType) (owners : List OwnerReference)
      → IsAllowed P C cluster kcp call
      → created call ≡ some (t, owners)
      → AnyOf t control_plane_registration.owns
        × (owners
            ≡ P.new_controller_ref kcp.meta control_plane_group_version "KinkControlPlane" ∷ [])
  control_plane_owns (create_machine m) t owners (name, e) h = (inl (ground arith), ground arith)
  control_plane_owns (create_secret s) t owners (name, crt, key, e) h =
      (inr (inr (inl (ground arith))), ground arith)
  control_plane_owns (create_kubeconfig key endpoint owner) t owners (e, f) h =
      (inr (inr (inl (ground arith))), ground arith)
  control_plane_owns create_nil_secret t owners allowed h = absurd (ground arith)
  control_plane_owns (delete_machine m) t owners allowed h = absurd (ground arith)
  control_plane_owns (update_control_plane_status k) t owners allowed h = absurd (ground arith)
  control_plane_owns (create_pod p) t owners allowed h = absurd allowed
  control_plane_owns (create_service s) t owners allowed h = absurd allowed
  control_plane_owns (update_machine_status m) t owners allowed h = absurd allowed
  control_plane_owns (update_cluster_status k) t owners allowed h = absurd allowed

module _ (L : LibraryTypes) (library : HasLibraryTypes L) (flags : Flags) where
  open library use {config_maps, secrets, services, pods, clusters}

  plan-IsInScheme :
      All
        (λ r. IsSetUp (plan flags) r × All (IsInScheme L (plan flags)) (named_types r))
        (control_plane_registration ∷ machine_registration ∷ cluster_registration ∷ [])
  plan-IsInScheme =
      let named : (g : SchemeGroup) (n : ℕ) (t : ObjectType)
          → get_elem? (plan flags) n ≡ some (add_to_scheme g)
          → AnyOf t (types_of L g)
          → IsInScheme L (plan flags) t =
        λ g n t e a. (g, AnyOf-of_get n (plan flags) e, a) in
      let planned : (n : ℕ) (r : Registration)
          → get_elem? (plan flags) n ≡ some (set_up_with_manager r)
          → IsSetUp (plan flags) r =
        λ n r e. AnyOf-of_get n (plan flags) e in
      let machine_type =
        named infrastructure_beta 5 kink_machine_type refl
          (AnyOf-of_get 2 (types_of L infrastructure_beta) refl) in
      let core : (t : ObjectType) → AnyOf t L.client_go_types → IsInScheme L (plan flags) t =
        λ t a. named client_go_group 0 t refl a in
      let kcp_types : All (IsInScheme L (plan flags)) (named_types control_plane_registration) = (
        named control_plane_beta 4 kink_control_plane_type refl (inl refl),
        (
          machine_type,
          (
            core (kubernetes "ConfigMap") config_maps,
            (
              core (kubernetes "Secret") secrets,
              (
                core (kubernetes "Service") services,
                (named cluster_api_group 1 (cluster_api "Cluster") refl clusters, tt),
              ),
            ),
          ),
        ),
      ) in
      (
        (planned 8 control_plane_registration refl, kcp_types),
        (
          (planned 9 machine_registration refl, (machine_type, (core (kubernetes "Pod") pods, tt))),
          (
            (
              planned 10 cluster_registration refl,
              (named infrastructure_beta 5 kink_cluster_type refl (inl refl), tt),
            ),
            tt,
          ),
        ),
      )

ending-fails : (c : Command) (e : Error) → ending c e ≢ ok tt
ending-fails (add_to_scheme g) e h = ground arith
ending-fails get_config_or_die e h = ground arith
ending-fails (new_manager options) e h = ground arith
ending-fails (set_up_with_manager r) e h = ground arith
ending-fails (add_healthz_check name) e h = ground arith
ending-fails (add_readyz_check name) e h = ground arith
ending-fails start e h = ground arith

-- If the libraries' groups have the types of Kubernetes and of the Cluster API that the
-- registrations name, then a program that has run to its end without a failure has set up its three
-- controllers, and has added to the scheme a group with each type that one of them is registered
-- for, owns or watches.
pub named_types-IsInScheme :
    (L : LibraryTypes)
    → HasLibraryTypes L
    → (R : Runtime) (flags : Flags) (s : R.State) (p : Process R)
    → program flags (record { state = s; commands = [] }) ≡ (ok tt, p)
    → All
        (λ r. IsSetUp p.commands r × All (IsInScheme L p.commands) (named_types r))
        (control_plane_registration ∷ machine_registration ∷ cluster_registration ∷ [])
named_types-IsInScheme L library R flags s p h =
    let first : Process R = record { state = s; commands = [] } in
    elim (program_lem R flags first) [
      | inl (t, good, ran) ↦
          let same : p.commands ≡ plan flags = ground arith in
          rw same (plan-IsInScheme L library flags)
      | inr (before, after, c, e, u, t, cut, good, bad, ran) ↦
          absurd (ending-fails c e (ap (λ x. x.0) (sym ran ∙ h)))
    ]
