-- ===== src/Manager/Woken.antt =====
-- Whom the end of an object of a machine wakes.
use kink.Base.{String, Bool, false, ◌==◌, ◌≡◌, ◌⊎◌, List, [], ◌∷◌, map, AnyOf}
use kink.Api.{ObjectMeta, GroupVersion, OwnerReference, Pod}
use kink.Platform.{Platform}
use kink.Manager.Types.{ObjectType, own, kubernetes, cluster_api}
use kink.Manager.Registrations.{Registration}

abbrev pub kind_of : ObjectType → String
kind_of (own gv kind) = kind
kind_of (kubernetes kind) = kind
kind_of (cluster_api kind) = kind

-- An event of an object may wake the controller: it reconciles the type or watches it, or it owns the
-- type and an owner of the object has the kind that the controller reconciles.
abbrev pub Wakes : Registration → ObjectType → List OwnerReference → Type 0
Wakes r t owners =
    (t ≡ r.for_type)
    ⊎ AnyOf t (map (λ w. w.0) r.watches)
    ⊎ (AnyOf t r.owns × AnyOf (kind_of r.for_type) (map (λ o. o.kind) owners))

-- `NewControllerRef` returns a reference with the kind that it is given.
abbrev pub RefersToKind : Platform → Type 0
RefersToKind P =
    (meta : ObjectMeta) (gv : GroupVersion) (kind : String)
    → (P.new_controller_ref meta gv kind).kind ≡ kind

abbrev has_machine_owner : Pod → Bool
has_machine_owner pod = elim pod.meta.owner_references [
  | [] ↦ false
  | o ∷ _ ↦ o.kind == "KinkMachine"
]
