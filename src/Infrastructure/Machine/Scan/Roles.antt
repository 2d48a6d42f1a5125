-- ===== src/Infrastructure/Machine/Scan/Roles.antt =====
-- What the scan loops leave: which roles are found, and what the addresses point to.
use kink.Base.{
  String, Bool, true, false, ◌≡◌, refl, ◌||◌, ◌&&◌, Option, none, some, List, [], ◌∷◌, Dict, lookup,
  map, success, failed, ◌==◌, arith,
}
use kink.Api.{KinkMachine, ObjectMeta, Pod, Service}
use kink.Platform.{Platform}
use kink.Infrastructure.Role.{get_control_plane_role}
use kink.Infrastructure.Machine.Scan.{
  Address, loop_variable, PodScan, dereference, note_role, note_owned, scan_pods, scan_services,
}

abbrev pub is_some {ℓ} : {A : Type ℓ} → Option A → Bool
is_some none = false
is_some (some a) = true

-- The object's label names the role.
unfoldable pub plays : String → ObjectMeta → Bool
plays role meta = elim (get_control_plane_role meta) [ failed e ↦ false | success r ↦ role == r ]

module _ (P : Platform) (machine : KinkMachine) (role : String) where
  -- Some object of the machine plays the role.
  abbrev pub is_played : List ObjectMeta → Bool
  is_played [] = false
  is_played (m ∷ ms) = (P.is_owned_by_object m machine.meta && plays role m) || is_played ms

  lookup-note_owned :
      (meta : ObjectMeta) (m : Dict Address)
      → is_some (lookup role (note_owned P machine meta m))
        ≡ ((P.is_owned_by_object meta machine.meta && plays role meta) || is_some (lookup role m))
  unfolding note_owned note_role plays
  lookup-note_owned meta m = ground arith

  pub lookup-scan_pods :
      (pods : List Pod) (scan : PodScan)
      → is_some (lookup role (scan_pods P machine pods scan).pod_map)
        ≡ (is_played (map (λ p. p.meta) pods) || is_some (lookup role scan.pod_map))
  unfolding scan_pods
  lookup-scan_pods [] scan = refl
  lookup-scan_pods (p ∷ pods) scan = ground (
    arith,
    lookup-scan_pods pods
        (record { pod = some p; pod_map = note_owned P machine p.meta scan.pod_map }),
    lookup-note_owned p.meta scan.pod_map,
  )

  pub lookup-scan_services :
      (services : List Service) (m : Dict Address)
      → is_some (lookup role (scan_services P machine services m))
        ≡ (is_played (map (λ s. s.meta) services) || is_some (lookup role m))
  unfolding scan_services
  lookup-scan_services [] m = refl
  lookup-scan_services (s ∷ services) m = ground (
    arith,
    lookup-scan_services services (note_owned P machine s.meta m),
    lookup-note_owned s.meta m,
  )

-- The last listed pod, whosever it is.
abbrev pub last_pod : Option Pod → List Pod → Option Pod
last_pod before [] = before
last_pod before (p ∷ pods) = last_pod (some p) pods

-- Wherever the loop took an address, it points to the last pod of the list.
pub dereference-scan_pods :
    (P : Platform) (machine : KinkMachine) (pods : List Pod) (scan : PodScan) (a : Address)
    → dereference (scan_pods P machine pods scan) a ≡ last_pod scan.pod pods
unfolding scan_pods
dereference-scan_pods P machine [] scan loop_variable = refl
dereference-scan_pods P machine (p ∷ pods) scan a = dereference-scan_pods P machine pods _ a
