-- ===== src/Infrastructure/Machine/Scan.antt =====
-- The loops of kinkmachine_controller.go that run over the listed pods and services and collect
-- those of the machine by role.
pub mod Roles
use kink.Base.{Option, some, List, [], ◌∷◌, Dict, success, failed, if◌then◌else◌}
use kink.Api.{KinkMachine, ObjectMeta, Pod, Service}
use kink.Platform.{Platform}
use kink.Infrastructure.Role.{get_control_plane_role}

-- What `&pod` and `&svc` point to. Up to Go 1.21, and go.mod asks for 1.18, a `range` loop has one
-- variable for all its rounds: every address that the loop takes is this one.
pub data Address : Type 0 where
  loop_variable : Address

-- The loop variable and `podMap`.
pub record PodScan : Type 0 where
  pub pod : Option Pod
  pub pod_map : Dict Address

abbrev pub dereference : PodScan → Address → Option Pod
dereference scan loop_variable = scan.pod

-- `m[role] = &v`, unless the label is missing.
unfoldable pub note_role : ObjectMeta → Dict Address → Dict Address
unfolding get_control_plane_role
note_role meta m = elim (get_control_plane_role meta) [
  | failed e ↦ m
  | success role ↦ (role, loop_variable) ∷ m
]

module _ (P : Platform) (machine : KinkMachine) where
  -- One round for an object with the given metadata.
  unfoldable pub note_owned : ObjectMeta → Dict Address → Dict Address
  note_owned meta m = if P.is_owned_by_object meta machine.meta then note_role meta m else m

  unfoldable pub scan_pods : List Pod → PodScan → PodScan
  scan_pods [] scan = scan
  scan_pods (p ∷ rest) scan =
      scan_pods rest (record { pod = some p; pod_map = note_owned p.meta scan.pod_map })

  -- Only the keys of `svcMap` are read.
  unfoldable pub scan_services : List Service → Dict Address → Dict Address
  scan_services [] svc_map = svc_map
  scan_services (s ∷ rest) svc_map = scan_services rest (note_owned s.meta svc_map)
