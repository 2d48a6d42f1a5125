-- ===== src/Infrastructure/Role.antt =====
-- controllers/infrastructure/util.go: the role that an object's label names.
use kink.Base.{none, some, Try, success, failed, failure, lookup}
use kink.Api.{ObjectMeta, ControlPlaneRole, control_plane_role_label_name}

-- The pointer to the metadata is never nil at the calls, which take the address of a field.
unfoldable pub get_control_plane_role : ObjectMeta → Try ControlPlaneRole
get_control_plane_role pod = elim pod.labels [
  | none ↦ failed (failure "pod is nil")
  | some labels ↦ elim (lookup control_plane_role_label_name labels) [
    | none ↦ failed (failure "pod is nil")
    | some pod_type ↦ success pod_type
  ]
]
