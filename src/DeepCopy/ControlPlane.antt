-- ===== src/DeepCopy/ControlPlane.antt =====
-- zz_generated.deepcopy.go of apis/controlplane/v1beta1.
pub mod Shapes
pub mod Deep
use kink.Base.{Option, List, Action, pure, ◌>>=◌}
use kink.DeepCopy.Structs.{
  Address, ForeignTypes, Cell, ControlPlaneSpecStruct, ControlPlaneStatusStruct, ControlPlaneStruct,
  ControlPlaneListStruct,
}
use kink.DeepCopy.Copies.{copy_target, copy_items}
use kink.DeepCopy.Codecs.{
  string_codec, int32_codec, references_codec, conditions_codec, control_plane_spec_codec,
  control_plane_status_codec, control_plane_codec, control_plane_list_codec,
  control_plane_items_codec,
}
use kink.DeepCopy.Foreign.{
  ForeignCopies, RuntimeObject, as_object, control_plane_object, control_plane_list_object,
}

module _ {F : ForeignTypes} (L : ForeignCopies F) where
  unfoldable pub control_plane_spec_deep_copy_into :
      ControlPlaneSpecStruct → Action (List (Cell F)) ControlPlaneSpecStruct
  control_plane_spec_deep_copy_into s = do
    replicas ← copy_target (int32_codec F) pure s.replicas
    version ← copy_target (string_codec F) pure s.version
    pure (record s { replicas = replicas; version = version })

  unfoldable pub control_plane_spec_deep_copy :
      Option Address → Action (List (Cell F)) (Option Address)
  control_plane_spec_deep_copy =
      copy_target (control_plane_spec_codec F) control_plane_spec_deep_copy_into

  unfoldable pub control_plane_status_deep_copy_into :
      ControlPlaneStatusStruct → Action (List (Cell F)) ControlPlaneStatusStruct
  control_plane_status_deep_copy_into s = do
    version ← copy_target (string_codec F) pure s.version
    failure_reason ← copy_target (string_codec F) pure s.failure_reason
    failure_message ← copy_target (string_codec F) pure s.failure_message
    conditions ← copy_target (conditions_codec F) (copy_items L.copy_condition) s.conditions
    pure (record s {
      version = version;
      failure_reason = failure_reason;
      failure_message = failure_message;
      conditions = conditions;
    })

  unfoldable pub control_plane_status_deep_copy :
      Option Address → Action (List (Cell F)) (Option Address)
  control_plane_status_deep_copy =
      copy_target (control_plane_status_codec F) control_plane_status_deep_copy_into

  unfoldable pub control_plane_deep_copy_into :
      (ControlPlaneStruct F) → Action (List (Cell F)) (ControlPlaneStruct F)
  control_plane_deep_copy_into s = do
    meta ← L.copy_object_meta s.meta
    spec ← control_plane_spec_deep_copy_into s.spec
    status ← control_plane_status_deep_copy_into s.status
    pure (record s { meta = meta; spec = spec; status = status })

  unfoldable pub control_plane_deep_copy : Option Address → Action (List (Cell F)) (Option Address)
  control_plane_deep_copy = copy_target (control_plane_codec F) control_plane_deep_copy_into

  unfoldable pub control_plane_deep_copy_object :
      Option Address → Action (List (Cell F)) (Option RuntimeObject)
  control_plane_deep_copy_object p = do
    c ← control_plane_deep_copy p
    pure (as_object control_plane_object c)

  unfoldable pub control_plane_list_deep_copy_into :
      (ControlPlaneListStruct F) → Action (List (Cell F)) (ControlPlaneListStruct F)
  control_plane_list_deep_copy_into s = do
    meta ← L.copy_list_meta s.meta
    items ←
        copy_target (control_plane_items_codec F) (copy_items control_plane_deep_copy_into) s.items
    pure (record s { meta = meta; items = items })

  unfoldable pub control_plane_list_deep_copy :
      Option Address → Action (List (Cell F)) (Option Address)
  control_plane_list_deep_copy =
      copy_target (control_plane_list_codec F) control_plane_list_deep_copy_into

  unfoldable pub control_plane_list_deep_copy_object :
      Option Address → Action (List (Cell F)) (Option RuntimeObject)
  control_plane_list_deep_copy_object p = do
    c ← control_plane_list_deep_copy p
    pure (as_object control_plane_list_object c)
