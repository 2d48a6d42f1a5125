-- ===== src/DeepCopy/AlphaControlPlane.antt =====
-- zz_generated.deepcopy.go of apis/controlplane/v1alpha1.
pub mod Shapes
pub mod Deep
use kink.Base.{Option, List, Action, pure, ◌>>=◌}
use kink.DeepCopy.Structs.{
  Address, ForeignTypes, Cell, AlphaControlPlaneSpecStruct, AlphaControlPlaneStatusStruct,
  AlphaControlPlaneStruct, AlphaControlPlaneListStruct,
}
use kink.DeepCopy.Copies.{copy_target, copy_items}
use kink.DeepCopy.Codecs.{
  string_codec, int32_codec, references_codec, conditions_codec, alpha_control_plane_spec_codec,
  alpha_control_plane_status_codec, alpha_control_plane_codec, alpha_control_plane_list_codec,
  alpha_control_plane_items_codec,
}
use kink.DeepCopy.Foreign.{
  ForeignCopies, RuntimeObject, as_object, control_plane_object, control_plane_list_object,
}

module _ {F : ForeignTypes} (L : ForeignCopies F) where
  unfoldable pub alpha_control_plane_spec_deep_copy_into :
      AlphaControlPlaneSpecStruct → Action (List (Cell F)) AlphaControlPlaneSpecStruct
  alpha_control_plane_spec_deep_copy_into s = do
    version ← copy_target (string_codec F) pure s.version
    pure (record s { version = version })

  unfoldable pub alpha_control_plane_spec_deep_copy :
      Option Address → Action (List (Cell F)) (Option Address)
  alpha_control_plane_spec_deep_copy =
      copy_target (alpha_control_plane_spec_codec F) alpha_control_plane_spec_deep_copy_into

  unfoldable pub alpha_control_plane_status_deep_copy_into :
      AlphaControlPlaneStatusStruct → Action (List (Cell F)) AlphaControlPlaneStatusStruct
  alpha_control_plane_status_deep_copy_into s = do
    version ← copy_target (string_codec F) pure s.version
    failure_reason ← copy_target (string_codec F) pure s.failure_reason
    failure_message ← copy_target (string_codec F) pure s.failure_message
    conditions ← copy_target (conditions_codec F) (copy_items L.copy_condition) s.conditions
    pure (record s {
      version = version;
      failure_reason = failure_reason;
      failure_message = failure_message;
      conditions = conditions;
    })

  unfoldable pub alpha_control_plane_status_deep_copy :
      Option Address → Action (List (Cell F)) (Option Address)
  alpha_control_plane_status_deep_copy =
      copy_target (alpha_control_plane_status_codec F) alpha_control_plane_status_deep_copy_into

  unfoldable pub alpha_control_plane_deep_copy_into :
      (AlphaControlPlaneStruct F) → Action (List (Cell F)) (AlphaControlPlaneStruct F)
  alpha_control_plane_deep_copy_into s = do
    meta ← L.copy_object_meta s.meta
    spec ← alpha_control_plane_spec_deep_copy_into s.spec
    status ← alpha_control_plane_status_deep_copy_into s.status
    pure (record s { meta = meta; spec = spec; status = status })

  unfoldable pub alpha_control_plane_deep_copy :
      Option Address → Action (List (Cell F)) (Option Address)
  alpha_control_plane_deep_copy =
      copy_target (alpha_control_plane_codec F) alpha_control_plane_deep_copy_into

  unfoldable pub alpha_control_plane_deep_copy_object :
      Option Address → Action (List (Cell F)) (Option RuntimeObject)
  alpha_control_plane_deep_copy_object p = do
    c ← alpha_control_plane_deep_copy p
    pure (as_object control_plane_object c)

  unfoldable pub alpha_control_plane_list_deep_copy_into :
      (AlphaControlPlaneListStruct F) → Action (List (Cell F)) (AlphaControlPlaneListStruct F)
  alpha_control_plane_list_deep_copy_into s = do
    meta ← L.copy_list_meta s.meta
    items ←
        copy_target (alpha_control_plane_items_codec F)
          (copy_items alpha_control_plane_deep_copy_into) s.items
    pure (record s { meta = meta; items = items })

  unfoldable pub alpha_control_plane_list_deep_copy :
      Option Address → Action (List (Cell F)) (Option Address)
  alpha_control_plane_list_deep_copy =
      copy_target (alpha_control_plane_list_codec F) alpha_control_plane_list_deep_copy_into

  unfoldable pub alpha_control_plane_list_deep_copy_object :
      Option Address → Action (List (Cell F)) (Option RuntimeObject)
  alpha_control_plane_list_deep_copy_object p = do
    c ← alpha_control_plane_list_deep_copy p
    pure (as_object control_plane_list_object c)
