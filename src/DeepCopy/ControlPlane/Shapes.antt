-- ===== src/DeepCopy/ControlPlane/Shapes.antt =====
-- What the values of the control plane group stand for.
use kink.Base.{ℤ, String, Bool, Option, List, Action}
use kink.DeepCopy.Structs.{
  Address, ForeignTypes, TypeMeta, Cell, ControlPlaneSpecStruct, ControlPlaneStatusStruct,
  ControlPlaneStruct, ControlPlaneListStruct,
}
use kink.DeepCopy.Shapes.{Shape, plain, pair, list, reference, of_parts}
use kink.DeepCopy.Codecs.{
  control_plane_spec_codec, control_plane_status_codec, control_plane_codec,
  control_plane_list_codec, control_plane_items_codec,
}
use kink.DeepCopy.Foreign.{ForeignCopies}
use kink.DeepCopy.Parts.{text_shape, number_shape, conditions_shape}
use kink.DeepCopy.ControlPlane.{
  control_plane_spec_deep_copy, control_plane_status_deep_copy, control_plane_deep_copy,
  control_plane_list_deep_copy,
}

-- The types of the group.
pub data ControlPlaneType : Type 0 where
  control_plane_spec control_plane_status control_plane control_plane_list : ControlPlaneType

module _ {F : ForeignTypes} (L : ForeignCopies F) where
  abbrev pub control_plane_spec_parts :
      ControlPlaneSpecStruct → (String) × (Option Address × (Option Address))
  control_plane_spec_parts s = (s.cluster_name, (s.replicas, s.version))

  abbrev pub control_plane_spec_shape : Shape (Cell F) ControlPlaneSpecStruct
  control_plane_spec_shape =
      of_parts control_plane_spec_parts
        (pair (plain (String)) (pair (number_shape F) (text_shape F)))

  abbrev pub control_plane_status_parts :
      ControlPlaneStatusStruct
      → (Bool × ℤ × ℤ × ℤ × Bool × Bool)
        × (Option Address × (Option Address × (Option Address × (Option Address))))
  control_plane_status_parts s = (
    (
      s.external_managed_control_plane, s.ready_replicas, s.unavailable_replicas,
      s.updated_replicas, s.initialized, s.ready,
    ),
    (s.version, (s.failure_reason, (s.failure_message, s.conditions))),
  )

  abbrev pub control_plane_status_shape : Shape (Cell F) ControlPlaneStatusStruct
  control_plane_status_shape = of_parts control_plane_status_parts (
      pair (plain (Bool × ℤ × ℤ × ℤ × Bool × Bool))
        (pair (text_shape F) (pair (text_shape F) (pair (text_shape F) (conditions_shape L)))))

  abbrev pub control_plane_parts :
      (ControlPlaneStruct F)
      → TypeMeta × (F.ObjectMeta × (ControlPlaneSpecStruct × (ControlPlaneStatusStruct)))
  control_plane_parts s = (s.type_meta, (s.meta, (s.spec, s.status)))

  abbrev pub control_plane_shape : Shape (Cell F) (ControlPlaneStruct F)
  control_plane_shape = of_parts control_plane_parts (
      pair (plain TypeMeta)
        (pair (L.object_meta_shape) (pair (control_plane_spec_shape) (control_plane_status_shape))))

  abbrev pub control_plane_list_parts :
      (ControlPlaneListStruct F) → TypeMeta × (F.ListMeta × (Option Address))
  control_plane_list_parts s = (s.type_meta, (s.meta, s.items))

  abbrev pub control_plane_list_shape : Shape (Cell F) (ControlPlaneListStruct F)
  control_plane_list_shape = of_parts control_plane_list_parts (
      pair (plain TypeMeta) (
        pair (L.list_meta_shape)
          (reference (control_plane_items_codec F) (list control_plane_shape))))

  -- A pointer to a value of the type, and its `DeepCopy`.
  abbrev pub pointer_shape : ControlPlaneType → Shape (Cell F) (Option Address)
  pointer_shape control_plane_spec = reference (control_plane_spec_codec F) control_plane_spec_shape
  pointer_shape control_plane_status =
      reference (control_plane_status_codec F) control_plane_status_shape
  pointer_shape control_plane = reference (control_plane_codec F) control_plane_shape
  pointer_shape control_plane_list = reference (control_plane_list_codec F) control_plane_list_shape

  abbrev pub deep_copy : ControlPlaneType → Option Address → Action (List (Cell F)) (Option Address)
  deep_copy control_plane_spec = control_plane_spec_deep_copy L
  deep_copy control_plane_status = control_plane_status_deep_copy L
  deep_copy control_plane = control_plane_deep_copy L
  deep_copy control_plane_list = control_plane_list_deep_copy L
