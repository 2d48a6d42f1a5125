-- ===== src/DeepCopy/AlphaControlPlane/Shapes.antt =====
-- What the values of v1alpha1 stand for.
use kink.Base.{ℤ, String, Bool, Option, List, Action}
use kink.DeepCopy.Structs.{
  Address, ForeignTypes, TypeMeta, Cell, AlphaControlPlaneSpecStruct, AlphaControlPlaneStatusStruct,
  AlphaControlPlaneStruct, AlphaControlPlaneListStruct,
}
use kink.DeepCopy.Shapes.{Shape, plain, pair, list, reference, of_parts}
use kink.DeepCopy.Codecs.{
  alpha_control_plane_spec_codec, alpha_control_plane_status_codec, alpha_control_plane_codec,
  alpha_control_plane_list_codec, alpha_control_plane_items_codec,
}
use kink.DeepCopy.Foreign.{ForeignCopies}
use kink.DeepCopy.Parts.{text_shape, conditions_shape}
use kink.DeepCopy.AlphaControlPlane.{
  alpha_control_plane_spec_deep_copy, alpha_control_plane_status_deep_copy,
  alpha_control_plane_deep_copy, alpha_control_plane_list_deep_copy,
}

-- The types of the group.
pub data AlphaControlPlaneType : Type 0 where
  alpha_control_plane_spec alpha_control_plane_status alpha_control_plane alpha_control_plane_list :
      AlphaControlPlaneType

module _ {F : ForeignTypes} (L : ForeignCopies F) where
  abbrev pub alpha_control_plane_spec_parts :
      AlphaControlPlaneSpecStruct → (String × String × String) × (Option Address)
  alpha_control_plane_spec_parts s = ((s.kubeconf, s.credentials_name, s.cluster_name), s.version)

  abbrev pub alpha_control_plane_spec_shape : Shape (Cell F) AlphaControlPlaneSpecStruct
  alpha_control_plane_spec_shape =
      of_parts alpha_control_plane_spec_parts
        (pair (plain (String × String × String)) (text_shape F))

  abbrev pub alpha_control_plane_status_parts :
      AlphaControlPlaneStatusStruct
      → (ℤ × ℤ × Bool × Bool)
        × (Option Address × (Option Address × (Option Address × (Option Address))))
  alpha_control_plane_status_parts s = (
    (s.ready_replicas, s.unavailable_replicas, s.initialized, s.ready),
    (s.version, (s.failure_reason, (s.failure_message, s.conditions))),
  )

  abbrev pub alpha_control_plane_status_shape : Shape (Cell F) AlphaControlPlaneStatusStruct
  alpha_control_plane_status_shape = of_parts alpha_control_plane_status_parts (
      pair (plain (ℤ × ℤ × Bool × Bool))
        (pair (text_shape F) (pair (text_shape F) (pair (text_shape F) (conditions_shape L)))))

  abbrev pub alpha_control_plane_parts :
      (AlphaControlPlaneStruct F)
      → TypeMeta × (F.ObjectMeta × (AlphaControlPlaneSpecStruct × (AlphaControlPlaneStatusStruct)))
  alpha_control_plane_parts s = (s.type_meta, (s.meta, (s.spec, s.status)))

  abbrev pub alpha_control_plane_shape : Shape (Cell F) (AlphaControlPlaneStruct F)
  alpha_control_plane_shape = of_parts alpha_control_plane_parts (
      pair (plain TypeMeta) (
        pair (L.object_meta_shape)
          (pair (alpha_control_plane_spec_shape) (alpha_control_plane_status_shape))))

  abbrev pub alpha_control_plane_list_parts :
      (AlphaControlPlaneListStruct F) → TypeMeta × (F.ListMeta × (Option Address))
  alpha_control_plane_list_parts s = (s.type_meta, (s.meta, s.items))

  abbrev pub alpha_control_plane_list_shape : Shape (Cell F) (AlphaControlPlaneListStruct F)
  alpha_control_plane_list_shape = of_parts alpha_control_plane_list_parts (
      pair (plain TypeMeta) (
        pair (L.list_meta_shape)
          (reference (alpha_control_plane_items_codec F) (list alpha_control_plane_shape))))

  -- A pointer to a value of the type, and its `DeepCopy`.
  abbrev pub pointer_shape : AlphaControlPlaneType → Shape (Cell F) (Option Address)
  pointer_shape alpha_control_plane_spec =
      reference (alpha_control_plane_spec_codec F) alpha_control_plane_spec_shape
  pointer_shape alpha_control_plane_status =
      reference (alpha_control_plane_status_codec F) alpha_control_plane_status_shape
  pointer_shape alpha_control_plane =
      reference (alpha_control_plane_codec F) alpha_control_plane_shape
  pointer_shape alpha_control_plane_list =
      reference (alpha_control_plane_list_codec F) alpha_control_plane_list_shape

  abbrev pub deep_copy :
      AlphaControlPlaneType → Option Address → Action (List (Cell F)) (Option Address)
  deep_copy alpha_control_plane_spec = alpha_control_plane_spec_deep_copy L
  deep_copy alpha_control_plane_status = alpha_control_plane_status_deep_copy L
  deep_copy alpha_control_plane = alpha_control_plane_deep_copy L
  deep_copy alpha_control_plane_list = alpha_control_plane_list_deep_copy L
