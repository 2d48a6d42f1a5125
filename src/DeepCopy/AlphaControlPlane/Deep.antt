-- ===== src/DeepCopy/AlphaControlPlane/Deep.antt =====
-- The functions of v1alpha1 make deep copies.
use kink.Base.{ℤ, String, Bool, ◌≡◌, refl, Option, some, List, arith}
use kink.DeepCopy.Structs.{
  Address, ForeignTypes, TypeMeta, Cell, AlphaControlPlaneSpecStruct, AlphaControlPlaneStatusStruct,
  AlphaControlPlaneStruct,
}
use kink.DeepCopy.Copies.{IsDeepCopy}
use kink.DeepCopy.Codecs.{
  alpha_control_plane_spec_codec, alpha_control_plane_status_codec, alpha_control_plane_codec,
  alpha_control_plane_list_codec, alpha_control_plane_items_codec,
}
use kink.DeepCopy.Foreign.{ForeignCopies, AreDeepCopies}
use kink.DeepCopy.Parts.{
  Part, kept, and_then, items, target, whole-IsDeepCopy, text, conditions, object_meta, list_meta,
}
use kink.DeepCopy.Separate.{IsSeparate, copy_target-IsSeparate}
use kink.DeepCopy.AlphaControlPlane.{
  alpha_control_plane_spec_deep_copy_into, alpha_control_plane_spec_deep_copy,
  alpha_control_plane_status_deep_copy_into, alpha_control_plane_status_deep_copy,
  alpha_control_plane_deep_copy_into, alpha_control_plane_deep_copy,
  alpha_control_plane_list_deep_copy_into, alpha_control_plane_list_deep_copy,
}
use kink.DeepCopy.AlphaControlPlane.Shapes.{
  AlphaControlPlaneType, alpha_control_plane_spec, alpha_control_plane_status, alpha_control_plane,
  alpha_control_plane_list, pointer_shape, deep_copy, alpha_control_plane_spec_parts,
  alpha_control_plane_spec_shape, alpha_control_plane_status_parts,
  alpha_control_plane_status_shape, alpha_control_plane_parts, alpha_control_plane_shape,
  alpha_control_plane_list_parts, alpha_control_plane_list_shape,
}

module _ {F : ForeignTypes} (L : ForeignCopies F) (deep : AreDeepCopies F L) where
  alpha_control_plane_spec-IsDeepCopy :
      IsDeepCopy (alpha_control_plane_spec_shape L) (alpha_control_plane_spec_deep_copy_into L)
  unfolding alpha_control_plane_spec_deep_copy_into
  alpha_control_plane_spec-IsDeepCopy =
      whole-IsDeepCopy (and_then (kept (String × String × String)) (text F))
        (alpha_control_plane_spec_parts L)
        (λ s t. record s {
          kubeconf = t.0.0;
          credentials_name = t.0.1;
          cluster_name = t.0.2;
          version = t.1;
        })
        (λ s t. refl) (alpha_control_plane_spec_deep_copy_into L) (λ s h. ground arith)

  abbrev alpha_control_plane_spec_part : Part (Cell F) AlphaControlPlaneSpecStruct
  alpha_control_plane_spec_part = record {
    shape = alpha_control_plane_spec_shape L;
    copy = alpha_control_plane_spec_deep_copy_into L;
    deep = alpha_control_plane_spec-IsDeepCopy;
  }

  alpha_control_plane_status-IsDeepCopy :
      IsDeepCopy (alpha_control_plane_status_shape L) (alpha_control_plane_status_deep_copy_into L)
  unfolding alpha_control_plane_status_deep_copy_into
  alpha_control_plane_status-IsDeepCopy =
      whole-IsDeepCopy
        (and_then (kept (ℤ × ℤ × Bool × Bool))
          (and_then (text F) (and_then (text F) (and_then (text F) (conditions L deep)))))
        (alpha_control_plane_status_parts L)
        (λ s t. record s {
          ready_replicas = t.0.0;
          unavailable_replicas = t.0.1;
          initialized = t.0.2;
          ready = t.0.3;
          version = t.1.0;
          failure_reason = t.1.1.0;
          failure_message = t.1.1.1.0;
          conditions = t.1.1.1.1;
        })
        (λ s t. refl) (alpha_control_plane_status_deep_copy_into L) (λ s h. ground arith)

  abbrev alpha_control_plane_status_part : Part (Cell F) AlphaControlPlaneStatusStruct
  alpha_control_plane_status_part = record {
    shape = alpha_control_plane_status_shape L;
    copy = alpha_control_plane_status_deep_copy_into L;
    deep = alpha_control_plane_status-IsDeepCopy;
  }

  alpha_control_plane-IsDeepCopy :
      IsDeepCopy (alpha_control_plane_shape L) (alpha_control_plane_deep_copy_into L)
  unfolding alpha_control_plane_deep_copy_into
  alpha_control_plane-IsDeepCopy =
      whole-IsDeepCopy
        (and_then (kept TypeMeta) (
          and_then (object_meta L deep)
            (and_then alpha_control_plane_spec_part alpha_control_plane_status_part)))
        (alpha_control_plane_parts L)
        (λ s t. record s { type_meta = t.0; meta = t.1.0; spec = t.1.1.0; status = t.1.1.1 })
        (λ s t. refl) (alpha_control_plane_deep_copy_into L) (λ s h. ground arith)

  abbrev alpha_control_plane_part : Part (Cell F) (AlphaControlPlaneStruct F)
  alpha_control_plane_part = record {
    shape = alpha_control_plane_shape L;
    copy = alpha_control_plane_deep_copy_into L;
    deep = alpha_control_plane-IsDeepCopy;
  }

  alpha_control_plane_list-IsDeepCopy :
      IsDeepCopy (alpha_control_plane_list_shape L) (alpha_control_plane_list_deep_copy_into L)
  unfolding alpha_control_plane_list_deep_copy_into
  alpha_control_plane_list-IsDeepCopy =
      whole-IsDeepCopy
        (and_then (kept TypeMeta) (
          and_then (list_meta L deep)
            (target (alpha_control_plane_items_codec F) (items alpha_control_plane_part))))
        (alpha_control_plane_list_parts L)
        (λ s t. record s { type_meta = t.0; meta = t.1.0; items = t.1.1 }) (λ s t. refl)
        (alpha_control_plane_list_deep_copy_into L) (λ s h. ground arith)

  -- The same for the types of v1alpha1.
  pub alpha_control_plane_copies :
      (k : AlphaControlPlaneType) (h : List (Cell F)) (p : Option Address)
      (v : (pointer_shape L k).Value)
      → (pointer_shape L k).value h p ≡ some v
      → IsSeparate (pointer_shape L k) (deep_copy L k) h p v
  unfolding alpha_control_plane_spec_deep_copy alpha_control_plane_status_deep_copy
      alpha_control_plane_deep_copy alpha_control_plane_list_deep_copy
  alpha_control_plane_copies alpha_control_plane_spec =
      copy_target-IsSeparate (alpha_control_plane_spec_shape L)
        (alpha_control_plane_spec_deep_copy_into L) alpha_control_plane_spec-IsDeepCopy
        (alpha_control_plane_spec_codec F)
  alpha_control_plane_copies alpha_control_plane_status =
      copy_target-IsSeparate (alpha_control_plane_status_shape L)
        (alpha_control_plane_status_deep_copy_into L) alpha_control_plane_status-IsDeepCopy
        (alpha_control_plane_status_codec F)
  alpha_control_plane_copies alpha_control_plane =
      copy_target-IsSeparate (alpha_control_plane_shape L) (alpha_control_plane_deep_copy_into L)
        alpha_control_plane-IsDeepCopy (alpha_control_plane_codec F)
  alpha_control_plane_copies alpha_control_plane_list =
      copy_target-IsSeparate (alpha_control_plane_list_shape L)
        (alpha_control_plane_list_deep_copy_into L) alpha_control_plane_list-IsDeepCopy
        (alpha_control_plane_list_codec F)
