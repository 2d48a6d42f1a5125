-- ===== src/DeepCopy/ControlPlane/Deep.antt =====
-- The functions of the control plane group make deep copies.
use kink.Base.{ℤ, String, Bool, ◌≡◌, refl, Option, some, List, arith}
use kink.DeepCopy.Structs.{
  Address, ForeignTypes, TypeMeta, Cell, ControlPlaneSpecStruct, ControlPlaneStatusStruct,
  ControlPlaneStruct,
}
use kink.DeepCopy.Copies.{IsDeepCopy}
use kink.DeepCopy.Codecs.{
  control_plane_spec_codec, control_plane_status_codec, control_plane_codec,
  control_plane_list_codec, control_plane_items_codec,
}
use kink.DeepCopy.Foreign.{ForeignCopies, AreDeepCopies}
use kink.DeepCopy.Parts.{
  Part, kept, and_then, items, target, whole-IsDeepCopy, text, number, conditions, object_meta,
  list_meta,
}
use kink.DeepCopy.Separate.{IsSeparate, copy_target-IsSeparate}
use kink.DeepCopy.ControlPlane.{
  control_plane_spec_deep_copy_into, control_plane_spec_deep_copy,
  control_plane_status_deep_copy_into, control_plane_status_deep_copy, control_plane_deep_copy_into,
  control_plane_deep_copy, control_plane_list_deep_copy_into, control_plane_list_deep_copy,
}
use kink.DeepCopy.ControlPlane.Shapes.{
  ControlPlaneType, control_plane_spec, control_plane_status, control_plane, control_plane_list,
  pointer_shape, deep_copy, control_plane_spec_parts, control_plane_spec_shape,
  control_plane_status_parts, control_plane_status_shape, control_plane_parts, control_plane_shape,
  control_plane_list_parts, control_plane_list_shape,
}

module _ {F : ForeignTypes} (L : ForeignCopies F) (deep : AreDeepCopies F L) where
  control_plane_spec-IsDeepCopy :
      IsDeepCopy (control_plane_spec_shape L) (control_plane_spec_deep_copy_into L)
  unfolding control_plane_spec_deep_copy_into
  control_plane_spec-IsDeepCopy =
      whole-IsDeepCopy (and_then (kept (String)) (and_then (number F) (text F)))
        (control_plane_spec_parts L)
        (λ s t. record s { cluster_name = t.0; replicas = t.1.0; version = t.1.1 }) (λ s t. refl)
        (control_plane_spec_deep_copy_into L) (λ s h. ground arith)

  abbrev control_plane_spec_part : Part (Cell F) ControlPlaneSpecStruct
  control_plane_spec_part = record {
    shape = control_plane_spec_shape L;
    copy = control_plane_spec_deep_copy_into L;
    deep = control_plane_spec-IsDeepCopy;
  }

  control_plane_status-IsDeepCopy :
      IsDeepCopy (control_plane_status_shape L) (control_plane_status_deep_copy_into L)
  unfolding control_plane_status_deep_copy_into
  control_plane_status-IsDeepCopy =
      whole-IsDeepCopy
        (and_then (kept (Bool × ℤ × ℤ × ℤ × Bool × Bool))
          (and_then (text F) (and_then (text F) (and_then (text F) (conditions L deep)))))
        (control_plane_status_parts L)
        (λ s t. record s {
          external_managed_control_plane = t.0.0;
          ready_replicas = t.0.1;
          unavailable_replicas = t.0.2;
          updated_replicas = t.0.3;
          initialized = t.0.4;
          ready = t.0.5;
          version = t.1.0;
          failure_reason = t.1.1.0;
          failure_message = t.1.1.1.0;
          conditions = t.1.1.1.1;
        })
        (λ s t. refl) (control_plane_status_deep_copy_into L) (λ s h. ground arith)

  abbrev control_plane_status_part : Part (Cell F) ControlPlaneStatusStruct
  control_plane_status_part = record {
    shape = control_plane_status_shape L;
    copy = control_plane_status_deep_copy_into L;
    deep = control_plane_status-IsDeepCopy;
  }

  control_plane-IsDeepCopy : IsDeepCopy (control_plane_shape L) (control_plane_deep_copy_into L)
  unfolding control_plane_deep_copy_into
  control_plane-IsDeepCopy =
      whole-IsDeepCopy
        (and_then (kept TypeMeta) (
          and_then (object_meta L deep)
            (and_then control_plane_spec_part control_plane_status_part)))
        (control_plane_parts L)
        (λ s t. record s { type_meta = t.0; meta = t.1.0; spec = t.1.1.0; status = t.1.1.1 })
        (λ s t. refl) (control_plane_deep_copy_into L) (λ s h. ground arith)

  abbrev control_plane_part : Part (Cell F) (ControlPlaneStruct F)
  control_plane_part = record {
    shape = control_plane_shape L;
    copy = control_plane_deep_copy_into L;
    deep = control_plane-IsDeepCopy;
  }

  control_plane_list-IsDeepCopy :
      IsDeepCopy (control_plane_list_shape L) (control_plane_list_deep_copy_into L)
  unfolding control_plane_list_deep_copy_into
  control_plane_list-IsDeepCopy =
      whole-IsDeepCopy
        (and_then (kept TypeMeta) (
          and_then (list_meta L deep)
            (target (control_plane_items_codec F) (items control_plane_part))))
        (control_plane_list_parts L)
        (λ s t. record s { type_meta = t.0; meta = t.1.0; items = t.1.1 }) (λ s t. refl)
        (control_plane_list_deep_copy_into L) (λ s h. ground arith)

  -- If the libraries copy their structs deeply, then so does each `DeepCopy` of the control plane
  -- group: on a pointer from which all others lead to values of their types it returns; what its
  -- result leads to, with all pointers and slices followed and nil kept apart from empty, is what
  -- the original leads to; the original stays as it was; and no write to an address that one of the
  -- two owns changes the other.
  pub control_plane_copies :
      (k : ControlPlaneType) (h : List (Cell F)) (p : Option Address)
      (v : (pointer_shape L k).Value)
      → (pointer_shape L k).value h p ≡ some v
      → IsSeparate (pointer_shape L k) (deep_copy L k) h p v
  unfolding control_plane_spec_deep_copy control_plane_status_deep_copy control_plane_deep_copy
      control_plane_list_deep_copy
  control_plane_copies control_plane_spec =
      copy_target-IsSeparate (control_plane_spec_shape L) (control_plane_spec_deep_copy_into L)
        control_plane_spec-IsDeepCopy (control_plane_spec_codec F)
  control_plane_copies control_plane_status =
      copy_target-IsSeparate (control_plane_status_shape L) (control_plane_status_deep_copy_into L)
        control_plane_status-IsDeepCopy (control_plane_status_codec F)
  control_plane_copies control_plane =
      copy_target-IsSeparate (control_plane_shape L) (control_plane_deep_copy_into L)
        control_plane-IsDeepCopy (control_plane_codec F)
  control_plane_copies control_plane_list =
      copy_target-IsSeparate (control_plane_list_shape L) (control_plane_list_deep_copy_into L)
        control_plane_list-IsDeepCopy (control_plane_list_codec F)
