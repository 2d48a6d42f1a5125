-- ===== src/DeepCopy/Infrastructure/Deep.antt =====
-- The functions of the infrastructure group make deep copies.
use kink.Base.{Bool, ◌≡◌, refl, Option, some, List, [], append-nil, arith}
use kink.Api.{ObjectReference}
use kink.DeepCopy.Structs.{
  Address, ForeignTypes, TypeMeta, Cell, ClusterSpecStruct, ClusterStatusStruct, ClusterStruct,
  MachineSpecStruct, MachineStatusStruct, MachineStruct, MachineTemplateSpecStruct,
  MachineTemplateStatusStruct, MachineTemplateStruct,
}
use kink.DeepCopy.Copies.{IsDeepCopy}
use kink.DeepCopy.Codecs.{
  references_codec, cluster_spec_codec, cluster_status_codec, cluster_codec, cluster_list_codec,
  machine_spec_codec, machine_status_codec, machine_codec, machine_list_codec,
  machine_template_spec_codec, machine_template_status_codec, machine_template_codec,
  machine_template_list_codec, cluster_items_codec, machine_items_codec,
  machine_template_items_codec,
}
use kink.DeepCopy.Foreign.{ForeignCopies, AreDeepCopies}
use kink.DeepCopy.Parts.{
  Part, kept, and_then, items, target, whole-IsDeepCopy, text, conditions, object_meta, list_meta,
}
use kink.DeepCopy.Separate.{IsSeparate, copy_target-IsSeparate}
use kink.DeepCopy.Infrastructure.{
  cluster_spec_deep_copy_into, cluster_spec_deep_copy, cluster_status_deep_copy_into,
  cluster_status_deep_copy, cluster_deep_copy_into, cluster_deep_copy, cluster_list_deep_copy_into,
  cluster_list_deep_copy, machine_spec_deep_copy_into, machine_spec_deep_copy,
  machine_status_deep_copy_into, machine_status_deep_copy, machine_deep_copy_into,
  machine_deep_copy, machine_list_deep_copy_into, machine_list_deep_copy,
  machine_template_spec_deep_copy_into, machine_template_spec_deep_copy,
  machine_template_status_deep_copy_into, machine_template_status_deep_copy,
  machine_template_deep_copy_into, machine_template_deep_copy, machine_template_list_deep_copy_into,
  machine_template_list_deep_copy,
}
use kink.DeepCopy.Infrastructure.Shapes.{
  InfrastructureType, cluster_spec, cluster_status, cluster, cluster_list, machine_spec,
  machine_status, machine, machine_list, machine_template_spec, machine_template_status,
  machine_template, machine_template_list, pointer_shape, deep_copy, cluster_spec_shape,
  cluster_status_parts, cluster_status_shape, cluster_parts, cluster_shape, cluster_list_parts,
  cluster_list_shape, machine_spec_parts, machine_spec_shape, machine_status_parts,
  machine_status_shape, machine_parts, machine_shape, machine_list_parts, machine_list_shape,
  machine_template_spec_shape, machine_template_status_shape, machine_template_parts,
  machine_template_shape, machine_template_list_parts, machine_template_list_shape,
}

module _ {F : ForeignTypes} (L : ForeignCopies F) (deep : AreDeepCopies F L) where
  cluster_spec-IsDeepCopy : IsDeepCopy (cluster_spec_shape L) (cluster_spec_deep_copy_into L)
  unfolding cluster_spec_deep_copy_into
  cluster_spec-IsDeepCopy h s v e = (s, [], ground (arith, append-nil h), e, tt)

  cluster_status-IsDeepCopy : IsDeepCopy (cluster_status_shape L) (cluster_status_deep_copy_into L)
  unfolding cluster_status_deep_copy_into
  cluster_status-IsDeepCopy =
      whole-IsDeepCopy
        (and_then (kept Bool) (and_then (text F) (and_then (text F) (conditions L deep))))
        (cluster_status_parts L)
        (λ s t. record s {
          ready = t.0;
          failure_reason = t.1.0;
          failure_message = t.1.1.0;
          conditions = t.1.1.1;
        })
        (λ s t. refl) (cluster_status_deep_copy_into L) (λ s h. ground arith)

  abbrev cluster_status_part : Part (Cell F) ClusterStatusStruct
  cluster_status_part = record {
    shape = cluster_status_shape L;
    copy = cluster_status_deep_copy_into L;
    deep = cluster_status-IsDeepCopy;
  }

  cluster-IsDeepCopy : IsDeepCopy (cluster_shape L) (cluster_deep_copy_into L)
  unfolding cluster_deep_copy_into
  cluster-IsDeepCopy =
      whole-IsDeepCopy
        (and_then (kept TypeMeta)
          (and_then (object_meta L deep) (and_then (kept ClusterSpecStruct) cluster_status_part)))
        (cluster_parts L)
        (λ s t. record s { type_meta = t.0; meta = t.1.0; spec = t.1.1.0; status = t.1.1.1 })
        (λ s t. refl) (cluster_deep_copy_into L) (λ s h. ground arith)

  abbrev cluster_part : Part (Cell F) (ClusterStruct F)
  cluster_part = record {
    shape = cluster_shape L;
    copy = cluster_deep_copy_into L;
    deep = cluster-IsDeepCopy;
  }

  cluster_list-IsDeepCopy : IsDeepCopy (cluster_list_shape L) (cluster_list_deep_copy_into L)
  unfolding cluster_list_deep_copy_into
  cluster_list-IsDeepCopy =
      whole-IsDeepCopy
        (and_then (kept TypeMeta)
          (and_then (list_meta L deep) (target (cluster_items_codec F) (items cluster_part))))
        (cluster_list_parts L) (λ s t. record s { type_meta = t.0; meta = t.1.0; items = t.1.1 })
        (λ s t. refl) (cluster_list_deep_copy_into L) (λ s h. ground arith)

  machine_spec-IsDeepCopy : IsDeepCopy (machine_spec_shape L) (machine_spec_deep_copy_into L)
  unfolding machine_spec_deep_copy_into
  machine_spec-IsDeepCopy =
      whole-IsDeepCopy ((text F)) (machine_spec_parts L) (λ s t. record s { version = t })
        (λ s t. refl) (machine_spec_deep_copy_into L) (λ s h. ground arith)

  abbrev machine_spec_part : Part (Cell F) MachineSpecStruct
  machine_spec_part = record {
    shape = machine_spec_shape L;
    copy = machine_spec_deep_copy_into L;
    deep = machine_spec-IsDeepCopy;
  }

  machine_status-IsDeepCopy : IsDeepCopy (machine_status_shape L) (machine_status_deep_copy_into L)
  unfolding machine_status_deep_copy_into
  machine_status-IsDeepCopy =
      whole-IsDeepCopy
        (and_then (kept Bool) (
          and_then (target (references_codec F) (items (kept ObjectReference)))
            (and_then (text F) (and_then (text F) (conditions L deep)))))
        (machine_status_parts L)
        (λ s t. record s {
          ready = t.0;
          pods = t.1.0;
          failure_reason = t.1.1.0;
          failure_message = t.1.1.1.0;
          conditions = t.1.1.1.1;
        })
        (λ s t. refl) (machine_status_deep_copy_into L) (λ s h. ground arith)

  abbrev machine_status_part : Part (Cell F) MachineStatusStruct
  machine_status_part = record {
    shape = machine_status_shape L;
    copy = machine_status_deep_copy_into L;
    deep = machine_status-IsDeepCopy;
  }

  machine-IsDeepCopy : IsDeepCopy (machine_shape L) (machine_deep_copy_into L)
  unfolding machine_deep_copy_into
  machine-IsDeepCopy =
      whole-IsDeepCopy
        (and_then (kept TypeMeta)
          (and_then (object_meta L deep) (and_then machine_spec_part machine_status_part)))
        (machine_parts L)
        (λ s t. record s { type_meta = t.0; meta = t.1.0; spec = t.1.1.0; status = t.1.1.1 })
        (λ s t. refl) (machine_deep_copy_into L) (λ s h. ground arith)

  abbrev machine_part : Part (Cell F) (MachineStruct F)
  machine_part = record {
    shape = machine_shape L;
    copy = machine_deep_copy_into L;
    deep = machine-IsDeepCopy;
  }

  machine_list-IsDeepCopy : IsDeepCopy (machine_list_shape L) (machine_list_deep_copy_into L)
  unfolding machine_list_deep_copy_into
  machine_list-IsDeepCopy =
      whole-IsDeepCopy
        (and_then (kept TypeMeta)
          (and_then (list_meta L deep) (target (machine_items_codec F) (items machine_part))))
        (machine_list_parts L) (λ s t. record s { type_meta = t.0; meta = t.1.0; items = t.1.1 })
        (λ s t. refl) (machine_list_deep_copy_into L) (λ s h. ground arith)

  machine_template_spec-IsDeepCopy :
      IsDeepCopy (machine_template_spec_shape L) (machine_template_spec_deep_copy_into L)
  unfolding machine_template_spec_deep_copy_into
  machine_template_spec-IsDeepCopy h s v e = (s, [], ground (arith, append-nil h), e, tt)

  machine_template_status-IsDeepCopy :
      IsDeepCopy (machine_template_status_shape L) (machine_template_status_deep_copy_into L)
  unfolding machine_template_status_deep_copy_into
  machine_template_status-IsDeepCopy h s v e = (s, [], ground (arith, append-nil h), e, tt)

  machine_template-IsDeepCopy :
      IsDeepCopy (machine_template_shape L) (machine_template_deep_copy_into L)
  unfolding machine_template_deep_copy_into
  machine_template-IsDeepCopy =
      whole-IsDeepCopy
        (and_then (kept TypeMeta) (
          and_then (object_meta L deep)
            (and_then (kept MachineTemplateSpecStruct) (kept MachineTemplateStatusStruct))))
        (machine_template_parts L)
        (λ s t. record s { type_meta = t.0; meta = t.1.0; spec = t.1.1.0; status = t.1.1.1 })
        (λ s t. refl) (machine_template_deep_copy_into L) (λ s h. ground arith)

  abbrev machine_template_part : Part (Cell F) (MachineTemplateStruct F)
  machine_template_part = record {
    shape = machine_template_shape L;
    copy = machine_template_deep_copy_into L;
    deep = machine_template-IsDeepCopy;
  }

  machine_template_list-IsDeepCopy :
      IsDeepCopy (machine_template_list_shape L) (machine_template_list_deep_copy_into L)
  unfolding machine_template_list_deep_copy_into
  machine_template_list-IsDeepCopy =
      whole-IsDeepCopy
        (and_then (kept TypeMeta) (
          and_then (list_meta L deep)
            (target (machine_template_items_codec F) (items machine_template_part))))
        (machine_template_list_parts L)
        (λ s t. record s { type_meta = t.0; meta = t.1.0; items = t.1.1 }) (λ s t. refl)
        (machine_template_list_deep_copy_into L) (λ s h. ground arith)

  -- If the libraries copy their structs deeply, then so does each `DeepCopy` of the infrastructure
  -- group: on a pointer from which all others lead to values of their types it returns; what its
  -- result leads to, with all pointers and slices followed and nil kept apart from empty, is what
  -- the original leads to; the original stays as it was; and no write to an address that one of the
  -- two owns changes the other.
  pub infrastructure_copies :
      (k : InfrastructureType) (h : List (Cell F)) (p : Option Address)
      (v : (pointer_shape L k).Value)
      → (pointer_shape L k).value h p ≡ some v
      → IsSeparate (pointer_shape L k) (deep_copy L k) h p v
  unfolding cluster_spec_deep_copy cluster_status_deep_copy cluster_deep_copy cluster_list_deep_copy
      machine_spec_deep_copy machine_status_deep_copy machine_deep_copy machine_list_deep_copy
      machine_template_spec_deep_copy machine_template_status_deep_copy machine_template_deep_copy
      machine_template_list_deep_copy
  infrastructure_copies cluster_spec =
      copy_target-IsSeparate (cluster_spec_shape L) (cluster_spec_deep_copy_into L)
        cluster_spec-IsDeepCopy (cluster_spec_codec F)
  infrastructure_copies cluster_status =
      copy_target-IsSeparate (cluster_status_shape L) (cluster_status_deep_copy_into L)
        cluster_status-IsDeepCopy (cluster_status_codec F)
  infrastructure_copies cluster =
      copy_target-IsSeparate (cluster_shape L) (cluster_deep_copy_into L) cluster-IsDeepCopy
        (cluster_codec F)
  infrastructure_copies cluster_list =
      copy_target-IsSeparate (cluster_list_shape L) (cluster_list_deep_copy_into L)
        cluster_list-IsDeepCopy (cluster_list_codec F)
  infrastructure_copies machine_spec =
      copy_target-IsSeparate (machine_spec_shape L) (machine_spec_deep_copy_into L)
        machine_spec-IsDeepCopy (machine_spec_codec F)
  infrastructure_copies machine_status =
      copy_target-IsSeparate (machine_status_shape L) (machine_status_deep_copy_into L)
        machine_status-IsDeepCopy (machine_status_codec F)
  infrastructure_copies machine =
      copy_target-IsSeparate (machine_shape L) (machine_deep_copy_into L) machine-IsDeepCopy
        (machine_codec F)
  infrastructure_copies machine_list =
      copy_target-IsSeparate (machine_list_shape L) (machine_list_deep_copy_into L)
        machine_list-IsDeepCopy (machine_list_codec F)
  infrastructure_copies machine_template_spec =
      copy_target-IsSeparate (machine_template_spec_shape L)
        (machine_template_spec_deep_copy_into L) machine_template_spec-IsDeepCopy
        (machine_template_spec_codec F)
  infrastructure_copies machine_template_status =
      copy_target-IsSeparate (machine_template_status_shape L)
        (machine_template_status_deep_copy_into L) machine_template_status-IsDeepCopy
        (machine_template_status_codec F)
  infrastructure_copies machine_template =
      copy_target-IsSeparate (machine_template_shape L) (machine_template_deep_copy_into L)
        machine_template-IsDeepCopy (machine_template_codec F)
  infrastructure_copies machine_template_list =
      copy_target-IsSeparate (machine_template_list_shape L)
        (machine_template_list_deep_copy_into L) machine_template_list-IsDeepCopy
        (machine_template_list_codec F)
