-- ===== src/DeepCopy/Infrastructure/Shapes.antt =====
-- What the values of the infrastructure group stand for.
use kink.Base.{Bool, Option, List, Action}
use kink.Api.{ObjectReference}
use kink.DeepCopy.Structs.{
  Address, ForeignTypes, TypeMeta, Cell, ClusterSpecStruct, ClusterStatusStruct, ClusterStruct,
  ClusterListStruct, MachineSpecStruct, MachineStatusStruct, MachineStruct, MachineListStruct,
  MachineTemplateSpecStruct, MachineTemplateStatusStruct, MachineTemplateStruct,
  MachineTemplateListStruct,
}
use kink.DeepCopy.Shapes.{Shape, plain, pair, list, reference, of_parts}
use kink.DeepCopy.Codecs.{
  references_codec, cluster_spec_codec, cluster_status_codec, cluster_codec, cluster_list_codec,
  machine_spec_codec, machine_status_codec, machine_codec, machine_list_codec,
  machine_template_spec_codec, machine_template_status_codec, machine_template_codec,
  machine_template_list_codec, cluster_items_codec, machine_items_codec,
  machine_template_items_codec,
}
use kink.DeepCopy.Foreign.{ForeignCopies}
use kink.DeepCopy.Parts.{text_shape, conditions_shape}
use kink.DeepCopy.Infrastructure.{
  cluster_spec_deep_copy, cluster_status_deep_copy, cluster_deep_copy, cluster_list_deep_copy,
  machine_spec_deep_copy, machine_status_deep_copy, machine_deep_copy, machine_list_deep_copy,
  machine_template_spec_deep_copy, machine_template_status_deep_copy, machine_template_deep_copy,
  machine_template_list_deep_copy,
}

-- The types of the group.
pub data InfrastructureType : Type 0 where
  cluster_spec cluster_status cluster cluster_list machine_spec machine_status machine machine_list
        machine_template_spec machine_template_status machine_template machine_template_list :
      InfrastructureType

module _ {F : ForeignTypes} (L : ForeignCopies F) where
  abbrev pub cluster_spec_shape : Shape (Cell F) ClusterSpecStruct
  cluster_spec_shape = plain ClusterSpecStruct

  abbrev pub cluster_status_parts :
      ClusterStatusStruct → (Bool) × (Option Address × (Option Address × (Option Address)))
  cluster_status_parts s = (s.ready, (s.failure_reason, (s.failure_message, s.conditions)))

  abbrev pub cluster_status_shape : Shape (Cell F) ClusterStatusStruct
  cluster_status_shape =
      of_parts cluster_status_parts
        (pair (plain (Bool)) (pair (text_shape F) (pair (text_shape F) (conditions_shape L))))

  abbrev pub cluster_parts :
      (ClusterStruct F) → TypeMeta × (F.ObjectMeta × (ClusterSpecStruct × (ClusterStatusStruct)))
  cluster_parts s = (s.type_meta, (s.meta, (s.spec, s.status)))

  abbrev pub cluster_shape : Shape (Cell F) (ClusterStruct F)
  cluster_shape = of_parts cluster_parts (
      pair (plain TypeMeta)
        (pair (L.object_meta_shape) (pair (cluster_spec_shape) (cluster_status_shape))))

  abbrev pub cluster_list_parts : (ClusterListStruct F) → TypeMeta × (F.ListMeta × (Option Address))
  cluster_list_parts s = (s.type_meta, (s.meta, s.items))

  abbrev pub cluster_list_shape : Shape (Cell F) (ClusterListStruct F)
  cluster_list_shape = of_parts cluster_list_parts (
      pair (plain TypeMeta)
        (pair (L.list_meta_shape) (reference (cluster_items_codec F) (list cluster_shape))))

  abbrev pub machine_spec_parts : MachineSpecStruct → Option Address
  machine_spec_parts s = s.version

  abbrev pub machine_spec_shape : Shape (Cell F) MachineSpecStruct
  machine_spec_shape = of_parts machine_spec_parts (text_shape F)

  abbrev pub machine_status_parts :
      MachineStatusStruct
      → (Bool) × (Option Address × (Option Address × (Option Address × (Option Address))))
  machine_status_parts s =
      (s.ready, (s.pods, (s.failure_reason, (s.failure_message, s.conditions))))

  abbrev pub machine_status_shape : Shape (Cell F) MachineStatusStruct
  machine_status_shape = of_parts machine_status_parts (
      pair (plain (Bool)) (
        pair (reference (references_codec F) (list (plain ObjectReference)))
          (pair (text_shape F) (pair (text_shape F) (conditions_shape L)))))

  abbrev pub machine_parts :
      (MachineStruct F) → TypeMeta × (F.ObjectMeta × (MachineSpecStruct × (MachineStatusStruct)))
  machine_parts s = (s.type_meta, (s.meta, (s.spec, s.status)))

  abbrev pub machine_shape : Shape (Cell F) (MachineStruct F)
  machine_shape = of_parts machine_parts (
      pair (plain TypeMeta)
        (pair (L.object_meta_shape) (pair (machine_spec_shape) (machine_status_shape))))

  abbrev pub machine_list_parts : (MachineListStruct F) → TypeMeta × (F.ListMeta × (Option Address))
  machine_list_parts s = (s.type_meta, (s.meta, s.items))

  abbrev pub machine_list_shape : Shape (Cell F) (MachineListStruct F)
  machine_list_shape = of_parts machine_list_parts (
      pair (plain TypeMeta)
        (pair (L.list_meta_shape) (reference (machine_items_codec F) (list machine_shape))))

  abbrev pub machine_template_spec_shape : Shape (Cell F) MachineTemplateSpecStruct
  machine_template_spec_shape = plain MachineTemplateSpecStruct

  abbrev pub machine_template_status_shape : Shape (Cell F) MachineTemplateStatusStruct
  machine_template_status_shape = plain MachineTemplateStatusStruct

  abbrev pub machine_template_parts :
      (MachineTemplateStruct F)
      → TypeMeta × (F.ObjectMeta × (MachineTemplateSpecStruct × (MachineTemplateStatusStruct)))
  machine_template_parts s = (s.type_meta, (s.meta, (s.spec, s.status)))

  abbrev pub machine_template_shape : Shape (Cell F) (MachineTemplateStruct F)
  machine_template_shape = of_parts machine_template_parts (
      pair (plain TypeMeta) (
        pair (L.object_meta_shape)
          (pair (machine_template_spec_shape) (machine_template_status_shape))))

  abbrev pub machine_template_list_parts :
      (MachineTemplateListStruct F) → TypeMeta × (F.ListMeta × (Option Address))
  machine_template_list_parts s = (s.type_meta, (s.meta, s.items))

  abbrev pub machine_template_list_shape : Shape (Cell F) (MachineTemplateListStruct F)
  machine_template_list_shape = of_parts machine_template_list_parts (
      pair (plain TypeMeta) (
        pair (L.list_meta_shape)
          (reference (machine_template_items_codec F) (list machine_template_shape))))

  -- A pointer to a value of the type, and its `DeepCopy`.
  abbrev pub pointer_shape : InfrastructureType → Shape (Cell F) (Option Address)
  pointer_shape cluster_spec = reference (cluster_spec_codec F) cluster_spec_shape
  pointer_shape cluster_status = reference (cluster_status_codec F) cluster_status_shape
  pointer_shape cluster = reference (cluster_codec F) cluster_shape
  pointer_shape cluster_list = reference (cluster_list_codec F) cluster_list_shape
  pointer_shape machine_spec = reference (machine_spec_codec F) machine_spec_shape
  pointer_shape machine_status = reference (machine_status_codec F) machine_status_shape
  pointer_shape machine = reference (machine_codec F) machine_shape
  pointer_shape machine_list = reference (machine_list_codec F) machine_list_shape
  pointer_shape machine_template_spec =
      reference (machine_template_spec_codec F) machine_template_spec_shape
  pointer_shape machine_template_status =
      reference (machine_template_status_codec F) machine_template_status_shape
  pointer_shape machine_template = reference (machine_template_codec F) machine_template_shape
  pointer_shape machine_template_list =
      reference (machine_template_list_codec F) machine_template_list_shape

  abbrev pub deep_copy :
      InfrastructureType → Option Address → Action (List (Cell F)) (Option Address)
  deep_copy cluster_spec = cluster_spec_deep_copy L
  deep_copy cluster_status = cluster_status_deep_copy L
  deep_copy cluster = cluster_deep_copy L
  deep_copy cluster_list = cluster_list_deep_copy L
  deep_copy machine_spec = machine_spec_deep_copy L
  deep_copy machine_status = machine_status_deep_copy L
  deep_copy machine = machine_deep_copy L
  deep_copy machine_list = machine_list_deep_copy L
  deep_copy machine_template_spec = machine_template_spec_deep_copy L
  deep_copy machine_template_status = machine_template_status_deep_copy L
  deep_copy machine_template = machine_template_deep_copy L
  deep_copy machine_template_list = machine_template_list_deep_copy L
