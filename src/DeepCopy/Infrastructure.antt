-- ===== src/DeepCopy/Infrastructure.antt =====
-- zz_generated.deepcopy.go of apis/infrastructure/v1beta1.
pub mod Shapes
pub mod Deep
use kink.Base.{Option, List, Action, pure, ◌>>=◌}
use kink.DeepCopy.Structs.{
  Address, ForeignTypes, Cell, ClusterSpecStruct, ClusterStatusStruct, ClusterStruct,
  ClusterListStruct, MachineSpecStruct, MachineStatusStruct, MachineStruct, MachineListStruct,
  MachineTemplateSpecStruct, MachineTemplateStatusStruct, MachineTemplateStruct,
  MachineTemplateListStruct,
}
use kink.DeepCopy.Copies.{copy_target, copy_items}
use kink.DeepCopy.Codecs.{
  string_codec, int32_codec, references_codec, conditions_codec, cluster_spec_codec,
  cluster_status_codec, cluster_codec, cluster_list_codec, machine_spec_codec, machine_status_codec,
  machine_codec, machine_list_codec, machine_template_spec_codec, machine_template_status_codec,
  machine_template_codec, machine_template_list_codec, cluster_items_codec, machine_items_codec,
  machine_template_items_codec,
}
use kink.DeepCopy.Foreign.{
  ForeignCopies, RuntimeObject, as_object, cluster_object, cluster_list_object, machine_object,
  machine_list_object, machine_template_object, machine_template_list_object,
}

module _ {F : ForeignTypes} (L : ForeignCopies F) where
  unfoldable pub cluster_spec_deep_copy_into :
      ClusterSpecStruct → Action (List (Cell F)) ClusterSpecStruct
  cluster_spec_deep_copy_into s = pure s

  unfoldable pub cluster_spec_deep_copy : Option Address → Action (List (Cell F)) (Option Address)
  cluster_spec_deep_copy = copy_target (cluster_spec_codec F) cluster_spec_deep_copy_into

  unfoldable pub cluster_status_deep_copy_into :
      ClusterStatusStruct → Action (List (Cell F)) ClusterStatusStruct
  cluster_status_deep_copy_into s = do
    failure_reason ← copy_target (string_codec F) pure s.failure_reason
    failure_message ← copy_target (string_codec F) pure s.failure_message
    conditions ← copy_target (conditions_codec F) (copy_items L.copy_condition) s.conditions
    pure (record s {
      failure_reason = failure_reason;
      failure_message = failure_message;
      conditions = conditions;
    })

  unfoldable pub cluster_status_deep_copy : Option Address → Action (List (Cell F)) (Option Address)
  cluster_status_deep_copy = copy_target (cluster_status_codec F) cluster_status_deep_copy_into

  unfoldable pub cluster_deep_copy_into :
      (ClusterStruct F) → Action (List (Cell F)) (ClusterStruct F)
  cluster_deep_copy_into s = do
    meta ← L.copy_object_meta s.meta
    status ← cluster_status_deep_copy_into s.status
    pure (record s { meta = meta; status = status })

  unfoldable pub cluster_deep_copy : Option Address → Action (List (Cell F)) (Option Address)
  cluster_deep_copy = copy_target (cluster_codec F) cluster_deep_copy_into

  unfoldable pub cluster_deep_copy_object :
      Option Address → Action (List (Cell F)) (Option RuntimeObject)
  cluster_deep_copy_object p = do c ← cluster_deep_copy p; pure (as_object cluster_object c)

  unfoldable pub cluster_list_deep_copy_into :
      (ClusterListStruct F) → Action (List (Cell F)) (ClusterListStruct F)
  cluster_list_deep_copy_into s = do
    meta ← L.copy_list_meta s.meta
    items ← copy_target (cluster_items_codec F) (copy_items cluster_deep_copy_into) s.items
    pure (record s { meta = meta; items = items })

  unfoldable pub cluster_list_deep_copy : Option Address → Action (List (Cell F)) (Option Address)
  cluster_list_deep_copy = copy_target (cluster_list_codec F) cluster_list_deep_copy_into

  unfoldable pub cluster_list_deep_copy_object :
      Option Address → Action (List (Cell F)) (Option RuntimeObject)
  cluster_list_deep_copy_object p = do
    c ← cluster_list_deep_copy p
    pure (as_object cluster_list_object c)

  unfoldable pub machine_spec_deep_copy_into :
      MachineSpecStruct → Action (List (Cell F)) MachineSpecStruct
  machine_spec_deep_copy_into s = do
    version ← copy_target (string_codec F) pure s.version
    pure (record s { version = version })

  unfoldable pub machine_spec_deep_copy : Option Address → Action (List (Cell F)) (Option Address)
  machine_spec_deep_copy = copy_target (machine_spec_codec F) machine_spec_deep_copy_into

  unfoldable pub machine_status_deep_copy_into :
      MachineStatusStruct → Action (List (Cell F)) MachineStatusStruct
  machine_status_deep_copy_into s = do
    pods ← copy_target (references_codec F) (copy_items pure) s.pods
    failure_reason ← copy_target (string_codec F) pure s.failure_reason
    failure_message ← copy_target (string_codec F) pure s.failure_message
    conditions ← copy_target (conditions_codec F) (copy_items L.copy_condition) s.conditions
    pure (record s {
      pods = pods;
      failure_reason = failure_reason;
      failure_message = failure_message;
      conditions = conditions;
    })

  unfoldable pub machine_status_deep_copy : Option Address → Action (List (Cell F)) (Option Address)
  machine_status_deep_copy = copy_target (machine_status_codec F) machine_status_deep_copy_into

  unfoldable pub machine_deep_copy_into :
      (MachineStruct F) → Action (List (Cell F)) (MachineStruct F)
  machine_deep_copy_into s = do
    meta ← L.copy_object_meta s.meta
    spec ← machine_spec_deep_copy_into s.spec
    status ← machine_status_deep_copy_into s.status
    pure (record s { meta = meta; spec = spec; status = status })

  unfoldable pub machine_deep_copy : Option Address → Action (List (Cell F)) (Option Address)
  machine_deep_copy = copy_target (machine_codec F) machine_deep_copy_into

  unfoldable pub machine_deep_copy_object :
      Option Address → Action (List (Cell F)) (Option RuntimeObject)
  machine_deep_copy_object p = do c ← machine_deep_copy p; pure (as_object machine_object c)

  unfoldable pub machine_list_deep_copy_into :
      (MachineListStruct F) → Action (List (Cell F)) (MachineListStruct F)
  machine_list_deep_copy_into s = do
    meta ← L.copy_list_meta s.meta
    items ← copy_target (machine_items_codec F) (copy_items machine_deep_copy_into) s.items
    pure (record s { meta = meta; items = items })

  unfoldable pub machine_list_deep_copy : Option Address → Action (List (Cell F)) (Option Address)
  machine_list_deep_copy = copy_target (machine_list_codec F) machine_list_deep_copy_into

  unfoldable pub machine_list_deep_copy_object :
      Option Address → Action (List (Cell F)) (Option RuntimeObject)
  machine_list_deep_copy_object p = do
    c ← machine_list_deep_copy p
    pure (as_object machine_list_object c)

  unfoldable pub machine_template_spec_deep_copy_into :
      MachineTemplateSpecStruct → Action (List (Cell F)) MachineTemplateSpecStruct
  machine_template_spec_deep_copy_into s = pure s

  unfoldable pub machine_template_spec_deep_copy :
      Option Address → Action (List (Cell F)) (Option Address)
  machine_template_spec_deep_copy =
      copy_target (machine_template_spec_codec F) machine_template_spec_deep_copy_into

  unfoldable pub machine_template_status_deep_copy_into :
      MachineTemplateStatusStruct → Action (List (Cell F)) MachineTemplateStatusStruct
  machine_template_status_deep_copy_into s = pure s

  unfoldable pub machine_template_status_deep_copy :
      Option Address → Action (List (Cell F)) (Option Address)
  machine_template_status_deep_copy =
      copy_target (machine_template_status_codec F) machine_template_status_deep_copy_into

  unfoldable pub machine_template_deep_copy_into :
      (MachineTemplateStruct F) → Action (List (Cell F)) (MachineTemplateStruct F)
  machine_template_deep_copy_into s = do
    meta ← L.copy_object_meta s.meta
    pure (record s { meta = meta })

  unfoldable pub machine_template_deep_copy :
      Option Address → Action (List (Cell F)) (Option Address)
  machine_template_deep_copy =
      copy_target (machine_template_codec F) machine_template_deep_copy_into

  unfoldable pub machine_template_deep_copy_object :
      Option Address → Action (List (Cell F)) (Option RuntimeObject)
  machine_template_deep_copy_object p = do
    c ← machine_template_deep_copy p
    pure (as_object machine_template_object c)

  unfoldable pub machine_template_list_deep_copy_into :
      (MachineTemplateListStruct F) → Action (List (Cell F)) (MachineTemplateListStruct F)
  machine_template_list_deep_copy_into s = do
    meta ← L.copy_list_meta s.meta
    items ←
        copy_target (machine_template_items_codec F) (copy_items machine_template_deep_copy_into)
          s.items
    pure (record s { meta = meta; items = items })

  unfoldable pub machine_template_list_deep_copy :
      Option Address → Action (List (Cell F)) (Option Address)
  machine_template_list_deep_copy =
      copy_target (machine_template_list_codec F) machine_template_list_deep_copy_into

  unfoldable pub machine_template_list_deep_copy_object :
      Option Address → Action (List (Cell F)) (Option RuntimeObject)
  machine_template_list_deep_copy_object p = do
    c ← machine_template_list_deep_copy p
    pure (as_object machine_template_list_object c)
