-- ===== src/DeepCopy/AlphaInfrastructure.antt =====
-- apis/infrastructure/v1alpha1. Its structs have the fields of those of v1beta1, and its
-- zz_generated.deepcopy.go is the same text in another package.
use kink.Base.{List, Option, Action}
use kink.Base.{String}
use kink.DeepCopy.Structs.{
  Address, ForeignTypes, Cell, ClusterSpecStruct, ClusterStatusStruct, ClusterStruct,
  ClusterListStruct, MachineSpecStruct, MachineStatusStruct, MachineStruct, MachineListStruct,
  MachineTemplateSpecStruct, MachineTemplateStatusStruct, MachineTemplateStruct,
  MachineTemplateListStruct,
}
use kink.DeepCopy.Foreign.{ForeignCopies, RuntimeObject}
use kink.DeepCopy.Infrastructure.{
  cluster_spec_deep_copy_into, cluster_spec_deep_copy, cluster_status_deep_copy_into,
  cluster_status_deep_copy, cluster_deep_copy_into, cluster_deep_copy, cluster_deep_copy_object,
  cluster_list_deep_copy_into, cluster_list_deep_copy, cluster_list_deep_copy_object,
  machine_spec_deep_copy_into, machine_spec_deep_copy, machine_status_deep_copy_into,
  machine_status_deep_copy, machine_deep_copy_into, machine_deep_copy, machine_deep_copy_object,
  machine_list_deep_copy_into, machine_list_deep_copy, machine_list_deep_copy_object,
  machine_template_spec_deep_copy_into, machine_template_spec_deep_copy,
  machine_template_status_deep_copy_into, machine_template_status_deep_copy,
  machine_template_deep_copy_into, machine_template_deep_copy, machine_template_deep_copy_object,
  machine_template_list_deep_copy_into, machine_template_list_deep_copy,
  machine_template_list_deep_copy_object,
}

abbrev pub AlphaClusterSpecStruct : Type 0
AlphaClusterSpecStruct = ClusterSpecStruct

abbrev pub AlphaClusterStatusStruct : Type 0
AlphaClusterStatusStruct = ClusterStatusStruct

abbrev pub AlphaMachineSpecStruct : Type 0
AlphaMachineSpecStruct = MachineSpecStruct

abbrev pub AlphaMachineStatusStruct : Type 0
AlphaMachineStatusStruct = MachineStatusStruct

abbrev pub AlphaMachineTemplateSpecStruct : Type 0
AlphaMachineTemplateSpecStruct = MachineTemplateSpecStruct

abbrev pub AlphaMachineTemplateStatusStruct : Type 0
AlphaMachineTemplateStatusStruct = MachineTemplateStatusStruct

module _ (F : ForeignTypes) where
  abbrev pub AlphaClusterStruct : Type 0
  AlphaClusterStruct = ClusterStruct F

  abbrev pub AlphaClusterListStruct : Type 0
  AlphaClusterListStruct = ClusterListStruct F

  abbrev pub AlphaMachineStruct : Type 0
  AlphaMachineStruct = MachineStruct F

  abbrev pub AlphaMachineListStruct : Type 0
  AlphaMachineListStruct = MachineListStruct F

  abbrev pub AlphaMachineTemplateStruct : Type 0
  AlphaMachineTemplateStruct = MachineTemplateStruct F

  abbrev pub AlphaMachineTemplateListStruct : Type 0
  AlphaMachineTemplateListStruct = MachineTemplateListStruct F

module _ {F : ForeignTypes} (L : ForeignCopies F) where
  abbrev pub alpha_cluster_spec_deep_copy_into :
      AlphaClusterSpecStruct → Action (List (Cell F)) AlphaClusterSpecStruct
  alpha_cluster_spec_deep_copy_into = cluster_spec_deep_copy_into L

  abbrev pub alpha_cluster_spec_deep_copy : Option Address → Action (List (Cell F)) (Option Address)
  alpha_cluster_spec_deep_copy = cluster_spec_deep_copy L

  abbrev pub alpha_cluster_status_deep_copy_into :
      AlphaClusterStatusStruct → Action (List (Cell F)) AlphaClusterStatusStruct
  alpha_cluster_status_deep_copy_into = cluster_status_deep_copy_into L

  abbrev pub alpha_cluster_status_deep_copy :
      Option Address → Action (List (Cell F)) (Option Address)
  alpha_cluster_status_deep_copy = cluster_status_deep_copy L

  abbrev pub alpha_cluster_deep_copy_into :
      (AlphaClusterStruct F) → Action (List (Cell F)) (AlphaClusterStruct F)
  alpha_cluster_deep_copy_into = cluster_deep_copy_into L

  abbrev pub alpha_cluster_deep_copy : Option Address → Action (List (Cell F)) (Option Address)
  alpha_cluster_deep_copy = cluster_deep_copy L

  abbrev pub alpha_cluster_deep_copy_object :
      Option Address → Action (List (Cell F)) (Option RuntimeObject)
  alpha_cluster_deep_copy_object = cluster_deep_copy_object L

  abbrev pub alpha_cluster_list_deep_copy_into :
      (AlphaClusterListStruct F) → Action (List (Cell F)) (AlphaClusterListStruct F)
  alpha_cluster_list_deep_copy_into = cluster_list_deep_copy_into L

  abbrev pub alpha_cluster_list_deep_copy : Option Address → Action (List (Cell F)) (Option Address)
  alpha_cluster_list_deep_copy = cluster_list_deep_copy L

  abbrev pub alpha_cluster_list_deep_copy_object :
      Option Address → Action (List (Cell F)) (Option RuntimeObject)
  alpha_cluster_list_deep_copy_object = cluster_list_deep_copy_object L

  abbrev pub alpha_machine_spec_deep_copy_into :
      AlphaMachineSpecStruct → Action (List (Cell F)) AlphaMachineSpecStruct
  alpha_machine_spec_deep_copy_into = machine_spec_deep_copy_into L

  abbrev pub alpha_machine_spec_deep_copy : Option Address → Action (List (Cell F)) (Option Address)
  alpha_machine_spec_deep_copy = machine_spec_deep_copy L

  abbrev pub alpha_machine_status_deep_copy_into :
      AlphaMachineStatusStruct → Action (List (Cell F)) AlphaMachineStatusStruct
  alpha_machine_status_deep_copy_into = machine_status_deep_copy_into L

  abbrev pub alpha_machine_status_deep_copy :
      Option Address → Action (List (Cell F)) (Option Address)
  alpha_machine_status_deep_copy = machine_status_deep_copy L

  abbrev pub alpha_machine_deep_copy_into :
      (AlphaMachineStruct F) → Action (List (Cell F)) (AlphaMachineStruct F)
  alpha_machine_deep_copy_into = machine_deep_copy_into L

  abbrev pub alpha_machine_deep_copy : Option Address → Action (List (Cell F)) (Option Address)
  alpha_machine_deep_copy = machine_deep_copy L

  abbrev pub alpha_machine_deep_copy_object :
      Option Address → Action (List (Cell F)) (Option RuntimeObject)
  alpha_machine_deep_copy_object = machine_deep_copy_object L

  abbrev pub alpha_machine_list_deep_copy_into :
      (AlphaMachineListStruct F) → Action (List (Cell F)) (AlphaMachineListStruct F)
  alpha_machine_list_deep_copy_into = machine_list_deep_copy_into L

  abbrev pub alpha_machine_list_deep_copy : Option Address → Action (List (Cell F)) (Option Address)
  alpha_machine_list_deep_copy = machine_list_deep_copy L

  abbrev pub alpha_machine_list_deep_copy_object :
      Option Address → Action (List (Cell F)) (Option RuntimeObject)
  alpha_machine_list_deep_copy_object = machine_list_deep_copy_object L

  abbrev pub alpha_machine_template_spec_deep_copy_into :
      AlphaMachineTemplateSpecStruct → Action (List (Cell F)) AlphaMachineTemplateSpecStruct
  alpha_machine_template_spec_deep_copy_into = machine_template_spec_deep_copy_into L

  abbrev pub alpha_machine_template_spec_deep_copy :
      Option Address → Action (List (Cell F)) (Option Address)
  alpha_machine_template_spec_deep_copy = machine_template_spec_deep_copy L

  abbrev pub alpha_machine_template_status_deep_copy_into :
      AlphaMachineTemplateStatusStruct → Action (List (Cell F)) AlphaMachineTemplateStatusStruct
  alpha_machine_template_status_deep_copy_into = machine_template_status_deep_copy_into L

  abbrev pub alpha_machine_template_status_deep_copy :
      Option Address → Action (List (Cell F)) (Option Address)
  alpha_machine_template_status_deep_copy = machine_template_status_deep_copy L

  abbrev pub alpha_machine_template_deep_copy_into :
      (AlphaMachineTemplateStruct F) → Action (List (Cell F)) (AlphaMachineTemplateStruct F)
  alpha_machine_template_deep_copy_into = machine_template_deep_copy_into L

  abbrev pub alpha_machine_template_deep_copy :
      Option Address → Action (List (Cell F)) (Option Address)
  alpha_machine_template_deep_copy = machine_template_deep_copy L

  abbrev pub alpha_machine_template_deep_copy_object :
      Option Address → Action (List (Cell F)) (Option RuntimeObject)
  alpha_machine_template_deep_copy_object = machine_template_deep_copy_object L

  abbrev pub alpha_machine_template_list_deep_copy_into :
      (AlphaMachineTemplateListStruct F) → Action (List (Cell F)) (AlphaMachineTemplateListStruct F)
  alpha_machine_template_list_deep_copy_into = machine_template_list_deep_copy_into L

  abbrev pub alpha_machine_template_list_deep_copy :
      Option Address → Action (List (Cell F)) (Option Address)
  alpha_machine_template_list_deep_copy = machine_template_list_deep_copy L

  abbrev pub alpha_machine_template_list_deep_copy_object :
      Option Address → Action (List (Cell F)) (Option RuntimeObject)
  alpha_machine_template_list_deep_copy_object = machine_template_list_deep_copy_object L

-- The roles of v1alpha1, which has no scheduler and no controller manager.
abbrev pub AlphaControlPlaneRole : Type 0
AlphaControlPlaneRole = String

abbrev pub alpha_control_plane_role_label_name : String
alpha_control_plane_role_label_name = "kink.openbce.io/role"

abbrev pub alpha_api_server : AlphaControlPlaneRole
alpha_api_server = "apiserver"

abbrev pub alpha_etcd : AlphaControlPlaneRole
alpha_etcd = "etcd"

abbrev pub alpha_unknown : AlphaControlPlaneRole
alpha_unknown = "unknown"
