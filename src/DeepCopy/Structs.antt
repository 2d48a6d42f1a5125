-- ===== src/DeepCopy/Structs.antt =====
-- The structs of apis as they lie in memory: a pointer and a slice are an address or nil.
use kink.Base.{ℕ, ℤ, String, Bool, Option, List}
use kink.Api.{ApiEndpoint, ObjectReference}

abbrev pub Address : Type 0
Address = ℕ

-- The libraries' structs, and what their own pointers lead to.
pub record ForeignTypes : Type 1 where
  pub ObjectMeta : Type 0
  pub ListMeta : Type 0
  pub Condition : Type 0
  pub ForeignCell : Type 0

-- `metav1.TypeMeta`
pub record TypeMeta : Type 0 where
  pub kind : String
  pub api_version : String

pub record ClusterSpecStruct : Type 0 where
  pub control_plane_endpoint : ApiEndpoint

pub record MachineTemplateSpecStruct : Type 0 where
  pub foo : String

pub record MachineTemplateStatusStruct : Type 0 where

pub record ClusterStatusStruct : Type 0 where
  pub ready : Bool
  pub failure_reason : Option Address
  pub failure_message : Option Address
  pub conditions : Option Address

pub record MachineSpecStruct : Type 0 where
  pub version : Option Address

pub record MachineStatusStruct : Type 0 where
  pub pods : Option Address
  pub ready : Bool
  pub failure_reason : Option Address
  pub failure_message : Option Address
  pub conditions : Option Address

pub record ControlPlaneSpecStruct : Type 0 where
  pub replicas : Option Address
  pub cluster_name : String
  pub version : Option Address

pub record ControlPlaneStatusStruct : Type 0 where
  pub external_managed_control_plane : Bool
  pub version : Option Address
  pub ready_replicas : ℤ
  pub unavailable_replicas : ℤ
  pub updated_replicas : ℤ
  pub initialized : Bool
  pub ready : Bool
  pub failure_reason : Option Address
  pub failure_message : Option Address
  pub conditions : Option Address

-- The structs of apis/controlplane/v1alpha1.
pub record AlphaControlPlaneSpecStruct : Type 0 where
  pub kubeconf : String
  pub credentials_name : String
  pub cluster_name : String
  pub version : Option Address

pub record AlphaControlPlaneStatusStruct : Type 0 where
  pub version : Option Address
  pub ready_replicas : ℤ
  pub unavailable_replicas : ℤ
  pub initialized : Bool
  pub ready : Bool
  pub failure_reason : Option Address
  pub failure_message : Option Address
  pub conditions : Option Address

module _ (F : ForeignTypes) where
  pub record ClusterStruct : Type 0 where
    pub type_meta : TypeMeta
    pub meta : F.ObjectMeta
    pub spec : ClusterSpecStruct
    pub status : ClusterStatusStruct

  pub record ClusterListStruct : Type 0 where
    pub type_meta : TypeMeta
    pub meta : F.ListMeta
    pub items : Option Address

  pub record MachineStruct : Type 0 where
    pub type_meta : TypeMeta
    pub meta : F.ObjectMeta
    pub spec : MachineSpecStruct
    pub status : MachineStatusStruct

  pub record MachineListStruct : Type 0 where
    pub type_meta : TypeMeta
    pub meta : F.ListMeta
    pub items : Option Address

  pub record MachineTemplateStruct : Type 0 where
    pub type_meta : TypeMeta
    pub meta : F.ObjectMeta
    pub spec : MachineTemplateSpecStruct
    pub status : MachineTemplateStatusStruct

  pub record MachineTemplateListStruct : Type 0 where
    pub type_meta : TypeMeta
    pub meta : F.ListMeta
    pub items : Option Address

  pub record ControlPlaneStruct : Type 0 where
    pub type_meta : TypeMeta
    pub meta : F.ObjectMeta
    pub spec : ControlPlaneSpecStruct
    pub status : ControlPlaneStatusStruct

  pub record ControlPlaneListStruct : Type 0 where
    pub type_meta : TypeMeta
    pub meta : F.ListMeta
    pub items : Option Address

  pub record AlphaControlPlaneStruct : Type 0 where
    pub type_meta : TypeMeta
    pub meta : F.ObjectMeta
    pub spec : AlphaControlPlaneSpecStruct
    pub status : AlphaControlPlaneStatusStruct

  pub record AlphaControlPlaneListStruct : Type 0 where
    pub type_meta : TypeMeta
    pub meta : F.ListMeta
    pub items : Option Address

  -- What an address leads to: a value that was made by `new`, or the items of a slice.
  pub data Cell : Type 0 where
    string_cell : String → Cell
    int32_cell : ℤ → Cell
    references_cell : List ObjectReference → Cell
    conditions_cell : List F.Condition → Cell
    foreign_cell : F.ForeignCell → Cell
    cluster_cell : ClusterStruct → Cell
    cluster_items_cell : List ClusterStruct → Cell
    cluster_list_cell : ClusterListStruct → Cell
    cluster_spec_cell : ClusterSpecStruct → Cell
    cluster_status_cell : ClusterStatusStruct → Cell
    machine_cell : MachineStruct → Cell
    machine_items_cell : List MachineStruct → Cell
    machine_list_cell : MachineListStruct → Cell
    machine_spec_cell : MachineSpecStruct → Cell
    machine_status_cell : MachineStatusStruct → Cell
    machine_template_cell : MachineTemplateStruct → Cell
    machine_template_items_cell : List MachineTemplateStruct → Cell
    machine_template_list_cell : MachineTemplateListStruct → Cell
    machine_template_spec_cell : MachineTemplateSpecStruct → Cell
    machine_template_status_cell : MachineTemplateStatusStruct → Cell
    control_plane_cell : ControlPlaneStruct → Cell
    control_plane_items_cell : List ControlPlaneStruct → Cell
    control_plane_list_cell : ControlPlaneListStruct → Cell
    control_plane_spec_cell : ControlPlaneSpecStruct → Cell
    control_plane_status_cell : ControlPlaneStatusStruct → Cell
    alpha_control_plane_cell : AlphaControlPlaneStruct → Cell
    alpha_control_plane_items_cell : List AlphaControlPlaneStruct → Cell
    alpha_control_plane_list_cell : AlphaControlPlaneListStruct → Cell
    alpha_control_plane_spec_cell : AlphaControlPlaneSpecStruct → Cell
    alpha_control_plane_status_cell : AlphaControlPlaneStatusStruct → Cell
