-- ===== src/Api/Machines.antt =====
-- The KinkMachine of apis/infrastructure/v1beta1, and the roles of its pods.
use kink.Base.{String, Bool, Option, List}
use kink.Api.Meta.{ObjectMeta, ObjectReference}

-- `ControlPlaneRole` is a string type: a label may hold any text.
abbrev pub ControlPlaneRole : Type 0
ControlPlaneRole = String

abbrev pub control_plane_role_label_name : String
control_plane_role_label_name = "kink.openbce.io/role"

abbrev pub api_server : ControlPlaneRole
api_server = "apiserver"

abbrev pub scheduler : ControlPlaneRole
scheduler = "scheduler"

abbrev pub controller_manager : ControlPlaneRole
controller_manager = "controller-manager"

abbrev pub etcd : ControlPlaneRole
etcd = "etcd"

pub record KinkMachineSpec : Type 0 where
  pub version : Option String

pub record KinkMachineStatus : Type 0 where
  pub pods : List ObjectReference
  pub ready : Bool
  pub failure_reason : Option String
  pub failure_message : Option String

pub record KinkMachine : Type 0 where
  pub meta : ObjectMeta
  pub spec : KinkMachineSpec
  pub status : KinkMachineStatus
