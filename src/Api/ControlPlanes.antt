-- ===== src/Api/ControlPlanes.antt =====
-- The KinkControlPlane of apis/controlplane/v1beta1.
use kink.Base.{ℤ, String, Bool, Option}
use kink.Api.Meta.{ObjectMeta, GroupVersion}

pub record KinkControlPlaneSpec : Type 0 where
  pub replicas : Option ℤ
  pub cluster_name : String
  pub version : Option String

pub record KinkControlPlaneStatus : Type 0 where
  pub external_managed_control_plane : Bool
  pub version : Option String
  pub ready_replicas : ℤ
  pub unavailable_replicas : ℤ
  pub updated_replicas : ℤ
  pub initialized : Bool
  pub ready : Bool
  pub failure_reason : Option String
  pub failure_message : Option String

pub record KinkControlPlane : Type 0 where
  pub meta : ObjectMeta
  pub spec : KinkControlPlaneSpec
  pub status : KinkControlPlaneStatus

abbrev pub control_plane_group_version : GroupVersion
control_plane_group_version = record {
  group = "controlplane.cluster.x-k8s.io";
  version = "v1beta1";
}
