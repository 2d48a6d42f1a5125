-- ===== src/Api/Clusters.antt =====
-- The Cluster API `Cluster` as the controllers read it, and the KinkCluster of
-- apis/infrastructure/v1beta1/kinkcluster_types.go.
use kink.Base.{ℤ, String, Bool, Option, List}
use kink.Api.Meta.{ObjectMeta, ObjectReference, GroupVersion}

pub record ApiEndpoint : Type 0 where
  pub host : String
  pub port : ℤ

-- The network settings are pointers in the Cluster API, and nil where the user sets none.
pub record ClusterNetwork : Type 0 where
  pub services : Option (List String)
  pub pods : Option (List String)
  pub service_domain : String

pub record Cluster : Type 0 where
  pub meta : ObjectMeta
  pub cluster_network : Option ClusterNetwork
  pub control_plane_endpoint : ApiEndpoint
  pub control_plane_ref : Option ObjectReference
  pub infrastructure_ready : Bool

pub record KinkClusterSpec : Type 0 where
  pub control_plane_endpoint : ApiEndpoint

pub record KinkClusterStatus : Type 0 where
  pub ready : Bool
  pub failure_reason : Option String
  pub failure_message : Option String

pub record KinkCluster : Type 0 where
  pub meta : ObjectMeta
  pub spec : KinkClusterSpec
  pub status : KinkClusterStatus

-- Group and version of apis/infrastructure/v1beta1.
abbrev pub infrastructure_group_version : GroupVersion
infrastructure_group_version = record {
  group = "infrastructure.cluster.x-k8s.io";
  version = "v1beta1";
}
