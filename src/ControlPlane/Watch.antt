-- ===== src/ControlPlane/Watch.antt =====
-- `ClusterToKinkCtrlPlane` of kinkcontrolplane_controller.go.
pub mod Requests
use kink.Base.{Option, none, some, List, [], ◌∷◌, ◌==◌, if◌then◌else◌}
use kink.Api.{NamespacedName, Cluster, KinkCluster, KinkMachine, KinkControlPlane}

-- A `client.Object`: a cluster, or an object of another type.
pub data Object : Type 0 where
  cluster_object : Cluster → Object
  control_plane_object : KinkControlPlane → Object
  kink_cluster_object : KinkCluster → Object
  machine_object : KinkMachine → Object

requests_for : Cluster → List NamespacedName
requests_for c = elim c.control_plane_ref [
  | none ↦ []
  | some ref ↦
      if ref.kind == "KinkControlPlane"
      then record { namespace = ref.namespace; name = ref.name } ∷ []
      else []
]

-- `none` is the panic on an object that is no cluster.
unfoldable pub cluster_to_control_plane : Object → Option (List NamespacedName)
unfolding requests_for
cluster_to_control_plane (cluster_object c) = some (requests_for c)
cluster_to_control_plane _ = none
