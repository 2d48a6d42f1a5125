-- ===== src/Manager/Types.antt =====
-- The types of objects: those of the groups in apis, which their files register with the scheme under
-- the group's version, and those of Kubernetes and of the Cluster API.
use kink.Base.{String, List, [], ◌∷◌, ◌++◌}
use kink.Api.{GroupVersion, control_plane_group_version, infrastructure_group_version}

abbrev pub control_plane_v1alpha1 : GroupVersion
control_plane_v1alpha1 = record { group = "controlplane.cluster.x-k8s.io"; version = "v1alpha1" }

abbrev pub infrastructure_v1alpha1 : GroupVersion
infrastructure_v1alpha1 = record { group = "infrastructure.cluster.x-k8s.io"; version = "v1alpha1" }

pub data ObjectType : Type 0 where
  own : GroupVersion → String → ObjectType
  -- k8s.io/api
  kubernetes : String → ObjectType
  -- sigs.k8s.io/cluster-api
  cluster_api : String → ObjectType

-- The groups of types that `init` of main.go adds to the scheme.
pub data SchemeGroup : Type 0 where
  client_go_group cluster_api_group : SchemeGroup
  control_plane_alpha infrastructure_alpha control_plane_beta infrastructure_beta : SchemeGroup

-- `SchemeBuilder.Register(&X{}, &XList{})`, in the `init` of each file of types.
abbrev register : GroupVersion → String → String → List ObjectType
register gv object objects = own gv object ∷ own gv objects ∷ []

abbrev pub control_plane_types : GroupVersion → List ObjectType
control_plane_types gv = register gv "KinkControlPlane" "KinkControlPlaneList"

abbrev pub cluster_types : GroupVersion → List ObjectType
cluster_types gv = register gv "KinkCluster" "KinkClusterList"

abbrev pub machine_types : GroupVersion → List ObjectType
machine_types gv = register gv "KinkMachine" "KinkMachineList"

abbrev pub machine_template_types : GroupVersion → List ObjectType
machine_template_types gv = register gv "KinkMachineTemplate" "KinkMachineTemplateList"

abbrev pub infrastructure_types : GroupVersion → List ObjectType
infrastructure_types gv = cluster_types gv ++ (machine_types gv ++ machine_template_types gv)

-- The types that the libraries' groups have.
pub record LibraryTypes : Type 0 where
  pub client_go_types : List ObjectType
  pub cluster_api_types : List ObjectType

module _ (libraries : LibraryTypes) where
  abbrev pub types_of : SchemeGroup → List ObjectType
  types_of client_go_group = libraries.client_go_types
  types_of cluster_api_group = libraries.cluster_api_types
  types_of control_plane_alpha = control_plane_types control_plane_v1alpha1
  types_of infrastructure_alpha = infrastructure_types infrastructure_v1alpha1
  types_of control_plane_beta = control_plane_types control_plane_group_version
  types_of infrastructure_beta = infrastructure_types infrastructure_group_version
