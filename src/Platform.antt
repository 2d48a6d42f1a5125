-- ===== src/Platform.antt =====
-- The pure functions and constants of the Kubernetes and Cluster API libraries that the code uses.
-- They stand outside the repository: the model takes them as one parameter.
use kink.Base.{◌≢◌, String, Bool}
use kink.Api.{OwnerReference, ObjectMeta, GroupVersion, ApiEndpoint, control_plane_role_label_name}

pub record Platform : Type 0 where
  -- sigs.k8s.io/cluster-api/api/v1beta1
  pub cluster_label_name : String
  pub machine_control_plane_label_name : String
  pub cluster_secret_type : String
  pub endpoint_is_valid : ApiEndpoint → Bool
  pub endpoint_is_zero : ApiEndpoint → Bool
  pub endpoint_string : ApiEndpoint → String
  -- sigs.k8s.io/cluster-api/util and util/secret
  pub is_owned_by_object : ObjectMeta → ObjectMeta → Bool
  pub kubeconfig_secret_name : String → String
  pub tls_crt_data_name : String
  pub tls_key_data_name : String
  pub default_certificates_dir : String
  -- k8s.io/apimachinery: `NewControllerRef(owner, gv.WithKind(kind))`, `gv.String()`
  pub new_controller_ref : ObjectMeta → GroupVersion → String → OwnerReference
  pub group_version_string : GroupVersion → String
  pub is_controlled_by : ObjectMeta → ObjectMeta → Bool
  -- k8s.io/api/core/v1
  pub pod_running : String
  pub restart_policy_always : String
  pub dns_cluster_first_with_host_net : String
  pub service_type_cluster_ip : String

-- The labels of the Cluster API are not the label of this repository.
pub record HasDistinctLabels (P : Platform) : Type 0 where
  pub cluster_ne_role : P.cluster_label_name ≢ control_plane_role_label_name
