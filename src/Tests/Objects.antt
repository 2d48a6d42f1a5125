-- ===== src/Tests/Objects.antt =====
-- The constants of the libraries and a cluster with its objects.
use kink.Base.{◌≡◌, refl, sym, ◌∙◌}
use kink.Base.{
  String, ◌<>◌, ◌==◌, pos, ℤ, Bool, true, false, not, none, some, List, [], ◌∷◌, ◌≢◌, eq_iff,
  if◌then◌else◌,
}
use kink.Api.{
  NamespacedName, OwnerReference, ObjectMeta, ObjectReference, Cluster, ClusterNetwork, KinkCluster,
  KinkControlPlane, KinkMachine, Pod, control_plane_role_label_name,
}
use kink.Platform.{Platform, HasDistinctLabels}
use kink.Client.{World}
use kink.Tests.Memory.{memory}

abbrev owns : ObjectMeta → List OwnerReference → Bool
owns meta [] = false
owns meta (r ∷ rs) = if r.uid == meta.uid then true else owns meta rs

abbrev pub platform : Platform
platform = record {
  cluster_label_name = "cluster.x-k8s.io/cluster-name";
  machine_control_plane_label_name = "cluster.x-k8s.io/control-plane";
  cluster_secret_type = "cluster.x-k8s.io/secret";
  endpoint_is_valid = λ e. not (e.host == "");
  endpoint_is_zero = λ e. e.host == "";
  endpoint_string = λ e. e.host <> ":6443";
  is_owned_by_object = λ meta owner. owns owner meta.owner_references;
  kubeconfig_secret_name = λ name. name <> "-kubeconfig";
  tls_crt_data_name = "tls.crt";
  tls_key_data_name = "tls.key";
  default_certificates_dir = "/etc/kubernetes/pki";
  new_controller_ref = λ owner gv kind. record {
    api_version = gv.group <> ("/" <> gv.version);
    kind = kind;
    name = owner.name;
    uid = owner.uid;
    controller = some true;
    block_owner_deletion = some true;
  };
  group_version_string = λ gv. gv.group <> ("/" <> gv.version);
  is_controlled_by = λ meta owner. owns owner meta.owner_references;
  pod_running = "Running";
  restart_policy_always = "Always";
  dns_cluster_first_with_host_net = "ClusterFirstWithHostNet";
  service_type_cluster_ip = "ClusterIP";
}

false_ne_true : false ≢ true
false_ne_true = cc

pub differ : {a b : String} → (a == b) ≡ false → a ≢ b
differ {a} {b} h e = false_ne_true (sym h ∙ (eq_iff a b).1 e)

pub platform-HasDistinctLabels : HasDistinctLabels platform
platform-HasDistinctLabels = record { cluster_ne_role = differ refl }

abbrev pub named : String → String → List OwnerReference → ObjectMeta
named name uid owners = record {
  name = name;
  namespace = "default";
  uid = uid;
  labels = some ((platform.cluster_label_name, "prod") ∷ []);
  owner_references = owners;
}

abbrev pub prod_key : NamespacedName
prod_key = record { namespace = "default"; name = "prod" }

abbrev pub network : ClusterNetwork
network = record {
  services = some ("10.96.0.0/16" ∷ []);
  pods = some ("10.244.0.0/16" ∷ []);
  service_domain = "cluster.local";
}

abbrev pub control_plane_ref : ObjectReference
control_plane_ref = record {
  name = "prod";
  namespace = "default";
  uid = "u-kcp";
  api_version = "controlplane.cluster.x-k8s.io/v1beta1";
  kind = "KinkControlPlane";
}

abbrev pub prod : Cluster
prod = record {
  meta = named "prod" "u-cluster" [];
  cluster_network = some network;
  control_plane_endpoint = record { host = "prod.example.org"; port = pos 6443 };
  control_plane_ref = some control_plane_ref;
  infrastructure_ready = true;
}

-- The same cluster with its network settings left out.
abbrev pub bare : Cluster
bare = record prod { cluster_network = none }

abbrev pub control_plane : ℤ → KinkControlPlane
control_plane n = record {
  meta = named "prod" "u-kcp" [];
  spec = record { replicas = some n; cluster_name = "prod"; version = none };
  status = record {
    external_managed_control_plane = false;
    version = none;
    ready_replicas = pos 0;
    unavailable_replicas = pos 0;
    updated_replicas = pos 0;
    initialized = false;
    ready = false;
    failure_reason = none;
    failure_message = none;
  };
}

abbrev owner : ObjectMeta → OwnerReference
owner meta = platform.new_controller_ref meta (record { group = "g"; version = "v" }) "Kind"

abbrev pub machine : String → Bool → KinkMachine
machine name ready = record {
  meta = named name ("u-" <> name) (owner (control_plane (pos 1)).meta ∷ []);
  spec = record { version = none };
  status = record { pods = []; ready = ready; failure_reason = none; failure_message = none };
}

-- A pod of the machine `m` with a role.
abbrev pub pod_of : KinkMachine → String → Pod
pod_of m role = record {
  meta = record (named (role <> "-x") ("u-" <> role) (owner m.meta ∷ [])) {
    labels = some ((control_plane_role_label_name, role) ∷ []);
  };
  spec = record {
    restart_policy = "";
    host_network = false;
    dns_policy = "";
    containers = [];
    volumes = [];
  };
  phase = "Running";
}

abbrev pub kink_cluster : KinkCluster
kink_cluster = record {
  meta = named "prod" "u-kink" [];
  spec = record { control_plane_endpoint = prod.control_plane_endpoint };
  status = record { ready = false; failure_reason = none; failure_message = none };
}

-- A server that holds the given machines and pods, and the cluster's other objects.
abbrev pub server : Cluster → List KinkMachine → List Pod → World memory
server cluster machines pods = record {
  server = record {
    control_planes = control_plane (pos 3) ∷ [];
    clusters = cluster ∷ [];
    kink_clusters = kink_cluster ∷ [];
    machines = machines;
    pods = pods;
    services = [];
    secrets = [];
    names = 0;
  };
  calls = [];
}
