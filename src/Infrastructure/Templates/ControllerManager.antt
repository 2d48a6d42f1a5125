-- ===== src/Infrastructure/Templates/ControllerManager.antt =====
-- controllers/infrastructure/templates/controller-manager.go
use kink.Base.{String, ◌<>◌, true, some, [], ◌∷◌, join, Action, pure, ◌>>=◌, or_panic}
use kink.Api.{
  Cluster, KinkMachine, Pod, control_plane_role_label_name, infrastructure_group_version,
  controller_manager,
}
use kink.Platform.{Platform}
use kink.Client.{Client, World, generate}
use kink.Infrastructure.Templates.Util.{host_ip_env_var, get_secret_volumes, service_cidr, pod_cidr}

unfoldable pub controller_manager_args : String → String → String
unfolding join
controller_manager_args service_didr pod_range =
    join
      ("kube-controller-manager"
        ∷ "--allocate-node-cidrs=true"
        ∷ "--authentication-kubeconfig=/etc/kubernetes/controller-manager.conf"
        ∷ "--authorization-kubeconfig=/etc/kubernetes/controller-manager.conf"
        ∷ "--bind-address=${host_ip}"
        ∷ "--client-ca-file=/etc/kubernetes/pki/ca.crt"
        ∷ ("--cluster-cidr=" <> pod_range)
        ∷ "--cluster-name=kubernetes"
        ∷ "--cluster-signing-cert-file=/etc/kubernetes/pki/ca.crt"
        ∷ "--cluster-signing-key-file=/etc/kubernetes/pki/ca.key"
        ∷ "--controllers=*,bootstrapsigner,tokencleaner"
        ∷ "--kubeconfig=/etc/kubernetes/controller-manager.conf"
        ∷ "--leader-elect=true"
        ∷ "--requestheader-client-ca-file=/etc/kubernetes/pki/front-proxy-ca.crt"
        ∷ "--root-ca-file=/etc/kubernetes/pki/ca.crt"
        ∷ "--service-account-private-key-file=/etc/kubernetes/pki/sa.key"
        ∷ ("--service-cluster-ip-range=" <> service_didr)
        ∷ "--use-service-account-credentials=true"
        ∷ [])
      " "

module _ (P : Platform) where
  -- The pod under the generated name.
  unfoldable pub controller_manager_pod : Cluster → KinkMachine → String → String → String → Pod
  unfolding get_secret_volumes controller_manager_args
  controller_manager_pod cluster machine service_didr pod_range pod_name = record {
    meta = record {
      name = pod_name;
      namespace = cluster.meta.namespace;
      uid = "";
      labels = some (
          (P.cluster_label_name, cluster.meta.name)
          ∷ (control_plane_role_label_name, controller_manager)
          ∷ []);
      owner_references =
          P.new_controller_ref machine.meta infrastructure_group_version "KinkMachine" ∷ [];
    };
    spec = record {
      restart_policy = P.restart_policy_always;
      host_network = true;
      dns_policy = P.dns_cluster_first_with_host_net;
      containers =
          record {
            name = "controller-manager";
            image = "openbce/kube-controller-manager:v1.24.1";
            env = host_ip_env_var ∷ [];
            command = "/bin/sh" ∷ "-c" ∷ [];
            args = controller_manager_args service_didr pod_range ∷ [];
            volume_mounts = (get_secret_volumes P cluster).1;
          }
          ∷ [];
      volumes = (get_secret_volumes P cluster).0;
    };
    phase = "";
  }

module _ (P : Platform) {C : Client} where
  unfoldable pub controller_manager_pod_template : Cluster → KinkMachine → Action (World C) Pod
  controller_manager_pod_template cluster machine = do
    service_didr ← or_panic (service_cidr cluster)
    pod_range ← or_panic (pod_cidr cluster)
    pod_name ← generate (cluster.meta.name <> "-controller-manager-")
    pure (controller_manager_pod P cluster machine service_didr pod_range pod_name)
