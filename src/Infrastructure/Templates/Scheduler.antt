-- ===== src/Infrastructure/Templates/Scheduler.antt =====
-- controllers/infrastructure/templates/scheduler.go
use kink.Base.{String, ◌<>◌, true, some, [], ◌∷◌, join, decimal, Action, pure, ◌>>=◌, or_panic}
use kink.Api.{
  Cluster, KinkMachine, Pod, control_plane_role_label_name, infrastructure_group_version,
  api_server,
}
use kink.Platform.{Platform}
use kink.Client.{Client, World, generate}
use kink.Infrastructure.Templates.Etcd.{etcd_default_port}
use kink.Infrastructure.Templates.Util.{host_ip_env_var, get_secret_volumes, service_cidr}

unfoldable pub scheduler_args : Cluster → String → String
unfolding join decimal
scheduler_args cluster service_didr =
    join
      ("kube-apiserver"
        ∷ "--advertise-address=${host_ip}"
        ∷ "--secure-port=6443"
        ∷ ("--etcd-servers=http://"
            <> (cluster.meta.name
                <> ("-etcd-svc."
                    <> (cluster.meta.namespace <> (":" <> decimal etcd_default_port)))))
        ∷ ("--service-cluster-ip-range=" <> service_didr)
        ∷ "--allow-privileged=true"
        ∷ "--authorization-mode=Node,RBAC"
        ∷ "--enable-admission-plugins=NodeRestriction"
        ∷ "--enable-bootstrap-token-auth=true"
        ∷ "--kubelet-preferred-address-types=InternalIP,ExternalIP,Hostname"
        ∷ "--requestheader-allowed-names=front-proxy-client"
        ∷ "--requestheader-extra-headers-prefix=X-Remote-Extra-"
        ∷ "--requestheader-group-headers=X-Remote-Group"
        ∷ "--requestheader-username-headers=X-Remote-User"
        ∷ "--client-ca-file=/etc/kubernetes/pki/ca/tls.crt"
        ∷ "--requestheader-client-ca-file=/etc/kubernetes/pki/ca/tls.crt"
        ∷ "--proxy-client-cert-file=/etc/kubernetes/pki/front-proxy-ca/tls.crt"
        ∷ "--proxy-client-key-file=/etc/kubernetes/pki/front-proxy-ca/tls.key"
        ∷ "--kubelet-client-certificate=/etc/kubernetes/pki/kubelet-client/tls.crt"
        ∷ "--kubelet-client-key=/etc/kubernetes/pki/kubelet-client/tls.key"
        ∷ "--service-account-issuer=https://kubernetes.default.svc.cluster.local"
        ∷ "--service-account-key-file=/etc/kubernetes/pki/sa/tls.crt"
        ∷ "--service-account-signing-key-file=/etc/kubernetes/pki/sa/tls.key"
        ∷ "--tls-cert-file=/etc/kubernetes/pki/apiserver/tls.crt"
        ∷ "--tls-private-key-file=/etc/kubernetes/pki/apiserver/tls.key"
        ∷ [])
      " "

module _ (P : Platform) where
  -- The pod under the generated name.
  unfoldable pub scheduler_pod : Cluster → KinkMachine → String → String → Pod
  unfolding get_secret_volumes scheduler_args
  scheduler_pod cluster machine service_didr pod_name = record {
    meta = record {
      name = pod_name;
      namespace = cluster.meta.namespace;
      uid = "";
      labels = some (
          (P.cluster_label_name, cluster.meta.name)
          ∷ (control_plane_role_label_name, api_server)
          ∷ []);
      owner_references =
          P.new_controller_ref machine.meta infrastructure_group_version "KinkMachine" ∷ [];
    };
    spec = record {
      restart_policy = P.restart_policy_always;
      host_network = true;
      dns_policy = P.dns_cluster_first_with_host_net;
      containers =
          record {
            name = "apiserver";
            image = "openbce/kube-scheduler:v1.24.1";
            env = host_ip_env_var ∷ [];
            command = "/bin/sh" ∷ "-c" ∷ [];
            args = scheduler_args cluster service_didr ∷ [];
            volume_mounts = (get_secret_volumes P cluster).1;
          }
          ∷ [];
      volumes = (get_secret_volumes P cluster).0;
    };
    phase = "";
  }

module _ (P : Platform) {C : Client} where
  unfoldable pub scheduler_pod_template : Cluster → KinkMachine → Action (World C) Pod
  scheduler_pod_template cluster machine = do
    service_didr ← or_panic (service_cidr cluster)
    pod_name ← generate (cluster.meta.name <> "-apiserver-")
    pure (scheduler_pod P cluster machine service_didr pod_name)
