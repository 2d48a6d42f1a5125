-- ===== src/Infrastructure/Templates/Etcd.antt =====
-- controllers/infrastructure/templates/etcd.go
use kink.Base.{ℕ, String, ◌<>◌, true, some, [], ◌∷◌, join, decimal, Action, pure, ◌>>=◌}
use kink.Api.{
  Cluster, KinkMachine, Pod, Service, OwnerReference, control_plane_role_label_name,
  infrastructure_group_version, etcd,
}
use kink.Platform.{Platform}
use kink.Client.{Client, World, generate}
use kink.Infrastructure.Templates.Util.{host_ip_env_var, get_secret_volumes}

abbrev pub etcd_default_port : ℕ
etcd_default_port = 2379

module _ (P : Platform) where
  unfoldable pub etcd_service_template : Cluster → KinkMachine → Service
  etcd_service_template cluster machine = record {
    meta = record {
      name = cluster.meta.name <> "-etcd-svc";
      namespace = cluster.meta.namespace;
      uid = "";
      labels =
          some (
            (P.cluster_label_name, cluster.meta.name) ∷ (control_plane_role_label_name, etcd) ∷ []);
      owner_references =
          P.new_controller_ref machine.meta infrastructure_group_version "KinkMachine" ∷ [];
    };
    spec = record {
      ports = record { port = etcd_default_port; target_port = etcd_default_port } ∷ [];
      selector =
          (P.cluster_label_name, cluster.meta.name) ∷ (control_plane_role_label_name, etcd) ∷ [];
      service_type = P.service_type_cluster_ip;
    };
  }

  -- This template writes the owner out instead of calling `NewControllerRef`.
  abbrev pub etcd_owner : KinkMachine → OwnerReference
  etcd_owner machine = record {
    api_version = P.group_version_string infrastructure_group_version;
    kind = "KinkMachine";
    name = machine.meta.name;
    uid = machine.meta.uid;
    controller = some true;
    block_owner_deletion = some true;
  }

  unfoldable pub etcd_args : String
  unfolding join decimal
  etcd_args =
      join
        ("etcd"
          ∷ ("--advertise-client-urls=http://${host_ip}:" <> decimal etcd_default_port)
          ∷ ("--listen-client-urls=http://${host_ip}:"
              <> (decimal etcd_default_port <> (",http://127.0.0.1:" <> decimal etcd_default_port)))
          ∷ [])
        " "

  -- The pod under the generated name.
  unfoldable pub etcd_pod : Cluster → KinkMachine → String → Pod
  unfolding get_secret_volumes etcd_args
  etcd_pod cluster machine pod_name = record {
    meta = record {
      name = pod_name;
      namespace = cluster.meta.namespace;
      uid = "";
      labels =
          some (
            (P.cluster_label_name, cluster.meta.name) ∷ (control_plane_role_label_name, etcd) ∷ []);
      owner_references = etcd_owner machine ∷ [];
    };
    spec = record {
      restart_policy = P.restart_policy_always;
      host_network = true;
      dns_policy = "";
      containers =
          record {
            name = "etcd";
            image = "openbce/etcd:3.5.3-0";
            env = host_ip_env_var ∷ [];
            command = "/bin/sh" ∷ "-c" ∷ [];
            args = etcd_args ∷ [];
            volume_mounts = (get_secret_volumes P cluster).1;
          }
          ∷ [];
      volumes = (get_secret_volumes P cluster).0;
    };
    phase = "";
  }

module _ (P : Platform) {C : Client} where
  unfoldable pub etcd_pod_template : Cluster → KinkMachine → Action (World C) Pod
  etcd_pod_template cluster machine = do
    pod_name ← generate (cluster.meta.name <> "-etcd-")
    pure (etcd_pod P cluster machine pod_name)
