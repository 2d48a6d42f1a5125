-- ===== src/ControlPlane/Certs/AltNames.antt =====
-- `getAPIServerAltNames` of controllers/controlplane/secrets/cert.go.
pub mod Covers
use kink.Base.{
  String, ◌<>◌, Option, none, some, List, [], ◌∷◌, ◌++◌, ◌==◌, Try, success, failed, if◌then◌else◌,
}
use kink.Api.{Cluster, ClusterNetwork}
use kink.Platform.{Platform}
use kink.ControlPlane.Certs.Pki.{IpAddress, ConfigMutator, Kubeadm}

pub record AltNames : Type 0 where
  pub dns_names : List String
  pub ips : List IpAddress

-- `fmt.Sprintf("kubernetes.default.svc.%s", …)`, if there is a service domain.
abbrev pub domain_names : String → List String
domain_names domain = if domain == "" then [] else ("kubernetes.default.svc." <> domain) ∷ []

module _ (P : Platform) (K : Kubeadm) where
  -- The endpoint of the cluster, an address or a name.
  unfoldable pub add_endpoint : Cluster → AltNames → AltNames
  add_endpoint cluster names =
      if P.endpoint_is_valid cluster.control_plane_endpoint
      then elim (K.parse_ip cluster.control_plane_endpoint.host) [
        | some ip ↦ record names { ips = names.ips ++ (ip ∷ []) }
        | none ↦ record names {
          dns_names = names.dns_names ++ (cluster.control_plane_endpoint.host ∷ []);
        }
      ]
      else names

  unfoldable pub alt_names_for : Cluster → ClusterNetwork → String → Try AltNames
  alt_names_for cluster network svc_subnet = elim (K.api_server_virtual_ip svc_subnet) [
    | failed e ↦ failed e
    | success virtual_ip ↦ success (
        add_endpoint cluster (record {
          dns_names =
              ("kubernetes" ∷ "kubernetes.default" ∷ "kubernetes.default.svc" ∷ [])
              ++ domain_names network.service_domain;
          ips = virtual_ip ∷ [];
        }))
  ]

-- `none` is a panic: the network settings are dereferenced.
unfoldable pub svc_subnet : Cluster → Option (ClusterNetwork × String)
svc_subnet cluster = elim cluster.cluster_network [
  | none ↦ none
  | some network ↦ elim network.services [
    | none ↦ none
    | some [] ↦ some (network, "192.168.0.0/24")
    | some (block ∷ rest) ↦ some (network, block)
  ]
]

module _ (P : Platform) (K : Kubeadm) where
  unfoldable pub get_api_server_alt_names : Cluster → Option (Try AltNames)
  unfolding svc_subnet alt_names_for add_endpoint
  get_api_server_alt_names cluster = elim (svc_subnet cluster) [
    | none ↦ none
    | some (network, subnet) ↦ some (alt_names_for P K cluster network subnet)
  ]

  -- The mutator of the API server's certificate, which ignores an error.
  unfoldable pub add_alt_names : ConfigMutator
  unfolding get_api_server_alt_names
  add_alt_names cfg cluster = elim (get_api_server_alt_names cluster) [
    | none ↦ none
    | some (failed e) ↦ some cfg
    | some (success names) ↦
        some
          (record cfg { ips = cfg.ips ++ names.ips; dns_names = cfg.dns_names ++ names.dns_names })
  ]
