-- ===== src/Infrastructure/Templates/Util.antt =====
-- controllers/infrastructure/templates/util.go, and what the pod templates have in common.
use kink.Base.{String, ◌<>◌, Option, none, some, List, [], ◌∷◌}
use kink.Api.{EnvVar, Volume, VolumeMount, Cluster}
use kink.Platform.{Platform}

abbrev pub host_ip_env_var : EnvVar
host_ip_env_var = record { name = "host_ip"; value_from_field_path = "status.podIP" }

-- The Go variable `certs`.
abbrev pub certs : List String
certs = "ca" ∷ "apiserver" ∷ "kubelet-client" ∷ "front-proxy-ca" ∷ "front-proxy-client" ∷ "sa" ∷ []

module _ (P : Platform) where
  -- One round of the loop over `certs`.
  abbrev pub cert_volume : Cluster → String → Volume
  cert_volume cluster cert =
      let cert_name = cluster.meta.name <> ("-" <> cert) in
      record { name = cert_name; secret_name = cert_name }

  abbrev pub cert_mount : Cluster → String → VolumeMount
  cert_mount cluster cert = record {
    name = cluster.meta.name <> ("-" <> cert);
    mount_path = P.default_certificates_dir <> ("/" <> cert);
  }

  pub secret_volumes_of : Cluster → List String → List Volume × List VolumeMount
  secret_volumes_of cluster [] = ([], [])
  secret_volumes_of cluster (cert ∷ rest) =
      let (volumes, mounts) = secret_volumes_of cluster rest in
      (cert_volume cluster cert ∷ volumes, cert_mount cluster cert ∷ mounts)

  unfoldable pub get_secret_volumes : Cluster → List Volume × List VolumeMount
  unfolding secret_volumes_of
  get_secret_volumes cluster = secret_volumes_of cluster certs

-- The first block of a range that is set, or the default. A nil pointer on the way is a panic,
-- here `none`.
unfoldable pub first_block : String → List String → String
first_block default [] = default
first_block default (block ∷ rest) = block

unfoldable pub service_cidr : Cluster → Option String
unfolding first_block
service_cidr cluster = elim cluster.cluster_network [
  | none ↦ none
  | some network ↦ elim network.services [
    | none ↦ none
    | some blocks ↦ some (first_block "192.168.0.0/24" blocks)
  ]
]

unfoldable pub pod_cidr : Cluster → Option String
unfolding first_block
pod_cidr cluster = elim cluster.cluster_network [
  | none ↦ none
  | some network ↦ elim network.pods [
    | none ↦ none
    | some blocks ↦ some (first_block "192.168.100.0/24" blocks)
  ]
]
