-- ===== src/ControlPlane/Certs/Catalogue.antt =====
-- `GetCerts` and the constructors of controllers/controlplane/secrets/cert.go.
use kink.Base.{String, Option, none, some, List, [], ◌∷◌}
use kink.Api.{Cluster}
use kink.Platform.{Platform}
use kink.ControlPlane.Certs.Pki.{
  CertConfig, ConfigMutator, KinkCert, Kubeadm, ExtKeyUsage, server_auth, client_auth,
  unknown_algorithm, rsa,
}
use kink.ControlPlane.Certs.AltNames.{add_alt_names}

-- A `CertConfig` with a common name, and the other fields that are not zero.
abbrev pub config_of : String → List String → List ExtKeyUsage → CertConfig
config_of common_name organization usages = record {
  common_name = common_name;
  organization = organization;
  dns_names = [];
  ips = [];
  usages = usages;
  public_key_algorithm = unknown_algorithm;
}

-- The loop over `configMutators`.
unfoldable pub mutate : List ConfigMutator → CertConfig → Cluster → Option CertConfig
mutate [] cfg cluster = some cfg
mutate (f ∷ fs) cfg cluster = elim (f cfg cluster) [
  | none ↦ none
  | some cfg' ↦ mutate fs cfg' cluster
]

-- `GetConfig` changes the certificate's own config. Here it returns the certificate with its new
-- config, or `none` if a mutator panics; it never returns an error.
unfoldable pub get_config : KinkCert → Cluster → Option KinkCert
unfolding mutate
get_config c cluster = elim (mutate c.config_mutators c.config cluster) [
  | none ↦ none
  | some cfg ↦ some (record c { config = record cfg { public_key_algorithm = rsa } })
]

module _ (P : Platform) (K : Kubeadm) where
  abbrev pub root_ca : KinkCert
  root_ca = record {
    name = "ca";
    long_name = "self-signed Kubernetes CA to provision identities for other Kubernetes components";
    base_name = K.ca_base_name;
    ca_name = "";
    config = config_of "kubernetes" [] [];
    config_mutators = [];
  }

  abbrev pub api_server_cert : KinkCert
  api_server_cert = record {
    name = "apiserver";
    long_name = "KinkCert for serving the Kubernetes API";
    base_name = K.api_server_base_name;
    ca_name = "ca";
    config = config_of K.api_server_common_name [] (server_auth ∷ []);
    config_mutators = add_alt_names P K ∷ [];
  }

  abbrev pub kubelet_client : KinkCert
  kubelet_client = record {
    name = "kubelet-client";
    long_name = "KinkCert for the API server to connect to kubelet";
    base_name = K.kubelet_client_base_name;
    ca_name = "ca";
    config =
        config_of K.kubelet_client_common_name (K.system_privileged_group ∷ []) (client_auth ∷ []);
    config_mutators = [];
  }

  abbrev pub front_proxy_ca : KinkCert
  front_proxy_ca = record {
    name = "front-proxy-ca";
    long_name = "self-signed CA to provision identities for front proxy";
    base_name = K.front_proxy_ca_base_name;
    ca_name = "";
    config = config_of "front-proxy-ca" [] [];
    config_mutators = [];
  }

  abbrev pub front_proxy_client : KinkCert
  front_proxy_client = record {
    name = "front-proxy-client";
    long_name = "KinkCert for the front proxy client";
    base_name = K.front_proxy_client_base_name;
    ca_name = "front-proxy-ca";
    config = config_of K.front_proxy_client_common_name [] (client_auth ∷ []);
    config_mutators = [];
  }

  unfoldable pub get_certs : List KinkCert
  get_certs = root_ca ∷ api_server_cert ∷ kubelet_client ∷ front_proxy_ca ∷ front_proxy_client ∷ []
