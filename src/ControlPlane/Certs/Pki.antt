-- ===== src/ControlPlane/Certs/Pki.antt =====
-- The certificates of controllers/controlplane/secrets/cert.go, and what the code takes from the
-- crypto and kubeadm libraries, which stand outside the repository.
use kink.Base.{ℕ, String, Option, List, Try}
use kink.Api.{Cluster}
use kink.Client.{Client}

-- `net.IP`
abbrev pub IpAddress : Type 0
IpAddress = List ℕ

-- The values of `x509.ExtKeyUsage` and `x509.PublicKeyAlgorithm` that the code sets.
pub data ExtKeyUsage : Type 0 where
  server_auth client_auth : ExtKeyUsage

pub data KeyAlgorithm : Type 0 where
  unknown_algorithm rsa : KeyAlgorithm

pub record CertConfig : Type 0 where
  pub common_name : String
  pub organization : List String
  pub dns_names : List String
  pub ips : List IpAddress
  pub usages : List ExtKeyUsage
  pub public_key_algorithm : KeyAlgorithm

-- A mutator may panic, here `none`.
abbrev pub ConfigMutator : Type 0
ConfigMutator = CertConfig → Cluster → Option CertConfig

pub record KinkCert : Type 0 where
  pub name : String
  pub long_name : String
  pub base_name : String
  pub ca_name : String
  pub config : CertConfig
  pub config_mutators : List ConfigMutator

-- kubeadm's constants and the address functions.
pub record Kubeadm : Type 0 where
  pub ca_base_name : String
  pub api_server_base_name : String
  pub kubelet_client_base_name : String
  pub front_proxy_ca_base_name : String
  pub front_proxy_client_base_name : String
  pub api_server_common_name : String
  pub kubelet_client_common_name : String
  pub front_proxy_client_common_name : String
  pub system_privileged_group : String
  -- `GetAPIServerVirtualIP`
  pub api_server_virtual_ip : String → Try IpAddress
  -- `ParseIPSloppy`, nil for a text that is no address
  pub parse_ip : String → Option IpAddress

-- `pkiutil`, which draws on the machine's entropy, and the PEM encoders.
pub record Pki (C : Client) : Type 1 where
  pub Certificate : Type 0
  pub Signer : Type 0
  pub RsaPrivateKey : Type 0
  pub RsaPublicKey : Type 0
  pub new_certificate_authority : CertConfig → C.State → Try (Certificate × Signer) × C.State
  pub new_cert_and_key :
      Certificate → Signer → CertConfig → C.State → Try (Certificate × Signer) × C.State
  -- `NewPrivateKey(x509.RSA)`
  pub new_private_key : C.State → Try Signer × C.State
  -- The type assertions `key.(*rsa.PrivateKey)` and `key.Public().(*rsa.PublicKey)`.
  pub as_rsa : Signer → Option RsaPrivateKey
  pub public_rsa : Signer → Option RsaPublicKey
  pub encode_cert_pem : Certificate → String
  pub encode_private_key_pem : RsaPrivateKey → String
  pub encode_public_key_pem : RsaPublicKey → Try String
