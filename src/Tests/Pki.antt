-- ===== src/Tests/Pki.antt =====
-- kubeadm's constants, and a key generator whose keys are texts.
use kink.Base.{String, ◌<>◌, ◌==◌, none, some, [], ◌∷◌, success, if◌then◌else◌}
use kink.ControlPlane.Certs.Pki.{Kubeadm, Pki}
use kink.Client.{Client}
use kink.ControlPlane.Certs.Manager.Returns.{MakesRsaKeys}
use kink.Tests.Memory.{memory}

abbrev pub kubeadm : Kubeadm
kubeadm = record {
  ca_base_name = "ca";
  api_server_base_name = "apiserver";
  kubelet_client_base_name = "apiserver-kubelet-client";
  front_proxy_ca_base_name = "front-proxy-ca";
  front_proxy_client_base_name = "front-proxy-client";
  api_server_common_name = "kube-apiserver";
  kubelet_client_common_name = "kube-apiserver-kubelet-client";
  front_proxy_client_common_name = "front-proxy-client";
  system_privileged_group = "system:masters";
  api_server_virtual_ip = λ subnet. success (10 ∷ 96 ∷ 0 ∷ 1 ∷ []);
  parse_ip = λ host. if host == "10.0.0.1" then some (10 ∷ 0 ∷ 0 ∷ 1 ∷ []) else none;
}

-- On any server: no key is drawn from its state.
abbrev pub text_keys : (C : Client) → Pki C
text_keys C = record {
  Certificate = String;
  Signer = String;
  RsaPrivateKey = String;
  RsaPublicKey = String;
  new_certificate_authority = λ cfg s. (success (cfg.common_name, "key"), s);
  new_cert_and_key = λ ca key cfg s. (success (cfg.common_name <> (" by " <> ca), "key"), s);
  new_private_key = λ s. (success "key", s);
  as_rsa = λ key. some key;
  public_rsa = λ key. some key;
  encode_cert_pem = λ crt. crt;
  encode_private_key_pem = λ key. key;
  encode_public_key_pem = λ key. success key;
}

abbrev pub pki : Pki memory
pki = text_keys memory

pub text_keys-MakesRsaKeys : (C : Client) → MakesRsaKeys (text_keys C)
text_keys-MakesRsaKeys C = record { private = λ key. cc; public = λ key. cc; encoded = λ key e. cc }
