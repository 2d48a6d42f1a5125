-- ===== src/ControlPlane/Certs/Secrets.antt =====
-- The secrets of controllers/controlplane/secrets/cert.go, and their creation.
pub mod Once
use kink.Base.{
  String, ◌<>◌, true, false, Option, none, some, [], ◌∷◌, success, failed, is_not_found, Action,
  pure, raise, attempt, wrapping, or_panic, ◌>>=◌,
}
use kink.Api.{NamespacedName, Cluster, KinkControlPlane, Secret, control_plane_group_version}
use kink.Platform.{Platform}
use kink.Client.{Client, World, read, write, create_secret, create_nil_secret}
use kink.ControlPlane.Certs.Pki.{KinkCert, Pki}
use kink.ControlPlane.Certs.Catalogue.{get_config}

-- `fmt.Sprintf(certNameFmt, cluster.Name, name)`
abbrev pub cert_secret_name : Cluster → String → String
cert_secret_name cluster name = cluster.meta.name <> ("-" <> name)

abbrev pub secret_key : Cluster → String → NamespacedName
secret_key cluster name = record {
  namespace = cluster.meta.namespace;
  name = cert_secret_name cluster name;
}

-- The text of `errors.Wrapf` in `CreateFromCA` and `CreateTree`.
abbrev pub write_failure : Cluster → KinkCert → String
write_failure cluster k =
    "failed to write or validate certificate " <> (cluster.meta.name <> ("/\"" <> (k.name <> "\"")))

module _ (P : Platform) (kcp : KinkControlPlane) (cluster : Cluster) where
  -- The secret that both builders write, around their two texts.
  abbrev pub secret_with : String → String → String → Secret
  secret_with name crt key = record {
    meta = record {
      name = cert_secret_name cluster name;
      namespace = cluster.meta.namespace;
      uid = "";
      labels = some ((P.cluster_label_name, cluster.meta.name) ∷ []);
      owner_references =
          P.new_controller_ref kcp.meta control_plane_group_version "KinkControlPlane" ∷ [];
    };
    contents = (P.tls_crt_data_name, crt) ∷ (P.tls_key_data_name, key) ∷ [];
    secret_type = P.cluster_secret_type;
  }

module _ (P : Platform) {C : Client} (pki : Pki C) (kcp : KinkControlPlane)
    (cluster : Cluster) where
  open pki use {
    Certificate, Signer, RsaPrivateKey, RsaPublicKey, as_rsa, encode_cert_pem,
    encode_private_key_pem, encode_public_key_pem, new_cert_and_key,
  }

  -- `none` is the panic of the type assertion.
  unfoldable pub build_cert_secret : KinkCert → Certificate → Signer → Option Secret
  build_cert_secret k crt key = elim (as_rsa key) [
    | none ↦ none
    | some private ↦
        some
          (secret_with P kcp cluster k.name (encode_cert_pem crt) (encode_private_key_pem private))
  ]

  -- `none` is the nil that is returned on an error of the encoder.
  unfoldable pub build_sa_secret : String → RsaPublicKey → RsaPrivateKey → Option Secret
  build_sa_secret name crt key = elim (encode_public_key_pem crt) [
    | failed e ↦ none
    | success pub_text ↦ some (secret_with P kcp cluster name pub_text (encode_private_key_pem key))
  ]

  unfoldable pub create_ca_secret : KinkCert → Certificate → Signer → Action (World C) (Unit {0})
  create_ca_secret k crt key = do
    got ← attempt (read (C.get_secret (secret_key cluster k.name)))
    elim got [
      | success _ ↦ pure tt
      | failed e ↦ elim (is_not_found e) [
        | true ↦ do sec ← or_panic (build_cert_secret k crt key); write (create_secret sec)
        | false ↦ raise e
      ]
    ]

  unfoldable pub create_sa_secret :
      String → RsaPublicKey → RsaPrivateKey → Action (World C) (Unit {0})
  create_sa_secret name crt key = do
    got ← attempt (read (C.get_secret (secret_key cluster name)))
    elim got [
      | success _ ↦ pure tt
      | failed e ↦ elim (is_not_found e) [
        | true ↦ elim (build_sa_secret name crt key) [
          | none ↦ write create_nil_secret
          | some sec ↦ write (create_secret sec)
        ]
        | false ↦ raise e
      ]
    ]

  unfoldable pub create_from_ca : KinkCert → Certificate → Signer → Action (World C) (Unit {0})
  create_from_ca k ca_cert ca_key = do
    k' ← or_panic (get_config k cluster)
    (cert, key) ← read (new_cert_and_key ca_cert ca_key k'.config)
    wrapping (write_failure cluster k) (create_ca_secret k' cert key)
