-- ===== src/ControlPlane/Certs/Manager.antt =====
-- `CreateTree` of controllers/controlplane/secrets/cert.go, and the manager of mgr.go.
pub mod Calls
pub mod Issued
pub mod Pair
pub mod Kubeconfig
pub mod Returns
pub mod Whole
use kink.Base.{
  true, false, List, [], ◌∷◌, success, failed, is_not_found, Action, pure, raise, attempt, wrapping,
  or_panic, or_raise, ◌>>=◌, ◌>>◌,
}
use kink.Api.{NamespacedName, Cluster, KinkControlPlane, control_plane_group_version}
use kink.Platform.{Platform}
use kink.Client.{Client, World, read, write, range, create_kubeconfig}
use kink.ControlPlane.Certs.Pki.{KinkCert, Kubeadm, Pki}
use kink.ControlPlane.Certs.Catalogue.{get_config, get_certs}
use kink.ControlPlane.Certs.Tree.{CertificateTree, as_map, cert_tree_from}
use kink.ControlPlane.Certs.Secrets.{
  create_ca_secret, create_sa_secret, create_from_ca, write_failure,
}

module _ (P : Platform) {C : Client} (pki : Pki C) (kcp : KinkControlPlane)
    (cluster : Cluster) where
  open pki use {Certificate, Signer, as_rsa, public_rsa, new_certificate_authority, new_private_key}

  -- The loop over the leaves of one CA.
  unfoldable pub create_leaves : List KinkCert → Certificate → Signer → Action (World C) (Unit {0})
  create_leaves [] ca_cert ca_key = pure tt
  create_leaves (leaf ∷ rest) ca_cert ca_key = do
    create_from_ca P pki kcp cluster leaf ca_cert ca_key
    create_leaves rest ca_cert ca_key

  -- The part of a round behind the generation of the CA.
  unfoldable pub store_ca :
      KinkCert → KinkCert → List KinkCert → Certificate → Signer → Action (World C) (Unit {0})
  store_ca ca ca' leaves ca_cert ca_key = do
    wrapping (write_failure cluster ca) (create_ca_secret P pki kcp cluster ca' ca_cert ca_key)
    create_leaves leaves ca_cert ca_key

  -- One round of the loop over the CAs.
  unfoldable pub create_ca : KinkCert → List KinkCert → Action (World C) (Unit {0})
  create_ca ca leaves = do
    ca' ← or_panic (get_config ca cluster)
    (ca_cert, ca_key) ← read (new_certificate_authority ca'.config)
    store_ca ca ca' leaves ca_cert ca_key

  -- `CreateTree`, in the order of the `range`.
  unfoldable pub create_cas : CertificateTree → Action (World C) (Unit {0})
  create_cas [] = pure tt
  create_cas ((ca, leaves) ∷ rest) = do create_ca ca leaves; create_cas rest

  unfoldable pub create_tree : CertificateTree → Action (World C) (Unit {0})
  create_tree tree = do order ← range tree; create_cas order

  unfoldable pub lookup_or_generate_cas : Kubeadm → Action (World C) (Unit {0})
  lookup_or_generate_cas K = do
    let cert_map = as_map (get_certs P K)
    order ← range cert_map
    tree ← or_raise (cert_tree_from cert_map order [])
    create_tree tree
    key ← read new_private_key
    public ← or_panic (public_rsa key)
    private ← or_panic (as_rsa key)
    create_sa_secret P pki kcp cluster "sa" public private

abbrev pub cluster_key : Cluster → NamespacedName
cluster_key cluster = record { namespace = cluster.meta.namespace; name = cluster.meta.name }

abbrev pub kubeconfig_key : Platform → Cluster → NamespacedName
kubeconfig_key P cluster = record {
  namespace = cluster.meta.namespace;
  name = P.kubeconfig_secret_name cluster.meta.name;
}

module _ (P : Platform) {C : Client} (kcp : KinkControlPlane) (cluster : Cluster) where
  unfoldable pub lookup_or_generate_kubeconfig : Action (World C) (Unit {0})
  lookup_or_generate_kubeconfig = do
    got ← attempt (read (C.get_secret (kubeconfig_key P cluster)))
    elim got [
      | success _ ↦ pure tt
      | failed e ↦ elim (is_not_found e) [
        | true ↦ write (
            create_kubeconfig (cluster_key cluster)
              (P.endpoint_string cluster.control_plane_endpoint)
              (P.new_controller_ref kcp.meta control_plane_group_version "KinkControlPlane"))
        | false ↦ raise e
      ]
    ]
