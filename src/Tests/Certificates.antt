-- ===== src/Tests/Certificates.antt =====
-- The certificates' manager, run on the server in memory.
use mathlib.Core.List.{Mem}
use mathlib.Core.List.Perm
use kink.Base.{
  List, lookup, ◌+◌, ◌≡◌, ◌↔◌, ◌⊎◌, refl, true, some, none, [], ◌∷◌, ◌++◌, All, success, pos,
}
use kink.Api.{Secret, ClusterNetwork}
use kink.Client.{create_secret, Call, World}
use kink.Client.Grows.{Adds}
use kink.ControlPlane.Certs.Pki.{KinkCert, CertConfig, rsa}
use kink.ControlPlane.Certs.AltNames.{svc_subnet, add_alt_names}
use kink.ControlPlane.Certs.AltNames.Covers.{AnswersTo, add_alt_names_lem, add_alt_names-panics_iff}
use kink.ControlPlane.Certs.Catalogue.{root_ca, api_server_cert, get_certs, get_config, mutate}
use kink.ControlPlane.Certs.Tree.{
  CertificateMap, CertificateTree, as_map, add_leaves, place, cert_tree_from,
}
use kink.ControlPlane.Certs.Tree.Shape.{
  IsSignedBy, all_known, leaf_count, leaves_of, cert_tree_from_lem,
}
use kink.ControlPlane.Certs.Tree.Found.{lookup-as_map}
use kink.ControlPlane.Certs.Tree.Keyed.{cert_tree_from-as_map}
use kink.ControlPlane.Certs.Tree.Own.{cert_tree_from-get_certs}
use kink.ControlPlane.Certs.Secrets.{secret_with, create_ca_secret}
use kink.ControlPlane.Certs.Secrets.Once.{IsCreated, create_ca_secret_once}
use kink.ControlPlane.Certs.Manager.{create_ca}
use kink.ControlPlane.Certs.Manager.Issued.{IsIssued, create_ca-issues, create_ca-unsaved}
use kink.ControlPlane.Certs.Manager.Kubeconfig.{
  EndsAsAnswered, lookup_or_generate_kubeconfig-EndsAsAnswered,
}
use kink.Tests.Memory.{memory}
use kink.Tests.Objects.{platform, prod, bare, network, control_plane, named, server}
use kink.Tests.Pki.{kubeadm, pki}

abbrev before : World memory
before = server prod [] []

-- The secret of the CA exists.
abbrev ca_secret : Secret
ca_secret = record { meta = named "prod-ca" "u-ca" []; contents = []; secret_type = "" }

abbrev kept : World memory
kept = record before { server = record (before.server) { secrets = ca_secret ∷ [] } }

abbrev ca : KinkCert
ca = root_ca platform kubeadm

abbrev leaf : KinkCert
leaf = api_server_cert platform kubeadm

-- The CA with the config that its certificate is issued from.
abbrev issuing : KinkCert
issuing = record ca { config = record (ca.config) { public_key_algorithm = rsa } }

create_ca_secret_once_example :
    let w' = (create_ca_secret platform pki (control_plane (pos 3)) prod ca "crt" "key" before).1 in
    (w'.calls ≡ before.calls)
    ⊎ ((call : Call) × (w'.calls ≡ before.calls ++ (call ∷ []))
        × IsCreated platform pki (control_plane (pos 3)) prod ca "crt" "key" before call)
create_ca_secret_once_example =
    create_ca_secret_once platform pki (control_plane (pos 3)) prod ca "crt" "key" before

ca-config : get_config ca prod ≡ some issuing
unfolding get_config mutate
ca-config = refl

create_ca-issues_example :
    (rest : List Call) × ((create_ca platform pki
        (control_plane (pos 3))
        prod
        ca
        (leaf ∷ [])
        before).1.calls
      ≡ before.calls
        ++ (create_secret
              (secret_with platform (control_plane (pos 3)) prod issuing.name "kubernetes" "key")
            ∷ rest))
    × All (IsIssued platform pki (control_plane (pos 3)) prod "kubernetes" "key") rest
create_ca-issues_example =
    create_ca-issues platform pki (control_plane (pos 3)) prod ca issuing (leaf ∷ []) ca-config
      before "kubernetes" "key" refl "key" refl refl refl

create_ca-unsaved_example :
    Adds
      (IsIssued platform pki (control_plane (pos 3)) prod "kubernetes" "key")
      kept.calls
      (create_ca platform pki (control_plane (pos 3)) prod ca (leaf ∷ []) kept).1
create_ca-unsaved_example =
    create_ca-unsaved platform pki (control_plane (pos 3)) prod ca issuing (leaf ∷ []) ca-config
      kept "kubernetes" "key" refl refl

abbrev two_certs : CertificateMap
two_certs = ("ca", ca) ∷ ("apiserver", leaf) ∷ []

abbrev two_tree : CertificateTree
two_tree = (ca, leaf ∷ []) ∷ []

two_tree-success : cert_tree_from (as_map (ca ∷ leaf ∷ [])) two_certs [] ≡ success two_tree
unfolding cert_tree_from place add_leaves as_map
two_tree-success = refl

-- Two certificates of one name.
abbrev twice : List KinkCert
twice = ca ∷ leaf ∷ record ca { base_name = "other" } ∷ []

lookup-as_map_example : lookup ca.name (as_map twice) ≡ some (record ca { base_name = "other" })
lookup-as_map_example = lookup-as_map twice ca.name

cert_tree_from-as_map_example : All IsSignedBy two_tree
cert_tree_from-as_map_example =
    cert_tree_from-as_map (ca ∷ leaf ∷ []) two_certs two_tree two_tree-success

cert_tree_from_lem_example : (all_known two_certs two_certs ≡ true) ↔ (
    (tree : CertificateTree) × (cert_tree_from two_certs two_certs [] ≡ success tree)
    × (leaf_count tree ≡ leaf_count [] + leaves_of two_certs))
cert_tree_from_lem_example = cert_tree_from_lem two_certs two_certs []

cert_tree_from-get_certs_example :
    (tree : CertificateTree) × (cert_tree_from
        (as_map (get_certs platform kubeadm))
        (as_map (get_certs platform kubeadm))
        []
      ≡ success tree)
    × (leaf_count tree ≡ leaves_of (as_map (get_certs platform kubeadm)))
cert_tree_from-get_certs_example =
    cert_tree_from-get_certs platform kubeadm (as_map (get_certs platform kubeadm))
      (Perm.refl (as_map (get_certs platform kubeadm)))

prod-svc_subnet : svc_subnet prod ≡ some (network, "10.96.0.0/16")
unfolding svc_subnet
prod-svc_subnet = refl

add_alt_names_lem_example :
    (cfg : CertConfig) × (add_alt_names platform kubeadm leaf.config prod ≡ some cfg)
    × Mem (10 ∷ 96 ∷ 0 ∷ 1 ∷ []) cfg.ips
    × Mem "kubernetes" cfg.dns_names
    × Mem "kubernetes.default.svc" cfg.dns_names
    × AnswersTo platform kubeadm "prod.example.org" cfg
add_alt_names_lem_example =
    add_alt_names_lem platform kubeadm leaf.config prod network "10.96.0.0/16" prod-svc_subnet
      (10 ∷ 96 ∷ 0 ∷ 1 ∷ []) refl refl

add_alt_names-panics_iff_example : (add_alt_names platform kubeadm leaf.config bare ≡ none) ↔ (
    (bare.cluster_network ≡ none)
    ⊎ ((n : ClusterNetwork) × (bare.cluster_network ≡ some n) × (n.services ≡ none)))
add_alt_names-panics_iff_example = add_alt_names-panics_iff platform kubeadm leaf.config bare

lookup_or_generate_kubeconfig-EndsAsAnswered_example :
    EndsAsAnswered platform (control_plane (pos 3)) prod before
lookup_or_generate_kubeconfig-EndsAsAnswered_example =
    lookup_or_generate_kubeconfig-EndsAsAnswered platform (control_plane (pos 3)) prod before
