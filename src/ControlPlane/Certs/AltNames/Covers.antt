-- ===== src/ControlPlane/Certs/AltNames/Covers.antt =====
-- The names that the API server's certificate covers.
use kink.Base.{
  String, true, ◌≡◌, ◌↔◌, ◌⊎◌, refl, Option, none, some, List, [], ◌∷◌, ◌++◌, Try, success, failed,
  arith, inl, inr,
}
use mathlib.Core.List.{Mem, mem-append_left, mem-append_right, mem-cons_self, mem-cons_of_mem}
use kink.Api.{Cluster, ClusterNetwork}
use kink.Platform.{Platform}
use kink.ControlPlane.Certs.Pki.{IpAddress, CertConfig, Kubeadm}
use kink.ControlPlane.Certs.AltNames.{
  AltNames, domain_names, add_endpoint, alt_names_for, svc_subnet, get_api_server_alt_names,
  add_alt_names,
}

abbrev with_names : CertConfig → AltNames → CertConfig
with_names cfg names = record cfg {
  ips = cfg.ips ++ names.ips;
  dns_names = cfg.dns_names ++ names.dns_names;
}

-- The names of every cluster with that service domain and virtual address.
abbrev base_names : ClusterNetwork → IpAddress → AltNames
base_names network ip = record {
  dns_names =
      ("kubernetes" ∷ "kubernetes.default" ∷ "kubernetes.default.svc" ∷ [])
      ++ domain_names network.service_domain;
  ips = ip ∷ [];
}

module _ (P : Platform) (K : Kubeadm) where
  -- The host stands in the certificate, as an address if it is one and as a name otherwise.
  abbrev Covered : String → CertConfig → Option IpAddress → Type 0
  Covered host cfg none = Mem host cfg.dns_names
  Covered host cfg (some ip) = Mem ip cfg.ips

  abbrev pub AnswersTo : String → CertConfig → Type 0
  AnswersTo host cfg = Covered host cfg (K.parse_ip host)

  -- If the cluster has service settings, the virtual address of the API server can be computed and
  -- the endpoint is valid, the mutator does not panic, and the certificate answers to that address,
  -- to the names kubernetes and kubernetes.default.svc, and to the host of the endpoint.
  pub add_alt_names_lem :
      (cfg : CertConfig) (cluster : Cluster) (network : ClusterNetwork) (subnet : String)
      → svc_subnet cluster ≡ some (network, subnet)
      → (virtual_ip : IpAddress) → K.api_server_virtual_ip subnet ≡ success virtual_ip
      → P.endpoint_is_valid cluster.control_plane_endpoint ≡ true
      → (cfg' : CertConfig) × (add_alt_names P K cfg cluster ≡ some cfg')
        × Mem virtual_ip cfg'.ips
        × Mem "kubernetes" cfg'.dns_names
        × Mem "kubernetes.default.svc" cfg'.dns_names
        × AnswersTo cluster.control_plane_endpoint.host cfg'
  unfolding add_alt_names get_api_server_alt_names alt_names_for add_endpoint
  add_alt_names_lem cfg cluster network subnet net virtual_ip vip valid =
      go (K.parse_ip cluster.control_plane_endpoint.host) refl
    where
      go :
          (o : Option IpAddress)
          → K.parse_ip cluster.control_plane_endpoint.host ≡ o
          → (cfg' : CertConfig) × (add_alt_names P K cfg cluster ≡ some cfg')
            × Mem virtual_ip cfg'.ips
            × Mem "kubernetes" cfg'.dns_names
            × Mem "kubernetes.default.svc" cfg'.dns_names
            × Covered cluster.control_plane_endpoint.host cfg' o
      go none e = (
        with_names cfg (record (base_names network virtual_ip) {
          dns_names =
              (base_names network virtual_ip).dns_names
              ++ (cluster.control_plane_endpoint.host ∷ []);
        }),
        ground arith,
        mem-append_right cfg.ips mem-cons_self,
        mem-append_right cfg.dns_names (
            mem-append_left {s = (base_names network virtual_ip).dns_names}
              (cluster.control_plane_endpoint.host ∷ []) mem-cons_self),
        mem-append_right cfg.dns_names (
            mem-append_left {s = (base_names network virtual_ip).dns_names}
              (cluster.control_plane_endpoint.host ∷ [])
              (mem-cons_of_mem "kubernetes" (mem-cons_of_mem "kubernetes.default" mem-cons_self))),
        mem-append_right cfg.dns_names
            (mem-append_right (base_names network virtual_ip).dns_names mem-cons_self),
      )
      go (some ip) e = (
        with_names cfg (record (base_names network virtual_ip) { ips = virtual_ip ∷ ip ∷ [] }),
        ground arith,
        mem-append_right cfg.ips mem-cons_self,
        mem-append_right cfg.dns_names mem-cons_self,
        mem-append_right cfg.dns_names
            (mem-cons_of_mem "kubernetes" (mem-cons_of_mem "kubernetes.default" mem-cons_self)),
        mem-append_right cfg.ips (mem-cons_of_mem virtual_ip mem-cons_self),
      )

  pub add_alt_names-returns :
      (cfg : CertConfig) (cluster : Cluster) (network : ClusterNetwork) (subnet : String)
      → svc_subnet cluster ≡ some (network, subnet)
      → (cfg' : CertConfig) × (add_alt_names P K cfg cluster ≡ some cfg')
  unfolding add_alt_names get_api_server_alt_names alt_names_for
  add_alt_names-returns cfg cluster network subnet net = go (K.api_server_virtual_ip subnet) refl
    where
      go :
          (t : Try IpAddress)
          → K.api_server_virtual_ip subnet ≡ t
          → (cfg' : CertConfig) × (add_alt_names P K cfg cluster ≡ some cfg')
      go (failed e) h = (cfg, ground arith)
      go (success ip) h =
          (with_names cfg (add_endpoint P K cluster (base_names network ip)), ground arith)

  -- The mutator panics exactly if the cluster has no network settings or they name no services.
  pub add_alt_names-panics_iff :
      (cfg : CertConfig) (cluster : Cluster)
      → (add_alt_names P K cfg cluster ≡ none) ↔ (
          (cluster.cluster_network ≡ none)
          ⊎ ((network : ClusterNetwork) × (cluster.cluster_network ≡ some network)
              × (network.services ≡ none)))
  unfolding add_alt_names get_api_server_alt_names svc_subnet
  add_alt_names-panics_iff cfg cluster = go cluster.cluster_network refl
    where
      by_services :
          (network : ClusterNetwork)
          → cluster.cluster_network ≡ some network
          → (o : Option (List String)) → network.services ≡ o
          → (add_alt_names P K cfg cluster ≡ none) ↔ (
              (cluster.cluster_network ≡ none)
              ⊎ ((n : ClusterNetwork) × (cluster.cluster_network ≡ some n) × (n.services ≡ none)))
      by_services network e none e' = (λ _. inr (network, e, e'), λ _. ground arith)
      by_services network e (some []) e' =
          let (_, h) = add_alt_names-returns cfg cluster network "192.168.0.0/24" (ground arith) in
          (λ k. absurd (ground arith), λ k. absurd (ground arith))
      by_services network e (some (block ∷ rest)) e' =
          let (_, h) = add_alt_names-returns cfg cluster network block (ground arith) in
          (λ k. absurd (ground arith), λ k. absurd (ground arith))

      go :
          (o : Option ClusterNetwork)
          → cluster.cluster_network ≡ o
          → (add_alt_names P K cfg cluster ≡ none) ↔ (
              (cluster.cluster_network ≡ none)
              ⊎ ((network : ClusterNetwork) × (cluster.cluster_network ≡ some network)
                  × (network.services ≡ none)))
      go none e = (λ _. inl e, λ _. ground arith)
      go (some network) e = by_services network e network.services refl
