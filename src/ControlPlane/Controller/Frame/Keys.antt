-- ===== src/ControlPlane/Controller/Frame/Keys.antt =====
-- The certificates and the kubeconfig, and the calls that are allowed.
use kink.Base.{
  String, refl, Bool, true, false, Option, none, some, Try, success, failed, is_not_found, Action,
  pure, raise, attempt, Error,
}
use kink.Api.{Cluster, KinkControlPlane, Secret, control_plane_group_version}
use kink.Platform.{Platform}
use kink.Client.{
  Client, Call, World, read, write, create_secret, create_nil_secret, create_kubeconfig,
}
use kink.Client.Grows.{Grows, Adds-none, >>=-Grows, attempt-Grows, read-Grows, write-Grows}
use kink.ControlPlane.Certs.Pki.{Kubeadm, Pki}
use kink.ControlPlane.Certs.Secrets.{secret_key, secret_with, create_sa_secret, build_sa_secret}
use kink.ControlPlane.Certs.Manager.{
  lookup_or_generate_cas, cluster_key, kubeconfig_key, lookup_or_generate_kubeconfig,
}
use kink.ControlPlane.Certs.Tree.Held.{held_leaf, held_branch, every-true}
use kink.ControlPlane.Certs.Manager.Calls.{cas_round-Grows}
use kink.ControlPlane.Controller.Frame.{IsAllowed, pure-Stays, secret-Stays}

module _ (P : Platform) {C : Client} (pki : Pki C) (cluster : Cluster)
    (kcp : KinkControlPlane) where
  abbrev Q : Call → Type 0
  Q = IsAllowed P C cluster kcp

  raise-Stays : (e : Error) → Grows Q (raise {W = World C} {A = Unit {0}} e)
  raise-Stays e w = Adds-none Q w

  sa-Stays :
      (name : String) (crt : pki.RsaPublicKey) (key : pki.RsaPrivateKey)
      → Grows Q (create_sa_secret P pki kcp cluster name crt key)
  unfolding create_sa_secret build_sa_secret
  sa-Stays name crt key =
      let get = read {C = C} (C.get_secret (secret_key cluster name)) in
      let built = build_sa_secret P pki kcp cluster name crt key in
      let create : Option Secret → Action (World C) (Unit {0}) =
        λ o. elim o [ none ↦ write create_nil_secret | some sec ↦ write (create_secret sec) ] in
      let next : Try Secret → Action (World C) (Unit {0}) = λ t. elim t [
        | success _ ↦ pure tt
        | failed e ↦ elim (is_not_found e) [ true ↦ create built | false ↦ raise e ]
      ] in
      let written : Grows Q (create built) =
        elim (pki.encode_public_key_pem crt)
          as (λ t. Grows Q (
            create (elim t [
              | failed e ↦ none
              | success text ↦
                  some (secret_with P kcp cluster name text (pki.encode_private_key_pem key))
            ]))) [
              | failed e ↦ write-Grows Q create_nil_secret tt
              | success text ↦
                  write-Grows Q
                    (create_secret
                      (secret_with P kcp cluster name text (pki.encode_private_key_pem key)))
                    (_, _, _, refl)
            ] in
      let missing : (e : Error) (b : Bool)
          → Grows Q (elim b as (λ _. Action (World C) (Unit {0})) [
            | true ↦ create built
            | false ↦ raise e
          ]) =
        λ e b.
          elim b
            as (λ b. Grows Q (elim b as (λ _. Action (World C) (Unit {0})) [
              | true ↦ create built
              | false ↦ raise e
            ])) [ true ↦ written | false ↦ raise-Stays e ] in
      >>=-Grows Q (attempt get) next
        (attempt-Grows Q get (read-Grows Q (C.get_secret (secret_key cluster name))))
        (λ t. elim t as (λ t. Grows Q (next t)) [
          | success _ ↦ pure-Stays P pki cluster kcp tt
          | failed e ↦ missing e (is_not_found e)
        ])

  pub cas_round-Stays : (K : Kubeadm) → Grows Q (lookup_or_generate_cas P pki kcp cluster K)
  cas_round-Stays K =
      let every_name : String → Bool = λ name. true in
      cas_round-Grows P pki cluster kcp Q every_name
        (λ k crt key _. secret-Stays P pki cluster kcp k crt key) (sa-Stays "sa") K
        (λ s t tree _.
          every-true (held_branch every_name)
            (λ b. every-true (held_leaf every_name) (λ k. refl) b.1) (C.range_order _ t tree))

  pub kubeconfig-Stays : Grows {C = C} Q (lookup_or_generate_kubeconfig P kcp cluster)
  unfolding lookup_or_generate_kubeconfig
  kubeconfig-Stays =
      let get = read {C = C} (C.get_secret (kubeconfig_key P cluster)) in
      let owner = P.new_controller_ref kcp.meta control_plane_group_version "KinkControlPlane" in
      let create : Action (World C) (Unit {0}) = write (
        create_kubeconfig (cluster_key cluster) (P.endpoint_string cluster.control_plane_endpoint)
          owner) in
      let missing : (e : Error) (b : Bool)
          → Grows Q
              (elim b as (λ _. Action (World C) (Unit {0})) [ true ↦ create | false ↦ raise e ]) =
        λ e b.
          elim b
            as (λ b.
              Grows Q (elim b as (λ _. Action (World C) (Unit {0})) [
                | true ↦ create
                | false ↦ raise e
              ])) [
                | true ↦
                    write-Grows Q
                      (create_kubeconfig (cluster_key cluster)
                        (P.endpoint_string cluster.control_plane_endpoint) owner)
                      (refl, refl)
                | false ↦ raise-Stays e
              ] in
      let next : Try Secret → Action (World C) (Unit {0}) = λ t. elim t [
        | success _ ↦ pure tt
        | failed e ↦ elim (is_not_found e) [ true ↦ create | false ↦ raise e ]
      ] in
      >>=-Grows Q (attempt get) next
        (attempt-Grows Q get (read-Grows Q (C.get_secret (kubeconfig_key P cluster))))
        (λ t. elim t as (λ t. Grows Q (next t)) [
          | success _ ↦ pure-Stays P pki cluster kcp tt
          | failed e ↦ missing e (is_not_found e)
        ])
