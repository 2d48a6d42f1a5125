-- ===== src/ControlPlane/Controller/Frame.antt =====
-- The calls that a round of the control plane's controller is allowed to make.
pub mod Parts
pub mod Keys
pub mod Scaling
pub mod Round
pub mod Whole
use kink.Base.{
  ℕ, zero, suc, ◌-◌, ℤ, ltb_ℤ, to_int32, String, ◌<>◌, ◌≡◌, refl, Bool, true, false, Option, none,
  some, List, [], ◌∷◌, get_elem?, Try, success, failed, is_not_found, Action, pure, raise, attempt,
  wrapping, or_panic, or_raise, panicking, ◌>>=◌, ◌>>◌, arith, Result,
}
use kink.Api.{
  NamespacedName, Cluster, KinkControlPlane, KinkMachine, Secret, control_plane_group_version,
}
use kink.Platform.{Platform}
use kink.Client.{
  Client, Call, World, read, write, range, generate, create_machine, delete_machine,
  update_machine_status, create_pod, create_service, create_secret, create_nil_secret,
  create_kubeconfig, update_control_plane_status, update_cluster_status,
}
use kink.Client.Grows.{
  Grows, Adds-none, >>=-Grows, attempt-Grows, wrapping-Grows, read-Grows, write-Grows,
  or_panic-Grows, or_raise-Grows, generate-Grows, read->>=-Grows,
}
use kink.Reconcile.{Outcome, done, retry, retry_with}
use kink.ControlPlane.Certs.Pki.{KinkCert, Kubeadm, Pki}
use kink.ControlPlane.Certs.Catalogue.{get_config, get_certs}
use kink.ControlPlane.Certs.Tree.{CertificateTree, as_map, cert_tree_from}
use kink.ControlPlane.Certs.Secrets.{
  secret_key, secret_with, write_failure, create_ca_secret, create_sa_secret, build_sa_secret,
  create_from_ca,
}
use kink.ControlPlane.Certs.Manager.{
  create_leaves, store_ca, create_ca, create_cas, create_tree, lookup_or_generate_cas, cluster_key,
  kubeconfig_key, lookup_or_generate_kubeconfig,
}
use kink.ControlPlane.Certs.Manager.Issued.{create_ca_secret-Grows}
use kink.ControlPlane.Scale.{
  loop_rounds, desired_replicas, item_before, new_machine, create_machines, delete_machines,
  scale_machines, lookup_or_create_machines,
}
use kink.ControlPlane.Status.{
  report_control_plane_status, with_replicas, count_replicas, no_replicas,
}
use kink.ControlPlane.Controller.{provision}

module _ (P : Platform) (C : Client) (cluster : Cluster) (kcp : KinkControlPlane) where
  -- The machine was listed for the cluster.
  abbrev pub WasListed : KinkMachine → Type 0
  WasListed m =
      (s : C.State) × (kms : List KinkMachine) × (i : ℕ) × ((C.list_machines cluster.meta.namespace
          cluster.meta.name s).0
        ≡ success kms)
      × (get_elem? kms i ≡ some m)

  -- What the controller may do for one control plane.
  abbrev pub IsAllowed : Call → Type 0
  IsAllowed (create_secret sec) =
      (name crt key : String) × (sec ≡ secret_with P kcp cluster name crt key)
  IsAllowed create_nil_secret = Unit
  IsAllowed (create_kubeconfig key endpoint owner) =
      (key ≡ cluster_key cluster)
      × (owner ≡ P.new_controller_ref kcp.meta control_plane_group_version "KinkControlPlane")
  IsAllowed (create_machine m) = (name : String) × (m ≡ new_machine P cluster kcp name)
  IsAllowed (delete_machine m) = WasListed m
  IsAllowed (update_control_plane_status k) = (k.meta ≡ kcp.meta) × (k.spec ≡ kcp.spec)
  IsAllowed _ = ⊥

  -- Those that are not about secrets.
  abbrev pub IsScaling : Call → Type 0
  IsScaling (create_machine m) = (name : String) × (m ≡ new_machine P cluster kcp name)
  IsScaling (delete_machine m) = WasListed m
  IsScaling (update_control_plane_status k) = (k.meta ≡ kcp.meta) × (k.spec ≡ kcp.spec)
  IsScaling _ = ⊥

  pub IsScaling-IsAllowed : (call : Call) → IsScaling call → IsAllowed call
  IsScaling-IsAllowed (create_machine m) h = h
  IsScaling-IsAllowed (delete_machine m) h = h
  IsScaling-IsAllowed (update_control_plane_status k) h = h
  IsScaling-IsAllowed (create_secret sec) h = absurd h
  IsScaling-IsAllowed create_nil_secret h = absurd h
  IsScaling-IsAllowed (create_kubeconfig key endpoint owner) h = absurd h
  IsScaling-IsAllowed (create_pod p) h = absurd h
  IsScaling-IsAllowed (create_service x) h = absurd h
  IsScaling-IsAllowed (update_machine_status m) h = absurd h
  IsScaling-IsAllowed (update_cluster_status k) h = absurd h

module _ (P : Platform) {C : Client} (pki : Pki C) (cluster : Cluster)
    (kcp : KinkControlPlane) where
  abbrev pub Stays : {A : Type 0} → Action (World C) A → Type 0
  Stays = Grows (IsAllowed P C cluster kcp)

  pub pure-Stays : {A : Type 0} (a : A) → Stays (pure a)
  pure-Stays a w = Adds-none (IsAllowed P C cluster kcp) w

  pub secret-Stays :
      (k : KinkCert) (crt : pki.Certificate) (key : pki.Signer)
      → Stays (create_ca_secret P pki kcp cluster k crt key)
  secret-Stays k crt key =
      create_ca_secret-Grows P pki kcp cluster (IsAllowed P C cluster kcp) k crt key
        (λ call (private, _, built). rw built (_, _, _, refl))
