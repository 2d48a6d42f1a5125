-- ===== src/ControlPlane/Status.antt =====
-- `updateKinkCtlPlaneStatus` of kinkcontrolplane_controller.go.
pub mod Counts
use kink.Base.{
  ℤ, pos, ltb_ℤ, inc_int32, true, List, [], ◌∷◌, Action, wrapping, ◌>>=◌, if◌then◌else◌,
}
use kink.Api.{KinkControlPlane, KinkMachine}
use kink.Platform.{Platform}
use kink.Client.{Client, World, read, write, update_control_plane_status}

-- `readyReplicas` and `unavailableReplicas`.
pub record Replicas : Type 0 where
  pub ready : ℤ
  pub unavailable : ℤ

module _ (P : Platform) (kcp : KinkControlPlane) where
  -- The loop over the machines.
  unfoldable pub count_replicas : List KinkMachine → Replicas → Replicas
  count_replicas [] n = n
  count_replicas (m ∷ rest) n = count_replicas rest (
      if P.is_controlled_by m.meta kcp.meta
      then if m.status.ready
        then record n { ready = inc_int32 n.ready }
        else record n { unavailable = inc_int32 n.unavailable }
      else n)

-- The assignments behind the loop.
unfoldable pub with_replicas : KinkControlPlane → Replicas → KinkControlPlane
with_replicas kcp n =
    let up = ltb_ℤ (pos 0) n.ready in
    record kcp {
      status = record (kcp.status) {
        ready_replicas = n.ready;
        unavailable_replicas = n.unavailable;
        initialized = up;
        ready = up;
        external_managed_control_plane = true;
      };
    }

abbrev pub no_replicas : Replicas
no_replicas = record { ready = pos 0; unavailable = pos 0 }

module _ (P : Platform) {C : Client} where
  unfoldable pub report_control_plane_status : KinkControlPlane → Action (World C) (Unit {0})
  report_control_plane_status kcp = do
    kms ←
        wrapping "failed to list machines"
          (read (C.list_machines kcp.meta.namespace kcp.spec.cluster_name))
    write (update_control_plane_status (with_replicas kcp (count_replicas P kcp kms no_replicas)))
