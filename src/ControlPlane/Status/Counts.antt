-- ===== src/ControlPlane/Status/Counts.antt =====
-- The numbers that the status of a control plane reports.
use kink.Base.{
  count, ℕ, suc, ◌+◌, ◌<◌, ◌≤◌, pos, int32_half, Bool, true, ◌&&◌, not, ◌≡◌, ◌↔◌, refl, List, [],
  ◌∷◌, ◌++◌, length, success, arith,
}
use kink.Api.{KinkControlPlane, KinkMachine}
use kink.Platform.{Platform}
use kink.Client.{Client, World, update_control_plane_status}
use kink.ControlPlane.Status.{
  count_replicas, with_replicas, no_replicas, report_control_plane_status,
}

-- The number of items that pass a test.

count-le-length {ℓ} : {A : Type ℓ} (p : A → Bool) (xs : List A) → count p xs ≤ length xs
count-le-length p [] = omega arith
count-le-length p (x ∷ xs) = ground (arith, count-le-length p xs)

module _ (P : Platform) (kcp : KinkControlPlane) where
  abbrev pub is_ready : KinkMachine → Bool
  is_ready m = P.is_controlled_by m.meta kcp.meta && m.status.ready

  abbrev pub is_unavailable : KinkMachine → Bool
  is_unavailable m = P.is_controlled_by m.meta kcp.meta && not m.status.ready

  abbrev pub is_ours : KinkMachine → Bool
  is_ours m = P.is_controlled_by m.meta kcp.meta

  count_replicas-from :
      (kms : List KinkMachine) (a b : ℕ)
      → a + length kms < int32_half
      → b + length kms < int32_half
      → count_replicas P kcp kms (record { ready = pos a; unavailable = pos b }) ≡ record {
        ready = pos (a + count is_ready kms);
        unavailable = pos (b + count is_unavailable kms);
      }
  unfolding count_replicas
  count_replicas-from [] a b h k = ground arith
  count_replicas-from (m ∷ kms) a b h k = ground (
    arith,
    count_replicas-from kms (suc a) b,
    count_replicas-from kms a (suc b),
    count_replicas-from kms a b,
  )

  pub count_replicas_lem :
      (kms : List KinkMachine)
      → length kms < int32_half
      → count_replicas P kcp kms no_replicas
        ≡ record { ready = pos (count is_ready kms); unavailable = pos (count is_unavailable kms) }
  count_replicas_lem kms h = ground (arith, count_replicas-from kms 0 0)

  count-split :
      (kms : List KinkMachine) → count is_ready kms + count is_unavailable kms ≡ count is_ours kms
  count-split [] = omega arith
  count-split (m ∷ kms) = ground (arith, count-split kms)

  module _ {C : Client} (w : World C) (kms : List KinkMachine) {s : C.State}
      (listed : C.list_machines kcp.meta.namespace kcp.spec.cluster_name w.server
        ≡ (success kms, s))
      (small : length kms < int32_half) where
    -- After a listing of fewer than 2 ^ 31 machines, the controller writes the status once. Of the
    -- listed machines that this control plane controls it counts the ready ones and the others, and
    -- misses none, and counts none that is not listed; it reports itself ready and initialized, both,
    -- exactly when some machine is ready, without asking for a configmap; it declares that the control
    -- plane is managed externally, and changes neither metadata nor spec.
    pub report_control_plane_status-counts :
        (k : KinkControlPlane) × ((report_control_plane_status P kcp w).1.calls
          ≡ w.calls ++ (update_control_plane_status k ∷ []))
        × (k.status.ready_replicas ≡ pos (count is_ready kms))
        × (k.status.unavailable_replicas ≡ pos (count is_unavailable kms))
        × (count is_ready kms + count is_unavailable kms ≡ count is_ours kms)
        × ((k.status.ready ≡ true) ↔ (0 < count is_ready kms))
        × (k.status.initialized ≡ k.status.ready)
        × (k.status.external_managed_control_plane ≡ true)
        × (k.meta ≡ kcp.meta)
        × (k.spec ≡ kcp.spec)
    unfolding report_control_plane_status with_replicas
    report_control_plane_status-counts =
        let counted = count_replicas_lem kms small in
        (
          with_replicas kcp (count_replicas P kcp kms no_replicas),
          ground arith,
          ground arith,
          ground arith,
          count-split kms,
          ground arith,
          refl,
          refl,
          refl,
          refl,
        )
