-- ===== src/Infrastructure/ClusterController/MarksReady.antt =====
-- What `Reconcile` of a KinkCluster does.
use kink.Base.{
  ◌≡◌, refl, [], ◌∷◌, ◌++◌, success, failed, ok, err, panic, out_of_rounds, Try, Result, Error,
  is_not_found, arith, ◌⊎◌, inl, inr, if◌then◌else◌,
}
use kink.Api.{NamespacedName, KinkCluster}
use kink.Client.{Client, World, update_cluster_status}
use kink.Reconcile.{Outcome, done, retry, retry_with}
use kink.Infrastructure.ClusterController.{reconcile_cluster, mark_ready}

-- The end of a round by the answer to its write call.
abbrev pub EndsAs : Result (Unit {0}) → Outcome → Type 0
EndsAs answer o =
    ((answer ≡ ok tt) × (o ≡ done)) ⊎ ((e : Error) × (answer ≡ err e) × (o ≡ retry_with e))

module _ {C : Client} (req : NamespacedName) (w w' : World C) (o : Outcome) where
  -- The object was not handed out, or it was and has been written.
  abbrev pub MarksReady : Type 0
  MarksReady =
      ((e : Error) × ((C.get_kink_cluster req w.server).0 ≡ failed e)
        × (w'.calls ≡ w.calls)
        × (o ≡ (if is_not_found e then done else retry)))
      ⊎ ((k : KinkCluster) × ((C.get_kink_cluster req w.server).0 ≡ success k)
          × (w'.calls ≡ w.calls ++ (update_cluster_status (mark_ready k) ∷ []))
          × EndsAs
              (C.submit (update_cluster_status (mark_ready k))
                (C.get_kink_cluster req w.server).1).0
              o)

  -- A round that returns has made no write call, and it has ended without an error because the
  -- server did not hand out the object, with a retry exactly if the server did not say that there is
  -- none; or it has written once: the object as the server holds it, with its status ready and
  -- nothing else changed. In the second case it ends without a retry and an error if this call
  -- succeeded, and otherwise with a retry and the call's error.
  pub reconcile_cluster_lem : reconcile_cluster req w ≡ (ok o, w') → MarksReady
  unfolding reconcile_cluster
  reconcile_cluster_lem h = go (C.get_kink_cluster req w.server) refl
    where
      answered :
          (k : KinkCluster) (s : C.State) (answer : Result (Unit {0}))
          → C.get_kink_cluster req w.server ≡ (success k, s)
          → (C.submit (update_cluster_status (mark_ready k)) s).0 ≡ answer
          → EndsAs answer o
      answered k s (ok tt) g a = inl (refl, ground arith)
      answered k s (err e) g a = inr (e, refl, ground arith)
      answered k s panic g a = absurd (ground arith)
      answered k s out_of_rounds g a = absurd (ground arith)

      go : (r : Try KinkCluster × C.State) → C.get_kink_cluster req w.server ≡ r → MarksReady
      go (failed e, s) g = inl (e, ground arith, ground arith, ground arith)
      go (success k, s) g = inr (
        k,
        ground arith,
        ground arith,
        rw g (answered k s (C.submit (update_cluster_status (mark_ready k)) s).0 g refl),
      )
