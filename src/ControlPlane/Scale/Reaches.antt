-- ===== src/ControlPlane/Scale/Reaches.antt =====
-- `lookupOrCreateMachines` as a whole.
use mathlib.Core.List.{reverse}
use kink.Base.{
  ℕ, ◌-◌, ◌<◌, ◌≤◌, pos, negsuc, ltb_ℤ, to_int32, to_int32_small, int32_half, true, ◌≡◌, refl, List,
  ◌++◌, append-nil, append_assoc, map, length, drop, drop_all, take_all, ok, panic, success, arith,
  dec_lt, wrapping, suc, zero, ◌∙◌, ap, >>=-ok,
}
use kink.Api.{Cluster, KinkControlPlane, KinkMachine}
use kink.Platform.{Platform}
use kink.Client.{Client, NeverPanics, World, read, delete_machine}
use kink.ControlPlane.Scale.{
  loop_rounds, desired_replicas, create_machines, delete_machines, scale_machines,
  lookup_or_create_machines,
}
use kink.ControlPlane.Scale.Creates.{
  creation, generated_names, length-generated_names, create_machines_lem,
}
use kink.ControlPlane.Scale.Deletes.{rounds_enough, delete_machines-none, delete_machines-down}

above-pos :
    (kms : List KinkMachine) (r j : ℕ)
    → length kms < int32_half
    → r < j
    → j ≤ length kms
    → ltb_ℤ (pos r) (to_int32 j) ≡ true
above-pos kms r j small a b = ground (arith, to_int32_small j)

above-negsuc :
    (kms : List KinkMachine) (k j : ℕ)
    → length kms < int32_half
    → j ≤ length kms
    → ltb_ℤ (negsuc k) (to_int32 j) ≡ true
above-negsuc kms k j small b = ground (arith, to_int32_small j)

module _ {C : Client} (calm : NeverPanics C) (kms : List KinkMachine)
    (small : length kms < int32_half) where
  delete_at_bound :
      (rounds r : ℕ) (w : World C)
      → r < int32_half
      → delete_machines (suc rounds) r (pos r) kms w ≡ (ok tt, w)
  delete_at_bound rounds r w h =
      delete_machines-none kms (suc rounds) r r w h (omega arith) (omega arith)

  delete_from_zero :
      (rounds k : ℕ) (w : World C) → delete_machines (suc rounds) 0 (negsuc k) kms w ≡ (panic, w)
  unfolding delete_machines
  delete_from_zero rounds k w = ground (arith, to_int32_small 0)

  delete_machines_lem :
      (r : ℕ) (w : World C)
      → r < int32_half
      → (w' : World C) × (delete_machines loop_rounds (length kms) (pos r) kms w ≡ (ok tt, w'))
        × (w'.calls ≡ w.calls ++ map delete_machine (reverse (drop r kms)))
  delete_machines_lem r w h = elim (dec_lt (length kms) r) [
    | yes few ↦ (
      w,
      delete_machines-none kms loop_rounds (length kms) r w small (omega arith)
          (rounds_enough 0 (omega arith)),
      rw (drop_all r kms (omega arith), append-nil),
    )
    | no many ↦
        let (rounds, w', ran, calls) =
          delete_machines-down calm (pos r) kms (length kms) loop_rounds r w (omega arith)
            (omega arith) (rounds_enough (length kms - r) (omega arith))
            (λ j a b. above-pos kms r j small a b) in
        (
          w',
          ran ∙ delete_at_bound rounds r w' h,
          calls ∙ ap (λ t. w.calls ++ map delete_machine (reverse (drop r t))) (take_all kms),
        )
  ]

  delete_machines_negative :
      (k : ℕ) (w : World C)
      → (w' : World C) × (delete_machines loop_rounds (length kms) (negsuc k) kms w ≡ (panic, w'))
        × (w'.calls ≡ w.calls ++ map delete_machine (reverse kms))
  delete_machines_negative k w =
      let (rounds, w', ran, calls) =
        delete_machines-down calm (negsuc k) kms (length kms) loop_rounds 0 w (omega arith)
          (omega arith) (rounds_enough (length kms - 0) (omega arith))
          (λ j _ b. above-negsuc kms k j small b) in
      (
        w',
        ran ∙ delete_from_zero rounds k w',
        calls ∙ ap (λ t. w.calls ++ map delete_machine (reverse t)) (take_all kms),
      )

module _ (P : Platform) {C : Client} (cluster : Cluster) (kcp : KinkControlPlane) where
  create_none :
      (rounds n k : ℕ) (w : World C)
      → n < int32_half
      → 0 < rounds
      → create_machines P cluster kcp rounds n (negsuc k) w ≡ (ok tt, w)
  unfolding create_machines
  create_none zero n k w m h = elim h [ ]
  create_none (suc rounds) n k w m h = ground (arith, to_int32_small n)

module _ (P : Platform) {C : Client} (calm : NeverPanics C) (cluster : Cluster)
    (kcp : KinkControlPlane) (kms : List KinkMachine) (w : World C) {s : C.State}
    (listed : C.list_machines cluster.meta.namespace cluster.meta.name w.server ≡ (success kms, s))
    (small : length kms < int32_half) where
  run_scale :
      lookup_or_create_machines P cluster kcp w
      ≡ scale_machines P cluster kcp kms (desired_replicas kcp) (record w { server = s })
  unfolding lookup_or_create_machines
  run_scale =
      let list =
        wrapping "failed to list machines"
          (read {C = C} (C.list_machines cluster.meta.namespace cluster.meta.name)) in
      >>=-ok list (λ kms. scale_machines P cluster kcp kms (desired_replicas kcp)) w (ground arith)

  -- With `r` machines wanted and `kms` listed, both below 2 ^ 31 in number, and no call that
  -- panics, the loops end without an error. They have tried to create `r - length kms` machines, each
  -- under the name that the generator gives just before the call, with the labels and the owner of
  -- this control plane, and then to delete the listed machines from the index `r` on, the last one
  -- first. A creation or a deletion that fails changes nothing of this.
  pub lookup_or_create_machines_lem :
      (r : ℕ)
      → desired_replicas kcp ≡ pos r
      → r < int32_half
      → let names = generated_names P C cluster kcp (r - length kms) s in
        (length names ≡ r - length kms)
        × ((w' : World C) × (lookup_or_create_machines P cluster kcp w ≡ (ok tt, w'))
            × (w'.calls
                ≡ w.calls
                  ++ (map (creation P cluster kcp) names
                      ++ map delete_machine (reverse (drop r kms)))))
  unfolding scale_machines
  lookup_or_create_machines_lem r wanted bound =
      let w1 : World C = record w { server = s } in
      let n = r - length kms in
      let (w2, made, created) =
        create_machines_lem P calm cluster kcp loop_rounds (length kms) r n w1 bound small refl
          (rounds_enough n (omega arith)) in
      let (w3, cut, deleted) = delete_machines_lem calm kms small r w2 bound in
      (
        length-generated_names P C cluster kcp n s,
        (
          w3,
          run_scale
              ∙ (rw wanted (
                    >>=-ok (create_machines P cluster kcp loop_rounds (length kms) (pos r))
                      (λ _. delete_machines loop_rounds (length kms) (pos r) kms) w1 made)
                  ∙ cut),
          deleted
              ∙ (ap (λ t. t ++ map delete_machine (reverse (drop r kms))) created
                  ∙ append_assoc w.calls _ _),
        ),
      )

  -- With a negative number of machines wanted, fewer than 2 ^ 31 listed and no call that panics,
  -- the controller tries to delete every listed machine, the last one first, and then panics
  -- itself.
  pub lookup_or_create_machines_negative :
      (k : ℕ)
      → desired_replicas kcp ≡ negsuc k
      → (w' : World C) × (lookup_or_create_machines P cluster kcp w ≡ (panic, w'))
        × (w'.calls ≡ w.calls ++ map delete_machine (reverse kms))
  unfolding scale_machines
  lookup_or_create_machines_negative k wanted =
      let w1 : World C = record w { server = s } in
      let (w3, cut, deleted) = delete_machines_negative calm kms small k w1 in
      (
        w3,
        run_scale
            ∙ (rw wanted (
                  >>=-ok (create_machines P cluster kcp loop_rounds (length kms) (negsuc k))
                    (λ _. delete_machines loop_rounds (length kms) (negsuc k) kms) w1
                    (create_none P cluster kcp loop_rounds (length kms) k w1 small
                      (rounds_enough 0 (omega arith))))
                ∙ cut),
        deleted,
      )
