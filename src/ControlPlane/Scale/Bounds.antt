-- ===== src/ControlPlane/Scale/Bounds.antt =====
-- The loops of the scaling on lists of any length, where the index wraps in its conversion to `int32`.
use kink.Base.{
  ℕ, zero, suc, ◌+◌, ◌-◌, ◌%◌, ◌<◌, ◌≤◌, pos, ltb_ℤ, to_int32, int32_half, int32_mod, String, ◌<>◌,
  ◌≡◌, refl, sym, ◌∙◌, >>=-ok, to_int32_small, true, List, [], ◌∷◌, ◌++◌, append-nil, append_assoc,
  map, length, length-append, length-map, ap, get_elem?-some, ok, arith, Bool-cases, inl, inr,
  if◌then◌else◌, Try, success, failed, IsReturned,
}
use kink.Api.{Cluster, KinkControlPlane, KinkMachine}
use kink.Platform.{Platform}
use kink.Client.{Client, Call, NeverPanics, World, submitted, delete_machine}
use kink.ControlPlane.Scale.{
  loop_rounds, create_machines, delete_machines, scale_machines, lookup_or_create_machines,
  desired_replicas,
}
use kink.ControlPlane.Scale.Creates.{creation}

-- How far `int32(i)` is below `r`, upwards and with its wrap.
abbrev gap : ℕ → ℕ → ℕ
gap r i = if ltb_ℤ (to_int32 i) (pos r) then (r + int32_mod - i % int32_mod) % int32_mod else 0

-- How far it is above.
abbrev excess : ℕ → ℕ → ℕ
excess r i = if ltb_ℤ (pos r) (to_int32 i) then i % int32_mod - r else 0

gap-suc :
    (r i : ℕ) → r < int32_half → ltb_ℤ (to_int32 i) (pos r) ≡ true → gap r i ≡ suc (gap r (suc i))
unfolding to_int32
gap-suc r i small more = ground arith

excess-suc :
    (r i : ℕ)
    → r < int32_half
    → ltb_ℤ (pos r) (to_int32 (suc i)) ≡ true
    → excess r (suc i) ≡ suc (excess r i)
unfolding to_int32
excess-suc r i small more = ground arith

not_both : (r i : ℕ) → r < int32_half → gap r i + excess r i < int32_mod
unfolding to_int32
not_both r i small = ground arith

module _ (P : Platform) {C : Client} (calm : NeverPanics C) (cluster : Cluster)
    (kcp : KinkControlPlane) where
  create_machines-gap :
      (rounds i r : ℕ) (w : World C)
      → r < int32_half
      → gap r i < rounds
      → (names : List String) × (w' : World C) × (create_machines P cluster kcp rounds i (pos r) w
          ≡ (ok tt, w'))
        × (length names ≡ gap r i)
        × (w'.calls ≡ w.calls ++ map (creation P cluster kcp) names)
  unfolding create_machines
  create_machines-gap zero i r w small h = elim h [ ]
  create_machines-gap (suc rounds) i r w small h = elim (Bool-cases (ltb_ℤ (to_int32 i) (pos r))) [
    | inl more ↦
        let (name, s) = C.generate_name (cluster.meta.name <> "-") w.server in
        let w1 : World C = record { server = s; calls = w.calls } in
        let step = gap-suc r i small more in
        let (names, w', ran, count, calls) =
          create_machines-gap rounds (suc i) r (submitted (creation P cluster kcp name) w1) small
            (omega (arith, step)) in
        (
          name ∷ names,
          w',
          ground (arith, calm (creation P cluster kcp name) s tt),
          ap suc count ∙ sym step,
          ground (
            arith,
            append_assoc w.calls (creation P cluster kcp name ∷ [])
                (map (creation P cluster kcp) names),
          ),
        )
    | inr stop ↦ ([], w, ground arith, ground arith, ground (arith, append-nil w.calls))
  ]

module _ {C : Client} (calm : NeverPanics C) (items : List KinkMachine) where
  delete_machines-excess :
      (rounds i r : ℕ) (w : World C)
      → r < int32_half
      → i ≤ length items
      → excess r i < rounds
      → (gone : List KinkMachine) × (w' : World C) × (delete_machines rounds i (pos r) items w
          ≡ (ok tt, w'))
        × (length gone ≡ excess r i)
        × (w'.calls ≡ w.calls ++ map delete_machine gone)
  unfolding delete_machines
  delete_machines-excess zero i r w small within h = elim h [ ]
  delete_machines-excess (suc rounds) zero r w small within h =
      let start = to_int32_small 0 (omega arith) in
      ([], w, ground (arith, start), ground (arith, start), ground (arith, append-nil w.calls))
  delete_machines-excess (suc rounds) (suc i) r w small within h =
      elim (Bool-cases (ltb_ℤ (pos r) (to_int32 (suc i)))) [
        | inl more ↦
            let (m, found) = get_elem?-some items i within in
            let step = excess-suc r i small more in
            let (gone, w', ran, count, calls) =
              delete_machines-excess rounds i r (submitted (delete_machine m) w) small (omega arith)
                (omega (arith, step)) in
            (
              m ∷ gone,
              w',
              ground (arith, calm (delete_machine m) w.server tt),
              ap suc count ∙ sym step,
              ground
                  (arith, append_assoc w.calls (delete_machine m ∷ []) (map delete_machine gone)),
            )
        | inr stop ↦ ([], w, ground arith, ground arith, ground (arith, append-nil w.calls))
      ]

gap_bound : (r i : ℕ) → r < int32_half → gap r i < loop_rounds
unfolding loop_rounds to_int32
gap_bound r i small = ground arith

excess_bound : (r i : ℕ) → r < int32_half → excess r i < loop_rounds
unfolding loop_rounds to_int32
excess_bound r i small = ground arith

module _ (P : Platform) {C : Client} (calm : NeverPanics C) (cluster : Cluster)
    (kcp : KinkControlPlane) (r : ℕ) (small : r < int32_half) where
  scale_machines-Bounded :
      (kms : List KinkMachine) (w : World C)
      → (new : List Call) × (w' : World C) × (scale_machines P cluster kcp kms (pos r) w
          ≡ (ok tt, w'))
        × (w'.calls ≡ w.calls ++ new)
        × (length new < int32_mod)
  unfolding scale_machines
  scale_machines-Bounded kms w =
      let n = length kms in
      let (names, v, created, count, calls) =
        create_machines-gap P calm cluster kcp loop_rounds n r w small (gap_bound r n small) in
      let (gone, w', deleted, count', calls') =
        delete_machines-excess calm kms loop_rounds n r v small (omega arith)
          (excess_bound r n small) in
      let made = map (creation P cluster kcp) names in
      let lost = map delete_machine gone in
      (
        made ++ lost,
        w',
        >>=-ok (create_machines P cluster kcp loop_rounds n (pos r))
              (λ _. delete_machines loop_rounds n (pos r) kms) w created
            ∙ deleted,
        rw (calls', calls) (append_assoc w.calls made lost),
        omega (
          arith,
          length-append made lost,
          length-map (creation P cluster kcp) names,
          length-map delete_machine gone,
          not_both r n small,
          count,
          count',
        ),
      )

  -- If no write call panics and the number of replicas is a non-negative `int32`, then the scaling of
  -- the machines returns, however many machines the server lists, also where the conversion of the
  -- loops' index to `int32` wraps, and it makes fewer than 2 ^ 32 write calls.
  pub lookup_or_create_machines_bounds :
      desired_replicas kcp ≡ pos r
      → (w : World C)
      → IsReturned (lookup_or_create_machines P cluster kcp w).0
        × ((new : List Call) × ((lookup_or_create_machines P cluster kcp w).1.calls
              ≡ w.calls ++ new)
            × (length new < int32_mod))
  unfolding lookup_or_create_machines
  lookup_or_create_machines_bounds desired w =
      go (C.list_machines cluster.meta.namespace cluster.meta.name w.server) refl
    where
      go :
          (t : Try (List KinkMachine) × C.State)
          → C.list_machines cluster.meta.namespace cluster.meta.name w.server ≡ t
          → IsReturned (lookup_or_create_machines P cluster kcp w).0
            × ((new : List Call) × ((lookup_or_create_machines P cluster kcp w).1.calls
                  ≡ w.calls ++ new)
                × (length new < int32_mod))
      go (failed x, s) e = (ground arith, ([], ground (arith, append-nil w.calls), omega arith))
      go (success kms, s) e =
          let (new, w', ran, calls, few) = scale_machines-Bounded kms (record w { server = s }) in
          (ground (arith, desired), (new, ground (arith, desired), few))
