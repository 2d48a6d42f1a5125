-- ===== src/ControlPlane/Scale/Creates.antt =====
-- The loop that creates machines.
use kink.Base.{
  refl, ℕ, zero, suc, ◌-◌, ◌<◌, ◌≤◌, pos, to_int32_small, int32_half, String, ◌<>◌, ◌≡◌, List, [],
  ◌∷◌, ◌++◌, append-nil, append_assoc, map, length, ok, arith, ap, ◌∙◌,
}
use kink.Api.{Cluster, KinkControlPlane}
use kink.Platform.{Platform}
use kink.Client.{Client, Call, NeverPanics, World, submitted, create_machine}
use kink.ControlPlane.Scale.{create_machines, new_machine}

-- The call for a machine of this name.
abbrev pub creation : Platform → Cluster → KinkControlPlane → String → Call
creation P cluster kcp name = create_machine (new_machine P cluster kcp name)

-- The names of so many creations from this state on: each is generated before its call.
abbrev pub generated_names :
    Platform → (C : Client) → Cluster → KinkControlPlane → ℕ → C.State → List String
generated_names P C cluster kcp zero s = []
generated_names P C cluster kcp (suc n) s =
    let (name, t) = C.generate_name (cluster.meta.name <> "-") s in
    name ∷ generated_names P C cluster kcp n (C.submit (creation P cluster kcp name) t).1

pub length-generated_names :
    (P : Platform) (C : Client) (cluster : Cluster) (kcp : KinkControlPlane) (n : ℕ) (s : C.State)
    → length (generated_names P C cluster kcp n s) ≡ n
length-generated_names P C cluster kcp zero s = refl
length-generated_names P C cluster kcp (suc n) s =
    let (name, t) = C.generate_name (cluster.meta.name <> "-") s in
    ap suc (length-generated_names P C cluster kcp n (C.submit (creation P cluster kcp name) t).1)

module _ (P : Platform) {C : Client} (calm : NeverPanics C) (cluster : Cluster)
    (kcp : KinkControlPlane) where
  -- With enough rounds the loop ends, and has tried to create as many machines as are missing.
  pub create_machines_lem :
      (rounds i r n : ℕ) (w : World C)
      → r < int32_half
      → i < int32_half
      → r - i ≡ n
      → n < rounds
      → (w' : World C) × (create_machines P cluster kcp rounds i (pos r) w ≡ (ok tt, w'))
        × (w'.calls
            ≡ w.calls ++ map (creation P cluster kcp) (generated_names P C cluster kcp n w.server))
  unfolding create_machines
  create_machines_lem zero i r n w small le count h = elim h [ ]
  create_machines_lem (suc rounds) i r zero w small le count h =
      (w, ground (arith, to_int32_small i), ground (arith, append-nil w.calls))
  create_machines_lem (suc rounds) i r (suc n) w small le count h =
      let (name, s) = C.generate_name (cluster.meta.name <> "-") w.server in
      let w1 : World C = record { server = s; calls = w.calls } in
      let (w', ran, calls) =
        create_machines_lem rounds (suc i) r n (submitted (creation P cluster kcp name) w1) small
          (omega arith) (omega arith) (omega arith) in
      (
        w',
        ground (arith, to_int32_small i, calm (creation P cluster kcp name) s tt),
        calls ∙ append_assoc w.calls (creation P cluster kcp name ∷ []) _,
      )

module _ (P : Platform) {C : Client} (cluster : Cluster) (kcp : KinkControlPlane) where
  -- Where no machine is missing the test fails at once.
  pub create_machines-none :
      (rounds n r : ℕ) (w : World C)
      → n < int32_half
      → r ≤ n
      → 0 < rounds
      → create_machines P cluster kcp rounds n (pos r) w ≡ (ok tt, w)
  unfolding create_machines
  create_machines-none zero n r w m le h = elim h [ ]
  create_machines-none (suc rounds) n r w m le h = ground (arith, to_int32_small n)
