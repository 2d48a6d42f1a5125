-- ===== src/ControlPlane/Scale/Deletes.antt =====
-- The loop that deletes machines.
use mathlib.Core.List.{reverse, reverse-append}
use kink.Base.{
  ℕ, zero, suc, ◌-◌, ◌<◌, ◌≤◌, ℤ, ltb_ℤ, pos, ok, int32_half, to_int32_small, to_int32, true, ◌≡◌,
  some, List, [], ◌∷◌, ◌++◌, append-nil, append_assoc, map, length, take, drop, take-suc,
  drop-append, length-take, drop-take_self, get_elem?, get_elem?-some, dec_lt, arith,
}
use kink.Api.{KinkMachine}
use kink.Client.{Client, NeverPanics, World, submitted, delete_machine}
use kink.ControlPlane.Scale.{loop_rounds, delete_machines}

-- The loops are given more rounds than an `int32` counts up to.
pub rounds_enough : (n : ℕ) → n < int32_half → n < loop_rounds
unfolding loop_rounds
rounds_enough n h = omega arith

-- The items with an index from `r` to below `i`, the last one first.
abbrev pub items_down : ℕ → ℕ → List KinkMachine → List KinkMachine
items_down r i items = reverse (drop r (take i items))

items_down-suc :
    (r i : ℕ) (items : List KinkMachine) {m : KinkMachine}
    → r ≤ i
    → i < length items
    → get_elem? items i ≡ some m
    → items_down r (suc i) items ≡ m ∷ items_down r i items
items_down-suc r i items {m} le lt e =
    rw
      (
        take-suc i items e,
        drop-append r (take i items) (m ∷ []) (omega (arith, length-take i items (omega arith))),
      )
      (reverse-append (drop r (take i items)) (m ∷ []))

module _ {C : Client} (calm : NeverPanics C) (replicas : ℤ) (items : List KinkMachine) where
  -- The loop runs down to `r`, if its test holds above `r`.
  pub delete_machines-down :
      (i rounds r : ℕ) (w : World C)
      → r ≤ i
      → i ≤ length items
      → i - r < rounds
      → ((j : ℕ) → r < j → j ≤ i → ltb_ℤ replicas (to_int32 j) ≡ true)
      → (rounds' : ℕ) × (w' : World C) × (delete_machines rounds i replicas items w
          ≡ delete_machines (suc rounds') r replicas items w')
        × (w'.calls ≡ w.calls ++ map delete_machine (items_down r i items))
  unfolding delete_machines
  delete_machines-down i zero r w le in_range enough test = elim enough [ ]
  delete_machines-down zero (suc rounds) r w le in_range enough test =
      let e : r ≡ 0 = omega arith in (rounds, w, rw e, rw (e, append-nil))
  delete_machines-down (suc i) (suc rounds) r w le in_range enough test = elim (dec_lt r (suc i)) [
    | no stop ↦
        let e : r ≡ suc i = omega arith in (rounds, w, rw e, rw (e, drop-take_self, append-nil))
    | yes above ↦
        let (m, found) = get_elem?-some items i in_range in
        let (rounds', w', ran, calls) =
          delete_machines-down i rounds r (submitted (delete_machine m) w) (omega arith)
            (omega arith) (omega arith) (λ j a b. test j a (omega arith)) in
        (
          rounds',
          w',
          ground (arith, test (suc i) above (omega arith), calm (delete_machine m) w.server tt),
          rw (items_down-suc r i items (omega arith) in_range found) (
              ground (
                arith,
                append_assoc w.calls (delete_machine m ∷ [])
                    (map delete_machine (items_down r i items)),
              )),
        )
  ]

module _ {C : Client} (kms : List KinkMachine) where
  -- Where no machine is too many the test fails at once.
  pub delete_machines-none :
      (rounds n r : ℕ) (w : World C)
      → n < int32_half
      → n ≤ r
      → 0 < rounds
      → delete_machines rounds n (pos r) kms w ≡ (ok tt, w)
  unfolding delete_machines
  delete_machines-none zero n r w m le h = elim h [ ]
  delete_machines-none (suc rounds) n r w m le h = ground (arith, to_int32_small n)
