-- ===== src/Infrastructure/Machine/Setup/Often.antt =====
-- What many set-ups of one machine leave behind.
use mathlib.Core.Logic.Or
use mathlib.Core.List.{Mem, not-mem-nil, mem-cons, mem-cons_self}
use mathlib.Core.List.Perm
use native.Mathlib.Bridge.{le_prop}
use kink.Base.{
  ℕ, zero, suc, ◌+◌, ◌≤◌, ◌==◌, String, Bool, true, false, ◌≡◌, refl, List, [], ◌∷◌, map, ap, none,
  Action, ◌>>=◌, >>=-eq-ok, ok, success, arith, count, count-append, every, every-mem, every-Perm,
  every-append, All, ◌∙◌, ◌++◌, false,
}
use kink.Api.{Cluster, KinkMachine, Pod, scheduler}
use kink.Platform.{Platform, HasDistinctLabels}
use kink.Client.{Client, Call, RangesAll, World, range, read, read-eq-ok, create_pod}
use kink.Infrastructure.Templates.Scheduler.{scheduler_pod}
use kink.Infrastructure.Machine.Scan.{scan_pods}
use kink.Infrastructure.Machine.Scan.Roles.{is_played, plays}
use kink.Infrastructure.Machine.Setup.{
  clear_pods, get_control_plane_pod_templates, setup_pods, lookup_or_setup_pods,
}
use kink.Infrastructure.Machine.Setup.Missing.{Templates, missing}
use kink.Infrastructure.Machine.Setup.Templates.{TemplateValues, templates_of}
use kink.Infrastructure.Machine.Setup.Pods.{setup-missing}
use kink.Infrastructure.Machine.Setup.Again.{
  is_played-none, mem-missing, plays-labels, plays_other, templates_of-plays_other,
}

-- The call creates a pod that runs the scheduler's image.
abbrev pub creates_scheduler : Call → Bool
creates_scheduler (create_pod pod) = elim pod.spec.containers [
  | [] ↦ false
  | c ∷ _ ↦ c.image == "openbce/kube-scheduler:v1.24.1"
]
creates_scheduler _ = false

count-mem :
    {A : Type 0} (p : A → Bool) (x : A) (xs : List A) → p x ≡ true → Mem x xs → 1 ≤ count p xs
count-mem p x [] h m = absurd (not-mem-nil m)
count-mem p x (y ∷ xs) h m =
    Or.elim le_prop (mem-cons.0 m) (λ e. rw (← e, h) (omega arith))
      (λ later. let found = count-mem p x xs h later in ground arith)

-- The call creates no pod with the scheduler's role.
abbrev pub makes_other : Call → Bool
makes_other (create_pod pod) = plays_other pod
makes_other _ = true

missing-makes_other :
    (played : String → Bool) (templates : Templates)
    → every (λ e. plays_other e.1) templates ≡ true
    → every makes_other (missing played templates) ≡ true
missing-makes_other played [] h = refl
missing-makes_other played ((t, pt) ∷ rest) h = ground (arith, missing-makes_other played rest)

module _ (P : Platform) {C : Client} (cluster : Cluster) (machine : KinkMachine) where
  -- Some successful set-ups of the machine's pods, and changes of the server's objects in between.
  pub data SetUps (u : World C) : ℕ → World C → Type 0 where
    nothing : SetUps u zero u
    elsewhere :
        {n : ℕ} {v w : World C} (s : C.State)
        → SetUps u n v
        → w ≡ record v { server = s }
        → SetUps u n w
    again :
        {n : ℕ} {v w : World C} (machine' : KinkMachine)
        → SetUps u n v
        → lookup_or_setup_pods P cluster machine v ≡ (ok machine', w)
        → SetUps u (suc n) w

  -- The machine's pods that the server lists have been created by these calls and have kept their
  -- labels.
  abbrev pub ListsOwn : World C → Type 0
  ListsOwn v =
      (t : C.State) (pods : List Pod)
      → C.list_pods cluster.meta.namespace cluster.meta.name v.server ≡ (success pods, t)
      → All
          (λ p.
            P.is_owned_by_object p.meta machine.meta ≡ true
            → (q : Pod) × Mem (create_pod q) v.calls × (p.meta.labels ≡ q.meta.labels))
          pods

  -- The same at each set-up of a run.
  abbrev pub AlwaysListsOwn : {u w : World C} {n : ℕ} → SetUps u n w → Type 0
  AlwaysListsOwn nothing = Unit
  AlwaysListsOwn (elsewhere s before e) = AlwaysListsOwn before
  AlwaysListsOwn (again {v = v} machine' before h) = ListsOwn v × AlwaysListsOwn before

  -- What one set-up did.
  abbrev Missing : World C → World C → Type 0
  Missing v w =
      (t s : C.State) × (pods : List Pod) × (tv : TemplateValues) × (C.list_pods
          cluster.meta.namespace cluster.meta.name v.server
        ≡ (success pods, t))
      × (w.calls
          ≡ v.calls
            ++ missing (λ role. is_played P machine role (map (λ p. p.meta) pods))
                (C.range_order _ s (templates_of P cluster machine tv)))

  again-Missing :
      (machine' : KinkMachine) (v w : World C)
      → lookup_or_setup_pods P cluster machine v ≡ (ok machine', w)
      → Missing v w
  unfolding lookup_or_setup_pods
  again-Missing machine' v w h =
      let list = C.list_pods cluster.meta.namespace cluster.meta.name in
      let run : List Pod → Action (World C) KinkMachine = λ pods.
        get_control_plane_pod_templates P cluster machine >>= λ ts. range ts >>= λ order.
        setup_pods (scan_pods P machine pods (record { pod = none; pod_map = [] })) order
          (clear_pods machine) in
      let (pods, v', got, rest) = >>=-eq-ok (read list) run v h in
      let listed = (read-eq-ok list v got).0 in
      let (tv, s, _, calls) = setup-missing P cluster machine machine' v w pods listed h in
      (v'.server, s, pods, tv, listed, calls)

  module _ (D : HasDistinctLabels P) (all : RangesAll C) where
    -- No pod that a run creates has the scheduler's role.
    SetUps-makes_other :
        {u w : World C} {n : ℕ} → SetUps u n w → u.calls ≡ [] → every makes_other w.calls ≡ true
    SetUps-makes_other nothing e = rw e refl
    SetUps-makes_other (elsewhere s before same) e = rw same (SetUps-makes_other before e)
    SetUps-makes_other {u} {w} (again {v = v} machine' before h) e =
        let (t, s, pods, tv, listed, calls) = again-Missing machine' v w h in
        let templates = templates_of P cluster machine tv in
        let order = C.range_order _ s templates in
        let others =
          every-Perm (λ e. plays_other e.1) templates order (all _ s templates)
            (templates_of-plays_other P D cluster machine tv) in
        let played : String → Bool = λ role. is_played P machine role (map (λ p. p.meta) pods) in
        rw calls (
          every-append makes_other v.calls (missing played order) (SetUps-makes_other before e)
            (missing-makes_other played order others))

    own-plays :
        (v : World C)
        → every makes_other v.calls ≡ true
        → (pods : List Pod)
        → All
            (λ p.
              P.is_owned_by_object p.meta machine.meta ≡ true
              → (q : Pod) × Mem (create_pod q) v.calls × (p.meta.labels ≡ q.meta.labels))
            pods
        → All
            (λ p. P.is_owned_by_object p.meta machine.meta ≡ true → plays scheduler p.meta ≡ false)
            pods
    own-plays v made [] h = tt
    own-plays v made (p ∷ pods) (h, hs) = (
      (λ owned.
          let (q, m, same) = h owned in
          let other : plays_other q ≡ true = every-mem makes_other v.calls made (create_pod q) m in
          plays-labels scheduler p.meta q.meta same ∙ ground (arith, other)),
      own-plays v made pods hs,
    )

    again-creates :
        (machine' : KinkMachine) (v w : World C)
        → ListsOwn v
        → every makes_other v.calls ≡ true
        → lookup_or_setup_pods P cluster machine v ≡ (ok machine', w)
        → count creates_scheduler v.calls + 1 ≤ count creates_scheduler w.calls
    unfolding scheduler_pod
    again-creates machine' v w own made h =
        let (t, s, pods, tv, listed, calls) = again-Missing machine' v w h in
        let pod = scheduler_pod P cluster machine tv.service_didr tv.scheduler_name in
        let played : String → Bool = λ role. is_played P machine role (map (λ p. p.meta) pods) in
        let order = C.range_order _ s (templates_of P cluster machine tv) in
        let created : Mem (create_pod pod) (missing played order) =
          mem-missing played scheduler pod order
            (is_played-none P machine scheduler pods (own-plays v made pods (own t pods listed)))
            ((Perm.mem_iff (all _ s (templates_of P cluster machine tv))).1 mem-cons_self) in
        omega (
          arith,
          ap (count creates_scheduler) calls,
          count-append creates_scheduler v.calls (missing played order),
          count-mem creates_scheduler (create_pod pod) (missing played order) refl created,
        )

    count-SetUps :
        {u w : World C} {n : ℕ} (run : SetUps u n w)
        → u.calls ≡ []
        → AlwaysListsOwn run
        → n ≤ count creates_scheduler w.calls
    count-SetUps nothing e own = omega arith
    count-SetUps (elsewhere s before same) e own = rw same (count-SetUps before e own)
    count-SetUps {u} {w} (again {n} {v} machine' before h) e (own, owns) = omega (
      arith,
      count-SetUps before e owns,
      again-creates machine' v w own (SetUps-makes_other before e) h,
    )

  -- If the Cluster API's label is not the role label, a `range` meets each entry of a map once, and at
  -- each set-up the pods of the machine that the server lists are pods that this run has created,
  -- with the labels that they were created with, then each successful set-up of the pods creates one
  -- more pod with the scheduler's image, whatever others do in between: no pod that the run creates
  -- has the scheduler's role, and n set-ups create at least n such pods.
  pub schedulers_accumulate :
      HasDistinctLabels P
      → RangesAll C
      → {u w : World C} {n : ℕ} (run : SetUps u n w) → u.calls ≡ []
      → AlwaysListsOwn run
      → (every makes_other w.calls ≡ true) × (n ≤ count creates_scheduler w.calls)
  schedulers_accumulate D all run e own =
      (SetUps-makes_other D all run e, count-SetUps D all run e own)
