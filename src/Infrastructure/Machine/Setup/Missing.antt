-- ===== src/Infrastructure/Machine/Setup/Missing.antt =====
-- The loop over the pod templates in `lookupOrSetupPods`, as a list of calls and a list of
-- references.
use kink.Base.{
  String, Bool, ◌≡◌, refl, Option, none, some, List, [], ◌∷◌, ◌++◌, append-nil, append_assoc,
  lookup, ok, arith, All, Option-cases, inl, inr, if◌then◌else◌,
}
use mathlib.Core.Option
use kink.Api.{KinkMachine, ObjectReference, Pod, ControlPlaneRole}
use kink.Client.{Client, Call, World, submitted, create_pod}
use kink.Infrastructure.Machine.Scan.{Address, PodScan, dereference}
use kink.Infrastructure.Machine.Scan.Roles.{is_some}
use kink.Infrastructure.Machine.Setup.{setup_pods, add_pod, pod_reference}

abbrev pub Templates : Type 0
Templates = List (ControlPlaneRole × Pod)

-- A create call for each template whose role was not found.
abbrev pub creations : PodScan → Templates → List Call
creations scan [] = []
creations scan ((t, pt) ∷ rest) = elim (lookup t scan.pod_map) [
  | some _ ↦ creations scan rest
  | none ↦ create_pod pt ∷ creations scan rest
]

-- A reference for each template whose role was found.
abbrev pub references : PodScan → Templates → List ObjectReference
references scan [] = []
references scan ((t, pt) ∷ rest) = elim (lookup t scan.pod_map) [
  | some a ↦ elim (dereference scan a) [
    | some pod ↦ pod_reference pod ∷ references scan rest
    | none ↦ references scan rest
  ]
  | none ↦ references scan rest
]

abbrev pub add_references : List ObjectReference → KinkMachine → KinkMachine
add_references refs machine = record machine {
  status = record (machine.status) { pods = machine.status.pods ++ refs };
}

-- The same create calls, by a test that says which roles are played.
abbrev pub missing : (String → Bool) → Templates → List Call
missing played [] = []
missing played ((t, pt) ∷ rest) =
    if played t then missing played rest else create_pod pt ∷ missing played rest

pub creations-eq-missing :
    (scan : PodScan) (played : String → Bool)
    → ((t : String) → is_some (lookup t scan.pod_map) ≡ played t)
    → (templates : Templates) → creations scan templates ≡ missing played templates
creations-eq-missing scan played same [] = refl
creations-eq-missing scan played same ((t, pt) ∷ rest) =
    ground (arith, same t, creations-eq-missing scan played same rest)

-- With every address at one pod, every reference is to this pod.
pub references-All :
    (scan : PodScan) (last : Option Pod)
    → ((a : Address) → dereference scan a ≡ last)
    → (templates : Templates)
    → All (λ ref. Option.map pod_reference last ≡ some ref) (references scan templates)
references-All scan last same [] = tt
references-All scan last same ((t, pt) ∷ rest) = elim (Option-cases (lookup t scan.pod_map)) [
  | inl absent ↦ ground (arith, references-All scan last same rest)
  | inr (a, found) ↦ ground (arith, same a, references-All scan last same rest)
]

module _ {C : Client} (scan : PodScan) where
  pub setup_pods-calls :
      (templates : Templates) (machine machine' : KinkMachine) (w w' : World C)
      → setup_pods scan templates machine w ≡ (ok machine', w')
      → w'.calls ≡ w.calls ++ creations scan templates
  unfolding setup_pods
  setup_pods-calls [] machine machine' w w' h = rw append-nil (ground arith)
  setup_pods-calls ((t, pt) ∷ rest) machine machine' w w' h =
      elim (Option-cases (lookup t scan.pod_map)) [
        | inl absent ↦ ground (
          arith,
          setup_pods-calls rest machine machine' (submitted (create_pod pt) w) w',
          append_assoc w.calls (create_pod pt ∷ []) (creations scan rest),
        )
        | inr (a, found) ↦ elim (Option-cases (dereference scan a)) [
          | inl dangling ↦ ground arith
          | inr (pod, e) ↦ ground (arith, setup_pods-calls rest (add_pod pod machine) machine' w w')
        ]
      ]

  pub setup_pods-machine :
      (templates : Templates) (machine machine' : KinkMachine) (w w' : World C)
      → setup_pods scan templates machine w ≡ (ok machine', w')
      → machine' ≡ add_references (references scan templates) machine
  unfolding setup_pods
  setup_pods-machine [] machine machine' w w' h = rw append-nil (ground arith)
  setup_pods-machine ((t, pt) ∷ rest) machine machine' w w' h =
      elim (Option-cases (lookup t scan.pod_map)) [
        | inl absent ↦
            ground
              (arith, setup_pods-machine rest machine machine' (submitted (create_pod pt) w) w')
        | inr (a, found) ↦ elim (Option-cases (dereference scan a)) [
          | inl dangling ↦ ground arith
          | inr (pod, e) ↦ ground (
            arith,
            setup_pods-machine rest (add_pod pod machine) machine' w w',
            append_assoc machine.status.pods (pod_reference pod ∷ []) (references scan rest),
          )
        ]
      ]
