-- ===== src/Base/Effects.antt =====
-- Go's errors, panics and calls with effects. An action runs on a world and may return a value,
-- return an error, panic, or use up the rounds that a loop was given.
use Prim.Native.String.{String}
use mathlib.Core.Bool.{Bool, true, false}
use mathlib.Core.Option.{Option, none, some}

pub data Error : Type 0 where
  not_found : Error
  failure : String → Error
  -- `errors.Wrap`
  wrap : Error → String → Error

-- `apierrors.IsNotFound`, of an error that a client call returned.
abbrev pub is_not_found : Error → Bool
is_not_found not_found = true
is_not_found (failure s) = false
is_not_found (wrap e s) = is_not_found e

-- A Go pair `(value, err)`.
pub data Try (A : Type 0) : Type 0 where
  success : A → Try A
  failed : Error → Try A

pub data Result (A : Type 0) : Type 0 where
  ok : A → Result A
  err : Error → Result A
  panic : Result A
  out_of_rounds : Result A

abbrev pub Action : Type 0 → Type 0 → Type 0
Action W A = W → Result A × W

module _ {W : Type 0} where
  abbrev pub pure : {A : Type 0} → A → Action W A
  pure a w = (ok a, w)

  abbrev pub raise : {A : Type 0} → Error → Action W A
  raise e w = (err e, w)

  infixl 5 ◌>>=◌ ◌>>◌
  abbrev pub ◌>>=◌ : {A B : Type 0} → Action W A → (A → Action W B) → Action W B
  ◌>>=◌ m f w =
      let (r, w') = m w in
      elim r [
        | ok a ↦ f a w'
        | err e ↦ (err e, w')
        | panic ↦ (panic, w')
        | out_of_rounds ↦ (out_of_rounds, w')
      ]

  abbrev pub ◌>>◌ : {A B : Type 0} → Action W A → Action W B → Action W B
  m >> k = m >>= λ _. k

  -- `if err := m; err != nil { … }`: the error becomes a value; a panic does not.
  abbrev pub attempt : {A : Type 0} → Action W A → Action W (Try A)
  attempt m w =
      let (r, w') = m w in
      elim r [
        | ok a ↦ (ok (success a), w')
        | err e ↦ (ok (failed e), w')
        | panic ↦ (panic, w')
        | out_of_rounds ↦ (out_of_rounds, w')
      ]

  -- `return errors.Wrap(err, text)`
  abbrev pub wrapping : {A : Type 0} → String → Action W A → Action W A
  wrapping text m w =
      let (r, w') = m w in
      elim r [
        | ok a ↦ (ok a, w')
        | err e ↦ (err (wrap e text), w')
        | panic ↦ (panic, w')
        | out_of_rounds ↦ (out_of_rounds, w')
      ]

  -- The dereference of a pointer.
  abbrev pub or_panic : {A : Type 0} → Option A → Action W A
  or_panic none w = (panic, w)
  or_panic (some a) w = (ok a, w)

  abbrev pub panicking : {A : Type 0} → Action W A
  panicking w = (panic, w)

  -- A value `(value, err)` that was computed with no effect.
  abbrev pub or_raise : {A : Type 0} → Try A → Action W A
  or_raise (success a) w = (ok a, w)
  or_raise (failed e) w = (err e, w)
