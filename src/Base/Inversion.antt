-- ===== src/Base/Inversion.antt =====
-- Inversion of actions that returned.
use mathlib.Core.Path.{◌≡◌, refl}
use native.Mathlib.Omega.{arith}
use mathlib.Core.Logic.{◌⊎◌, inl, inr}
use kink.Base.Effects.{
  Action, Result, ok, err, panic, out_of_rounds, Error, Try, success, failed, ◌>>=◌, attempt,
  or_raise,
}

module _ {W A B : Type 0} where
  -- An action that returned has run its first part, and then the rest.
  pub >>=-eq-ok :
      (m : Action W A) (f : A → Action W B) (w : W) {b : B} {w' : W}
      → (m >>= f) w ≡ (ok b, w')
      → (a : A) × (v : W) × (m w ≡ (ok a, v)) × (f a v ≡ (ok b, w'))
  >>=-eq-ok m f w {b} {w'} h = go (m w) refl
    where
      go :
          (r : Result A × W)
          → m w ≡ r
          → (a : A) × (v : W) × (m w ≡ (ok a, v)) × (f a v ≡ (ok b, w'))
      go (ok a, v) e = (a, v, e, ground arith)
      go (err x, v) e = absurd (ground arith)
      go (panic, v) e = absurd (ground arith)
      go (out_of_rounds, v) e = absurd (ground arith)

  -- Where the first part returns, the rest goes on from there.
  pub >>=-ok :
      (m : Action W A) (f : A → Action W B) (w : W) {a : A} {v : W}
      → m w ≡ (ok a, v)
      → (m >>= f) w ≡ f a v
  >>=-ok m f w e = ground arith

module _ {W A : Type 0} where
  -- How an action under `attempt` has ended.
  pub attempt-eq-ok :
      (m : Action W A) (w : W) {t : Try A} {w' : W}
      → attempt m w ≡ (ok t, w')
      → ((a : A) × (t ≡ success a) × (m w ≡ (ok a, w')))
        ⊎ ((e : Error) × (t ≡ failed e) × (m w ≡ (err e, w')))
  attempt-eq-ok m w {t} {w'} h = go (m w) refl
    where
      go :
          (r : Result A × W)
          → m w ≡ r
          → ((a : A) × (t ≡ success a) × (m w ≡ (ok a, w')))
            ⊎ ((e : Error) × (t ≡ failed e) × (m w ≡ (err e, w')))
      go (ok a, v) e = inl (a, ground arith, ground arith)
      go (err x, v) e = inr (x, ground arith, ground arith)
      go (panic, v) e = absurd (ground arith)
      go (out_of_rounds, v) e = absurd (ground arith)

-- The action has ended with a value or an error.
abbrev pub IsReturned : {A : Type 0} → Result A → Type 0
IsReturned (ok a) = Unit
IsReturned (err e) = Unit
IsReturned panic = ⊥
IsReturned out_of_rounds = ⊥

module _ {W A B : Type 0} where
  -- A sequence returns if its first part does, and the rest from wherever this ends.
  pub >>=-IsReturned :
      (m : Action W A) (f : A → Action W B) (w : W)
      → IsReturned (m w).0
      → ((a : A) (v : W) → m w ≡ (ok a, v) → IsReturned (f a v).0)
      → IsReturned ((m >>= f) w).0
  >>=-IsReturned m f w h k = go (m w) refl
    where
      go : (r : Result A × W) → m w ≡ r → IsReturned ((m >>= f) w).0
      go (ok a, v) e = ground (arith, k a v e)
      go (err x, v) e = ground arith
      go (panic, v) e = ground arith
      go (out_of_rounds, v) e = ground arith

module _ {W A : Type 0} where
  pub attempt-IsReturned :
      (m : Action W A) (w : W) → IsReturned (m w).0 → IsReturned (attempt m w).0
  attempt-IsReturned m w h = ground arith

module _ {W A : Type 0} where
  -- A value `(value, err)` always returns, and with the value.
  pub or_raise-IsReturned : (t : Try A) (w : W) → IsReturned (or_raise t w).0
  or_raise-IsReturned (success a) w = tt
  or_raise-IsReturned (failed e) w = tt

  pub or_raise-eq-ok :
      (t : Try A) (w : W) {a : A} {w' : W} → or_raise t w ≡ (ok a, w') → t ≡ success a
  or_raise-eq-ok (success b) w h = ground arith
  or_raise-eq-ok (failed e) w h = absurd (ground arith)
