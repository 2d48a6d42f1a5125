-- ===== src/Client/Gives.antt =====
-- Actions that only add write calls of one kind, and whose value, if they return one, has a property.
use kink.Base.{
  ◌≡◌, refl, ap, List, Action, pure, attempt, ◌>>=◌, Result, ok, err, panic, out_of_rounds, Try,
  success, failed, Error,
}
use mathlib.Core.List.{Perm}
use kink.Client.{Client, Call, World, RangesAll, read, read-eq-ok, range}
use kink.Client.Grows.{Grows, Adds, Adds-none, Adds-trans, attempt-Grows, read-Grows}

-- A returned value has the property.
abbrev pub Ends : {A : Type 0} → (A → Type 0) → Result A → Type 0
Ends R (ok a) = R a
Ends R _ = Unit

-- The property of a call's value, if the call has succeeded.
abbrev pub OnSuccess : {A : Type 0} → (A → Type 0) → Try A → Type 0
OnSuccess R (success a) = R a
OnSuccess R (failed e) = Unit

module _ {C : Client} (Q : Call → Type 0) where
  abbrev pub Gives : {A : Type 0} → (A → Type 0) → Action (World C) A → Type 0
  Gives R m = (w : World C) → Adds Q w.calls (m w).1 × Ends R (m w).0

  pub Gives-intro :
      {A : Type 0} (R : A → Type 0) (m : Action (World C) A)
      → Grows Q m
      → ((w w' : World C) (a : A) → m w ≡ (ok a, w') → R a)
      → Gives R m
  Gives-intro {A} R m h k w = (h w, go (m w) refl)
    where
      go : (r : Result A × World C) → m w ≡ r → Ends R r.0
      go (ok a, v) e = k w v a e
      go (err x, v) e = tt
      go (panic, v) e = tt
      go (out_of_rounds, v) e = tt

  pub Gives-of_Grows : {A : Type 0} (m : Action (World C) A) → Grows Q m → Gives (λ _. Unit {0}) m
  Gives-of_Grows m h = Gives-intro (λ _. Unit {0}) m h (λ w w' a e. tt)

  pub pure-Gives : {A : Type 0} (R : A → Type 0) (a : A) → R a → Gives R (pure a)
  pure-Gives R a r w = (Adds-none Q w, r)

  pub >>=-Gives :
      {A B : Type 0} (R : A → Type 0) (S : B → Type 0) (m : Action (World C) A)
      (f : A → Action (World C) B)
      → Gives R m
      → ((a : A) → R a → Gives S (f a))
      → Gives S (m >>= f)
  >>=-Gives {A} {B} R S m f h k w = go (m w).1 (m w).0 (h w)
    where
      after : World C → Result A → Result B × World C
      after v (ok a) = f a v
      after v (err x) = (err x, v)
      after v panic = (panic, v)
      after v out_of_rounds = (out_of_rounds, v)

      go :
          (v : World C) (r : Result A)
          → Adds Q w.calls v × Ends R r
          → Adds Q w.calls (after v r).1 × Ends S (after v r).0
      go v (ok a) (x, r) = let (y, s) = k a r v in (Adds-trans Q w.calls v (f a v).1 x y, s)
      go v (err x) (y, r) = (y, tt)
      go v panic (y, r) = (y, tt)
      go v out_of_rounds (y, r) = (y, tt)

  pub attempt-Gives :
      {A : Type 0} (R : A → Type 0) (m : Action (World C) A)
      → Gives R m
      → Gives (OnSuccess R) (attempt m)
  attempt-Gives {A} R m h w =
      let (x, r) = h w in (attempt-Grows Q m (λ v. (h v).0) w, go (m w).1 (m w).0 r)
    where
      tried : World C → Result A → Result (Try A) × World C
      tried v (ok a) = (ok (success a), v)
      tried v (err e) = (ok (failed e), v)
      tried v panic = (panic, v)
      tried v out_of_rounds = (out_of_rounds, v)

      go : (v : World C) (r : Result A) → Ends R r → Ends (OnSuccess R) (tried v r).0
      go v (ok a) r = r
      go v (err e) r = tt
      go v panic r = tt
      go v out_of_rounds r = tt

  -- The value of a read is one that the server hands out in some state.
  pub read-Gives :
      {A : Type 0} (f : C.State → Try A × C.State)
      → Gives (λ a. (s : C.State) × ((f s).0 ≡ success a)) (read f)
  read-Gives {A} f =
      Gives-intro (λ a. (s : C.State) × ((f s).0 ≡ success a)) (read f) (read-Grows Q f)
        (λ w w' a h. let (e, same) = read-eq-ok f w h in (w.server, ap (λ t. t.0) e))

  pub range-Gives :
      RangesAll C → {A : Type 0} (l : List A) → Gives (λ order. Perm order l) (range l)
  range-Gives all {A} l w = (Adds-none Q w, all A w.server l)

  pub Gives-Grows : {A : Type 0} (R : A → Type 0) (m : Action (World C) A) → Gives R m → Grows Q m
  Gives-Grows R m h w = (h w).0

  -- A lookup whose error ends the round: behind it, the value is one that the server hands out.
  pub lookup-Grows :
      {A B : Type 0} (f : C.State → Try A × C.State) (stop : Error → B) (k : A → Action (World C) B)
      → ((a : A) (s : C.State) → (f s).0 ≡ success a → Grows Q (k a))
      → Grows Q (attempt (read f) >>= λ t. elim t [ failed e ↦ pure (stop e) | success a ↦ k a ])
  lookup-Grows {A} {B} f stop k h =
      let R : A → Type 0 = λ a. (s : C.State) × ((f s).0 ≡ success a) in
      let next : Try A → Action (World C) B =
        λ t. elim t [ failed e ↦ pure (stop e) | success a ↦ k a ] in
      Gives-Grows (λ _. Unit {0}) (attempt (read f) >>= next)
        (>>=-Gives (OnSuccess R) (λ _. Unit {0}) (attempt (read f)) next
          (attempt-Gives R (read f) (read-Gives f))
          (λ t. elim t as (λ t. OnSuccess R t → Gives (λ _. Unit {0}) (next t)) [
            | failed e ↦ λ r. pure-Gives (λ _. Unit {0}) (stop e) tt
            | success a ↦ λ (s, e). Gives-of_Grows (k a) (h a s e)
          ]))
