-- ===== src/Reconcile.antt =====
-- What `Reconcile` of a controller returns: `ctrl.Result` and an error.
use kink.Base.{
  Action, pure, attempt, ◌>>=◌, success, failed, Bool, true, false, Option, none, some, Error,
}

pub record Outcome : Type 0 where
  pub requeue : Bool
  pub error : Option Error

-- `ctrl.Result{}, nil`
abbrev pub done : Outcome
done = record { requeue = false; error = none }

-- `ctrl.Result{Requeue: true}, nil`
abbrev pub retry : Outcome
retry = record { requeue = true; error = none }

-- `ctrl.Result{Requeue: true}, err`
abbrev pub retry_with : Error → Outcome
retry_with e = record { requeue = true; error = some e }

-- `if err := m; err != nil { return … }`: a step whose error ends the round with an outcome.
module _ {W : Type 0} where
  abbrev pub then : Action W (Unit {0}) → (Error → Outcome) → Action W Outcome → Action W Outcome
  then m stop rest = attempt m >>= λ t. elim t [ failed e ↦ pure (stop e) | success _ ↦ rest ]
