-- ===== src/Client/Then.antt =====
-- A step whose error ends the round, and the rest of the round.
use kink.Base.{Action, pure, attempt, Try, success, failed, Error}
use kink.Client.{Client, Call, World}
use kink.Client.Grows.{Grows, Adds-none, >>=-Grows, attempt-Grows}
use kink.Reconcile.{then, Outcome}

module _ {C : Client} (Q : Call → Type 0) where
  pub then-Grows :
      (m : Action (World C) (Unit {0})) (stop : Error → Outcome) (rest : Action (World C) Outcome)
      → Grows {C = C} Q m
      → Grows {C = C} Q rest
      → Grows {C = C} Q (then m stop rest)
  then-Grows m stop rest first later =
      let next : Try (Unit {0}) → Action (World C) Outcome =
        λ t. elim t [ failed e ↦ pure (stop e) | success _ ↦ rest ] in
      >>=-Grows Q (attempt m) next (attempt-Grows Q m first) (λ t.
        elim t as (λ t. Grows Q (next t)) [ failed e ↦ λ w. Adds-none Q w | success _ ↦ later ])
