-- ===== src/Execution/Loop.antt =====
-- The rule of the polling loop of internal/execution/executor.go, and what one pass keeps.
use vpsmith.Base.{ℕ, zero, suc, Bool, List}
use vpsmith.Bundle.Types.{SecretReference}
use vpsmith.Execution.Types.{unknown, Run}
use vpsmith.Execution.Env.{Trace, Env}
use vpsmith.Execution.Executor.{
  Outcome, Turn, stop, again, with_status, fails, cancelled, turn, poll,
}

-- What holds of a pass: of its outcome, or of the state in which it goes on.
abbrev pub Holds : (Outcome → Type 0) → (Run → Bool → Trace → Type 0) → Turn → Type 0
Holds P I (stop o) = P o
Holds P I (again r sent tr) = I r sent tr

module _ (env : Env) (P : Outcome → Type 0) (I : Run → Bool → Trace → Type 0) where
  pub poll_rule :
      (refs : List SecretReference)
      → ((r : Run) (sent : Bool) (tr : Trace) → I r sent tr → Holds P I (turn env refs r sent tr))
      → ((r : Run) (sent : Bool) (tr : Trace)
          → I r sent tr
          → P (fails (with_status r unknown) cancelled tr))
      → (n : ℕ) (r : Run) (sent : Bool) (tr : Trace) → I r sent tr
      → P (poll env n refs r sent tr)
  unfolding poll
  poll_rule refs keep end zero r sent tr i =
      (elim (turn env refs r sent tr)
          as (λ t.
            Holds P I t
            → P (elim t [
              | stop o ↦ o
              | again r' sent' tr' ↦ fails (with_status r' unknown) cancelled tr'
            ])) [ stop o ↦ λ h. h | again r' sent' tr' ↦ end r' sent' tr' ])
        (keep r sent tr i)
  poll_rule refs keep end (suc n) r sent tr i =
      (elim (turn env refs r sent tr)
          as (λ t.
            Holds P I t
            → P (elim t [ stop o ↦ o | again r' sent' tr' ↦ poll env n refs r' sent' tr' ])) [
              | stop o ↦ λ h. h
              | again r' sent' tr' ↦ poll_rule refs keep end n r' sent' tr'
            ])
        (keep r sent tr i)
