-- ===== src/Adapter/Runs.antt =====
-- `Execute` of internal/execution with the history of internal/executionstate over the management state.
use vpsmith.Base.{ℕ, ◌≡◌, refl, ap, ◌∙◌, arith, true, sym, subst, Option, none, some, [], ◌∷◌}
use vpsmith.Base.Text.{Text, text, eq_iff}
use vpsmith.Bundle.Types.{Bundle}
use vpsmith.Bundle.Codec.{Codec}
use vpsmith.State.Db.{Db, Services}
use vpsmith.Execution.Types.{success, Run, Proof}
use vpsmith.Execution.Env.{Call, Trace, Env}
use vpsmith.Execution.Executor.{execute}
use vpsmith.Execution.Safety.{Recorded, IsConcluded, execute-IsSafe}
use vpsmith.State.Types.{ExecutionRecord}
use vpsmith.Adapter.{
  AdapterError, Health, register_bundle, finished, find_record, proves, same_record, status_text,
}
use vpsmith.Adapter.Laws.{IsClosed, Settled-none, finished-Settled}

-- The store behind a history: where it starts, and how the database fares at each call.
pub record Ledger : Type 0 where
  pub services : Services
  pub start : Db
  pub health : Trace → Health
  pub now : Trace → Text

module _ (l : Ledger) where
  -- The store after the calls of a trace.
  unfoldable pub replay : Trace → Db
  replay [] = l.start
  replay (Call.register_bundle r ∷ tr) =
      (register_bundle l.services (l.health tr) (l.now tr) r (replay tr)).0
  replay (Call.finished r p ∷ tr) = (finished l.services (l.health tr) r p (replay tr)).0
  replay (_ ∷ tr) = replay tr

  -- The answers of the adapter: an error has some text.
  abbrev pub answer : Option AdapterError → Option Text
  answer none = none
  answer (some e) = some (text "history")

  abbrev pub with_ledger : Env → Env
  with_ledger env = record env {
    on_register =
        λ tr r. answer (register_bundle l.services (l.health tr) (l.now tr) r (replay tr)).1;
    on_finished = λ tr r p. answer (finished l.services (l.health tr) r p (replay tr)).1;
  }

  answer-none : (o : Option AdapterError) → answer o ≡ none → o ≡ none
  answer-none none h = refl
  answer-none (some e) h = cc

  -- The last call handed the history a proof of success of the run, and the store has a record of the
  -- run with that outcome and with the times of that proof.
  abbrev pub HasSuccess : Run → Trace → Type 0
  HasSuccess run tr =
      (p : Proof) × (before : Trace) × (r : ExecutionRecord) × (tr ≡ Call.finished run p ∷ before)
      × (p.status ≡ success)
      × (proves run p ≡ true)
      × (find_record run.id (replay tr).records ≡ some r)
      × (r.bundle_id ≡ run.bundle_id)
      × (r.target_id ≡ run.target_id)
      × (r.outcome ≡ text "success")
      × (r.started_at ≡ p.started_at)
      × (r.finished_at ≡ p.finished_at)

  fields :
      (run : Run) (p : Proof) (r : ExecutionRecord)
      → p.status ≡ success
      → same_record run p r ≡ true
      → (r.bundle_id ≡ run.bundle_id)
        × (r.target_id ≡ run.target_id)
        × (r.outcome ≡ text "success")
        × (r.started_at ≡ p.started_at)
        × (r.finished_at ≡ p.finished_at)
  fields run p r good same =
      let outcome : r.outcome ≡ status_text p.status =
        ground (arith, eq_iff r.outcome (status_text p.status)) in
      (
        ground (arith, eq_iff r.bundle_id run.bundle_id),
        ground (arith, eq_iff r.target_id run.target_id),
        outcome ∙ ap status_text good,
        ground (arith, eq_iff r.started_at p.started_at),
        ground (arith, eq_iff r.finished_at p.finished_at),
      )

  closed :
      (r : Run) (p : Proof) (tr : Trace)
      → p.status ≡ success
      → answer (finished l.services (l.health tr) r p (replay tr)).1 ≡ none
      → HasSuccess r (Call.finished r p ∷ tr)
  unfolding replay
  closed r p tr good took =
      let done = finished l.services (l.health tr) r p (replay tr) in
      let is_closed : IsClosed r p done.0 =
        Settled-none (IsClosed r p) (replay tr) done
          (finished-Settled l.services (l.health tr) r p (replay tr)) (answer-none done.1 took) in
      let (own, ended, kept) = is_closed in
      let (row, there, same) = kept in
      let (bundle, target, outcome, started, ended_at) = fields r p row good same in
      (p, tr, row, refl, good, own, there, bundle, target, outcome, started, ended_at)

  recorded : (env : Env) (r : Run) (tr : Trace) → Recorded (with_ledger env) r tr → HasSuccess r tr
  recorded env r (Call.finished r' p ∷ tr) (same, good, status, took) =
      subst (λ x. HasSuccess r (Call.finished x p ∷ tr)) (sym same) (closed r p tr good took)
  recorded env r [] h = absurd h
  recorded env r (Call.upload t b ∷ tr) h = absurd h
  recorded env r (Call.register_bundle r' ∷ tr) h = absurd h
  recorded env r (Call.start t q ∷ tr) h = absurd h
  recorded env r (Call.observe t id ∷ tr) h = absurd h
  recorded env r (Call.resolve id ∷ tr) h = absurd h
  recorded env r (Call.send_secrets t id vs ∷ tr) h = absurd h

  -- `Execute` with the adapter's history over the management state: if it returns without an
  -- error, then the last call of the run hands the history a proof of success with the run's id,
  -- bundle, hash and target, and the store that the calls of the history have left has a record
  -- under the run's id with the run's bundle and target, the outcome success and the times of that
  -- proof.
  pub execute-HasSuccess :
      (env : Env) (c : Codec) (waits : ℕ) (target : Text) (b : Bundle)
      → (execute (with_ledger env) c waits target b).error ≡ none
      → HasSuccess
          (execute (with_ledger env) c waits target b).run
          (execute (with_ledger env) c waits target b).trace
  execute-HasSuccess env c waits target b fine =
      let o = execute (with_ledger env) c waits target b in
      let safe = execute-IsSafe (with_ledger env) c waits target b in
      let concluded : IsConcluded (with_ledger env) none o.run o.trace =
        subst (λ e. IsConcluded (with_ledger env) e o.run o.trace) fine safe.succeeded in
      recorded env o.run o.trace concluded
