-- ===== src/Execution/Safety.antt =====
-- What holds of every run of `Execute` of internal/execution/executor.go, whatever the target and
-- the history answer.
mod Sound
pub use Sound.*
use vpsmith.Base.{ℕ, suc, ◌≤◌, Bool, true, false, not, ◌&&◌, Option, none, some, List, [], ◌∷◌}
use vpsmith.Base.{
  ◌≡◌, refl, sym, subst, ◌≢◌, inl, inr, arith, if◌then◌else◌, All, Bool-cases, Option-cases,
}
use vpsmith.Base.Text.{Text}
use vpsmith.Base.Result.{Result, ok, err, Result-cases}
use vpsmith.Bundle.Types.{SecretReference, Bundle, Manifest}
use vpsmith.Bundle.Codec.{Codec}
use vpsmith.Execution.Types.{
  not_started, running, success, unknown, Run, Proof, Observation, SecretValue, terminal,
}
use vpsmith.Execution.Env.{
  Call, observe, send_secrets, finished, resolve, start, upload, register_bundle, Trace, Env,
}
use vpsmith.Execution.Secrets.{SecretError, resolve_all, resolve_found, resolve_secrets, secret_ids}
use vpsmith.Execution.Executor.{
  ExecError, identity_mismatch, disappeared, delivery_failed, secrets_unresolved, send_resolved,
  upload_failed, register_failed, start_failed, no_run_id, validate_bundle, empty_run, new_run,
  start_request, Outcome, with_status, with_phase, fails, cancelled, classify, observe_failed,
  observation_matches, same_identity, settle, deliver, examine, turn, poll, launch, execute, alive,
  is_gone, awaits_secrets, classify_status,
}
use vpsmith.Base.Sort.{sort_texts}
use vpsmith.Execution.Loop.{Holds, poll_rule}

-- Whether the target was asked to start.
abbrev pub has_start : Trace → Bool
has_start [] = false
has_start (start t q ∷ tr) = true
has_start (_ ∷ tr) = has_start tr

-- A run that the target was asked to start is not one that has not started.
abbrev pub IsOpen : Bool → Run → Type 0
IsOpen true r = r.status ≢ not_started
IsOpen false r = Unit

started-IsOpen : (started : Bool) (r : Run) → r.status ≢ not_started → IsOpen started r
started-IsOpen true r h = h
started-IsOpen false r h = tt

pub record IsSafe (env : Env) (o : Outcome) : Type 0 where
  pub once : sends o.trace ≤ 1
  pub history : All IsFaithful o.trace
  pub succeeded : IsConcluded env o.error o.run o.trace
  pub started : IsOpen (has_start o.trace) o.run

IsSound-IsSafe : (env : Env) (o : Outcome) → IsSound env o → IsSafe env o
IsSound-IsSafe env o h = record {
  once = h.once;
  history = h.history;
  succeeded = h.succeeded;
  started = started-IsOpen (has_start o.trace) o.run h.started;
}

fails-IsSafe :
    (env : Env) (r : Run) (e : ExecError) (tr : Trace)
    → sends tr ≡ 0
    → has_start tr ≡ false
    → All IsFaithful tr
    → IsSafe env (fails r e tr)
fails-IsSafe env r e tr h k f = ground (arith, f)

module _ (env : Env) where
  launch-IsSafe :
      (waits : ℕ) (target : Text) (b : Bundle) (m : Manifest) (id : Text)
      → IsSafe env (launch env waits target b m id)
  unfolding launch
  launch-IsSafe waits target b m id =
      let r = new_run target b m id in
      let q = start_request target b m id in
      let at_upload = upload target b ∷ [] in
      let at_register = register_bundle r ∷ at_upload in
      let at_start = start target q ∷ at_register in
      elim (Option-cases (env.on_upload [] target b)) [
        | inr (e, w) ↦
            rw (w, launch) (fails-IsSafe env r (upload_failed e) at_upload refl refl (tt, tt))
        | inl w ↦
            rw (w, launch)
              (elim (Option-cases (env.on_register at_upload r)) [
                | inr (e, w') ↦
                    rw w'
                      (fails-IsSafe env r (register_failed e) at_register refl refl (tt, (tt, tt)))
                | inl w' ↦ rw w' (elim (Option-cases (env.on_start at_register target q)) [
                  | inr (e, w'') ↦ rw w'' (
                      IsSound-IsSafe env _ (
                        fails-IsSound env (with_status r unknown) false (start_failed e) at_start
                          (λ n. cc) (omega arith)))
                  | inl w'' ↦ rw w'' (
                      IsSound-IsSafe env _ (
                        poll-IsSound env waits m.secrets (with_status r running) false at_start
                          (omega arith)))
                ])
              ])
      ]

  -- Whatever the target, the secret store and the history answer, and however long the context
  -- lives, `Execute` sends secrets at most once; it hands the history only terminal proofs that
  -- carry the run's identity and status; it returns without an error only if its last call has
  -- recorded a successful proof of the run that it returns; and once the target was asked to
  -- start, the returned run is not reported as not started.
  pub execute-IsSafe :
      (c : Codec) (waits : ℕ) (target : Text) (b : Bundle)
      → IsSafe env (execute env c waits target b)
  unfolding execute
  execute-IsSafe c waits target b = elim (Result-cases (validate_bundle env c target b)) [
    | inl (e, w) ↦ rw (w, execute) (fails-IsSafe env empty_run e [] refl refl tt)
    | inr (m, w) ↦ elim (Result-cases env.new_id) [
      | inl (e, w') ↦
          let made : execute env c waits target b ≡ fails empty_run (no_run_id e) [] =
            ground arith in
          subst (IsSafe env) (sym made) (fails-IsSafe env empty_run (no_run_id e) [] refl refl tt)
      | inr (id, w') ↦
          let made : execute env c waits target b ≡ launch env waits target b m id = ground arith in
          subst (IsSafe env) (sym made) (launch-IsSafe waits target b m id)
    ]
  ]
