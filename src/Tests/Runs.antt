-- ===== src/Tests/Runs.antt =====
-- A run of internal/execution: the target waits for a secret once, runs, and succeeds.
use vpsmith.Base.{◌≡◌, List}
use vpsmith.Base.{refl, true, false, none, some, [], ◌∷◌}
use vpsmith.Base.Text.{Text, text}
use vpsmith.Base.Result.{ok}
use vpsmith.Execution.Types.{Status, Proof, Observation}
use vpsmith.Execution.Env.{Call, Trace, Env, observe}
use vpsmith.Execution.Executor.{asked_run, execute, reconcile}
use vpsmith.Execution.Safety.{IsSafe, execute-IsSafe}
use vpsmith.Execution.Reconcile.{Judged, reconcile-Judged}
use vpsmith.Base.Text.{contains, less, ◌==◌}
use vpsmith.Base.Sort.{sort_texts, sort_by, insert_by}
use vpsmith.Bundle.Types.{SecretReference}
use vpsmith.Execution.Types.{SecretValue}
use vpsmith.Execution.Secrets.{secret_ids, resolve_all, resolve_found, resolve_secrets}
use vpsmith.Execution.Delivered.{IsDelivery, resolve_secrets-IsDelivery}
use vpsmith.Tests.Bundles.{small_id, small_codec, small_bundle}

abbrev pub run_hash : Text
run_hash = text "aaaaaaaaaaaaaaaaaaaaaaaaaaaaaaaaaaaaaaaaaaaaaaaaaaaaaaaaaaaaaaaa"

abbrev pub small_proof : Status → Text → Proof
small_proof status phase = record {
  format_version = 1;
  run_id = text "run";
  bundle_id = small_id;
  bundle_sha256 = run_hash;
  target_id = text "t";
  kind = text "validation";
  status = status;
  phase = phase;
  started_at = text "1";
  finished_at = text "2";
  error = [];
}

abbrev small_observation : Trace → Observation
small_observation (Call.observe t id ∷ tr) = record {
  proof = some (small_proof Status.success (text "done"));
  lock_held = false;
  unit_running = false;
}
small_observation _ = record {
  proof = some (small_proof Status.running (text "awaiting-secrets"));
  lock_held = true;
  unit_running = true;
}

abbrev pub small_env : Env
small_env = record {
  on_upload = λ tr t b. none;
  on_register = λ tr r. none;
  on_start = λ tr t q. none;
  on_observe = λ tr t id. ok (small_observation tr);
  on_resolve = λ tr id. ok (text "v");
  on_send = λ tr t id vs. none;
  on_finished = λ tr r p. none;
  new_id = ok (text "run");
}

small_run-IsSafe : IsSafe small_env (execute small_env small_codec 3 (text "t") small_bundle)
small_run-IsSafe = execute-IsSafe small_env small_codec 3 (text "t") small_bundle

abbrev seen_once : Trace
seen_once = observe (text "t") (text "run") ∷ []

small_run-Judged :
    Judged small_env
      (asked_run (text "t") (text "run") small_id run_hash)
      (small_observation seen_once)
      (observe (text "t") (text "run") ∷ seen_once)
      (reconcile small_env seen_once (text "t") (text "run") small_id run_hash)
small_run-Judged =
    reconcile-Judged small_env seen_once (text "t") (text "run") small_id run_hash
      (small_observation seen_once) refl refl

abbrev small_reference : Text → SecretReference
small_reference id = record {
  secret_id = id;
  container = text "c";
  delivery = text "env";
  target = text "T";
}

abbrev small_references : List SecretReference
small_references =
    small_reference (text "b") ∷ small_reference (text "a") ∷ small_reference (text "b") ∷ []

abbrev small_values : List SecretValue
small_values =
    record { id = text "a"; value = text "v" } ∷ record { id = text "b"; value = text "v" } ∷ []

small_resolved : (resolve_secrets small_env [] small_references).0 ≡ ok small_values
unfolding resolve_secrets resolve_found resolve_all secret_ids contains ◌==◌ sort_texts sort_by
    insert_by less
small_resolved = refl

small_values-IsDelivery : IsDelivery small_references small_values
small_values-IsDelivery = resolve_secrets-IsDelivery small_env [] small_references small_resolved
