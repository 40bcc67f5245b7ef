-- ===== src/Adapter.antt =====
-- internal/executionstate/adapter.go: the history and the secrets of the executor, over the management
-- state.
pub mod Laws
pub mod Runs
use vpsmith.Base.{Bool, true, false, not, ◌&&◌, ◌||◌, Option, none, some, List, [], ◌∷◌}
use vpsmith.Base.{if◌then◌else◌, is_empty}
use vpsmith.Base.Text.{Text, text, ◌==◌}
use vpsmith.Base.Result.{Result, ok, err}
use vpsmith.State.Types.{ExecutionBundle, ExecutionRecord}
use vpsmith.State.Db.{Db, Services, StateError}
use vpsmith.State.Change.{append_execution_bundle, append_execution_record}
use vpsmith.State.Store.{change, resolve_secret}
use vpsmith.Execution.Types.{Status, Run, Proof, terminal}

pub data AdapterError : Type 0 where
  snapshot_failed conflicting_bundle conflicting_record foreign_proof not_terminal : AdapterError
  no_secret_id : AdapterError
  change_failed secret_failed : StateError → AdapterError

-- Whether the database answers a read, begins a transaction and commits it.
pub record Health : Type 0 where
  pub reads : Bool
  pub begins : Bool
  pub commits : Bool

-- `string(status)`.
abbrev pub status_text : Status → Text
status_text Status.not_started = text "not-started"
status_text Status.running = text "running"
status_text Status.interrupted = text "interrupted"
status_text Status.failed = text "failed"
status_text Status.success = text "success"
status_text Status.unknown = text "unknown"
status_text (Status.other t) = t

abbrev pub same_bundle : Run → ExecutionBundle → Bool
same_bundle run b =
    b.target_id == run.target_id
    && b.sha256 == run.bundle_sha256
    && b.kind == run.kind
    && b.version == run.version

abbrev pub bundle_row : Run → ExecutionBundle
bundle_row run = record {
  id = run.bundle_id;
  target_id = run.target_id;
  kind = run.kind;
  version = run.version;
  sha256 = run.bundle_sha256;
  created_at = [];
}

abbrev pub same_record : Run → Proof → ExecutionRecord → Bool
same_record run p r =
    r.bundle_id == run.bundle_id
    && r.target_id == run.target_id
    && r.outcome == status_text p.status
    && r.started_at == p.started_at
    && r.finished_at == p.finished_at

abbrev pub record_row : Run → Proof → ExecutionRecord
record_row run p = record {
  id = run.id;
  bundle_id = run.bundle_id;
  target_id = run.target_id;
  outcome = status_text p.status;
  started_at = p.started_at;
  finished_at = p.finished_at;
}

-- The row of the snapshot with the id. The snapshot is in the order of the ids, the table is not; an
-- id stands in one row.
unfoldable pub find_bundle : Text → List ExecutionBundle → Option ExecutionBundle
find_bundle id [] = none
find_bundle id (b ∷ bs) = if b.id == id then some b else find_bundle id bs

unfoldable pub find_record : Text → List ExecutionRecord → Option ExecutionRecord
find_record id [] = none
find_record id (r ∷ rs) = if r.id == id then some r else find_record id rs

-- An error of `Change` is handed on.
abbrev pub report : Db × Option StateError → Db × Option AdapterError
report (db, none) = (db, none)
report (db, some e) = (db, some (change_failed e))

-- `RegisterBundle`, with the time.
unfoldable pub register_bundle : Services → Health → Text → Run → Db → Db × Option AdapterError
register_bundle s health now run db =
    if not health.reads
    then (db, some snapshot_failed)
    else elim (find_bundle run.bundle_id db.bundles) [
      | some b ↦ if same_bundle run b then (db, none) else (db, some conflicting_bundle)
      | none ↦ report (
          change s health.begins health.commits (append_execution_bundle s now (bundle_row run)) db)
    ]

abbrev pub proves : Run → Proof → Bool
proves run p =
    p.run_id == run.id
    && p.bundle_id == run.bundle_id
    && p.bundle_sha256 == run.bundle_sha256
    && p.target_id == run.target_id

-- `Finished`.
unfoldable pub finished : Services → Health → Run → Proof → Db → Db × Option AdapterError
finished s health run p db =
    if not (proves run p)
    then (db, some foreign_proof)
    else if not (terminal p.status)
    then (db, some not_terminal)
    else if not health.reads
    then (db, some snapshot_failed)
    else elim (find_record run.id db.records) [
      | some r ↦ if same_record run p r then (db, none) else (db, some conflicting_record)
      | none ↦
          report (
            change s health.begins health.commits (append_execution_record s (record_row run p)) db)
    ]

-- `Resolve`, up to the call of the consumer.
abbrev pub resolve : Services → Text → Db → Result AdapterError Text
resolve s [] db = err no_secret_id
resolve s (b ∷ id) db = elim (resolve_secret s db (b ∷ id)) [
  | err e ↦ err (secret_failed e)
  | ok value ↦ ok value
]
