-- ===== src/Tests/Histories.antt =====
-- A run of internal/executionstate: a bundle is registered and the run's end recorded.
use vpsmith.Base.{◌≡◌, refl, true, Option, none}
use vpsmith.Base.Text.{
  text, ◌==◌, trim_left, trim_reversed, trim_space, is_blank, space_one, space_two, space_three,
}
use vpsmith.Base.Table.{has_row, insert_row}
use vpsmith.Execution.Types.{Status, Run, Proof}
use vpsmith.State.Db.{Db, empty_db}
use vpsmith.State.Statements.{insert_bundle, insert_record}
use vpsmith.State.Change.{append_execution_bundle, append_execution_record}
use vpsmith.State.Guards.{reject_material}
use vpsmith.State.Store.{change}
use vpsmith.Adapter.{Health, AdapterError, find_bundle, find_record, register_bundle, finished}
use vpsmith.Adapter.Laws.{
  HasBundle, IsClosed, Settled, register_bundle-Settled, register_bundle-again, finished-Settled,
  finished-again,
}
use vpsmith.Base.Text.{
  contains, cut_prefix, has_prefix, has_suffix, has_byte, contains_any, split, join,
}
use vpsmith.Base.Result.{for_each}
use vpsmith.Base.Dict.{lookup, has_key}
use vpsmith.Base.Sort.{sort_texts, sort_by, insert_by}
use vpsmith.Bundle.Paths.{
  clean_step, clean_onto, clean, safe_archive_path, hex_byte, all_hex, valid_sha256,
}
use vpsmith.Bundle.Verify.{
  read_members, cut_checksum, trim_newline, check_line, check_lines, verify_payload_checksums,
  require_json_eof, read_manifest, check_header, check_runner, check_content_id, verify_manifest,
  verify_files, verify,
}
use vpsmith.Execution.Secrets.{secret_ids, resolve_all, resolve_found, resolve_secrets}
use vpsmith.Execution.Executor.{
  Outcome, execute, validate_bundle, launch, poll, turn, examine, deliver, send_resolved, settle,
  classify, observation_matches,
}
use vpsmith.Adapter.Runs.{Ledger, replay, with_ledger, HasSuccess, execute-HasSuccess}
use vpsmith.Tests.Bundles.{small_id, small_codec, small_bundle}
use vpsmith.Tests.Runs.{run_hash, small_proof, small_env}
use vpsmith.Tests.Stores.{demo}

abbrev well : Health
well = record { reads = true; begins = true; commits = true }

abbrev small_run : Run
small_run = record {
  id = text "run";
  target_id = text "t";
  bundle_id = small_id;
  bundle_sha256 = run_hash;
  kind = text "validation";
  version = text "1";
  status = Status.success;
  phase = text "done";
}

abbrev registered : Db × Option AdapterError
registered = register_bundle demo well (text "now") small_run empty_db

small_register-Settled : Settled (HasBundle small_run) empty_db registered
small_register-Settled = register_bundle-Settled demo well (text "now") small_run empty_db

registered-fine : registered.1 ≡ none
unfolding register_bundle find_bundle change append_execution_bundle insert_bundle insert_row
    has_row reject_material ◌==◌ is_blank trim_space trim_left trim_reversed space_one space_two
    space_three
registered-fine = refl

small_register-again :
    register_bundle demo well (text "later") small_run registered.0 ≡ (registered.0, none)
small_register-again =
    register_bundle-again demo well well (text "now") (text "later") small_run empty_db
      registered-fine refl

abbrev done : Proof
done = small_proof Status.success (text "done")

abbrev closed : Db × Option AdapterError
closed = finished demo well small_run done registered.0

small_finish-Settled : Settled (IsClosed small_run done) registered.0 closed
small_finish-Settled = finished-Settled demo well small_run done registered.0

closed-fine : closed.1 ≡ none
unfolding register_bundle find_bundle change append_execution_bundle insert_bundle insert_row
    has_row reject_material ◌==◌ is_blank trim_space trim_left trim_reversed space_one space_two
    space_three finished find_record append_execution_record insert_record
closed-fine = refl

small_finish-again : finished demo well small_run done closed.0 ≡ (closed.0, none)
small_finish-again = finished-again demo well well small_run done registered.0 closed-fine refl

abbrev small_ledger : Ledger
small_ledger = record {
  services = demo;
  start = empty_db;
  health = λ tr. well;
  now = λ tr. text "now";
}

abbrev run_outcome : Outcome
run_outcome = execute (with_ledger small_ledger small_env) small_codec 3 (text "t") small_bundle

run-fine : run_outcome.error ≡ none
unfolding execute validate_bundle launch poll turn examine deliver send_resolved settle classify
    observation_matches secret_ids resolve_all resolve_found resolve_secrets replay register_bundle
    find_bundle change append_execution_bundle insert_bundle insert_row has_row reject_material ◌==◌
    is_blank trim_space trim_left trim_reversed space_one space_two space_three finished find_record
    append_execution_record insert_record verify verify_files read_manifest require_json_eof
    verify_manifest check_header check_runner check_content_id verify_payload_checksums check_lines
    check_line cut_checksum trim_newline read_members safe_archive_path clean clean_onto clean_step
    valid_sha256 all_hex hex_byte contains cut_prefix has_prefix has_suffix has_byte contains_any
    split join lookup has_key for_each sort_texts sort_by insert_by
run-fine = refl

small_run-HasSuccess : HasSuccess small_ledger run_outcome.run run_outcome.trace
small_run-HasSuccess =
    execute-HasSuccess small_ledger small_env small_codec 3 (text "t") small_bundle run-fine
