-- ===== src/Adapter/Laws/Kept.antt =====
-- internal/executionstate/adapter.go: what the history has of a run, and the rows that put it there.
use vpsmith.Base.{◌≡◌, refl, arith, true, none, some, List, [], ◌∷◌, ◌++◌}
use vpsmith.Base.Text.{Text, eq_refl}
use vpsmith.Base.Result.{ok}
use vpsmith.Base.Table.{insert_row}
use vpsmith.State.Types.{ExecutionBundle, ExecutionRecord}
use vpsmith.State.Db.{Db, Services}
use vpsmith.State.Statements.{insert_bundle, insert_record}
use vpsmith.State.Change.{append_execution_bundle, append_execution_record}
use vpsmith.Execution.Types.{Run, Proof}
use vpsmith.Adapter.{
  same_bundle, same_record, bundle_row, record_row, find_bundle, find_record, status_text,
}

-- The bundle of a run is in the history, with the run's target, hash, kind and version.
abbrev pub HasBundle : Run → Db → Type 0
HasBundle run db =
    (b : ExecutionBundle) × (find_bundle run.bundle_id db.bundles ≡ some b)
    × (same_bundle run b ≡ true)

-- The end of a run is in the history, as the proof tells it.
abbrev pub HasRecord : Run → Proof → Db → Type 0
HasRecord run p db =
    (r : ExecutionRecord) × (find_record run.id db.records ≡ some r) × (same_record run p r ≡ true)

find_bundle-appended :
    (b : ExecutionBundle) (bs : List ExecutionBundle)
    → find_bundle b.id bs ≡ none
    → find_bundle b.id (bs ++ (b ∷ [])) ≡ some b
unfolding find_bundle
find_bundle-appended b [] h = rw (eq_refl b.id) refl
find_bundle-appended b (c ∷ bs) h = ground (arith, find_bundle-appended b bs)

find_record-appended :
    (r : ExecutionRecord) (rs : List ExecutionRecord)
    → find_record r.id rs ≡ none
    → find_record r.id (rs ++ (r ∷ [])) ≡ some r
unfolding find_record
find_record-appended r [] h = rw (eq_refl r.id) refl
find_record-appended r (c ∷ rs) h = ground (arith, find_record-appended r rs)

inserted_bundle :
    (row : ExecutionBundle) (db : Db) {db' : Db}
    → insert_bundle row db ≡ ok db'
    → db'.bundles ≡ db.bundles ++ (row ∷ [])
unfolding insert_bundle insert_row
inserted_bundle row db h = ground arith

inserted_record :
    (row : ExecutionRecord) (db : Db) {db' : Db}
    → insert_record row db ≡ ok db'
    → db'.records ≡ db.records ++ (row ∷ [])
unfolding insert_record insert_row
inserted_record row db h = ground arith

pub append-HasBundle :
    (s : Services) (now : Text) (run : Run) (db : Db) {db' : Db}
    → find_bundle run.bundle_id db.bundles ≡ none
    → append_execution_bundle s now (bundle_row run) db ≡ ok db'
    → HasBundle run db'
unfolding append_execution_bundle
append-HasBundle s now run db {db' = db'} new h =
    let row : ExecutionBundle = record (bundle_row run) { created_at = now } in
    let e : insert_bundle row db ≡ ok db' = ground arith in
    (
      row,
      rw (inserted_bundle row db e) (find_bundle-appended row db.bundles new),
      rw (eq_refl run.target_id, eq_refl run.bundle_sha256, eq_refl run.kind, eq_refl run.version)
          refl,
    )

pub append-HasRecord :
    (s : Services) (run : Run) (p : Proof) (db : Db) {db' : Db}
    → find_record run.id db.records ≡ none
    → append_execution_record s (record_row run p) db ≡ ok db'
    → HasRecord run p db'
unfolding append_execution_record
append-HasRecord s run p db {db' = db'} new h =
    let row : ExecutionRecord = record_row run p in
    let e : insert_record row db ≡ ok db' = ground arith in
    (
      row,
      rw (inserted_record row db e) (find_record-appended row db.records new),
      rw
          (
            eq_refl run.bundle_id,
            eq_refl run.target_id,
            eq_refl (status_text p.status),
            eq_refl p.started_at,
            eq_refl p.finished_at,
          )
          refl,
    )
