-- ===== src/Adapter/Laws.antt =====
-- What the history of internal/executionstate/adapter.go keeps, and that telling it something twice
-- changes nothing.
mod Kept
pub use Kept.*
use vpsmith.Base.{
  ◌≡◌, refl, sym, subst, arith, inl, inr, Bool, true, false, ◌&&◌, Option, none, some, List, [],
  ◌∷◌, ◌++◌,
}
use vpsmith.Base.{Bool-cases, Option-cases, and-eq-true}
use vpsmith.Base.Text.{Text, eq_refl}
use vpsmith.Base.Result.{Result, ok, Result-cases}
use vpsmith.Base.Table.{insert_row}
use vpsmith.State.Types.{ExecutionBundle, ExecutionRecord}
use vpsmith.State.Db.{Db, Services, StateError}
use vpsmith.State.Statements.{insert_bundle, insert_record}
use vpsmith.State.Change.{append_execution_bundle, append_execution_record}
use vpsmith.State.Store.{change}
use vpsmith.Execution.Types.{Run, Proof, terminal}
use vpsmith.Adapter.{
  AdapterError, Health, same_bundle, same_record, bundle_row, record_row, find_bundle, find_record,
  report, register_bundle, finished, proves, status_text,
}

-- What a call of the history may come to: an error and the store as it was, or success and a fact.
abbrev pub Settled : (Db → Type 0) → Db → Db × Option AdapterError → Type 0
Settled P before (after, none) = P after
Settled P before (after, some e) = after ≡ before

settled :
    (P : Db → Type 0) (db : Db) (r r' : Db × Option AdapterError)
    → r ≡ r'
    → Settled P db r'
    → Settled P db r
settled P db r r' e h = subst (Settled P db) (sym e) h

report-Settled :
    (s : Services) (P : Db → Type 0) (begins commits : Bool) (f : Db → Result StateError Db)
    (db : Db)
    → ((db' : Db) → f db ≡ ok db' → P db')
    → Settled P db (report (change s begins commits f db))
unfolding change
report-Settled s P false commits f db h = refl
report-Settled s P true true f db h = elim (Result-cases (f db)) [
  | inl (e, bad) ↦
      settled P db (report (change s true true f db)) (db, some (AdapterError.change_failed e))
        (rw bad refl) refl
  | inr (mid, good) ↦
      settled P db (report (change s true true f db)) (mid, none) (rw good refl) (h mid good)
]
report-Settled s P true false f db h = elim (Result-cases (f db)) [
  | inl (e, bad) ↦
      settled P db (report (change s true false f db)) (db, some (AdapterError.change_failed e))
        (rw bad refl) refl
  | inr (mid, good) ↦
      settled P db (report (change s true false f db))
        (db, some (AdapterError.change_failed StateError.commit_failed)) (rw good refl) refl
]

settle_bundle :
    (s : Services) (health : Health) (now : Text) (run : Run) (db : Db)
    → health.reads ≡ true
    → Settled (HasBundle run) db (register_bundle s health now run db)
unfolding register_bundle
settle_bundle s health now run db reads =
    elim (Option-cases (find_bundle run.bundle_id db.bundles)) [
      | inl new ↦
          settled (HasBundle run) db (register_bundle s health now run db)
            (report (
              change s health.begins health.commits (append_execution_bundle s now (bundle_row run))
                db))
            (rw (reads, new) refl)
            (report-Settled s (HasBundle run) health.begins health.commits
              (append_execution_bundle s now (bundle_row run)) db
              (λ db' h. append-HasBundle s now run db new h))
      | inr (b, there) ↦ elim (Bool-cases (same_bundle run b)) [
        | inl same ↦
            settled (HasBundle run) db (register_bundle s health now run db) (db, none)
              (rw (reads, there, same) refl) (b, there, same)
        | inr differs ↦
            settled (HasBundle run) db (register_bundle s health now run db)
              (db, some AdapterError.conflicting_bundle) (rw (reads, there, differs) refl) refl
      ]
    ]

settle_record :
    (s : Services) (health : Health) (run : Run) (p : Proof) (db : Db)
    → health.reads ≡ true
    → (proves run p && terminal p.status) ≡ true
    → Settled (HasRecord run p) db (finished s health run p db)
unfolding finished
settle_record s health run p db reads good =
    let (own, ended) = and-eq-true (proves run p) (terminal p.status) good in
    elim (Option-cases (find_record run.id db.records)) [
      | inl new ↦
          settled (HasRecord run p) db (finished s health run p db)
            (report (
              change s health.begins health.commits (append_execution_record s (record_row run p))
                db))
            (rw (reads, own, ended, new) refl)
            (report-Settled s (HasRecord run p) health.begins health.commits
              (append_execution_record s (record_row run p)) db
              (λ db' h. append-HasRecord s run p db new h))
      | inr (r, there) ↦ elim (Bool-cases (same_record run p r)) [
        | inl same ↦
            settled (HasRecord run p) db (finished s health run p db) (db, none)
              (rw (reads, own, ended, there, same) refl) (r, there, same)
        | inr differs ↦
            settled (HasRecord run p) db (finished s health run p db)
              (db, some AdapterError.conflicting_record)
              (rw (reads, own, ended, there, differs) refl) refl
      ]
    ]

pub Settled-none :
    (P : Db → Type 0) (before : Db) (r : Db × Option AdapterError)
    → Settled P before r
    → r.1 ≡ none
    → P r.0
Settled-none P before (after, none) h e = h
Settled-none P before (after, some x) h e = cc

Settled-map :
    (P Q : Db → Type 0) (before : Db) (r : Db × Option AdapterError)
    → ((db : Db) → P db → Q db)
    → Settled P before r
    → Settled Q before r
Settled-map P Q before (after, none) f h = f after h
Settled-map P Q before (after, some x) f h = h

bundle_again :
    (s : Services) (health : Health) (now : Text) (run : Run) (db : Db)
    → health.reads ≡ true
    → HasBundle run db
    → register_bundle s health now run db ≡ (db, none)
unfolding register_bundle
bundle_again s health now run db reads (b, there, same) = rw (reads, there, same) refl

record_again :
    (s : Services) (health : Health) (run : Run) (p : Proof) (db : Db)
    → health.reads ≡ true
    → (proves run p ≡ true) × (terminal p.status ≡ true) × HasRecord run p db
    → finished s health run p db ≡ (db, none)
unfolding finished
record_again s health run p db reads (own, ended, (r, there, same)) =
    rw (own, ended, reads, there, same) refl

-- `RegisterBundle`, whatever the store does: after an error the store is as it was; after a
-- success the store has the run's bundle, with exactly the run's target, hash, kind and version.
pub register_bundle-Settled :
    (s : Services) (health : Health) (now : Text) (run : Run) (db : Db)
    → Settled (HasBundle run) db (register_bundle s health now run db)
unfolding register_bundle
register_bundle-Settled s health now run db = elim (Bool-cases health.reads) [
  | inl reads ↦ settle_bundle s health now run db reads
  | inr fails ↦
      settled (HasBundle run) db (register_bundle s health now run db)
        (db, some AdapterError.snapshot_failed) (rw fails refl) refl
]

-- Once `RegisterBundle` has returned without an error for a run, every later call for the run, at
-- a store that can be read, succeeds and changes nothing.
pub register_bundle-again :
    (s : Services) (health later : Health) (now now' : Text) (run : Run) (db : Db)
    → (register_bundle s health now run db).1 ≡ none
    → later.reads ≡ true
    → register_bundle s later now' run (register_bundle s health now run db).0
      ≡ ((register_bundle s health now run db).0, none)
register_bundle-again s health later now now' run db good reads =
    bundle_again s later now' run (register_bundle s health now run db).0 reads (
      Settled-none (HasBundle run) db (register_bundle s health now run db)
        (register_bundle-Settled s health now run db) good)

-- What a success of `Finished` says.
abbrev pub IsClosed : Run → Proof → Db → Type 0
IsClosed run p db = (proves run p ≡ true) × (terminal p.status ≡ true) × HasRecord run p db

-- `Finished`, whatever the store does: after an error the store is as it was; after a success the
-- proof has the run's four identities and a terminal status, and the store has the run's record
-- with exactly the bundle, the target, the outcome and the times of the proof.
pub finished-Settled :
    (s : Services) (health : Health) (run : Run) (p : Proof) (db : Db)
    → Settled (IsClosed run p) db (finished s health run p db)
unfolding finished
finished-Settled s health run p db = elim (Bool-cases (proves run p)) [
  | inr foreign ↦
      settled (IsClosed run p) db (finished s health run p db) (db, some AdapterError.foreign_proof)
        (rw foreign refl) refl
  | inl own ↦ elim (Bool-cases (terminal p.status)) [
    | inr open_run ↦
        settled (IsClosed run p) db (finished s health run p db)
          (db, some AdapterError.not_terminal) (rw (own, open_run) refl) refl
    | inl ended ↦ elim (Bool-cases health.reads) [
      | inr fails ↦
          settled (IsClosed run p) db (finished s health run p db)
            (db, some AdapterError.snapshot_failed) (rw (own, ended, fails) refl) refl
      | inl reads ↦
          Settled-map (HasRecord run p) (IsClosed run p) db (finished s health run p db)
            (λ db' h. (own, ended, h))
            (settle_record s health run p db reads (rw (own, ended) refl))
    ]
  ]
]

-- Once `Finished` has returned without an error for a run and a proof, every later call with both,
-- at a store that can be read, succeeds and changes nothing.
pub finished-again :
    (s : Services) (health later : Health) (run : Run) (p : Proof) (db : Db)
    → (finished s health run p db).1 ≡ none
    → later.reads ≡ true
    → finished s later run p (finished s health run p db).0 ≡ ((finished s health run p db).0, none)
finished-again s health later run p db good reads =
    record_again s later run p (finished s health run p db).0 reads (
      Settled-none (IsClosed run p) db (finished s health run p db)
        (finished-Settled s health run p db) good)
