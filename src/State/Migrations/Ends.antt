-- ===== src/State/Migrations/Ends.antt =====
-- internal/managementstate/migrations.go: the states that migrateWith can leave, and that of a migration
-- that has failed.
use vpsmith.Base.{
  if◌then◌else◌, ℕ, ◌+◌, ◌≤◌, ◌<◌, ◌≡◌, ◌≢◌, refl, ◌⊎◌, inl, inr, Option, none, some, List, ◌∷◌,
  Bool, true, false, eqb, All, Any, arith,
}
use vpsmith.State.Migrations.Rounds.{Applies, Attempted, closed, still_open, unseen}
use vpsmith.State.Connection.{
  Connection, Commit, commits_unseen, at_rest, in_transaction, seen, roll_back,
}
use vpsmith.State.Migrate.{
  Migration, Database, at_version, Engine, MigrateError, migration_failed, failed_and_changed, left,
  current_schema_version, failure,
}

module _ {C : Type 0} (engine : Engine C) where
  -- A database that migrations of the set lead to, each to the next version, with all its changes, the
  -- foreign key check passed and the COMMIT done, whether or not it reports so.
  pub data Migrated (set : List (Migration C)) : Database C → Database C → Type 0 where
    unchanged : {db : Database C} → Migrated set db db
    migrated :
        {db db' : Database C} {tables : C} (item : Migration C)
        → Any (λ m. m ≡ item) set
        → item.version ≡ db.user_version + 1
        → Applies engine item.version (item.up db.tables) tables
        → (engine.commit item.version ≡ Commit.commits)
          ⊎ (engine.commit item.version ≡ commits_unseen)
        → Migrated set (at_version item.version tables) db'
        → Migrated set db db'

  -- Where a failed migration to `v` leaves the connection: the version before is durable, or `v` by a COMMIT
  -- that has committed and reports an error; no transaction is open unless ROLLBACK has failed.
  abbrev pub Stopped : ℕ → Connection (Database C) → Type 0
  Stopped v conn =
      ((conn.durable.user_version + 1 ≡ v)
        ⊎ ((conn.durable.user_version ≡ v) × (engine.commit v ≡ commits_unseen)))
      × ((conn.pending ≡ none) ⊎ (engine.rolls_back v ≡ false))

  -- What the error says of the connection that is left.
  abbrev pub Reported : List (Migration C) → Connection (Database C) → Option MigrateError → Type 0
  Reported set conn none =
      All (λ m. m.version ≤ conn.durable.user_version) set × (conn.pending ≡ none)
  Reported set conn (some MigrateError.read_failed) = (engine.reads ≡ false) × (conn.pending ≡ none)
  Reported set conn (some (MigrateError.newer_schema v)) =
      (v ≡ conn.durable.user_version) × (current_schema_version < v) × (conn.pending ≡ none)
  Reported set conn (some (MigrateError.migration_gap have next)) =
      (have ≡ conn.durable.user_version) × (have + 1 < next) × (conn.pending ≡ none)
  Reported set conn (some (MigrateError.begin_failed v)) =
      (v ≡ conn.durable.user_version + 1) × (engine.begins v ≡ false) × (conn.pending ≡ none)
  Reported set conn (some (MigrateError.migration_failed v)) =
      Stopped v conn
      × (((seen conn).user_version + 1 ≡ v) ⊎ ((engine.reads_again v ≡ false) × (v ≡ 1)))
  Reported set conn (some (MigrateError.failed_and_changed v)) =
      Stopped v conn × (((seen conn).user_version ≡ v) ⊎ ((engine.reads_again v ≡ false) × (v ≢ 1)))

  pub later :
      (item : Migration C) (set : List (Migration C)) {db db' : Database C}
      → Migrated set db db'
      → Migrated (item ∷ set) db db'
  later item set unchanged = unchanged
  later item set (migrated m is_in next good lands rest) =
      migrated m (inr is_in) next good lands (later item set rest)

  -- The outcome of the loop: what it leaves, no version below the first, and what it reports.
  abbrev pub Outcome :
      List (Migration C) → Database C → Connection (Database C) × Option MigrateError → Type 0
  Outcome set db r =
      Migrated set db r.0.durable
      × (db.user_version ≤ r.0.durable.user_version)
      × Reported set r.0 r.1

  version_error-Reported :
      (set : List (Migration C)) (v n : ℕ) (conn : Connection (Database C)) (known : Bool)
      → v ≡ n + 1
      → engine.reads_again v ≡ known
      → Stopped v conn
      → ((seen conn).user_version ≡ n) ⊎ ((seen conn).user_version ≡ v)
      → (same : Bool) → eqb (if known then (seen conn).user_version else 0) n ≡ same
      → Reported set conn (some (if same then migration_failed v else failed_and_changed v))
  version_error-Reported set v n conn true next reads stop at true e = (stop, inl (ground arith))
  version_error-Reported set v n conn false next reads stop at true e =
      (stop, inr (reads, ground arith))
  version_error-Reported set v n conn true next reads stop (inl at) false e = absurd (ground arith)
  version_error-Reported set v n conn true next reads stop (inr at) false e = (stop, inl at)
  version_error-Reported set v n conn false next reads stop at false e =
      (stop, inr (reads, λ h. ground arith))

  failure-Reported :
      (set : List (Migration C)) (v n : ℕ) (conn : Connection (Database C))
      → v ≡ n + 1
      → Stopped v conn
      → ((seen conn).user_version ≡ n) ⊎ ((seen conn).user_version ≡ v)
      → Reported set conn (some (failure engine v n conn))
  unfolding failure
  failure-Reported set v n conn next stop at =
      version_error-Reported set v n conn (engine.reads_again v) next refl stop at
        (eqb (if engine.reads_again v then (seen conn).user_version else 0) n) refl

  stay :
      (set : List (Migration C)) (item : Migration C) (db : Database C)
      → item.version ≡ db.user_version + 1
      → Outcome
          (item ∷ set)
          db
          (at_rest db, some (failure engine item.version db.user_version (at_rest db)))
  stay set item db next = (
    unchanged,
    omega arith,
    failure-Reported (item ∷ set) item.version db.user_version (at_rest db) next
        (inl (omega arith), inl refl) (inl refl),
  )

  seen_late :
      (set : List (Migration C)) (item : Migration C) (db : Database C) (tables : C)
      → item.version ≡ db.user_version + 1
      → Applies engine item.version (item.up db.tables) tables
      → engine.commit item.version ≡ commits_unseen
      → Outcome (item ∷ set) db (
        at_rest (at_version item.version tables),
        some (
            failure engine item.version db.user_version (at_rest (at_version item.version tables))),
      )
  seen_late set item db tables next good lands = (
    migrated item (inl refl) next good (inr lands) unchanged,
    omega arith,
    failure-Reported (item ∷ set) item.version db.user_version
        (at_rest (at_version item.version tables)) next (inr (refl, lands), inl refl) (inr refl),
  )

  -- A migration of the set that has failed: the connection that it leaves behind the ROLLBACK.
  pub give_up-Outcome :
      (set : List (Migration C)) (item : Migration C) (db : Database C)
      (conn : Connection (Database C)) (works : Bool)
      → item.version ≡ db.user_version + 1
      → engine.rolls_back item.version ≡ works
      → Attempted engine item.version (item.up db.tables) db (left conn)
      → Outcome (item ∷ set) db (
        roll_back works conn,
        some (failure engine item.version db.user_version (roll_back works conn)),
      )
  unfolding roll_back
  give_up-Outcome set item db conn true next e closed = stay set item db next
  give_up-Outcome set item db conn false next e closed = stay set item db next
  give_up-Outcome set item db conn true next e (still_open at) = stay set item db next
  give_up-Outcome set item db conn false next e (still_open {w} {tables} at) = (
    unchanged,
    omega arith,
    failure-Reported (item ∷ set) item.version db.user_version
        (in_transaction db (at_version w tables)) next (inl (omega arith), inr e) at,
  )
  give_up-Outcome set item db conn true next e (unseen {tables} good lands) =
      seen_late set item db tables next good lands
  give_up-Outcome set item db conn false next e (unseen {tables} good lands) =
      seen_late set item db tables next good lands
