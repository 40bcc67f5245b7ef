-- ===== src/State/Migrate.antt =====
-- internal/managementstate/migrations.go: migrateWith on a new connection. The tables are a type of their
-- own, so that a migration is what it is in the source: a number and a function that changes the tables
-- or fails, with the tables that its statements leave.
use vpsmith.Base.{
  ℕ, ◌+◌, Option, none, some, List, [], ◌∷◌, Bool, true, false, not, leb, ltb, eqb, if◌then◌else◌,
}
use vpsmith.State.Connection.{
  Connection, Commit, at_rest, seen, fail_statement, fail_commit, roll_back,
}

pub record Migration (C : Type 0) : Type 0 where
  pub version : ℕ
  pub up : C → C × Bool

-- A database: its `user_version` and its tables.
pub record Database (C : Type 0) : Type 0 where
  pub user_version : ℕ
  pub tables : C

abbrev pub at_version : {C : Type 0} → ℕ → C → Database C
at_version v tables = record { user_version = v; tables = tables }

-- How the database fares: whether the first query, a BEGIN and a setting of the version succeed, how a
-- COMMIT ends, whether a failed statement leaves the transaction open, whether a ROLLBACK succeeds and
-- whether the version can be read again behind the failure of a migration (all but the first by the
-- version of the migration), and the foreign key check.
pub record Engine (C : Type 0) : Type 0 where
  pub reads : Bool
  pub begins : ℕ → Bool
  pub sets_version : ℕ → Bool
  pub commit : ℕ → Commit
  pub stays_open : ℕ → Bool
  pub rolls_back : ℕ → Bool
  pub reads_again : ℕ → Bool
  pub keys_hold : ℕ → C → Bool

pub data MigrateError : Type 0 where
  read_failed : MigrateError
  newer_schema : ℕ → MigrateError
  migration_gap : ℕ → ℕ → MigrateError
  begin_failed : ℕ → MigrateError
  migration_failed : ℕ → MigrateError
  failed_and_changed : ℕ → MigrateError

-- CurrentSchemaVersion.
abbrev pub current_schema_version : ℕ
current_schema_version = 3

-- The function literal of the loop, before its deferred ROLLBACK: `committed`, or the connection that it
-- leaves.
pub data Attempt (C : Type 0) : Type 0 where
  done : Database C → Attempt C
  left : Connection (Database C) → Attempt C

module _ {C : Type 0} (engine : Engine C) where
  unfoldable pub commit_attempt : Commit → Database C → Database C → Attempt C
  commit_attempt Commit.commits db next = done next
  commit_attempt Commit.refused db next = left (fail_commit Commit.refused db next)
  commit_attempt Commit.undone db next = left (fail_commit Commit.undone db next)
  commit_attempt Commit.commits_unseen db next = left (fail_commit Commit.commits_unseen db next)

  -- A statement failed, with the version and the tables so far.
  abbrev pub broken : ℕ → Database C → Database C → Attempt C
  broken v db mid = left (fail_statement (engine.stays_open v) db mid)

  unfoldable pub finish_attempt : ℕ → Database C → C × Bool → Attempt C
  unfolding commit_attempt
  finish_attempt v db (tables, false) = broken v db (at_version db.user_version tables)
  finish_attempt v db (tables, true) =
      let next = at_version v tables in
      if engine.sets_version v
      then (if engine.keys_hold v tables
          then commit_attempt (engine.commit v) db next
          else broken v db next)
      else broken v db (at_version db.user_version tables)

  unfoldable pub attempt : Migration C → Database C → Attempt C
  unfolding finish_attempt
  attempt item db = finish_attempt item.version db (item.up db.tables)

  -- The error behind a ROLLBACK, by the version that is read again: `after`, which stays 0 where the
  -- query fails.
  unfoldable pub failure : ℕ → ℕ → Connection (Database C) → MigrateError
  failure v current conn =
      if eqb (if engine.reads_again v then (seen conn).user_version else 0) current
      then migration_failed v
      else failed_and_changed v

  unfoldable pub give_up :
      ℕ → ℕ → Connection (Database C) → Connection (Database C) × Option MigrateError
  unfolding failure roll_back
  give_up v current conn =
      let conn' = roll_back (engine.rolls_back v) conn in (conn', some (failure v current conn'))

  -- The loop over the migrations, with the variable `current`.
  unfoldable pub migrate_from :
      ℕ → List (Migration C) → Database C → Connection (Database C) × Option MigrateError
  unfolding attempt give_up
  migrate_from current [] db = (at_rest db, none)
  migrate_from current (item ∷ set) db =
      let skipped = migrate_from current set db in
      if leb item.version current
      then skipped
      else (if not (eqb item.version (current + 1))
          then (at_rest db, some (migration_gap current item.version))
          else (if engine.begins item.version
              then elim (attempt item db) [
                | left conn ↦ give_up item.version current conn
                | done db' ↦ migrate_from item.version set db'
              ]
              else (at_rest db, some (begin_failed item.version))))

  unfoldable pub migrate_with :
      List (Migration C) → Database C → Connection (Database C) × Option MigrateError
  unfolding migrate_from
  migrate_with set db =
      if engine.reads
      then (if ltb current_schema_version db.user_version
          then (at_rest db, some (newer_schema db.user_version))
          else migrate_from db.user_version set db)
      else (at_rest db, some read_failed)
