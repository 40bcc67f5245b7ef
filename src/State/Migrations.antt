-- ===== src/State/Migrations.antt =====
-- internal/managementstate/migrations.go: what migrateWith leaves behind, and what a second call does.
mod Rounds
mod Ends
use vpsmith.Base.{
  if◌then◌else◌, ℕ, ◌+◌, ◌≤◌, ◌<◌, ◌≡◌, ◌≢◌, refl, sym, subst, ap, ◌∙◌, ◌⊎◌, inl, inr, Option, none,
  some, List, [], ◌∷◌, Bool, true, false, not, leb, ltb, eqb, All, Any, Option-cases, Bool-cases,
  arith,
}
use Rounds.*
use Ends.*
use vpsmith.State.Connection.{
  Connection, Commit, commits_unseen, at_rest, in_transaction, seen, roll_back,
}
use vpsmith.State.Migrate.{
  Migration, Database, at_version, Engine, MigrateError, migration_failed, failed_and_changed,
  Attempt, done, left, current_schema_version, attempt, failure, give_up, migrate_from,
  migrate_with,
}

module _ {C : Type 0} (engine : Engine C) where
  -- A migration that is not above the version of the database changes no report.
  Reported-cons :
      (item : Migration C) (set : List (Migration C)) (conn : Connection (Database C))
      (e : Option MigrateError)
      → item.version ≤ conn.durable.user_version
      → Reported engine set conn e
      → Reported engine (item ∷ set) conn e
  Reported-cons item set conn none low (all, rest) = ((low, all), rest)
  Reported-cons item set conn (some MigrateError.read_failed) low said = said
  Reported-cons item set conn (some (MigrateError.newer_schema v)) low said = said
  Reported-cons item set conn (some (MigrateError.migration_gap have next)) low said = said
  Reported-cons item set conn (some (MigrateError.begin_failed v)) low said = said
  Reported-cons item set conn (some (MigrateError.migration_failed v)) low said = said
  Reported-cons item set conn (some (MigrateError.failed_and_changed v)) low said = said

  skip :
      (item : Migration C) (set : List (Migration C)) (db : Database C)
      (r : Connection (Database C) × Option MigrateError)
      → item.version ≤ db.user_version
      → Outcome engine set db r
      → Outcome engine (item ∷ set) db r
  skip item set db r low (steps, grows, said) =
      (later engine item set steps, grows, Reported-cons item set r.0 r.1 (omega arith) said)

  -- The next migration, committed, in front of what the loop does behind it.
  advance :
      (item : Migration C) (set : List (Migration C)) (db : Database C) (tables : C)
      (r : Connection (Database C) × Option MigrateError)
      → item.version ≡ db.user_version + 1
      → Applies engine item.version (item.up db.tables) tables
      → engine.commit item.version ≡ Commit.commits
      → Outcome engine set (at_version item.version tables) r
      → Outcome engine (item ∷ set) db r
  advance item set db tables r next good lands (steps, grows, said) = (
    migrated item (inl refl) next good (inl lands) (later engine item set steps),
    omega arith,
    Reported-cons item set r.0 r.1 (omega arith) said,
  )

  -- A round of the loop with the next migration, by what its transaction comes to.
  round-Outcome :
      (item : Migration C) (set : List (Migration C)) (db : Database C) (a : Attempt C)
      → item.version ≡ db.user_version + 1
      → engine.begins item.version ≡ true
      → attempt engine item db ≡ a
      → Attempted engine item.version (item.up db.tables) db a
      → ((db' : Database C) → Outcome engine set db' (migrate_from engine db'.user_version set db'))
      → Outcome engine (item ∷ set) db (migrate_from engine db.user_version (item ∷ set) db)
  unfolding give_up
  round-Outcome item set db (left conn) next begins e end more =
      rw (round-failed engine item set db next begins e)
        (give_up-Outcome engine set item db conn (engine.rolls_back item.version) next refl end)
  round-Outcome item set db (done db') next begins e (made {tables} good lands) more =
      rw (round-done engine item set db next begins e) (
        advance item set db tables
          (migrate_from engine item.version set (at_version item.version tables)) next good lands
          (more (at_version item.version tables)))

  migrate_from-Outcome :
      (set : List (Migration C)) (db : Database C)
      → Outcome engine set db (migrate_from engine db.user_version set db)
  migrate_from-Outcome [] db =
      rw (migrate_from-done engine [] db tt) (unchanged, omega arith, (tt, refl))
  migrate_from-Outcome (item ∷ set) db = elim (version-cases item.version db.user_version) [
    | inl low ↦ rw (round-low engine item set db low) (
        skip item set db (migrate_from engine db.user_version set db) low
          (migrate_from-Outcome set db))
    | inr (inl high) ↦
        rw (round-gap engine item set db high) (unchanged, omega arith, (refl, high, refl))
    | inr (inr next) ↦ elim (Bool-cases (engine.begins item.version)) [
      | inr shut ↦
          rw (round-closed engine item set db next shut)
            (unchanged, omega arith, (next, shut, refl))
      | inl begins ↦
          round-Outcome item set db (attempt engine item db) next begins refl
            (attempt-Attempted engine item db) (λ db'. migrate_from-Outcome set db')
    ]
  ]

  abbrev pub IsMigration :
      List (Migration C) → Database C → Connection (Database C) × Option MigrateError → Type 0
  IsMigration set db r = Migrated engine set db r.0.durable × Reported engine set r.0 r.1

  -- `migrateWith` on a new connection, whatever the set, the database and the failures of queries,
  -- statements, BEGIN, COMMIT and ROLLBACK: the durable database is the one before or the one
  -- after migrations of the set, each to the next version and each whole, with its version and
  -- with the foreign keys checked, that the database has committed. Without an error it has at
  -- least the version of each migration of the set and no transaction is open. None is open either
  -- behind an error that is not that of a failed migration; then a version that is refused is
  -- above the supported one, a gap is one above the version, and a refused BEGIN is that of the
  -- next version. Behind a failed migration the version before it is durable, or its own by a
  -- COMMIT that has committed and reports an error, and a transaction is open only where the
  -- ROLLBACK has failed. The error that it failed means that a query reads the version before, or
  -- that it cannot be read and the migration is the first; the error that it failed and changed
  -- the version means that a query reads its version, or that it cannot be read and the migration
  -- is not the first.
  pub migrate_with-IsMigration :
      (set : List (Migration C)) (db : Database C) → IsMigration set db (migrate_with engine set db)
  migrate_with-IsMigration set db = elim (Bool-cases engine.reads) [
    | inr shut ↦ rw (unread engine set db shut) (unchanged, (shut, refl))
    | inl answers ↦ elim (order-cases db.user_version current_schema_version) [
      | inr high ↦ rw (newer engine set db answers high) (unchanged, (refl, high, refl))
      | inl low ↦
          let out = migrate_from-Outcome set db in
          rw (started engine set db answers low) (out.0, out.2)
    ]
  ]

  Any-bound :
      (set : List (Migration C)) (item : Migration C) {n : ℕ}
      → Any (λ m. m ≡ item) set
      → All (λ m. m.version ≤ n) set
      → item.version ≤ n
  Any-bound [] item is_in low = absurd is_in
  Any-bound (m ∷ set) item {n} (inl same) (low, rest) = subst (λ x. x.version ≤ n) same low
  Any-bound (m ∷ set) item (inr is_in) (low, rest) = Any-bound set item is_in rest

  Migrated-bound :
      (set : List (Migration C)) {db db' : Database C} {n : ℕ}
      → All (λ m. m.version ≤ n) set
      → Migrated engine set db db'
      → db.user_version ≤ n
      → db'.user_version ≤ n
  Migrated-bound set all unchanged low = low
  Migrated-bound set {n} all (migrated {db} {db'} item is_in next good lands rest) low =
      Migrated-bound set all rest (Any-bound set item is_in all)

  newest :
      (set : List (Migration C)) {v n : ℕ}
      → Any (λ m. m.version ≡ v) set
      → All (λ m. m.version ≤ n) set
      → v ≤ n
  newest [] top low = absurd top
  newest (m ∷ set) (inl same) (low, rest) = omega arith
  newest (m ∷ set) (inr is_in) (low, rest) = newest set is_in rest

  -- For a set of migrations up to the supported version that has one to it: after `migrateWith`
  -- has returned without an error the durable database has the supported version, no transaction
  -- is open, and a second call at that database succeeds and changes nothing.
  pub migrate_with-again :
      (set : List (Migration C)) (db : Database C) {conn : Connection (Database C)}
      → All (λ m. m.version ≤ current_schema_version) set
      → Any (λ m. m.version ≡ current_schema_version) set
      → migrate_with engine set db ≡ (conn, none)
      → (conn.durable.user_version ≡ current_schema_version)
        × (conn.pending ≡ none)
        × (migrate_with engine set conn.durable ≡ (conn, none))
  migrate_with-again set db {conn} all top h =
      let out : IsMigration set db (conn, none) =
        subst (IsMigration set db) h (migrate_with-IsMigration set db) in
      let (answers, low) = supported engine set db h in
      let most : conn.durable.user_version ≤ current_schema_version =
        Migrated-bound set all out.0 low in
      let least : current_schema_version ≤ conn.durable.user_version = newest set top out.1.0 in
      let (upto, rest) = out.1 in
      (
        omega arith,
        rest,
        started engine set conn.durable answers most
            ∙ migrate_from-done engine set conn.durable upto
            ∙ ap (λ p. (record { durable = conn.durable; pending = p }, none)) (sym rest),
      )
