-- ===== src/State/Migrations/Rounds.antt =====
-- internal/managementstate/migrations.go: the equations of one round of migrateWith.
use vpsmith.Base.{
  ℕ, ◌+◌, ◌≤◌, ◌<◌, ◌≡◌, refl, ◌∙◌, ◌⊎◌, inl, inr, none, some, List, [], ◌∷◌, Bool, true, false,
  All, arith, Bool-cases,
}
use vpsmith.State.Connection.{
  Connection, Commit, commits_unseen, at_rest, in_transaction, fail_statement,
}
use vpsmith.State.Migrate.{
  Migration, Database, at_version, Engine, MigrateError, Attempt, done, left,
  current_schema_version, commit_attempt, finish_attempt, attempt, give_up, migrate_from,
  migrate_with,
}

pub version-cases : (a b : ℕ) → (a ≤ b) ⊎ ((b + 1 < a) ⊎ (a ≡ b + 1))
version-cases a b = ground arith

pub order-cases : (a b : ℕ) → (a ≤ b) ⊎ (b < a)
order-cases a b = ground arith

module _ {C : Type 0} (engine : Engine C) where
  -- A migration to `v` that ends with `r` and passes the checks behind it.
  abbrev pub Applies : ℕ → C × Bool → C → Type 0
  Applies v r tables =
      (r ≡ (tables, true)) × (engine.sets_version v ≡ true) × (engine.keys_hold v tables ≡ true)

  -- The ways in which the transaction of a migration ends.
  pub data Attempted (v : ℕ) (r : C × Bool) (db : Database C) : Attempt C → Type 0 where
    made :
        {tables : C}
        → Applies v r tables
        → engine.commit v ≡ Commit.commits
        → Attempted v r db (done (at_version v tables))
    closed : Attempted v r db (left (at_rest db))
    still_open :
        {w : ℕ} {tables : C}
        → (w ≡ db.user_version) ⊎ (w ≡ v)
        → Attempted v r db (left (in_transaction db (at_version w tables)))
    unseen :
        {tables : C}
        → Applies v r tables
        → engine.commit v ≡ commits_unseen
        → Attempted v r db (left (at_rest (at_version v tables)))

  broken-Attempted :
      (v : ℕ) (r : C × Bool) (db : Database C) (w : ℕ) (tables : C) (stays : Bool)
      → (w ≡ db.user_version) ⊎ (w ≡ v)
      → Attempted v r db (left (fail_statement stays db (at_version w tables)))
  broken-Attempted v r db w tables true at = Attempted.still_open at
  broken-Attempted v r db w tables false at = Attempted.closed

  commit-Attempted :
      (v : ℕ) (r : C × Bool) (db : Database C) (tables : C) (k : Commit)
      → Applies v r tables
      → engine.commit v ≡ k
      → Attempted v r db (commit_attempt engine k db (at_version v tables))
  unfolding commit_attempt
  commit-Attempted v r db tables Commit.commits good e = Attempted.made good e
  commit-Attempted v r db tables Commit.refused good e = Attempted.still_open (inr refl)
  commit-Attempted v r db tables Commit.undone good e = Attempted.closed
  commit-Attempted v r db tables commits_unseen good e = Attempted.unseen good e

  finish-Attempted :
      (v : ℕ) (db : Database C) (r : C × Bool) → Attempted v r db (finish_attempt engine v db r)
  unfolding finish_attempt
  finish-Attempted v db (tables, false) =
      broken-Attempted v (tables, false) db db.user_version tables (engine.stays_open v) (inl refl)
  finish-Attempted v db (tables, true) = elim (Bool-cases (engine.sets_version v)) [
    | inr bad ↦
        rw (bad, finish_attempt)
          (broken-Attempted v (tables, true) db db.user_version tables (engine.stays_open v)
            (inl refl))
    | inl sets ↦ elim (Bool-cases (engine.keys_hold v tables)) [
      | inr bad ↦
          rw (sets, bad, finish_attempt)
            (broken-Attempted v (tables, true) db v tables (engine.stays_open v) (inr refl))
      | inl keys ↦
          rw (sets, keys, finish_attempt)
            (commit-Attempted v (tables, true) db tables (engine.commit v) (refl, sets, keys) refl)
    ]
  ]

  pub attempt-Attempted :
      (item : Migration C) (db : Database C)
      → Attempted item.version (item.up db.tables) db (attempt engine item db)
  unfolding attempt
  attempt-Attempted item db = finish-Attempted item.version db (item.up db.tables)

  -- The ways of one round of the loop.
  module _ (item : Migration C) (set : List (Migration C)) (db : Database C) where
    pub round-low :
        item.version ≤ db.user_version
        → migrate_from engine db.user_version (item ∷ set) db
          ≡ migrate_from engine db.user_version set db
    unfolding migrate_from
    round-low low = ground arith

    pub round-gap :
        db.user_version + 1 < item.version
        → migrate_from engine db.user_version (item ∷ set) db
          ≡ (at_rest db, some (MigrateError.migration_gap db.user_version item.version))
    unfolding migrate_from
    round-gap high = ground arith

    pub round-closed :
        item.version ≡ db.user_version + 1
        → engine.begins item.version ≡ false
        → migrate_from engine db.user_version (item ∷ set) db
          ≡ (at_rest db, some (MigrateError.begin_failed item.version))
    unfolding migrate_from
    round-closed next shut = ground arith

    pub round-failed :
        {conn : Connection (Database C)}
        → item.version ≡ db.user_version + 1
        → engine.begins item.version ≡ true
        → attempt engine item db ≡ left conn
        → migrate_from engine db.user_version (item ∷ set) db
          ≡ give_up engine item.version db.user_version conn
    unfolding migrate_from
    round-failed {conn} next opened failed = ground arith

    pub round-done :
        {db' : Database C}
        → item.version ≡ db.user_version + 1
        → engine.begins item.version ≡ true
        → attempt engine item db ≡ done db'
        → migrate_from engine db.user_version (item ∷ set) db
          ≡ migrate_from engine item.version set db'
    unfolding migrate_from
    round-done {db'} next opened fine = ground arith

  pub round-none :
      (db : Database C) → migrate_from engine db.user_version [] db ≡ (at_rest db, none)
  unfolding migrate_from
  round-none db = refl

  -- A set without a version above that of the database: nothing is done.
  pub migrate_from-done :
      (set : List (Migration C)) (db : Database C)
      → All (λ m. m.version ≤ db.user_version) set
      → migrate_from engine db.user_version set db ≡ (at_rest db, none)
  migrate_from-done [] db low = round-none db
  migrate_from-done (item ∷ set) db low =
      round-low item set db low.0 ∙ migrate_from-done set db low.1

  -- The three ways of migrateWith.
  module _ (set : List (Migration C)) (db : Database C) where
    pub unread :
        engine.reads ≡ false
        → migrate_with engine set db ≡ (at_rest db, some MigrateError.read_failed)
    unfolding migrate_with
    unread h = ground arith

    pub newer :
        engine.reads ≡ true
        → current_schema_version < db.user_version
        → migrate_with engine set db
          ≡ (at_rest db, some (MigrateError.newer_schema db.user_version))
    unfolding migrate_with
    newer h high = ground arith

    pub started :
        engine.reads ≡ true
        → db.user_version ≤ current_schema_version
        → migrate_with engine set db ≡ migrate_from engine db.user_version set db
    unfolding migrate_with
    started h low = ground arith

  -- A call that reports no error has read a version that is supported.
  pub supported :
      (set : List (Migration C)) (db : Database C) {conn : Connection (Database C)}
      → migrate_with engine set db ≡ (conn, none)
      → (engine.reads ≡ true) × (db.user_version ≤ current_schema_version)
  unfolding migrate_with
  supported set db h = ground arith
