-- ===== src/Tests/Migrations.antt =====
-- Three small migrations of internal/managementstate/migrations.go over a list of numbers.
use vpsmith.Base.{
  arith, ℕ, ◌≡◌, refl, inl, inr, none, some, List, [], ◌∷◌, Bool, true, false, eqb, if◌then◌else◌,
}
use vpsmith.State.Connection.{Commit, at_rest, in_transaction, roll_back}
use vpsmith.State.Migrate.{
  Migration, Database, at_version, Engine, MigrateError, commit_attempt, finish_attempt, attempt,
  failure, give_up, migrate_from, migrate_with,
}
use vpsmith.State.Migrations.{IsMigration, migrate_with-IsMigration, migrate_with-again}

abbrev entering : ℕ → Migration (List ℕ)
entering n = record { version = n; up = λ tables. (n ∷ tables, true) }

abbrev three : List (Migration (List ℕ))
three = entering 1 ∷ entering 2 ∷ entering 3 ∷ []

abbrev engine : (ℕ → Commit) → Bool → Engine (List ℕ)
engine commit rolls_back = record {
  reads = true;
  begins = λ n. true;
  sets_version = λ n. true;
  commit = commit;
  stays_open = λ n. true;
  rolls_back = λ n. rolls_back;
  reads_again = λ n. true;
  keys_hold = λ n tables. true;
}

abbrev new : Database (List ℕ)
new = at_version 0 []

abbrev first : Database (List ℕ)
first = at_version 1 (1 ∷ [])

abbrev second : Database (List ℕ)
second = at_version 2 (2 ∷ 1 ∷ [])

abbrev last : Database (List ℕ)
last = at_version 3 (3 ∷ 2 ∷ 1 ∷ [])

abbrev second_as : Commit → ℕ → Commit
second_as k n = if eqb n 2 then k else Commit.commits

-- The second COMMIT fails, and so does the ROLLBACK behind it.
abbrev broken : Engine (List ℕ)
broken = engine (second_as Commit.refused) false

abbrev whole : Engine (List ℕ)
whole = engine (λ n. Commit.commits) true

broken-run :
    migrate_with broken three new
    ≡ (in_transaction first second, some (MigrateError.failed_and_changed 2))
unfolding migrate_with migrate_from attempt finish_attempt commit_attempt give_up failure roll_back
broken-run = refl

-- The second COMMIT fails: the first migration stays.
refused-run :
    migrate_with (engine (second_as Commit.refused) true) three new
    ≡ (at_rest first, some (MigrateError.migration_failed 2))
unfolding migrate_with migrate_from attempt finish_attempt commit_attempt give_up failure roll_back
refused-run = refl

-- The second COMMIT has committed and reports an error.
unseen-run :
    migrate_with (engine (second_as Commit.commits_unseen) true) three new
    ≡ (at_rest second, some (MigrateError.failed_and_changed 2))
unfolding migrate_with migrate_from attempt finish_attempt commit_attempt give_up failure roll_back
unseen-run = refl

whole-run : migrate_with whole three new ≡ (at_rest last, none)
unfolding migrate_with migrate_from attempt finish_attempt commit_attempt
whole-run = refl

broken-IsMigration : IsMigration broken three new (migrate_with broken three new)
broken-IsMigration = migrate_with-IsMigration broken three new

whole-again :
    (last.user_version ≡ 3)
    × ((at_rest last).pending ≡ none)
    × (migrate_with whole three last ≡ (at_rest last, none))
whole-again =
    migrate_with-again whole three new (omega arith, (omega arith, (omega arith, tt)))
      (inr (inr (inl refl))) whole-run
