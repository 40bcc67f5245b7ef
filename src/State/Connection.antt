-- ===== src/State/Connection.antt =====
-- A connection to the database of internal/managementstate, as store.go and migrations.go use it: what is
-- durable, what an open transaction holds, and what COMMIT and ROLLBACK make of them.
use vpsmith.Base.{Bool, true, false, Option, none, some, if◌then◌else◌}

-- `pending` is what the statements of the open transaction have made so far.
pub record Connection (D : Type 0) : Type 0 where
  pub durable : D
  pub pending : Option D

-- A COMMIT: it commits; it fails and leaves the transaction open; it fails and the database has rolled the
-- transaction back; or it has committed although it reports an error.
pub data Commit : Type 0 where
  commits refused undone commits_unseen : Commit

module _ {D : Type 0} where
  abbrev pub at_rest : D → Connection D
  at_rest d = record { durable = d; pending = none }

  abbrev pub in_transaction : D → D → Connection D
  in_transaction d mid = record { durable = d; pending = some mid }

  -- What a query on the connection reads.
  abbrev pub seen : Connection D → D
  seen c = elim c.pending [ none ↦ c.durable | some mid ↦ mid ]

  -- A statement that fails in a transaction with the tables `mid`. `stays` says whether the database
  -- leaves the transaction open.
  abbrev pub fail_statement : Bool → D → D → Connection D
  fail_statement true d mid = in_transaction d mid
  fail_statement false d mid = at_rest d

  -- A COMMIT that reports an error.
  abbrev pub fail_commit : Commit → D → D → Connection D
  fail_commit Commit.commits d mid = at_rest mid
  fail_commit Commit.refused d mid = in_transaction d mid
  fail_commit Commit.undone d mid = at_rest d
  fail_commit Commit.commits_unseen d mid = at_rest mid

  -- The deferred ROLLBACK, the error of which is ignored. Without an open transaction it changes nothing.
  unfoldable pub roll_back : Bool → Connection D → Connection D
  roll_back works c = if works then at_rest c.durable else c
