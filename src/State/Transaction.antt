-- ===== src/State/Transaction.antt =====
-- `Change` of internal/managementstate/store.go on a connection, with the COMMIT and the deferred ROLLBACK.
use vpsmith.Base.{Bool, Option, none, some, if◌then◌else◌}
use vpsmith.State.Db.{Db, StateError, begin_failed, commit_failed}
use vpsmith.State.Connection.{
  Connection, Commit, commits, at_rest, fail_statement, fail_commit, roll_back,
}

-- How the database fares in one call: BEGIN (refused also where no connection is to be had), whether a
-- failed statement leaves the transaction open, COMMIT and ROLLBACK.
pub record Fares : Type 0 where
  pub begins : Bool
  pub stays_open : Bool
  pub commit : Commit
  pub rolls_back : Bool

-- The change function: the tables as its statements leave them, also behind an error.
abbrev pub Statements : Type 0
Statements = Db → Db × Option StateError

-- The end of the transaction on the tables `db`.
unfoldable pub finish : Fares → Db → Db × Option StateError → Connection Db × Option StateError
unfolding roll_back
finish q db (mid, some e) = (roll_back q.rolls_back (fail_statement q.stays_open db mid), some e)
finish q db (mid, none) = elim q.commit [
  | commits ↦ (at_rest mid, none)
  | c ↦ (roll_back q.rolls_back (fail_commit c db mid), some commit_failed)
]

-- `Change`. A connection with an open transaction takes no BEGIN.
unfoldable pub change_on : Fares → Statements → Connection Db → Connection Db × Option StateError
unfolding finish
change_on q f c = elim c.pending [
  | some mid ↦ (c, some begin_failed)
  | none ↦ if q.begins then finish q c.durable (f c.durable) else (c, some begin_failed)
]
