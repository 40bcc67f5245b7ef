-- ===== src/State/Atomic.antt =====
-- `Change` of internal/managementstate/store.go: what a call leaves on its connection, however it ends.
use vpsmith.Base.{
  ◌≡◌, ◌≢◌, refl, sym, ap, ◌⊎◌, inl, inr, Bool, true, false, Option, none, some, Bool-cases,
}
use vpsmith.Base.Result.{Result, ok, err}
use vpsmith.State.Db.{Db, Services, StateError, begin_failed}
use vpsmith.State.Connection.{Connection, Commit, commits_unseen, at_rest, roll_back}
use vpsmith.State.Transaction.{Fares, Statements, finish, change_on}
use vpsmith.State.Store.{change}

-- `c'` is the connection that the call leaves.
abbrev pub IsAtomic :
    Fares → Statements → Connection Db → Connection Db × Option StateError → Type 0
IsAtomic q f c (c', none) =
    (c.pending ≡ none) × (c'.pending ≡ none) × (f c.durable ≡ (c'.durable, none))
IsAtomic q f c (c', some e) =
    ((c'.durable ≡ c.durable) ⊎ ((q.commit ≡ commits_unseen) × (f c.durable ≡ (c'.durable, none))))
    × ((c'.pending ≡ none)
        ⊎ (q.rolls_back ≡ false)
        ⊎ ((c.pending ≢ none) × (c' ≡ c) × (e ≡ begin_failed)))

abbrev fares : Bool → Commit → Bool → Fares
fares stays k rolls = record { begins = true; stays_open = stays; commit = k; rolls_back = rolls }

finish-IsAtomic :
    (stays : Bool) (k : Commit) (rolls : Bool) (f : Statements) (db : Db)
    (r : Db × Option StateError)
    → f db ≡ r
    → IsAtomic (fares stays k rolls) f (at_rest db) (finish (fares stays k rolls) db r)
unfolding finish roll_back
finish-IsAtomic true k true f db (mid, some e) h = (inl refl, inl refl)
finish-IsAtomic false k true f db (mid, some e) h = (inl refl, inl refl)
finish-IsAtomic true k false f db (mid, some e) h = (inl refl, inr (inl refl))
finish-IsAtomic false k false f db (mid, some e) h = (inl refl, inl refl)
finish-IsAtomic stays Commit.commits rolls f db (mid, none) h = (refl, refl, h)
finish-IsAtomic stays Commit.refused true f db (mid, none) h = (inl refl, inl refl)
finish-IsAtomic stays Commit.refused false f db (mid, none) h = (inl refl, inr (inl refl))
finish-IsAtomic stays Commit.undone true f db (mid, none) h = (inl refl, inl refl)
finish-IsAtomic stays Commit.undone false f db (mid, none) h = (inl refl, inl refl)
finish-IsAtomic stays Commit.commits_unseen true f db (mid, none) h = (inr (refl, h), inl refl)
finish-IsAtomic stays Commit.commits_unseen false f db (mid, none) h = (inr (refl, h), inl refl)

change_at :
    (q : Fares) (f : Statements) (db : Db) (pending : Option Db)
    → IsAtomic q f
        (record { durable = db; pending = pending })
        (change_on q f (record { durable = db; pending = pending }))
unfolding change_on
change_at q f db (some mid) = (inl refl, inr (inr ((λ h. cc), refl, refl)))
change_at q f db none = elim (Bool-cases q.begins) [
  | inr closed ↦ rw (closed, change_on) (inl refl, inl refl)
  | inl opened ↦
      rw (opened, change_on) (finish-IsAtomic q.stays_open q.commit q.rolls_back f db (f db) refl)
]

-- A call of `Change` on any connection, with any change function, however BEGIN, the statements,
-- COMMIT and ROLLBACK fare: if it reports no error, what is durable is what the function made of
-- the tables before, and no transaction is open. If it reports an error, the durable tables are
-- those before, or those that the function made without an error, by a COMMIT that has committed
-- and reports an error; and no transaction is open, unless the ROLLBACK has failed, or one was
-- open before, BEGIN was refused and the connection is as it was.
pub change_on-IsAtomic :
    (q : Fares) (f : Statements) (c : Connection Db) → IsAtomic q f c (change_on q f c)
change_on-IsAtomic q f c = change_at q f c.durable c.pending

-- What is left of the change function's outcome: the tables or the error.
abbrev outcome : Db × Option StateError → Result StateError Db
outcome (db, none) = ok db
outcome (db, some e) = err e

abbrev is_commit : Commit → Bool
is_commit Commit.commits = true
is_commit k = false

module _ (s : Services) where
  abbrev rest_of : Db × Option StateError → Connection Db × Option StateError
  rest_of (db, e) = (at_rest db, e)

  finish-change :
      (stays : Bool) (k : Commit) (f : Statements) (db : Db) (r : Db × Option StateError)
      → k ≢ commits_unseen
      → f db ≡ r
      → change_on (fares stays k true) f (at_rest db)
        ≡ rest_of (change s true (is_commit k) (λ d. outcome (f d)) db)
  unfolding change change_on finish roll_back
  finish-change true k f db (mid, some e) plain h = rw (h, change, change_on) refl
  finish-change false k f db (mid, some e) plain h = rw (h, change, change_on) refl
  finish-change stays Commit.commits f db (mid, none) plain h =
      rw (h, change, change_on) (ap (λ (x : Db × Option StateError). (at_rest x.0, none)) (sym h))
  finish-change stays Commit.refused f db (mid, none) plain h = rw (h, change, change_on) refl
  finish-change stays Commit.undone f db (mid, none) plain h = rw (h, change, change_on) refl
  finish-change stays Commit.commits_unseen f db (mid, none) plain h = absurd (plain refl)

  -- Where ROLLBACK succeeds and no COMMIT reports an error once it has committed, a call on a connection
  -- without an open transaction leaves the tables and the error that `change` gives.
  change_on-change :
      (q : Fares) (f : Statements) (db : Db)
      → q.rolls_back ≡ true
      → q.commit ≢ commits_unseen
      → change_on q f (at_rest db)
        ≡ rest_of (change s q.begins (is_commit q.commit) (λ d. outcome (f d)) db)
  unfolding change change_on
  change_on-change q f db works plain = elim (Bool-cases q.begins) [
    | inr closed ↦ rw (closed, change, change_on) refl
    | inl opened ↦
        rw (opened, works, change_on, change)
          (finish-change q.stays_open q.commit f db (f db) plain refl)
  ]
