-- ===== src/State/Invariant/Always.antt =====
-- A store that only `Change` of internal/managementstate/store.go has written is consistent.
use vpsmith.Base.{◌≡◌, subst, Bool, true, false, List, [], ◌∷◌}
use vpsmith.Base.{arith, inl, inr}
use vpsmith.Base.Result.{ok, Result-cases}
use vpsmith.State.Db.{Db, Services, empty_db}
use vpsmith.State.Store.{Op, apply, apply_all, change}
use vpsmith.State.Invariant.Defs.{IsConsistent}
use vpsmith.State.Invariant.Calls
use vpsmith.State.Invariant.Rows

empty_db-IsConsistent : IsConsistent empty_db
empty_db-IsConsistent = ((tt, tt, tt, tt, tt, tt, tt), (tt, tt, tt, tt))

module _ (s : Services) where
  -- Whatever method of `Change` is called with whatever arguments: if the call returns without an
  -- error and the store was consistent, the store is consistent afterwards.
  pub apply-IsConsistent :
      (op : Op) (db : Db) {db' : Db} → apply s op db ≡ ok db' → IsConsistent db → IsConsistent db'
  unfolding apply
  apply-IsConsistent (Op.create_target v) db = Calls.create_target-IsConsistent v db
  apply-IsConsistent (Op.create_pending_target id user) db =
      Calls.create_pending_target-IsConsistent id user db
  apply-IsConsistent (Op.set_target_address id a) db = Calls.set_target_address-IsConsistent id a db
  apply-IsConsistent (Op.set_ssh_identity id secret) db =
      Calls.set_ssh_identity-IsConsistent id secret db
  apply-IsConsistent (Op.set_ssh_trust id k f t) db = Calls.set_ssh_trust-IsConsistent s id k f t db
  apply-IsConsistent (Op.set_desired_state id d) db = Calls.set_desired_state-IsConsistent s id d db
  apply-IsConsistent (Op.record_observed_state id o) db =
      Calls.record_observed_state-IsConsistent s id o db
  apply-IsConsistent (Op.create_secret id now name origin) db =
      Calls.create_secret-IsConsistent s id now name origin db
  apply-IsConsistent (Op.set_secret nonce id v) db = Calls.set_secret-IsConsistent s nonce id v db
  apply-IsConsistent (Op.rotate_secret nonce now id v) db =
      Calls.rotate_secret-IsConsistent s nonce now id v db
  apply-IsConsistent (Op.delete_secret id) db = Calls.delete_secret-IsConsistent id db
  apply-IsConsistent (Op.delete_backup id) db = Calls.delete_backup-IsConsistent id db
  apply-IsConsistent (Op.append_execution_bundle now b) db =
      Rows.append_execution_bundle-IsConsistent s now b db
  apply-IsConsistent (Op.append_execution_record r) db =
      Rows.append_execution_record-IsConsistent s r db
  apply-IsConsistent (Op.register_backup now b) db = Rows.register_backup-IsConsistent s now b db
  apply-IsConsistent (Op.register_source_artifact a) db =
      Rows.register_source_artifact-IsConsistent s a db
  apply-IsConsistent (Op.create_source_workspace w) db =
      Rows.create_source_workspace-IsConsistent s w db
  apply-IsConsistent (Op.update_workspace_current id sha) db =
      Rows.update_workspace_current-IsConsistent id sha db
  apply-IsConsistent (Op.mark_workspace_synchronized id c sha) db =
      Rows.mark_workspace_synchronized-IsConsistent id c sha db
  apply-IsConsistent (Op.configure_github g) db = Rows.configure_github-IsConsistent s g db

  pub apply_all-IsConsistent :
      (ops : List Op) (db : Db) {db' : Db}
      → apply_all s ops db ≡ ok db'
      → IsConsistent db
      → IsConsistent db'
  unfolding apply_all
  apply_all-IsConsistent [] db {db' = db'} h c =
      let e : db ≡ db' = ground arith in subst IsConsistent e c
  apply_all-IsConsistent (op ∷ ops) db {db' = db'} h c = elim (Result-cases (apply s op db)) [
    | inl (e, bad) ↦ ground arith
    | inr (mid, good) ↦
        let rest : apply_all s ops mid ≡ ok db' = ground arith in
        apply_all-IsConsistent ops mid rest (apply-IsConsistent op db good c)
  ]

  -- A transaction of any calls leaves a consistent store consistent, whether it commits, one of its
  -- calls fails, or the database refuses to begin or to commit.
  pub change-IsConsistent :
      (begins commits : Bool) (ops : List Op) (db : Db)
      → IsConsistent db
      → IsConsistent (change s begins commits (apply_all s ops) db).0
  unfolding change
  change-IsConsistent false commits ops db c = c
  change-IsConsistent true true ops db c = elim (Result-cases (apply_all s ops db)) [
    | inl (e, bad) ↦ rw (bad, change) c
    | inr (mid, good) ↦ rw (good, change) (apply_all-IsConsistent ops db good c)
  ]
  change-IsConsistent true false ops db c = elim (Result-cases (apply_all s ops db)) [
    | inl (e, bad) ↦ rw (bad, change) c
    | inr (mid, good) ↦ rw (good, change) c
  ]

  -- A store that was opened empty and then took any transactions.
  pub data Reachable : Db → Type 0 where
    opened : Reachable empty_db
    changed :
        (begins commits : Bool) (ops : List Op) (db : Db)
        → Reachable db
        → Reachable (change s begins commits (apply_all s ops) db).0

  -- Every store that transactions make of an empty one, whatever methods of `Change` they call and
  -- however they end, is consistent: no key stands twice in a table; the SSH identity of a target
  -- is unset or a secret of the store, as are the secrets that its desired modules name, and its
  -- trust status is one of the three; every execution record has its bundle, every workspace a
  -- base source of its kind, and the token of the GitHub configuration is a secret of the store.
  pub Reachable-IsConsistent : (db : Db) → Reachable db → IsConsistent db
  Reachable-IsConsistent db opened = empty_db-IsConsistent
  Reachable-IsConsistent db (changed begins commits ops before r) =
      change-IsConsistent begins commits ops before (Reachable-IsConsistent before r)
