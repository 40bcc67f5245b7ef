-- ===== src/State/Invariant/History.antt =====
-- Bundles and execution records of internal/managementstate are only ever appended.
use vpsmith.Base.{◌≡◌, refl, sym, ap, ◌∙◌, arith, inl, inr, List, [], ◌∷◌, ◌++◌}
use vpsmith.Base.{if◌then◌else◌, is_empty}
use vpsmith.Base.Text.{Text}
use vpsmith.Base.Result.{ok, Result-cases}
use vpsmith.Base.Table.{insert_row}
use vpsmith.State.Types.{ExecutionBundle, ExecutionRecord}
use vpsmith.State.Db.{Db, Services}
use vpsmith.State.Change
use vpsmith.State.Statements.{insert_bundle, insert_record}
use vpsmith.State.Store.{Op, apply, apply_all}
use vpsmith.State.Invariant.Kept
use vpsmith.State.Invariant.Kept.{KeepsHistory}

-- The second list is the first one with rows behind it.
abbrev pub IsLonger : {A : Type 0} → List A → List A → Type 0
IsLonger {A = A} before after = (more : List A) × (after ≡ before ++ more)

abbrev pub Extends : Db → Db → Type 0
Extends db db' = IsLonger db.bundles db'.bundles × IsLonger db.records db'.records

append_nil : {A : Type 0} (xs : List A) → xs ++ [] ≡ xs
append_nil [] = refl
append_nil (x ∷ xs) = ap (λ r. x ∷ r) (append_nil xs)

append_assoc : {A : Type 0} (xs ys zs : List A) → (xs ++ ys) ++ zs ≡ xs ++ (ys ++ zs)
append_assoc [] ys zs = refl
append_assoc (x ∷ xs) ys zs = ap (λ r. x ∷ r) (append_assoc xs ys zs)

IsLonger-trans : {A : Type 0} (xs ys zs : List A) → IsLonger xs ys → IsLonger ys zs → IsLonger xs zs
IsLonger-trans xs ys zs (m, e) (n, f) = (m ++ n, f ∙ (ap (λ r. r ++ n) e ∙ append_assoc xs m n))

same-IsLonger : {A : Type 0} (before after : List A) → after ≡ before → IsLonger before after
same-IsLonger before after e = ([], e ∙ sym (append_nil before))

Keeps-Extends : (db db' : Db) → KeepsHistory db db' → Extends db db'
Keeps-Extends db db' h =
    (same-IsLonger db.bundles db'.bundles h.0, same-IsLonger db.records db'.records h.1)

insert_bundle-Extends :
    (row : ExecutionBundle) (db : Db) {db' : Db} → insert_bundle row db ≡ ok db' → Extends db db'
unfolding insert_bundle insert_row
insert_bundle-Extends row db {db' = db'} h =
    ((row ∷ [], ground arith), same-IsLonger db.records db'.records (ground arith))

insert_record-Extends :
    (row : ExecutionRecord) (db : Db) {db' : Db} → insert_record row db ≡ ok db' → Extends db db'
unfolding insert_record insert_row
insert_record-Extends row db {db' = db'} h =
    (same-IsLonger db.bundles db'.bundles (ground arith), (row ∷ [], ground arith))

module _ (s : Services) where
  append_execution_bundle-Extends :
      (now : Text) (v : ExecutionBundle) (db : Db) {db' : Db}
      → Change.append_execution_bundle s now v db ≡ ok db'
      → Extends db db'
  unfolding Change.append_execution_bundle
  append_execution_bundle-Extends now v db {db' = db'} h =
      let row : ExecutionBundle = record v {
        created_at = if is_empty v.created_at then now else v.created_at;
      } in
      let e : insert_bundle row db ≡ ok db' = ground arith in insert_bundle-Extends row db e

  append_execution_record-Extends :
      (v : ExecutionRecord) (db : Db) {db' : Db}
      → Change.append_execution_record s v db ≡ ok db'
      → Extends db db'
  unfolding Change.append_execution_record
  append_execution_record-Extends v db {db' = db'} h =
      let e : insert_record v db ≡ ok db' = ground arith in insert_record-Extends v db e

  pub apply-Extends : (op : Op) (db : Db) {db' : Db} → apply s op db ≡ ok db' → Extends db db'
  unfolding apply
  apply-Extends (Op.create_target v) db {db' = db'} h =
      Keeps-Extends db db' (Kept.create_target-Keeps s v db h)
  apply-Extends (Op.create_pending_target id user) db {db' = db'} h =
      Keeps-Extends db db' (Kept.create_pending_target-Keeps s id user db h)
  apply-Extends (Op.set_target_address id a) db {db' = db'} h =
      Keeps-Extends db db' (Kept.set_target_address-Keeps s id a db h)
  apply-Extends (Op.set_ssh_identity id secret) db {db' = db'} h =
      Keeps-Extends db db' (Kept.set_ssh_identity-Keeps s id secret db h)
  apply-Extends (Op.set_ssh_trust id k f t) db {db' = db'} h =
      Keeps-Extends db db' (Kept.set_ssh_trust-Keeps s id k f t db h)
  apply-Extends (Op.set_desired_state id d) db {db' = db'} h =
      Keeps-Extends db db' (Kept.set_desired_state-Keeps s id d db h)
  apply-Extends (Op.record_observed_state id o) db {db' = db'} h =
      Keeps-Extends db db' (Kept.record_observed_state-Keeps s id o db h)
  apply-Extends (Op.create_secret id now name origin) db {db' = db'} h =
      Keeps-Extends db db' (Kept.create_secret-Keeps s id now name origin db h)
  apply-Extends (Op.set_secret nonce id v) db {db' = db'} h =
      Keeps-Extends db db' (Kept.set_secret-Keeps s nonce id v db h)
  apply-Extends (Op.rotate_secret nonce now id v) db {db' = db'} h =
      Keeps-Extends db db' (Kept.rotate_secret-Keeps s nonce now id v db h)
  apply-Extends (Op.delete_secret id) db {db' = db'} h =
      Keeps-Extends db db' (Kept.delete_secret-Keeps s id db h)
  apply-Extends (Op.delete_backup id) db {db' = db'} h =
      Keeps-Extends db db' (Kept.delete_backup-Keeps s id db h)
  apply-Extends (Op.register_backup now b) db {db' = db'} h =
      Keeps-Extends db db' (Kept.register_backup-Keeps s now b db h)
  apply-Extends (Op.register_source_artifact a) db {db' = db'} h =
      Keeps-Extends db db' (Kept.register_source_artifact-Keeps s a db h)
  apply-Extends (Op.create_source_workspace w) db {db' = db'} h =
      Keeps-Extends db db' (Kept.create_source_workspace-Keeps s w db h)
  apply-Extends (Op.update_workspace_current id sha) db {db' = db'} h =
      Keeps-Extends db db' (Kept.update_workspace_current-Keeps s id sha db h)
  apply-Extends (Op.mark_workspace_synchronized id c sha) db {db' = db'} h =
      Keeps-Extends db db' (Kept.mark_workspace_synchronized-Keeps s id c sha db h)
  apply-Extends (Op.configure_github g) db {db' = db'} h =
      Keeps-Extends db db' (Kept.configure_github-Keeps s g db h)
  apply-Extends (Op.append_execution_bundle now b) db h = append_execution_bundle-Extends now b db h
  apply-Extends (Op.append_execution_record r) db h = append_execution_record-Extends r db h

  -- The history is append-only: after any sequence of calls of the methods of `Change` that all
  -- succeed, the execution bundles and the execution records are those from before, unchanged and
  -- in their order, with new ones behind them.
  pub apply_all-Extends :
      (ops : List Op) (db : Db) {db' : Db} → apply_all s ops db ≡ ok db' → Extends db db'
  unfolding apply_all
  apply_all-Extends [] db {db' = db'} h = Keeps-Extends db db' (ground arith, ground arith)
  apply_all-Extends (op ∷ ops) db {db' = db'} h = elim (Result-cases (apply s op db)) [
    | inl (e, bad) ↦ ground arith
    | inr (mid, good) ↦
        let rest : apply_all s ops mid ≡ ok db' = ground arith in
        let first = apply-Extends op db good in
        let others = apply_all-Extends ops mid rest in
        (
          IsLonger-trans db.bundles mid.bundles db'.bundles first.0 others.0,
          IsLonger-trans db.records mid.records db'.records first.1 others.1,
        )
  ]
