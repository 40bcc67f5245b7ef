-- ===== src/State/Store.antt =====
-- `Change` and `ResolveSecret` of internal/managementstate/store.go: a transaction over the tables,
-- and the one way to a secret's value.
use vpsmith.Base.{Bool, Option, none, some, List, [], ◌∷◌, if◌then◌else◌}
use vpsmith.Base.Text.{Text, ◌==◌}
use vpsmith.Base.Result.{Result, ok, err}
use vpsmith.State.Types.{
  TrustStatus, SecretOrigin, DesiredState, TargetRegistration, Secret, ExecutionBundle,
  ExecutionRecord, BackupArtifact, SourceArtifact, SourceWorkspace, GithubConfig,
}
use vpsmith.State.Db.{
  Db, Services, StateError, begin_failed, commit_failed, secret_missing, secret_has_no_value,
  secret_unreadable,
}
use vpsmith.State.Change
use vpsmith.State.Sources

-- A call of a method of `Change`.
pub data Op : Type 0 where
  create_target : TargetRegistration → Op
  create_pending_target set_target_address set_ssh_identity : Text → Text → Op
  set_ssh_trust : Text → Text → Text → TrustStatus → Op
  set_desired_state : Text → DesiredState → Op
  record_observed_state : Text → Text → Op
  create_secret : Text → Text → Text → SecretOrigin → Op
  set_secret : Text → Text → Text → Op
  rotate_secret : Text → Text → Text → Text → Op
  delete_secret delete_backup : Text → Op
  append_execution_bundle : Text → ExecutionBundle → Op
  append_execution_record : ExecutionRecord → Op
  register_backup : Text → BackupArtifact → Op
  register_source_artifact : SourceArtifact → Op
  create_source_workspace : SourceWorkspace → Op
  update_workspace_current : Text → Text → Op
  mark_workspace_synchronized : Text → Text → Text → Op
  configure_github : GithubConfig → Op

module _ (s : Services) where
  unfoldable pub apply : Op → Db → Result StateError Db
  apply (create_target v) = Change.create_target v
  apply (create_pending_target id user) = Change.create_pending_target id user
  apply (set_target_address id a) = Change.set_target_address id a
  apply (set_ssh_identity id secret) = Change.set_ssh_identity id secret
  apply (set_ssh_trust id k f t) = Change.set_ssh_trust s id k f t
  apply (set_desired_state id d) = Change.set_desired_state s id d
  apply (record_observed_state id o) = Change.record_observed_state s id o
  apply (create_secret id now name origin) = Change.create_secret s id now name origin
  apply (set_secret nonce id v) = Change.set_secret s nonce id v
  apply (rotate_secret nonce now id v) = Change.rotate_secret s nonce now id v
  apply (delete_secret id) = Change.delete_secret id
  apply (delete_backup id) = Change.delete_backup id
  apply (append_execution_bundle now b) = Change.append_execution_bundle s now b
  apply (append_execution_record r) = Change.append_execution_record s r
  apply (register_backup now b) = Change.register_backup s now b
  apply (register_source_artifact a) = Sources.register_source_artifact s a
  apply (create_source_workspace w) = Sources.create_source_workspace s w
  apply (update_workspace_current id sha) = Sources.update_workspace_current id sha
  apply (mark_workspace_synchronized id c sha) = Sources.mark_workspace_synchronized id c sha
  apply (configure_github g) = Sources.configure_github s g

  -- A change function that makes these calls and stops at the first error.
  unfoldable pub apply_all : List Op → Db → Result StateError Db
  apply_all [] db = ok db
  apply_all (op ∷ ops) db = elim (apply op db) [ err e ↦ err e | ok db' ↦ apply_all ops db' ]

  -- `Change`: the tables behind the transaction, and its error. `begins` and `commits` say whether
  -- the database takes BEGIN and COMMIT; without a commit the tables are rolled back. It is
  -- `change_on` of Transaction where the deferred ROLLBACK succeeds.
  unfoldable pub change : Bool → Bool → (Db → Result StateError Db) → Db → Db × Option StateError
  change begins commits f db =
      if begins
      then elim (f db) [
        | err e ↦ (db, some e)
        | ok db' ↦ if commits then (db', none) else (db, some commit_failed)
      ]
      else (db, some begin_failed)

  unfoldable pub resolve_row : Text → List Secret → Result StateError Text
  resolve_row id [] = err secret_missing
  resolve_row id (r ∷ rows) =
      if r.id == id
      then elim r.ciphertext [
        | none ↦ err secret_has_no_value
        | some [] ↦ err secret_has_no_value
        | some (b ∷ bs) ↦ elim (s.decrypt id (b ∷ bs)) [
          | none ↦ err secret_unreadable
          | some plain ↦ ok plain
        ]
      ]
      else resolve_row id rows

  -- `ResolveSecret`, up to the call of the consumer.
  abbrev pub resolve_secret : Db → Text → Result StateError Text
  resolve_secret db id = resolve_row id db.secrets
