-- ===== src/State/Statements.antt =====
-- The INSERT, UPDATE and DELETE statements of internal/managementstate, each on its table, with the
-- constraint on the table's key. The other constraints are checked where the statement stands.
use vpsmith.Base.Text.{Text}
use vpsmith.Base.Result.{Result, ok, require, ◌>>=◌}
use vpsmith.Base.Table.{insert_row, update_row, delete_row}
use vpsmith.State.Types.{
  Target, Secret, ExecutionBundle, ExecutionRecord, BackupArtifact, SourceArtifact, SourceWorkspace,
}
use vpsmith.State.Db.{
  Db, StateError, target_missing, secret_missing, backup_missing, workspace_missing,
  constraint_violated, target_key, secret_key, bundle_key, record_key, backup_key, artifact_key,
  workspace_key,
}

unfoldable pub insert_target : Target → Db → Result StateError Db
insert_target row db = do
  rows ← require (insert_row target_key row db.targets) constraint_violated
  ok (record db { targets = rows })

unfoldable pub update_target : Text → (Target → Target) → Db → Result StateError Db
update_target id f db = do
  rows ← require (update_row target_key id f db.targets) target_missing
  ok (record db { targets = rows })

unfoldable pub insert_secret : Secret → Db → Result StateError Db
insert_secret row db = do
  rows ← require (insert_row secret_key row db.secrets) constraint_violated
  ok (record db { secrets = rows })

unfoldable pub update_secret : Text → (Secret → Secret) → Db → Result StateError Db
update_secret id f db = do
  rows ← require (update_row secret_key id f db.secrets) secret_missing
  ok (record db { secrets = rows })

unfoldable pub remove_secret : Text → Db → Result StateError Db
remove_secret id db = do
  rows ← require (delete_row secret_key id db.secrets) secret_missing
  ok (record db { secrets = rows })

unfoldable pub insert_bundle : ExecutionBundle → Db → Result StateError Db
insert_bundle row db = do
  rows ← require (insert_row bundle_key row db.bundles) constraint_violated
  ok (record db { bundles = rows })

unfoldable pub insert_record : ExecutionRecord → Db → Result StateError Db
insert_record row db = do
  rows ← require (insert_row record_key row db.records) constraint_violated
  ok (record db { records = rows })

unfoldable pub insert_backup : BackupArtifact → Db → Result StateError Db
insert_backup row db = do
  rows ← require (insert_row backup_key row db.backups) constraint_violated
  ok (record db { backups = rows })

unfoldable pub remove_backup : Text → Db → Result StateError Db
remove_backup id db = do
  rows ← require (delete_row backup_key id db.backups) backup_missing
  ok (record db { backups = rows })

unfoldable pub insert_artifact : SourceArtifact → Db → Result StateError Db
insert_artifact row db = do
  rows ← require (insert_row artifact_key row db.artifacts) constraint_violated
  ok (record db { artifacts = rows })

unfoldable pub insert_workspace : SourceWorkspace → Db → Result StateError Db
insert_workspace row db = do
  rows ← require (insert_row workspace_key row db.workspaces) constraint_violated
  ok (record db { workspaces = rows })

unfoldable pub update_workspace :
    Text → (SourceWorkspace → SourceWorkspace) → Db → Result StateError Db
update_workspace id f db = do
  rows ← require (update_row workspace_key id f db.workspaces) workspace_missing
  ok (record db { workspaces = rows })
