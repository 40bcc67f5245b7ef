-- ===== src/State/Invariant/Rows.antt =====
-- The methods of `Change` of internal/managementstate on bundles, records, backups and sources keep the
-- store consistent.
use vpsmith.Base.{◌≡◌, refl, sym, subst, arith, some, []}
use vpsmith.Base.{if◌then◌else◌, is_empty}
use vpsmith.Base.Text.{Text}
use vpsmith.Base.Result.{ok}
use vpsmith.State.Types.{
  ExecutionBundle, ExecutionRecord, BackupArtifact, SourceArtifact, SourceWorkspace, GithubConfig,
}
use vpsmith.State.Db.{Db, Services}
use vpsmith.State.Change
use vpsmith.State.Guards.{require_secret}
use vpsmith.State.Sources
use vpsmith.State.Sources.{has_base}
use vpsmith.State.Statements.{
  insert_bundle, insert_record, insert_backup, insert_artifact, insert_workspace, update_workspace,
}
use vpsmith.State.Invariant.Defs.{IsConsistent}
use vpsmith.State.Invariant.Tables
use vpsmith.State.Invariant.Calls.{require_secret-HasSecret}

pub update_workspace_current-IsConsistent :
    (id sha : Text) (db : Db) {db' : Db}
    → Sources.update_workspace_current id sha db ≡ ok db'
    → IsConsistent db
    → IsConsistent db'
unfolding Sources.update_workspace_current
update_workspace_current-IsConsistent id sha db {db' = db'} h c =
    let f : SourceWorkspace → SourceWorkspace =
      λ w. record w { current_sha256 = sha; synchronized_commit = [] } in
    let e : update_workspace id f db ≡ ok db' = ground arith in
    Tables.update_workspace-IsConsistent id f db (λ w. refl) (λ w b. b) e c

pub mark_workspace_synchronized-IsConsistent :
    (id commit sha : Text) (db : Db) {db' : Db}
    → Sources.mark_workspace_synchronized id commit sha db ≡ ok db'
    → IsConsistent db
    → IsConsistent db'
unfolding Sources.mark_workspace_synchronized
mark_workspace_synchronized-IsConsistent id commit sha db {db' = db'} h c =
    let f : SourceWorkspace → SourceWorkspace =
      λ w. record w { synchronized_commit = commit; current_sha256 = sha } in
    let e : update_workspace id f db ≡ ok db' = ground arith in
    Tables.update_workspace-IsConsistent id f db (λ w. refl) (λ w b. b) e c

module _ (s : Services) where
  pub append_execution_bundle-IsConsistent :
      (now : Text) (v : ExecutionBundle) (db : Db) {db' : Db}
      → Change.append_execution_bundle s now v db ≡ ok db'
      → IsConsistent db
      → IsConsistent db'
  unfolding Change.append_execution_bundle
  append_execution_bundle-IsConsistent now v db {db' = db'} h c =
      let row : ExecutionBundle = record v {
        created_at = if is_empty v.created_at then now else v.created_at;
      } in
      let e : insert_bundle row db ≡ ok db' = ground arith in
      Tables.insert_bundle-IsConsistent row db e c

  pub append_execution_record-IsConsistent :
      (v : ExecutionRecord) (db : Db) {db' : Db}
      → Change.append_execution_record s v db ≡ ok db'
      → IsConsistent db
      → IsConsistent db'
  unfolding Change.append_execution_record
  append_execution_record-IsConsistent v db {db' = db'} h c =
      let e : insert_record v db ≡ ok db' = ground arith in
      Tables.insert_record-IsConsistent v db e (ground arith) c

  pub register_backup-IsConsistent :
      (now : Text) (v : BackupArtifact) (db : Db) {db' : Db}
      → Change.register_backup s now v db ≡ ok db'
      → IsConsistent db
      → IsConsistent db'
  unfolding Change.register_backup
  register_backup-IsConsistent now v db {db' = db'} h c =
      let row : BackupArtifact = record v {
        created_at = if is_empty v.created_at then now else v.created_at;
      } in
      let e : insert_backup row db ≡ ok db' = ground arith in
      Tables.insert_backup-IsConsistent row db e c

  pub register_source_artifact-IsConsistent :
      (v : SourceArtifact) (db : Db) {db' : Db}
      → Sources.register_source_artifact s v db ≡ ok db'
      → IsConsistent db
      → IsConsistent db'
  unfolding Sources.register_source_artifact
  register_source_artifact-IsConsistent v db {db' = db'} h c =
      let e : insert_artifact v db ≡ ok db' = ground arith in
      Tables.insert_artifact-IsConsistent v db e c

  pub create_source_workspace-IsConsistent :
      (v : SourceWorkspace) (db : Db) {db' : Db}
      → Sources.create_source_workspace s v db ≡ ok db'
      → IsConsistent db
      → IsConsistent db'
  unfolding Sources.create_source_workspace
  create_source_workspace-IsConsistent v db {db' = db'} h c =
      let e : insert_workspace v db ≡ ok db' = ground arith in
      Tables.insert_workspace-IsConsistent v db e (ground arith) c

  pub configure_github-IsConsistent :
      (g : GithubConfig) (db : Db) {db' : Db}
      → Sources.configure_github s g db ≡ ok db'
      → IsConsistent db
      → IsConsistent db'
  unfolding Sources.configure_github
  configure_github-IsConsistent g db {db' = db'} h c =
      let there : require_secret db g.pat_secret_id ≡ ok tt = ground arith in
      let e : db' ≡ record db { github = some g } = ground arith in
      let (keys, (targets, records, workspaces, github)) = c in
      subst IsConsistent (sym e)
        (keys, (targets, records, workspaces, require_secret-HasSecret db g.pat_secret_id there))
