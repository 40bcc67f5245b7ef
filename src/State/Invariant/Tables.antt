-- ===== src/State/Invariant/Tables.antt =====
-- The statements of internal/managementstate that change one table other than the targets': what each
-- asks for to keep the store consistent.
mod References
pub use References.*
use vpsmith.Base.{
  ◌≡◌, refl, sym, subst, arith, inl, inr, true, Option, none, some, List, [], ◌∷◌, ◌++◌,
}
use vpsmith.Base.{All, All-append, All-map}
use vpsmith.Base.Text.{Text}
use vpsmith.Base.Result.{ok, require, ◌>>=◌}
use vpsmith.Base.Table.{
  has_row, insert_row, update_row, update_all, delete_row, delete_all, Unique, has_row-append,
  insert_row-Unique, has_row-update_all, update_all-Unique, delete_all-Unique, All-update_all,
}
use vpsmith.State.Types.{
  SourceKind, Target, Secret, ExecutionBundle, ExecutionRecord, BackupArtifact, SourceArtifact,
  SourceWorkspace, GithubConfig,
}
use vpsmith.State.Db.{
  Db, StateError, secret_key, bundle_key, record_key, backup_key, artifact_key, workspace_key,
}
use vpsmith.State.Sources.{has_base}
use vpsmith.State.Statements.{
  insert_secret, insert_bundle, insert_record, insert_backup, insert_artifact, insert_workspace,
  update_secret, update_workspace, remove_backup,
}
use vpsmith.State.Invariant.Defs.{HasSecret, IsRegistered, IsFiled, IsBased, HasToken, IsConsistent}

pub insert_secret-IsConsistent :
    (row : Secret) (db : Db) {db' : Db}
    → insert_secret row db ≡ ok db'
    → IsConsistent db
    → IsConsistent db'
unfolding insert_secret
insert_secret-IsConsistent row db h c =
    let (rows, e, same) =
      require_then (insert_row secret_key row db.secrets) StateError.constraint_violated
        (λ rows. record db { secrets = rows }) h in
    subst IsConsistent (sym same) (
      with_secrets db rows (insert_row-Unique secret_key row db.secrets e c.0.1).0
        (insert_row-keeps secret_key row db.secrets e) c)

pub update_secret-IsConsistent :
    (id : Text) (f : Secret → Secret) (db : Db) {db' : Db}
    → ((s : Secret) → secret_key (f s) ≡ secret_key s)
    → update_secret id f db ≡ ok db'
    → IsConsistent db
    → IsConsistent db'
unfolding update_secret
update_secret-IsConsistent id f db same_key h c =
    let (rows, e, same) =
      require_then (update_row secret_key id f db.secrets) StateError.secret_missing
        (λ rows. record db { secrets = rows }) h in
    let made = update_row-eq secret_key id f db.secrets e in
    subst IsConsistent (sym same) (
      with_secrets db rows
        (subst (Unique secret_key) (sym made)
          (update_all-Unique secret_key id f db.secrets same_key c.0.1))
        (λ j there. rw (made, has_row-update_all secret_key id j f db.secrets same_key) there) c)

pub insert_bundle-IsConsistent :
    (row : ExecutionBundle) (db : Db) {db' : Db}
    → insert_bundle row db ≡ ok db'
    → IsConsistent db
    → IsConsistent db'
unfolding insert_bundle
insert_bundle-IsConsistent row db h c =
    let (rows, e, same) =
      require_then (insert_row bundle_key row db.bundles) StateError.constraint_violated
        (λ rows. record db { bundles = rows }) h in
    let ((t, s, b, r, k, a, w), (targets, records, workspaces, github)) = c in
    subst IsConsistent (sym same) (
      (t, s, (insert_row-Unique bundle_key row db.bundles e b).0, r, k, a, w),
      (
        targets,
        All-map (IsFiled db.bundles) (IsFiled rows) db.records
            (λ r. insert_row-keeps bundle_key row db.bundles e r.bundle_id) records,
        workspaces,
        github,
      ),
    )

pub insert_record-IsConsistent :
    (row : ExecutionRecord) (db : Db) {db' : Db}
    → insert_record row db ≡ ok db'
    → IsFiled db.bundles row
    → IsConsistent db
    → IsConsistent db'
unfolding insert_record
insert_record-IsConsistent row db h filed c =
    let (rows, e, same) =
      require_then (insert_row record_key row db.records) StateError.constraint_violated
        (λ rows. record db { records = rows }) h in
    let ((t, s, b, r, k, a, w), (targets, records, workspaces, github)) = c in
    let (u, made) = insert_row-Unique record_key row db.records e r in
    subst IsConsistent (sym same) (
      (t, s, b, u, k, a, w),
      (
        targets,
        subst (All (IsFiled db.bundles)) (sym made)
            (All-append (IsFiled db.bundles) db.records (row ∷ []) records (filed, tt)),
        workspaces,
        github,
      ),
    )

pub insert_backup-IsConsistent :
    (row : BackupArtifact) (db : Db) {db' : Db}
    → insert_backup row db ≡ ok db'
    → IsConsistent db
    → IsConsistent db'
unfolding insert_backup
insert_backup-IsConsistent row db h c =
    let (rows, e, same) =
      require_then (insert_row backup_key row db.backups) StateError.constraint_violated
        (λ rows. record db { backups = rows }) h in
    let ((t, s, b, r, k, a, w), references) = c in
    subst IsConsistent (sym same)
      ((t, s, b, r, (insert_row-Unique backup_key row db.backups e k).0, a, w), references)

pub remove_backup-IsConsistent :
    (id : Text) (db : Db) {db' : Db}
    → remove_backup id db ≡ ok db'
    → IsConsistent db
    → IsConsistent db'
unfolding remove_backup
remove_backup-IsConsistent id db h c =
    let (rows, e, same) =
      require_then (delete_row backup_key id db.backups) StateError.backup_missing
        (λ rows. record db { backups = rows }) h in
    let ((t, s, b, r, k, a, w), references) = c in
    subst IsConsistent (sym same) (
      (
        t,
        s,
        b,
        r,
        subst (Unique backup_key) (sym (delete_row-eq backup_key id db.backups e))
            (delete_all-Unique backup_key id db.backups k),
        a,
        w,
      ),
      references,
    )

pub insert_artifact-IsConsistent :
    (row : SourceArtifact) (db : Db) {db' : Db}
    → insert_artifact row db ≡ ok db'
    → IsConsistent db
    → IsConsistent db'
unfolding insert_artifact
insert_artifact-IsConsistent row db h c =
    let (rows, e, same) =
      require_then (insert_row artifact_key row db.artifacts) StateError.constraint_violated
        (λ rows. record db { artifacts = rows }) h in
    let ((t, s, b, r, k, a, w), (targets, records, workspaces, github)) = c in
    let (u, made) = insert_row-Unique artifact_key row db.artifacts e a in
    subst IsConsistent (sym same) (
      (t, s, b, r, k, u, w),
      (
        targets,
        records,
        All-map (IsBased db.artifacts) (IsBased rows) db.workspaces
            (λ v there. rw made (has_base-append v.base_source_id v.kind row db.artifacts there))
            workspaces,
        github,
      ),
    )

pub insert_workspace-IsConsistent :
    (row : SourceWorkspace) (db : Db) {db' : Db}
    → insert_workspace row db ≡ ok db'
    → IsBased db.artifacts row
    → IsConsistent db
    → IsConsistent db'
unfolding insert_workspace
insert_workspace-IsConsistent row db h based c =
    let (rows, e, same) =
      require_then (insert_row workspace_key row db.workspaces) StateError.constraint_violated
        (λ rows. record db { workspaces = rows }) h in
    let ((t, s, b, r, k, a, w), (targets, records, workspaces, github)) = c in
    let (u, made) = insert_row-Unique workspace_key row db.workspaces e w in
    subst IsConsistent (sym same) (
      (t, s, b, r, k, a, u),
      (
        targets,
        records,
        subst (All (IsBased db.artifacts)) (sym made)
            (All-append (IsBased db.artifacts) db.workspaces (row ∷ []) workspaces (based, tt)),
        github,
      ),
    )

pub update_workspace-IsConsistent :
    (id : Text) (f : SourceWorkspace → SourceWorkspace) (db : Db) {db' : Db}
    → ((v : SourceWorkspace) → workspace_key (f v) ≡ workspace_key v)
    → ((v : SourceWorkspace) → IsBased db.artifacts v → IsBased db.artifacts (f v))
    → update_workspace id f db ≡ ok db'
    → IsConsistent db
    → IsConsistent db'
unfolding update_workspace
update_workspace-IsConsistent id f db same_key keep h c =
    let (rows, e, same) =
      require_then (update_row workspace_key id f db.workspaces) StateError.workspace_missing
        (λ rows. record db { workspaces = rows }) h in
    let ((t, s, b, r, k, a, w), (targets, records, workspaces, github)) = c in
    let made = sym (update_row-eq workspace_key id f db.workspaces e) in
    subst IsConsistent (sym same) (
      (
        t,
        s,
        b,
        r,
        k,
        a,
        subst (Unique workspace_key) made
            (update_all-Unique workspace_key id f db.workspaces same_key w),
      ),
      (
        targets,
        records,
        subst (All (IsBased db.artifacts)) made (
            All-update_all workspace_key (IsBased db.artifacts) id f db.workspaces keep workspaces),
        github,
      ),
    )
