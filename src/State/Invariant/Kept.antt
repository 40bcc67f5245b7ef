-- ===== src/State/Invariant/Kept.antt =====
-- Which methods of `Change` of internal/managementstate leave the history alone.
use vpsmith.Base.{◌≡◌, arith}
use vpsmith.Base.Text.{Text}
use vpsmith.Base.Result.{ok}
use vpsmith.State.Types.{
  TrustStatus, SecretOrigin, DesiredState, TargetRegistration, BackupArtifact, SourceArtifact,
  SourceWorkspace, GithubConfig,
}
use vpsmith.State.Db.{Db, Services}
use vpsmith.State.Change
use vpsmith.State.Sources
use vpsmith.State.Sources.{has_base}
use vpsmith.State.Statements.{
  insert_target, update_target, insert_secret, update_secret, remove_secret, insert_backup,
  remove_backup, insert_artifact, insert_workspace, update_workspace,
}

abbrev pub KeepsHistory : Db → Db → Type 0
KeepsHistory db db' = (db'.bundles ≡ db.bundles) × (db'.records ≡ db.records)

module _ (s : Services) where
  pub create_target-Keeps :
      (v : TargetRegistration) (db : Db) {db' : Db}
      → Change.create_target v db ≡ ok db'
      → KeepsHistory db db'
  unfolding Change.create_target insert_target
  create_target-Keeps v db h = (ground arith, ground arith)

  pub create_pending_target-Keeps :
      (id user : Text) (db : Db) {db' : Db}
      → Change.create_pending_target id user db ≡ ok db'
      → KeepsHistory db db'
  unfolding Change.create_pending_target insert_target
  create_pending_target-Keeps id user db h = (ground arith, ground arith)

  pub set_target_address-Keeps :
      (id a : Text) (db : Db) {db' : Db}
      → Change.set_target_address id a db ≡ ok db'
      → KeepsHistory db db'
  unfolding Change.set_target_address update_target
  set_target_address-Keeps id a db h = (ground arith, ground arith)

  pub set_ssh_identity-Keeps :
      (id secret : Text) (db : Db) {db' : Db}
      → Change.set_ssh_identity id secret db ≡ ok db'
      → KeepsHistory db db'
  unfolding Change.set_ssh_identity update_target
  set_ssh_identity-Keeps id secret db h = (ground arith, ground arith)

  pub set_ssh_trust-Keeps :
      (id k f : Text) (t : TrustStatus) (db : Db) {db' : Db}
      → Change.set_ssh_trust s id k f t db ≡ ok db'
      → KeepsHistory db db'
  unfolding Change.set_ssh_trust update_target
  set_ssh_trust-Keeps id k f t db h = (ground arith, ground arith)

  pub set_desired_state-Keeps :
      (id : Text) (d : DesiredState) (db : Db) {db' : Db}
      → Change.set_desired_state s id d db ≡ ok db'
      → KeepsHistory db db'
  unfolding Change.set_desired_state update_target
  set_desired_state-Keeps id d db h = (ground arith, ground arith)

  pub record_observed_state-Keeps :
      (id o : Text) (db : Db) {db' : Db}
      → Change.record_observed_state s id o db ≡ ok db'
      → KeepsHistory db db'
  unfolding Change.record_observed_state update_target
  record_observed_state-Keeps id o db h = (ground arith, ground arith)

  pub create_secret-Keeps :
      (id now name : Text) (origin : SecretOrigin) (db : Db) {db' : Db}
      → Change.create_secret s id now name origin db ≡ ok db'
      → KeepsHistory db db'
  unfolding Change.create_secret insert_secret
  create_secret-Keeps id now name origin db h = (ground arith, ground arith)

  pub set_secret-Keeps :
      (nonce id v : Text) (db : Db) {db' : Db}
      → Change.set_secret s nonce id v db ≡ ok db'
      → KeepsHistory db db'
  unfolding Change.set_secret update_secret
  set_secret-Keeps nonce id v db h = (ground arith, ground arith)

  pub rotate_secret-Keeps :
      (nonce now id v : Text) (db : Db) {db' : Db}
      → Change.rotate_secret s nonce now id v db ≡ ok db'
      → KeepsHistory db db'
  unfolding Change.rotate_secret update_secret
  rotate_secret-Keeps nonce now id v db h = (ground arith, ground arith)

  pub delete_secret-Keeps :
      (id : Text) (db : Db) {db' : Db} → Change.delete_secret id db ≡ ok db' → KeepsHistory db db'
  unfolding Change.delete_secret remove_secret
  delete_secret-Keeps id db h = (ground arith, ground arith)

  pub delete_backup-Keeps :
      (id : Text) (db : Db) {db' : Db} → Change.delete_backup id db ≡ ok db' → KeepsHistory db db'
  unfolding Change.delete_backup remove_backup
  delete_backup-Keeps id db h = (ground arith, ground arith)

  pub register_backup-Keeps :
      (now : Text) (b : BackupArtifact) (db : Db) {db' : Db}
      → Change.register_backup s now b db ≡ ok db'
      → KeepsHistory db db'
  unfolding Change.register_backup insert_backup
  register_backup-Keeps now b db h = (ground arith, ground arith)

  pub register_source_artifact-Keeps :
      (a : SourceArtifact) (db : Db) {db' : Db}
      → Sources.register_source_artifact s a db ≡ ok db'
      → KeepsHistory db db'
  unfolding Sources.register_source_artifact insert_artifact
  register_source_artifact-Keeps a db h = (ground arith, ground arith)

  pub create_source_workspace-Keeps :
      (w : SourceWorkspace) (db : Db) {db' : Db}
      → Sources.create_source_workspace s w db ≡ ok db'
      → KeepsHistory db db'
  unfolding Sources.create_source_workspace insert_workspace
  create_source_workspace-Keeps w db h = (ground arith, ground arith)

  pub update_workspace_current-Keeps :
      (id sha : Text) (db : Db) {db' : Db}
      → Sources.update_workspace_current id sha db ≡ ok db'
      → KeepsHistory db db'
  unfolding Sources.update_workspace_current update_workspace
  update_workspace_current-Keeps id sha db h = (ground arith, ground arith)

  pub mark_workspace_synchronized-Keeps :
      (id c sha : Text) (db : Db) {db' : Db}
      → Sources.mark_workspace_synchronized id c sha db ≡ ok db'
      → KeepsHistory db db'
  unfolding Sources.mark_workspace_synchronized update_workspace
  mark_workspace_synchronized-Keeps id c sha db h = (ground arith, ground arith)

  pub configure_github-Keeps :
      (g : GithubConfig) (db : Db) {db' : Db}
      → Sources.configure_github s g db ≡ ok db'
      → KeepsHistory db db'
  unfolding Sources.configure_github
  configure_github-Keeps g db h = (ground arith, ground arith)
