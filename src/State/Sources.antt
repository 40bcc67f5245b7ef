-- ===== src/State/Sources.antt =====
-- The methods of `Change` in internal/managementstate/source_state.go, with the constraints of
-- migrateV2.
use vpsmith.Base.{Bool, true, false, not, ◌&&◌, ◌||◌, some, List, [], ◌∷◌}
use vpsmith.Base.{if◌then◌else◌, is_empty}
use vpsmith.Base.Text.{Text, ◌==◌, is_blank}
use vpsmith.Base.Result.{Result, ok, reject, ◌>>◌}
use vpsmith.State.Types.{SourceKind, SourceArtifact, SourceWorkspace, GithubConfig}
use vpsmith.State.Statements.{insert_artifact, insert_workspace, update_workspace}
use vpsmith.State.Db.{
  Db, artifact_doc, workspace_doc, github_doc, Services, StateError, incomplete, wrong_base,
  constraint_violated, valid_source_kind, same_kind, is_custom,
}
use vpsmith.State.Guards.{reject_known, require_secret}

-- `UNIQUE(kind, package_id, commit_sha, sha256)`.
unfoldable pub has_identity : SourceArtifact → List SourceArtifact → Bool
has_identity v [] = false
has_identity v (a ∷ rows) =
    if same_kind a.kind v.kind
      && a.package_id == v.package_id
      && a.commit == v.commit
      && a.sha256 == v.sha256
    then true
    else has_identity v rows

-- `SELECT COUNT(*) FROM source_artifacts WHERE id=? AND kind=?`.
unfoldable pub has_base : Text → SourceKind → List SourceArtifact → Bool
has_base id kind [] = false
has_base id kind (a ∷ rows) =
    if a.id == id && same_kind a.kind kind then true else has_base id kind rows

module _ (s : Services) where
  -- `RegisterSourceArtifact`.
  unfoldable pub register_source_artifact : SourceArtifact → Db → Result StateError Db
  unfolding has_identity
  register_source_artifact v db = do
    reject
        (is_empty v.id
          || not (valid_source_kind v.kind)
          || is_blank v.version
          || is_blank v.sha256
          || is_blank v.storage_ref)
        incomplete
    reject
        (is_custom v.kind
          && (is_empty v.package_id || is_blank v.commit || is_blank v.package_path))
        incomplete
    reject (not (is_custom v.kind) && not (is_empty v.package_id)) incomplete
    reject_known s db (artifact_doc v)
    reject (has_identity v db.artifacts) constraint_violated
    insert_artifact v db

  -- `CreateSourceWorkspace`.
  unfoldable pub create_source_workspace : SourceWorkspace → Db → Result StateError Db
  unfolding has_base
  create_source_workspace v db = do
    reject
        (is_empty v.id
          || not (valid_source_kind v.kind)
          || is_empty v.base_source_id
          || is_blank v.current_sha256
          || is_blank v.storage_ref)
        incomplete
    reject
        (is_custom v.kind
          && (is_empty v.package_id || is_blank v.base_commit || is_blank v.package_path))
        incomplete
    reject (not (has_base v.base_source_id v.kind db.artifacts)) wrong_base
    reject_known s db (workspace_doc v)
    insert_workspace v db

  -- `ConfigureCustomModuleGithub`.
  unfoldable pub configure_github : GithubConfig → Db → Result StateError Db
  configure_github v db = do
    reject (is_blank v.owner || is_blank v.repository || is_blank v.ref || is_empty v.pat_secret_id)
        incomplete
    require_secret db v.pat_secret_id
    reject_known s db (github_doc v)
    ok (record db { github = some v })

-- `UpdateSourceWorkspaceCurrent`.
unfoldable pub update_workspace_current : Text → Text → Db → Result StateError Db
update_workspace_current id sha db = do
  reject (is_blank sha) incomplete
  update_workspace id (λ w. record w { current_sha256 = sha; synchronized_commit = [] }) db

-- `MarkSourceWorkspaceSynchronized`.
unfoldable pub mark_workspace_synchronized : Text → Text → Text → Db → Result StateError Db
mark_workspace_synchronized id commit sha db = do
  reject (is_blank commit || is_blank sha) incomplete
  update_workspace id (λ w. record w { synchronized_commit = commit; current_sha256 = sha }) db
