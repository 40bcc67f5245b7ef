-- ===== src/State/Invariant/Defs.antt =====
-- The references between the tables of internal/managementstate that its schema and its methods
-- promise: what a consistent store is.
use vpsmith.Base.{◌≡◌, ◌⊎◌, true, Option, none, some, List, []}
use vpsmith.Base.{All}
use vpsmith.Base.Text.{Text}
use vpsmith.Base.Table.{has_row, Unique}
use vpsmith.State.Types.{
  ModuleDesiredState, Target, Secret, ExecutionBundle, ExecutionRecord, SourceArtifact,
  SourceWorkspace, GithubConfig,
}
use vpsmith.State.Db.{
  Db, valid_trust, target_key, secret_key, bundle_key, record_key, backup_key, artifact_key,
  workspace_key,
}
use vpsmith.State.Sources.{has_base}

abbrev pub HasSecret : List Secret → Text → Type 0
HasSecret secrets id = has_row secret_key id secrets ≡ true

-- Every secret that the desired modules name is there.
abbrev pub HasModuleSecrets : List Secret → List ModuleDesiredState → Type 0
HasModuleSecrets secrets = All (λ m. All (HasSecret secrets) m.secret_ids)

abbrev pub IsRegistered : List Secret → Target → Type 0
IsRegistered secrets t =
    ((t.ssh_identity_secret_id ≡ []) ⊎ HasSecret secrets t.ssh_identity_secret_id)
    × (valid_trust t.ssh_trust ≡ true)
    × HasModuleSecrets secrets t.desired.modules

abbrev pub IsFiled : List ExecutionBundle → ExecutionRecord → Type 0
IsFiled bundles r = has_row bundle_key r.bundle_id bundles ≡ true

abbrev pub IsBased : List SourceArtifact → SourceWorkspace → Type 0
IsBased artifacts w = has_base w.base_source_id w.kind artifacts ≡ true

abbrev pub HasToken : List Secret → Option GithubConfig → Type 0
HasToken secrets none = Unit
HasToken secrets (some g) = HasSecret secrets g.pat_secret_id

abbrev pub HasKeys : Db → Type 0
HasKeys db =
    Unique target_key db.targets
    × Unique secret_key db.secrets
    × Unique bundle_key db.bundles
    × Unique record_key db.records
    × Unique backup_key db.backups
    × Unique artifact_key db.artifacts
    × Unique workspace_key db.workspaces

abbrev pub HasReferences : Db → Type 0
HasReferences db =
    All (IsRegistered db.secrets) db.targets
    × All (IsFiled db.bundles) db.records
    × All (IsBased db.artifacts) db.workspaces
    × HasToken db.secrets db.github

abbrev pub IsConsistent : Db → Type 0
IsConsistent db = HasKeys db × HasReferences db
