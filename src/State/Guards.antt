-- ===== src/State/Guards.antt =====
-- The checks that the methods of `Change` in internal/managementstate/store.go make before they write.
use vpsmith.Base.{Bool, true, false, not, ◌&&◌, ◌||◌, Option, none, some, List, [], ◌∷◌, ◌++◌}
use vpsmith.Base.{if◌then◌else◌, is_empty}
use vpsmith.Base.Text.{Text, ◌==◌, contains, is_blank, has_infix}
use vpsmith.Base.Result.{Result, ok, err, reject, for_each, ◌>>◌}
use vpsmith.Base.Table.{has_row}
use vpsmith.State.Types.{
  TrustStatus, trust_unknown, ModuleDependency, ModuleDesiredState, DesiredState, Target, Secret,
  SourceArtifact, SourceWorkspace, GithubConfig,
}
use vpsmith.State.Db.{
  Db, Doc, desired_doc, Services, StateError, missing_secret_reference, contains_secret_material,
  material_in_domain, secret_unreadable, duplicate_module, incomplete_module, incomplete_dependency,
  kind_text, secret_key,
}

-- `requireSecret`.
abbrev pub require_secret : Db → Text → Result StateError (Unit {0})
require_secret db id = reject (not (has_row secret_key id db.secrets)) missing_secret_reference

-- `validateDesired`, with the instances seen so far.
abbrev pub check_dependency : Text → ModuleDependency → Result StateError (Unit {0})
check_dependency id d =
    reject (is_empty d.target_module || is_blank d.interface_id || is_blank d.consumer)
      (incomplete_dependency id)

unfoldable pub validate_modules : List Text → List ModuleDesiredState → Result StateError (Unit {0})
validate_modules seen [] = ok tt
validate_modules seen (m ∷ ms) = do
  reject (is_empty m.instance_id || is_empty m.package_id || is_blank m.version)
      (incomplete_module m.instance_id)
  reject (contains seen m.instance_id) (duplicate_module m.instance_id)
  for_each (check_dependency m.instance_id) m.dependencies
  validate_modules (m.instance_id ∷ seen) ms

abbrev pub validate_desired : DesiredState → Result StateError (Unit {0})
validate_desired d = validate_modules [] d.modules

abbrev pub empty_desired : DesiredState
empty_desired = record {
  cloud_init = record {
    source_snapshot_id = [];
    definition_version = [];
    source_sha256 = [];
    rendered_sha256 = [];
    hostname = [];
    timezone = [];
    administrator = [];
  };
  core = record { source_id = []; version = []; swap = record { mode = []; size_gib = 0 } };
  modules = [];
}

abbrev pub require_secrets : Db → List ModuleDesiredState → Result StateError (Unit {0})
require_secrets db = for_each (λ m. for_each (require_secret db) m.secret_ids)

-- `secretReferenced`.
unfoldable pub desired_refers : Text → List ModuleDesiredState → Bool
desired_refers id [] = false
desired_refers id (m ∷ ms) = if contains m.secret_ids id then true else desired_refers id ms

unfoldable pub target_refers : Text → List Target → Bool
unfolding desired_refers
target_refers id [] = false
target_refers id (t ∷ ts) =
    if t.ssh_identity_secret_id == id
    then true
    else if desired_refers id t.desired.modules
    then true
    else target_refers id ts

abbrev pub github_refers : Text → Option GithubConfig → Bool
github_refers id none = false
github_refers id (some g) = g.pat_secret_id == id

abbrev pub secret_is_referenced : Db → Text → Bool
secret_is_referenced db id = target_refers id db.targets || github_refers id db.github

-- `if value.SSHTrust == ""`.
abbrev pub default_trust : TrustStatus → TrustStatus
default_trust (TrustStatus.trust_other []) = trust_unknown
default_trust t = t

module _ (s : Services) where
  -- The loop of `rejectKnownSecretMaterial`.
  unfoldable pub reject_material : Text → List Secret → Result StateError (Unit {0})
  reject_material doc [] = ok tt
  reject_material doc (row ∷ rows) = elim row.ciphertext [
    | none ↦ reject_material doc rows
    | some sealed ↦ elim (s.decrypt row.id sealed) [
      | none ↦ err secret_unreadable
      | some plain ↦
          if not (is_empty plain) && has_infix doc plain
          then err contains_secret_material
          else reject_material doc rows
    ]
  ]

  abbrev pub reject_known : Db → Doc → Result StateError (Unit {0})
  reject_known db doc = reject_material (s.json doc) db.secrets

  -- The columns that `assertMaterialAbsentFromDomain` searches.
  abbrev pub target_columns : List Target → List Text
  target_columns [] = []
  target_columns (t ∷ ts) =
      t.address
      ∷ t.ssh_user
      ∷ t.ssh_host_key
      ∷ t.ssh_host_fingerprint
      ∷ s.json (desired_doc t.desired)
      ∷ t.observed
      ∷ target_columns ts

abbrev pub columns : {A : Type 0} → (A → Text) → List A → List Text
columns f [] = []
columns f (a ∷ rows) = f a ∷ columns f rows

abbrev pub github_columns : Option GithubConfig → List Text
github_columns none = []
github_columns (some g) = (g.owner ++ (g.repository ++ g.ref)) ∷ []

abbrev pub artifact_column : SourceArtifact → Text
artifact_column a =
    kind_text a.kind
    ++ (a.package_id
        ++ (a.package_path ++ (a.version ++ (a.commit ++ (a.sha256 ++ a.storage_ref)))))

abbrev pub workspace_column : SourceWorkspace → Text
workspace_column w =
    kind_text w.kind
    ++ (w.package_id
        ++ (w.package_path
            ++ (w.base_source_id
                ++ (w.base_commit
                    ++ (w.current_sha256 ++ (w.storage_ref ++ w.synchronized_commit))))))

unfoldable pub any_contains : Text → List Text → Bool
any_contains material [] = false
any_contains material (c ∷ cs) = if has_infix c material then true else any_contains material cs

module _ (s : Services) where
  unfoldable pub domain_columns : Db → List Text
  domain_columns db =
      target_columns s db.targets
      ++ (columns (λ r. r.name) db.secrets
          ++ (columns artifact_column db.artifacts
              ++ (columns workspace_column db.workspaces
                  ++ (github_columns db.github
                      ++ (columns (λ b. b.kind ++ (b.version ++ b.sha256)) db.bundles
                          ++ (columns (λ r. r.outcome) db.records
                              ++ columns (λ b. b.location_ref ++ b.sha256) db.backups))))))

  abbrev pub assert_absent : Db → Text → Result StateError (Unit {0})
  assert_absent db material = reject (any_contains material (domain_columns db)) material_in_domain
