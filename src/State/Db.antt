-- ===== src/State/Db.antt =====
-- The tables of internal/managementstate/migrations.go, source_migration.go and
-- canonical_source_migration.go, and what the package takes from elsewhere.
use vpsmith.Base.{Bool, true, false, Option, none, List, []}
use vpsmith.Base.Text.{Text, text, ◌==◌}
use vpsmith.State.Types.{
  TrustStatus, SecretOrigin, BackupType, SourceKind, DesiredState, Target, Secret, ExecutionBundle,
  ExecutionRecord, BackupArtifact, SourceArtifact, SourceWorkspace, GithubConfig,
}

pub record Db : Type 0 where
  pub targets : List Target
  pub secrets : List Secret
  pub bundles : List ExecutionBundle
  pub records : List ExecutionRecord
  pub backups : List BackupArtifact
  pub artifacts : List SourceArtifact
  pub workspaces : List SourceWorkspace
  pub github : Option GithubConfig

-- A value that is about to be written, as `marshalDomain` is given it.
pub data Doc : Type 0 where
  trust_doc : Text → Text → Doc
  desired_doc : DesiredState → Doc
  observed_doc name_doc : Text → Doc
  bundle_doc : ExecutionBundle → Doc
  record_doc : ExecutionRecord → Doc
  backup_doc : BackupArtifact → Doc
  artifact_doc : SourceArtifact → Doc
  workspace_doc : SourceWorkspace → Doc
  github_doc : GithubConfig → Doc

-- The cipher of crypto.go under the store's key, and encoding/json. The nonce is an argument.
pub record Services : Type 0 where
  pub encrypt : Text → Text → Text → Text
  pub decrypt : Text → Text → Option Text
  pub json : Doc → Text

pub data StateError : Type 0 where
  incomplete invalid_trust invalid_origin invalid_secret_name empty_secret : StateError
  missing_secret_reference target_missing secret_missing secret_set_or_missing : StateError
  secret_referenced backup_missing workspace_missing wrong_base : StateError
  contains_secret_material material_in_domain secret_unreadable : StateError
  duplicate_module incomplete_module incomplete_dependency : Text → StateError
  constraint_violated no_change_function begin_failed commit_failed : StateError
  secret_has_no_value consumer_failed : StateError

abbrev pub valid_trust : TrustStatus → Bool
valid_trust (TrustStatus.trust_other t) = false
valid_trust _ = true

abbrev pub valid_origin : SecretOrigin → Bool
valid_origin (SecretOrigin.origin_other t) = false
valid_origin _ = true

abbrev pub valid_backup_type : BackupType → Bool
valid_backup_type (BackupType.backup_other t) = false
valid_backup_type _ = true

abbrev pub valid_source_kind : SourceKind → Bool
valid_source_kind (SourceKind.source_other t) = false
valid_source_kind _ = true

unfoldable pub same_kind : SourceKind → SourceKind → Bool
same_kind SourceKind.cloud_init SourceKind.cloud_init = true
same_kind SourceKind.core SourceKind.core = true
same_kind SourceKind.embedded_n8n SourceKind.embedded_n8n = true
same_kind SourceKind.custom_module SourceKind.custom_module = true
same_kind (SourceKind.source_other s) (SourceKind.source_other t) = s == t
same_kind _ _ = false

abbrev pub kind_text : SourceKind → Text
kind_text SourceKind.cloud_init = text "cloud-init"
kind_text SourceKind.core = text "core"
kind_text SourceKind.embedded_n8n = text "embedded-n8n"
kind_text SourceKind.custom_module = text "custom-module"
kind_text (SourceKind.source_other t) = t

abbrev pub is_custom : SourceKind → Bool
is_custom SourceKind.custom_module = true
is_custom _ = false

abbrev pub needs_instance : BackupType → Bool
needs_instance BackupType.module_backup = true
needs_instance BackupType.system_restore_point = true
needs_instance _ = false

-- The keys of the tables.
abbrev pub target_key : Target → Text
target_key t = t.id

abbrev pub secret_key : Secret → Text
secret_key s = s.id

abbrev pub bundle_key : ExecutionBundle → Text
bundle_key b = b.id

abbrev pub record_key : ExecutionRecord → Text
record_key r = r.id

abbrev pub backup_key : BackupArtifact → Text
backup_key b = b.id

abbrev pub artifact_key : SourceArtifact → Text
artifact_key a = a.id

abbrev pub workspace_key : SourceWorkspace → Text
workspace_key w = w.id

-- A store that was just opened.
abbrev pub empty_db : Db
empty_db = record {
  targets = [];
  secrets = [];
  bundles = [];
  records = [];
  backups = [];
  artifacts = [];
  workspaces = [];
  github = none;
}
