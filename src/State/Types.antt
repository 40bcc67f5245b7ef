-- ===== src/State/Types.antt =====
-- internal/managementstate/types.go and source_state.go: the domain values. The observed state of a
-- target is kept as its JSON text. A Go `int` or `int64` of a domain value is a natural number.
use vpsmith.Base.{ℕ, Option, List}
use vpsmith.Base.Text.{Text}

pub data TrustStatus : Type 0 where
  trust_unknown trust_confirmed trust_blocked : TrustStatus
  trust_other : Text → TrustStatus

pub data SecretOrigin : Type 0 where
  generated user system : SecretOrigin
  origin_other : Text → SecretOrigin

pub data BackupType : Type 0 where
  recovery_package core_backup module_backup system_restore_point : BackupType
  backup_other : Text → BackupType

pub data SourceKind : Type 0 where
  cloud_init core embedded_n8n custom_module : SourceKind
  source_other : Text → SourceKind

pub record CloudInitDesiredState : Type 0 where
  pub source_snapshot_id : Text
  pub definition_version : Text
  pub source_sha256 : Text
  pub rendered_sha256 : Text
  pub hostname : Text
  pub timezone : Text
  pub administrator : Text

pub record SwapDesiredState : Type 0 where
  pub mode : Text
  pub size_gib : ℕ

pub record CoreDesiredState : Type 0 where
  pub source_id : Text
  pub version : Text
  pub swap : SwapDesiredState

pub record ResourceOverrides : Type 0 where
  pub memory_bytes : ℕ
  pub cpu_quota : ℕ
  pub pids_limit : ℕ
  pub tasks_max : ℕ

pub record ModuleDependency : Type 0 where
  pub target_module : Text
  pub interface_id : Text
  pub consumer : Text

pub record ModuleDesiredState : Type 0 where
  pub instance_id : Text
  pub package_id : Text
  pub version : Text
  pub secret_ids : List Text
  pub resources : ResourceOverrides
  pub dependencies : List ModuleDependency

pub record DesiredState : Type 0 where
  pub cloud_init : CloudInitDesiredState
  pub core : CoreDesiredState
  pub modules : List ModuleDesiredState

-- A row of the table `targets`.
pub record Target : Type 0 where
  pub id : Text
  pub address : Text
  pub ssh_user : Text
  pub ssh_identity_secret_id : Text
  pub ssh_host_key : Text
  pub ssh_host_fingerprint : Text
  pub ssh_trust : TrustStatus
  pub desired : DesiredState
  pub observed : Text

pub record TargetRegistration : Type 0 where
  pub id : Text
  pub address : Text
  pub ssh_user : Text
  pub ssh_identity_secret_id : Text
  pub ssh_host_key : Text
  pub ssh_host_fingerprint : Text
  pub ssh_trust : TrustStatus

-- A row of the table `secrets`. `ciphertext` is `none` where the column is NULL.
pub record Secret : Type 0 where
  pub id : Text
  pub name : Text
  pub origin : SecretOrigin
  pub created_at : Text
  pub rotated_at : Text
  pub rotation_count : ℕ
  pub ciphertext : Option Text

pub record ExecutionBundle : Type 0 where
  pub id : Text
  pub target_id : Text
  pub kind : Text
  pub version : Text
  pub sha256 : Text
  pub created_at : Text

pub record ExecutionRecord : Type 0 where
  pub id : Text
  pub bundle_id : Text
  pub target_id : Text
  pub outcome : Text
  pub started_at : Text
  pub finished_at : Text

pub record BackupArtifact : Type 0 where
  pub id : Text
  pub type : BackupType
  pub target_id : Text
  pub module_instance_id : Text
  pub created_at : Text
  pub location_ref : Text
  pub sha256 : Text

pub record SourceArtifact : Type 0 where
  pub id : Text
  pub kind : SourceKind
  pub package_id : Text
  pub package_path : Text
  pub version : Text
  pub commit : Text
  pub sha256 : Text
  pub storage_ref : Text

pub record SourceWorkspace : Type 0 where
  pub id : Text
  pub kind : SourceKind
  pub package_id : Text
  pub package_path : Text
  pub base_source_id : Text
  pub base_commit : Text
  pub current_sha256 : Text
  pub storage_ref : Text
  pub synchronized_commit : Text

pub record GithubConfig : Type 0 where
  pub owner : Text
  pub repository : Text
  pub ref : Text
  pub pat_secret_id : Text
