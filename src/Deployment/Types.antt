-- ===== src/Deployment/Types.antt =====
-- internal/deployment/types.go. The files of a package are a list of paths with their contents.
use vpsmith.Base.{Bool, Option, List}
use vpsmith.Base.Int.{ℤ}
use vpsmith.Base.Text.{Text}
use vpsmith.Base.Dict.{Dict}
use vpsmith.Bundle.Types.{SourceIdentity}
use vpsmith.Contract.Types.{Module, Resources}

pub data OperationKind : Type 0 where
  install update reconfigure uninstall restore validate : OperationKind
  unsupported : Text → OperationKind

pub record FrozenModuleSource : Type 0 where
  pub instance_id : Text
  pub source_id : Text
  pub package_id : Text
  pub git_commit : Text
  pub package_sha256 : Text
  pub package_fs : Dict Text

pub record ResourceOverride : Type 0 where
  pub memory_bytes : ℤ
  pub cpu_quota : ℤ
  pub pids_limit : ℤ
  pub tasks_max : ℤ

pub record DesiredModule : Type 0 where
  pub instance_id : Text
  pub source : FrozenModuleSource
  pub secret_ids : Dict Text
  pub resources : ResourceOverride

pub record ObservedModule : Type 0 where
  pub instance_id : Text
  pub module_id : Text
  pub package_id : Text
  pub version : Text
  pub package_sha256 : Text
  pub image_digests : Dict Text
  pub artifact_sha256 : Dict Text
  pub runtime_objects : List Text

pub record ObservedNetwork : Type 0 where
  pub name : Text
  pub subnet : Text
  pub relationship : Text

pub record ObservedClaim : Type 0 where
  pub kind : Text
  pub value : Text
  pub owner : Text

pub record ObservedState : Type 0 where
  pub target_id : Text
  pub core_id : Text
  pub modules : List ObservedModule
  pub networks : List ObservedNetwork
  pub claims : List ObservedClaim

pub record Request : Type 0 where
  pub operation : OperationKind
  pub target_id : Text
  pub subject_instance : Text
  pub desired_modules : List DesiredModule
  pub observed : ObservedState
  pub core_contract : Text
  pub core_source : SourceIdentity
  pub backup_required : Bool
  pub subject_source : Option FrozenModuleSource
  pub subject_secret_ids : Dict Text

pub record LinkNetwork : Type 0 where
  pub relationship : Text
  pub name : Text
  pub subnet : Text
  pub alias : Text
  pub provider : Text
  pub consumer : Text

pub record CompiledModule : Type 0 where
  pub desired : DesiredModule
  pub contract : Module
  pub images : Dict Text
  pub effective : Resources
