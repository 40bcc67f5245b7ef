-- ===== src/Contract/Types.antt =====
-- internal/modulecontract/types.go: the compiled contract of a module. A number may be
-- negative until it is validated, and a Go map is a list of its entries.
use vpsmith.Base.{Bool, List}
use vpsmith.Base.Int.{ℤ}
use vpsmith.Base.Text.{Text}
use vpsmith.Base.Dict.{Dict}

pub record Image : Type 0 where
  pub ref : Text

pub record HostPort : Type 0 where
  pub host_port : ℤ
  pub container_port : ℤ

pub record Mount : Type 0 where
  pub storage_id : Text
  pub target : Text
  pub read_only : Bool

pub record Container : Type 0 where
  pub id : Text
  pub image : Text
  pub user : ℤ
  pub user_ns : Text
  pub capabilities : List Text
  pub mounts : List Mount
  pub networks : List Text
  pub host_ports : List HostPort
  pub environment : Dict Text

pub record PersistentStorage : Type 0 where
  pub id : Text
  pub path : Text

pub record Secret : Type 0 where
  pub id : Text
  pub source : Text
  pub delivery : Text
  pub name : Text
  pub path : Text
  pub containers : List Text

pub record Resources : Type 0 where
  pub memory_bytes : ℤ
  pub cpu_quota : ℤ
  pub pids_limit : ℤ
  pub tasks_max : ℤ

pub record Network : Type 0 where
  pub id : Text
  pub role : Text

pub record AutheliaPolicy : Type 0 where
  pub mode : Text
  pub users : List Text
  pub groups : List Text

pub record PublicRoute : Type 0 where
  pub hostname : Text
  pub path_prefix : Text
  pub container : Text
  pub port : ℤ
  pub authelia : AutheliaPolicy

pub record Healthcheck : Type 0 where
  pub id : Text
  pub type : Text
  pub container : Text
  pub url : Text
  pub port : ℤ
  pub command : List Text

pub record InternalInterface : Type 0 where
  pub id : Text
  pub container : Text
  pub port : ℤ
  pub protocol : Text

pub record Dependency : Type 0 where
  pub target_module : Text
  pub interface_id : Text
  pub consumer : Text

pub record EgressRule : Type 0 where
  pub container : Text
  pub reason : Text

pub record UpdateTransition : Type 0 where
  pub actions : List Text

pub record Uninstall : Type 0 where
  pub delete_persistent_data : Bool
  pub delete_secrets : Bool

pub record Module : Type 0 where
  pub id : Text
  pub version : Text
  pub core_contract : Text
  pub images : Dict Image
  pub containers : List Container
  pub persistent : List PersistentStorage
  pub secrets : List Secret
  pub resources : Resources
  pub networks : List Network
  pub egress : List EgressRule
  pub public_routes : List PublicRoute
  pub healthcheck : Healthcheck
  pub service_checks : List Healthcheck
  pub validation_action : Text
  pub interfaces : List InternalInterface
  pub dependencies : List Dependency
  pub actions : Dict Text
  pub update_from : Dict UpdateTransition
  pub uninstall : Uninstall
  pub action_files : Dict Text
