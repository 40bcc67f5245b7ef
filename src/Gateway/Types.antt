-- ===== src/Gateway/Types.antt =====
-- internal/targetgateway: the values of gateway.go, runtime_gateway.go and storage_backup.go, the interfaces `transport`,
-- `executionTransport` and `runtimeTransport` as the calls over the wire, and the errors.
use vpsmith.Base.{Bool, Option, List}
use vpsmith.Base.Int.{ℤ}
use vpsmith.Base.Text.{Text}
use vpsmith.Base.Result.{Result}
use vpsmith.Bundle.Types.{Bundle}
use vpsmith.Execution.Types.{StartRequest, Observation, SecretValue}
use vpsmith.State.Db.{StateError}
use vpsmith.State.Observed.{Observed}

pub record SshIdentity : Type 0 where
  pub public_key : Text
  pub fingerprint : Text

pub record HostKeyObservation : Type 0 where
  pub algorithm : Text
  pub public_key : Text
  pub fingerprint : Text

pub data LogKind : Type 0 where
  journal_unit podman_container : LogKind
  log_other : Text → LogKind

pub record LogRequest : Type 0 where
  pub kind : LogKind
  pub name : Text
  pub scope : Text
  pub lines : ℤ

pub record Endpoint : Type 0 where
  pub address : Text
  pub ssh_user : Text

pub record Session : Type 0 where
  pub endpoint : Endpoint
  pub host_key : Text
  pub identity_seed : Text

pub data RuntimeAction : Type 0 where
  runtime_start runtime_stop runtime_restart : RuntimeAction
  runtime_other : Text → RuntimeAction

-- What is done over a session.
pub data Use : Type 0 where
  inspect : Use
  logs : LogRequest → Use
  upload : Bundle → Use
  start : StartRequest → Use
  observe : Text → Use
  send_secrets : Text → List SecretValue → Use
  control : Text → RuntimeAction → Use
  healthcheck : Text → Use
  prepare_storage_copy : List Text → Use
  transfer_storage_copy : Text → Use
  cleanup_storage_copy : Text → Use

-- A call over the wire: reading the host key of an endpoint, or work over a session.
pub data WireCall : Type 0 where
  read_host_key : Endpoint → WireCall
  use_session : Session → Use → WireCall

abbrev pub Wire : Type 0
Wire = List WireCall

-- What the other side answers, by the calls so far, the latest first. `on_use` is the error of a call
-- that returns nothing else; the observations of a target and of a run are answers of their own.
pub record Transport : Type 0 where
  pub on_host_key : Wire → Endpoint → Result Text HostKeyObservation
  pub on_inspect : Wire → Session → Result Text Observed
  pub on_observe : Wire → Session → Text → Result Text Observation
  pub on_use : Wire → Session → Use → Option Text
  -- Whether the transport has the interfaces of executions, of the runtime and of storage copies.
  pub runs_executions : Bool
  pub runs_runtime : Bool
  pub prepares_copies : Bool
  pub transfers_copies : Bool
  pub cleans_copies : Bool

pub data GatewayError : Type 0 where
  no_target_id target_missing snapshot_failed trust_required identity_missing : GatewayError
  invalid_seed incomplete_observation : GatewayError
  wire_failed : Text → GatewayError
  state_failed : StateError → GatewayError
  key_mismatch : HostKeyObservation → GatewayError
  stale_confirmation : HostKeyObservation → GatewayError
  unsupported_log_kind invalid_log_name invalid_log_lines : GatewayError
  no_cloud_init cloud_init_version not_bare root_unlocked invalid_ssh_config : GatewayError
  ssh_value : Text → GatewayError
  wrong_ufw no_fail2ban no_updates : GatewayError
  invalid_bundle foreign_bundle unsupported_transport : GatewayError
  invalid_identity invalid_integrity unsupported_action : GatewayError
  no_storage_paths invalid_storage_path wide_storage_path duplicate_storage_path : GatewayError
  invalid_storage_copy : GatewayError
