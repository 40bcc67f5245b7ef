-- ===== src/Execution/Types.antt =====
-- internal/execution/types.go. A proof's `Steps` and `PostState`, which the executor passes over, are
-- left out.
use vpsmith.Base.{ℕ, Bool, true, false, Option}
use vpsmith.Base.Text.{Text}
use vpsmith.Bundle.Types.{RunnerIdentity}

-- `type Status string`. A proof comes from the target, so it may say something else.
pub data Status : Type 0 where
  not_started running interrupted failed success unknown : Status
  other : Text → Status

pub record Run : Type 0 where
  pub id : Text
  pub target_id : Text
  pub bundle_id : Text
  pub bundle_sha256 : Text
  pub kind : Text
  pub version : Text
  pub status : Status
  pub phase : Text

pub record Proof : Type 0 where
  pub format_version : ℕ
  pub run_id : Text
  pub bundle_id : Text
  pub bundle_sha256 : Text
  pub target_id : Text
  pub kind : Text
  pub status : Status
  pub phase : Text
  pub started_at : Text
  pub finished_at : Text
  pub error : Text

pub record Observation : Type 0 where
  pub proof : Option Proof
  pub lock_held : Bool
  pub unit_running : Bool

pub record SecretValue : Type 0 where
  pub id : Text
  pub value : Text

pub record StartRequest : Type 0 where
  pub run_id : Text
  pub bundle_id : Text
  pub bundle_sha256 : Text
  pub target_id : Text
  pub runner : RunnerIdentity

-- `terminal`.
abbrev pub terminal : Status → Bool
terminal Status.success = true
terminal Status.failed = true
terminal _ = false

abbrev pub is_running : Status → Bool
is_running Status.running = true
is_running _ = false

abbrev pub is_interrupted : Status → Bool
is_interrupted Status.interrupted = true
is_interrupted _ = false
