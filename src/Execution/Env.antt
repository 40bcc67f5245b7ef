-- ===== src/Execution/Env.antt =====
-- The interfaces `Target`, `Secrets` and `History` of internal/execution/types.go. What an
-- implementation answers may depend on every call that was made before: an answer is a function of
-- the calls so far, the latest first.
use vpsmith.Base.{Option, List}
use vpsmith.Base.Text.{Text}
use vpsmith.Base.Result.{Result}
use vpsmith.Bundle.Types.{Bundle}
use vpsmith.Execution.Types.{Run, Proof, Observation, SecretValue, StartRequest}

pub data Call : Type 0 where
  upload : Text → Bundle → Call
  register_bundle : Run → Call
  start : Text → StartRequest → Call
  observe : Text → Text → Call
  resolve : Text → Call
  send_secrets : Text → Text → List SecretValue → Call
  finished : Run → Proof → Call

abbrev pub Trace : Type 0
Trace = List Call

-- `none` and `ok` are the calls that succeed; an error is its message.
pub record Env : Type 0 where
  pub on_upload : Trace → Text → Bundle → Option Text
  pub on_register : Trace → Run → Option Text
  pub on_start : Trace → Text → StartRequest → Option Text
  pub on_observe : Trace → Text → Text → Result Text Observation
  pub on_resolve : Trace → Text → Result Text Text
  pub on_send : Trace → Text → Text → List SecretValue → Option Text
  pub on_finished : Trace → Run → Proof → Option Text
  -- `Options.NewRunID`.
  pub new_id : Result Text Text
