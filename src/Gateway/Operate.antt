-- ===== src/Gateway/Operate.antt =====
-- internal/targetgateway: the `execution.Target` of execution_gateway.go, and the runtime controller of
-- runtime_gateway.go.
use vpsmith.Base.{ℕ, Bool, true, false, not, ◌&&◌, ◌||◌, Option, some, List, [], ◌∷◌}
use vpsmith.Base.{if◌then◌else◌, is_empty, eqb, leb, length}
use vpsmith.Base.Text.{Text, text, ◌==◌, has_prefix, has_byte, split}
use vpsmith.Base.Result.{Result, ok, err, reject, ◌>>◌}
use vpsmith.Bundle.Types.{Bundle}
use vpsmith.Bundle.Codec.{Codec}
use vpsmith.Bundle.Paths.{valid_sha256}
use vpsmith.Bundle.Verify.{verify}
use vpsmith.Execution.Types.{StartRequest, Observation, SecretValue}
use vpsmith.State.Db.{Db, Services}
use vpsmith.Gateway.Types.{
  Use, upload, start, observe, send_secrets, control, healthcheck, use_session, RuntimeAction,
  Session, Wire, Transport, GatewayError, no_target_id, wire_failed, invalid_bundle, foreign_bundle,
  unsupported_transport, invalid_identity, invalid_integrity, unsupported_action,
}
use vpsmith.Gateway.Session.{strict_session, send}

-- `safeExecutionID`.
unfoldable pub id_byte : ℕ → Bool
id_byte c =
    (leb b'a' c && leb c b'z')
    || (leb b'A' c && leb c b'Z')
    || (leb b'0' c && leb c b'9')
    || eqb c b'_'
    || eqb c b'-'

unfoldable pub all_id : Text → Bool
unfolding id_byte
all_id [] = true
all_id (c ∷ s) = id_byte c && all_id s

unfoldable pub safe_execution_id : Text → Bool
unfolding all_id
safe_execution_id s = not (is_empty s) && leb (length s) 96 && all_id s

-- `safeBundlePath`.
unfoldable pub safe_parts : List Text → Bool
safe_parts [] = true
safe_parts (p ∷ ps) = not (is_empty p || p == text "." || p == text "..") && safe_parts ps

unfoldable pub safe_bundle_path : Text → Bool
unfolding safe_parts
safe_bundle_path p =
    not (is_empty p || has_prefix p (text "/") || has_byte p 92 || has_byte p 0)
    && safe_parts (split b'/' p)

-- A session of which only the first error counts: those of `Upload`, `Start` and so on.
unfoldable pub send_supported :
    Transport → Bool → Use → Result GatewayError Session × Wire → Option GatewayError × Wire
unfolding send
send_supported w supported u (err e, wire) = (some e, wire)
send_supported w supported u (ok sess, wire) =
    if supported then send w u (ok sess, wire) else (some unsupported_transport, wire)

-- The checks of `Upload`, `Start`, `Observe` and `SendSecrets` before they open a session.
unfoldable pub check_upload : Codec → Text → Bundle → Result GatewayError (Unit {0})
check_upload c id b = do
  reject (is_empty id) no_target_id
  elim (verify c b) [
    | err e ↦ err invalid_bundle
    | ok manifest ↦ reject (not (manifest.target_id == id)) foreign_bundle
  ]

unfoldable pub check_start : Text → StartRequest → Result GatewayError (Unit {0})
check_start id r = do
  reject
      (is_empty id
        || not (r.target_id == id)
        || not (safe_execution_id r.run_id)
        || not (safe_execution_id r.bundle_id))
      invalid_identity
  reject
      (not (valid_sha256 r.bundle_sha256)
        || not (valid_sha256 r.runner.sha256)
        || not (safe_bundle_path r.runner.path)
        || is_empty r.runner.version)
      invalid_integrity

unfoldable pub check_run : Text → Text → Result GatewayError (Unit {0})
check_run id run = reject (is_empty id || not (safe_execution_id run)) invalid_identity

abbrev pub known_action : RuntimeAction → Bool
known_action (RuntimeAction.runtime_other a) = false
known_action _ = true

unfoldable pub check_control : Text → Text → RuntimeAction → Result GatewayError (Unit {0})
check_control id instance_id action = do
  reject (is_empty id || is_empty instance_id) no_target_id
  reject (not (known_action action)) unsupported_action

unfoldable pub check_healthcheck : Text → Text → Result GatewayError (Unit {0})
check_healthcheck id instance_id = reject (is_empty id || is_empty instance_id) no_target_id

module _ (c : Codec) (s : Services) (w : Transport) (reads : Bool) (db : Db) (wire : Wire)
    (id : Text) where
  -- A checked call over a strict session.
  unfoldable pub checked : Result GatewayError (Unit {0}) → Bool → Use → Option GatewayError × Wire
  unfolding send_supported
  checked (err e) supported u = (some e, wire)
  checked (ok o) supported u = send_supported w supported u (strict_session s w reads db wire id)

  -- `Upload`, `Start`, `SendSecrets`, `Control` and `Healthcheck`, without the results of the last two.
  unfoldable pub upload_bundle : Bundle → Option GatewayError × Wire
  unfolding checked check_upload
  upload_bundle b = checked (check_upload c id b) w.runs_executions (upload b)

  unfoldable pub start_run : StartRequest → Option GatewayError × Wire
  unfolding checked check_start
  start_run r = checked (check_start id r) w.runs_executions (start r)

  unfoldable pub send_run_secrets : Text → List SecretValue → Option GatewayError × Wire
  unfolding checked check_run
  send_run_secrets run values =
      checked (check_run id run) w.runs_executions (send_secrets run values)

  unfoldable pub control_module : Text → RuntimeAction → Option GatewayError × Wire
  unfolding checked check_control
  control_module instance_id action =
      checked (check_control id instance_id action) w.runs_runtime (control instance_id action)

  unfoldable pub check_module : Text → Option GatewayError × Wire
  unfolding checked check_healthcheck
  check_module instance_id =
      checked (check_healthcheck id instance_id) w.runs_runtime (healthcheck instance_id)

  -- `Observe`.
  unfoldable pub observe_over :
      Text → Result GatewayError Session × Wire → Result GatewayError Observation × Wire
  observe_over run (err e, calls) = (err e, calls)
  observe_over run (ok sess, calls) =
      if w.runs_executions
      then (
        elim (w.on_observe calls sess run) [ err e ↦ err (wire_failed e) | ok o ↦ ok o ],
        use_session sess (observe run) ∷ calls,
      )
      else (err unsupported_transport, calls)

  unfoldable pub observe_run : Text → Result GatewayError Observation × Wire
  unfolding observe_over check_run
  observe_run run = elim (check_run id run) [
    | err e ↦ (err e, wire)
    | ok o ↦ observe_over run (strict_session s w reads db wire id)
  ]
