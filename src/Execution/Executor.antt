-- ===== src/Execution/Executor.antt =====
-- `Execute` and `Reconcile` of internal/execution/executor.go. The context is the number of waits
-- that it outlives: the run is cancelled at the next wait.
use vpsmith.Base.{
  ℕ, zero, suc, Bool, true, false, not, ◌&&◌, ◌||◌, Option, none, some, List, [], ◌∷◌,
}
use vpsmith.Base.{if◌then◌else◌, is_empty}
use vpsmith.Base.Text.{Text, text, ◌==◌}
use vpsmith.Base.Result.{Result, ok, err}
use vpsmith.Bundle.Types.{Kind, Bundle, Manifest, SecretReference}
use vpsmith.Bundle.Codec.{Codec}
use vpsmith.Bundle.Verify.{BundleError, verify}
use vpsmith.Execution.Types.{
  Status, not_started, running, failed, unknown, Run, Proof, Observation, SecretValue, StartRequest,
  terminal, is_running, is_interrupted,
}
use vpsmith.Execution.Env.{
  upload, register_bundle, start, observe, send_secrets, finished, Trace, Env,
}
use vpsmith.Execution.Secrets.{SecretError, resolve_secrets}

pub data ExecError : Type 0 where
  target_id_required target_mismatch identity_mismatch incomplete_identity : ExecError
  invalid_bundle : BundleError → ExecError
  no_run_id upload_failed register_failed record_failed execution_failed : Text → ExecError
  secrets_unresolved : SecretError → ExecError
  -- These carry `ErrStatusUnknown`.
  start_failed observe_failed delivery_failed : Text → ExecError
  disappeared status_interrupted cancelled : ExecError
  -- The error of `Observe` in `Reconcile`.
  reconcile_failed : Text → ExecError

-- `errors.Is(err, ErrStatusUnknown)`.
abbrev pub is_status_unknown : ExecError → Bool
is_status_unknown (start_failed e) = true
is_status_unknown (observe_failed e) = true
is_status_unknown (delivery_failed e) = true
is_status_unknown disappeared = true
is_status_unknown status_interrupted = true
is_status_unknown cancelled = true
is_status_unknown _ = false

-- What a call returns, and the calls that it has made.
pub record Outcome : Type 0 where
  pub run : Run
  pub error : Option ExecError
  pub trace : Trace

abbrev pub with_status : Run → Status → Run
with_status r s = record r { status = s }

abbrev pub fails : Run → ExecError → Trace → Outcome
fails r e tr = record { run = r; error = some e; trace = tr }

abbrev pub alive : Observation → Bool
alive o = o.lock_held || o.unit_running

abbrev pub classify_proof : Status → Bool → Status
classify_proof Status.success up = Status.success
classify_proof Status.failed up = Status.failed
classify_proof Status.running up = if up then Status.running else Status.interrupted
classify_proof _ up = Status.unknown

abbrev pub classify_status : Option Proof → Bool → Status
classify_status none up = if up then Status.running else Status.not_started
classify_status (some p) up = classify_proof p.status up

unfoldable pub classify : Run → Observation → Run
classify r o = with_status r (classify_status o.proof (alive o))

abbrev pub same_identity : Run → Proof → Bool
same_identity r p =
    p.run_id == r.id
    && p.bundle_id == r.bundle_id
    && p.bundle_sha256 == r.bundle_sha256
    && p.target_id == r.target_id

-- `validateObservationIdentity`, as a test.
unfoldable pub observation_matches : Run → Option Proof → Bool
observation_matches r none = true
observation_matches r (some p) = same_identity r p

abbrev pub with_phase : Run → Option Proof → Run
with_phase r none = r
with_phase r (some p) = record r { phase = p.phase }

abbrev pub awaits_secrets : Option Proof → Bool
awaits_secrets none = false
awaits_secrets (some p) = is_running p.status && p.phase == text "awaiting-secrets"

abbrev pub kind_text : Kind → Text
kind_text Kind.installation = text "installation"
kind_text Kind.migration = text "migration"
kind_text Kind.validation = text "validation"
kind_text (Kind.other t) = t

abbrev pub is_gone : Option Proof → Bool
is_gone none = true
is_gone (some p) = false

abbrev pub empty_run : Run
empty_run = record {
  id = [];
  target_id = [];
  bundle_id = [];
  bundle_sha256 = [];
  kind = [];
  version = [];
  status = Status.other [];
  phase = [];
}

-- The run and the request that `Execute` makes.
abbrev pub new_run : Text → Bundle → Manifest → Text → Run
new_run target b m id = record {
  id = id;
  target_id = target;
  bundle_id = b.id;
  bundle_sha256 = b.sha256;
  kind = kind_text m.kind;
  version = m.version;
  status = not_started;
  phase = [];
}

abbrev pub start_request : Text → Bundle → Manifest → Text → StartRequest
start_request target b m id = record {
  run_id = id;
  bundle_id = b.id;
  bundle_sha256 = b.sha256;
  target_id = target;
  runner = m.runner;
}

-- The run that `Reconcile` asks about.
abbrev pub asked_run : Text → Text → Text → Text → Run
asked_run target id bundle_id sha256 = record {
  id = id;
  target_id = target;
  bundle_id = bundle_id;
  bundle_sha256 = sha256;
  kind = [];
  version = [];
  status = unknown;
  phase = [];
}

-- One pass of the loop returns, or goes on behind the wait.
pub data Turn : Type 0 where
  stop : Outcome → Turn
  again : Run → Bool → Trace → Turn

module _ (env : Env) where
  -- The pass from the test for a terminal proof on.
  unfoldable pub settle : Run → Bool → Option Proof → Trace → Turn
  settle r sent none tr =
      if is_interrupted r.status then stop (fails r status_interrupted tr) else again r sent tr
  settle r sent (some p) tr =
      if terminal p.status
      then elim (env.on_finished tr r p) [
        | some e ↦ stop (fails r (record_failed e) (finished r p ∷ tr))
        | none ↦ elim p.status [
          | failed ↦ stop (fails r (execution_failed p.error) (finished r p ∷ tr))
          | _ ↦ stop (record { run = r; error = none; trace = finished r p ∷ tr })
        ]
      ]
      else if is_interrupted r.status
      then stop (fails r status_interrupted tr)
      else again r sent tr

  unfoldable pub send_resolved :
      Run → Option Proof → Result SecretError (List SecretValue) → Trace → Turn
  send_resolved r proof (err e) tr = stop (fails r (secrets_unresolved e) tr)
  send_resolved r proof (ok values) tr =
      let tr' = send_secrets r.target_id r.id values ∷ tr in
      elim (env.on_send tr r.target_id r.id values) [
        | some e ↦ stop (fails (with_status r unknown) (delivery_failed e) tr')
        | none ↦ settle r true proof tr'
      ]

  -- The delivery of the secrets, once the proof asks for them.
  unfoldable pub deliver : List SecretReference → Run → Option Proof → Trace → Turn
  deliver refs r proof tr =
      let (resolved, tr') = resolve_secrets env tr refs in send_resolved r proof resolved tr'

  -- The pass behind the call of `Observe`.
  unfoldable pub examine : List SecretReference → Run → Bool → Observation → Trace → Turn
  examine refs r sent o tr =
      let r' = with_phase (classify r o) o.proof in
      if not (observation_matches r o.proof)
      then stop (fails (with_status r unknown) identity_mismatch tr)
      else if is_gone o.proof && not (alive o)
      then stop (fails (with_status (classify r o) unknown) disappeared tr)
      else if not sent && awaits_secrets o.proof
      then deliver refs r' o.proof tr
      else settle r' sent o.proof tr

  unfoldable pub turn : List SecretReference → Run → Bool → Trace → Turn
  turn refs r sent tr =
      let tr' = observe r.target_id r.id ∷ tr in
      elim (env.on_observe tr r.target_id r.id) [
        | err e ↦ stop (fails (with_status r unknown) (observe_failed e) tr')
        | ok o ↦ examine refs r sent o tr'
      ]

  unfoldable pub poll : ℕ → List SecretReference → Run → Bool → Trace → Outcome
  poll zero refs r sent tr = elim (turn refs r sent tr) [
    | stop o ↦ o
    | again r' sent' tr' ↦ fails (with_status r' unknown) cancelled tr'
  ]
  poll (suc n) refs r sent tr = elim (turn refs r sent tr) [
    | stop o ↦ o
    | again r' sent' tr' ↦ poll n refs r' sent' tr'
  ]

  -- `Execute` behind `validateBundle` and `newID`.
  unfoldable pub launch : ℕ → Text → Bundle → Manifest → Text → Outcome
  launch waits target b m id =
      let r = new_run target b m id in
      let q = start_request target b m id in
      let at_upload = upload target b ∷ [] in
      let at_register = register_bundle r ∷ at_upload in
      let at_start = start target q ∷ at_register in
      elim (env.on_upload [] target b) [
        | some e ↦ fails r (upload_failed e) at_upload
        | none ↦ elim (env.on_register at_upload r) [
          | some e ↦ fails r (register_failed e) at_register
          | none ↦ elim (env.on_start at_register target q) [
            | some e ↦ fails (with_status r unknown) (start_failed e) at_start
            | none ↦ poll waits m.secrets (with_status r running) false at_start
          ]
        ]
      ]

  module _ (c : Codec) where
    unfoldable pub validate_bundle : Text → Bundle → Result ExecError Manifest
    validate_bundle target b =
        if is_empty target then err target_id_required else elim (verify c b) [
          | err e ↦ err (invalid_bundle e)
          | ok m ↦ if not (m.target_id == target) then err target_mismatch else ok m
        ]

    unfoldable pub execute : ℕ → Text → Bundle → Outcome
    execute waits target b = elim (validate_bundle target b) [
      | err e ↦ fails empty_run e []
      | ok m ↦ elim env.new_id [
        | err e ↦ fails empty_run (no_run_id e) []
        | ok id ↦ launch waits target b m id
      ]
    ]

  -- The end of `Reconcile`.
  unfoldable pub record_terminal : Run → Option Proof → Trace → Outcome
  record_terminal r none tr = record { run = r; error = none; trace = tr }
  record_terminal r (some p) tr =
      if terminal p.status
      then elim (env.on_finished tr r p) [
        | some e ↦ fails r (record_failed e) (finished r p ∷ tr)
        | none ↦ record { run = r; error = none; trace = finished r p ∷ tr }
      ]
      else record { run = r; error = none; trace = tr }

  -- `Reconcile` behind the call of `Observe`.
  unfoldable pub judge : Run → Observation → Trace → Outcome
  judge r o tr =
      if not (observation_matches r o.proof)
      then fails r identity_mismatch tr
      else record_terminal (classify (with_phase r o.proof) o) o.proof tr

  unfoldable pub reconcile : Trace → Text → Text → Text → Text → Outcome
  reconcile tr target id bundle_id sha256 =
      let r = asked_run target id bundle_id sha256 in
      let tr' = observe target id ∷ tr in
      if is_empty target || is_empty id || is_empty bundle_id || is_empty sha256
      then fails empty_run incomplete_identity tr
      else elim (env.on_observe tr target id) [
        | err e ↦ fails r (reconcile_failed e) tr'
        | ok o ↦ judge r o tr'
      ]
