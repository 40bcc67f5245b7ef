-- ===== src/Gateway/Guarded.antt =====
-- internal/targetgateway: what a request may do over the wire.
pub mod Sessions
use vpsmith.Base.{
  ◌≡◌, ◌≢◌, refl, sym, ap, subst, inl, inr, ◌⊎◌, arith, Bool, true, false, not, ◌&&◌, Option, none,
  some, List, [], ◌∷◌,
}
use vpsmith.Base.{if◌then◌else◌, is_empty, eqb, length, find, Bool-cases, Option-cases}
use vpsmith.Base.Text.{Text, ◌==◌, eq_iff}
use vpsmith.Base.Result.{Result, ok, err, reject, require, >>=-eq-ok, Result-cases}
use vpsmith.Bundle.Types.{Bundle}
use vpsmith.Bundle.Codec.{Codec}
use vpsmith.Execution.Types.{StartRequest, SecretValue}
use vpsmith.State.Types.{TrustStatus, trust_confirmed, Target}
use vpsmith.State.Db.{Db, Services}
use vpsmith.State.Store.{resolve_secret}
use vpsmith.State.Observed.{Observed}
use vpsmith.Gateway.Types.{
  HostKeyObservation, LogRequest, Endpoint, Session, RuntimeAction, Use, read_host_key, use_session,
  Wire, Transport, GatewayError, identity_missing, key_mismatch, trust_required, wire_failed,
}
use vpsmith.Gateway.Session.{
  find_target, resolve_seed, is_confirmed, endpoint_of, is_trusted, has_key, open_session,
  strict_session, send,
}
use vpsmith.Gateway.Trust.{Database}
use vpsmith.Gateway.Inspect.{
  over_session, inspect_target, validate_enrollment, check_logs, read_logs,
}
use vpsmith.Gateway.Operate.{
  send_supported, checked, upload_bundle, start_run, send_run_secrets, control_module, check_module,
  check_run, observe_over, observe_run,
}
use vpsmith.Gateway.Storage.{prepare_copy, transfer_copy, cleanup_copy}
use vpsmith.Gateway.Trust.{observe_host_key, confirm_host_key, is_complete}
use vpsmith.Gateway.Inspect
use vpsmith.Gateway.Guarded.Sessions.{
  IsVerified, IsGuarded, Opening, refused, unverified, verified, strict_session-Opening,
}

-- A request to the gateway: each of the calls that read a host key or open a session.
pub data Request : Type 0 where
  read_key : Request
  confirm_key : HostKeyObservation → Request
  inspect enroll : Request
  logs : LogRequest → Request
  upload : Bundle → Request
  start : StartRequest → Request
  observe : Text → Request
  send_secrets : Text → List SecretValue → Request
  control : Text → RuntimeAction → Request
  healthcheck : Text → Request
  prepare : List Text → Request
  transfer cleanup : Text → Request

-- What the requests take from outside.
pub record Outside : Type 0 where
  pub codec : Codec
  pub services : Services
  pub transport : Transport
  pub database : Database
  pub json : Observed → Text
  pub now : Text

module _ (o : Outside) (db : Db) (id : Text) where
  -- The calls that a request leaves behind those before it.
  abbrev pub calls : Request → Wire → Wire
  calls read_key wire = (observe_host_key o.transport o.database db wire id).1
  calls (confirm_key k) wire = (confirm_host_key o.services o.transport o.database db wire id k).2
  calls inspect wire = (inspect_target o.services o.transport o.database o.json o.now db wire id).2
  calls enroll wire = (Inspect.enroll o.services o.transport o.database o.json o.now db wire id).2
  calls (logs r) wire = (read_logs o.services o.transport o.database.reads db wire id r).1
  calls (upload b) wire =
      (upload_bundle o.codec o.services o.transport o.database.reads db wire id b).1
  calls (start r) wire = (start_run o.codec o.services o.transport o.database.reads db wire id r).1
  calls (observe run) wire =
      (observe_run o.codec o.services o.transport o.database.reads db wire id run).1
  calls (send_secrets run values) wire =
      (send_run_secrets o.codec o.services o.transport o.database.reads db wire id run values).1
  calls (control m a) wire =
      (control_module o.codec o.services o.transport o.database.reads db wire id m a).1
  calls (healthcheck m) wire =
      (check_module o.codec o.services o.transport o.database.reads db wire id m).1
  calls (prepare paths) wire =
      (prepare_copy o.codec o.services o.transport o.database.reads db wire id paths).1
  calls (transfer token) wire =
      (transfer_copy o.codec o.services o.transport o.database.reads db wire id token).1
  calls (cleanup token) wire =
      (cleanup_copy o.codec o.services o.transport o.database.reads db wire id token).1

  abbrev Guard : Wire → Wire → Type 0
  Guard before after = IsGuarded o.services o.transport db id before after

  abbrev Opened : Wire → Result GatewayError Session × Wire → Type 0
  Opened before r = Opening o.services o.transport db id before r

  opened :
      (wire : Wire)
      → Opened wire (strict_session o.services o.transport o.database.reads db wire id)
  opened wire = strict_session-Opening o.services o.transport db id o.database.reads wire

  send-IsGuarded :
      (u : Use) {before : Wire} {r : Result GatewayError Session × Wire}
      → Opened before r
      → Guard before (send o.transport u r).1
  unfolding send
  send-IsGuarded u (refused e) = inl refl
  send-IsGuarded u (unverified e p) = inr (inl (p, refl))
  send-IsGuarded u (verified sess v) = inr (inr (sess, u, refl, v))

  send_supported-IsGuarded :
      (supported : Bool) (u : Use) {before : Wire} {r : Result GatewayError Session × Wire}
      → Opened before r
      → Guard before (send_supported o.transport supported u r).1
  unfolding send_supported send
  send_supported-IsGuarded supported u (refused e) = inl refl
  send_supported-IsGuarded supported u (unverified e p) = inr (inl (p, refl))
  send_supported-IsGuarded true u (verified sess v) = inr (inr (sess, u, refl, v))
  send_supported-IsGuarded false u (verified sess v) = inr (inl (sess.endpoint, refl))

  over_session-IsGuarded :
      (accept : Observed → Result GatewayError (Unit {0})) {before : Wire}
      {r : Result GatewayError Session × Wire}
      → Opened before r
      → Guard before (over_session o.services o.transport o.database o.json o.now accept id db r).2
  unfolding over_session
  over_session-IsGuarded accept (refused e) = inl refl
  over_session-IsGuarded accept (unverified e p) = inr (inl (p, refl))
  over_session-IsGuarded accept (verified sess v) = inr (inr (sess, Use.inspect, refl, v))

  observe_over-IsGuarded :
      (run : Text) (wire : Wire) {before : Wire} {r : Result GatewayError Session × Wire}
      → Opened before r
      → Guard before
          (observe_over o.codec o.services o.transport o.database.reads db wire id run r).1
  unfolding observe_over
  observe_over-IsGuarded run wire (refused e) = inl refl
  observe_over-IsGuarded run wire (unverified e p) = inr (inl (p, refl))
  observe_over-IsGuarded run wire (verified sess v) =
      elim (Bool-cases o.transport.runs_executions) [
        | inl can ↦ inr (inr (sess, Use.observe run, ground arith, v))
        | inr cannot ↦ inr (inl (sess.endpoint, ground arith))
      ]

  checked-IsGuarded :
      (wire : Wire) (c : Result GatewayError (Unit {0})) (supported : Bool) (u : Use)
      → Guard wire
          (checked o.codec o.services o.transport o.database.reads db wire id c supported u).1
  unfolding checked
  checked-IsGuarded wire (err e) supported u = inl refl
  checked-IsGuarded wire (ok t) supported u = send_supported-IsGuarded supported u (opened wire)

  confirm-IsGuarded :
      (wire : Wire) (k : HostKeyObservation)
      → Guard wire (confirm_host_key o.services o.transport o.database db wire id k).2
  unfolding confirm_host_key
  confirm-IsGuarded wire k = elim (Bool-cases (is_complete k)) [
    | inr bad ↦ inl (ground arith)
    | inl good ↦ elim (Result-cases (find_target o.database.reads db id)) [
      | inl (e, missing) ↦ inl (ground arith)
      | inr (t, there) ↦ inr (
          inl (
            endpoint_of t,
            elim (Result-cases (o.transport.on_host_key wire (endpoint_of t))) [
              | inl (e, silent) ↦ ground arith
              | inr (key, read) ↦ ground arith
            ],
          ))
    ]
  ]

  read-IsGuarded : (wire : Wire) → Guard wire (observe_host_key o.transport o.database db wire id).1
  unfolding observe_host_key
  read-IsGuarded wire = elim (Result-cases (find_target o.database.reads db id)) [
    | inl (e, missing) ↦ inl (ground arith)
    | inr (t, there) ↦ inr (
        inl (
          endpoint_of t,
          elim (Result-cases (o.transport.on_host_key wire (endpoint_of t))) [
            | inl (e, silent) ↦ ground arith
            | inr (key, read) ↦ ground arith
          ],
        ))
  ]

  logs-IsGuarded :
      (wire : Wire) (r : LogRequest)
      → Guard wire (read_logs o.services o.transport o.database.reads db wire id r).1
  unfolding read_logs
  logs-IsGuarded wire r = elim (Result-cases (check_logs r)) [
    | inl (e, bad) ↦ inl (ground arith)
    | inr (request, good) ↦ rw (good, read_logs) (send-IsGuarded (Use.logs request) (opened wire))
  ]

  enroll-IsGuarded :
      (wire : Wire)
      → Guard wire (Inspect.enroll o.services o.transport o.database o.json o.now db wire id).2
  unfolding Inspect.enroll
  enroll-IsGuarded wire = elim (Result-cases (find_target o.database.reads db id)) [
    | inl (e, missing) ↦ inl (ground arith)
    | inr (t, there) ↦
        rw (there, Inspect.enroll)
          (over_session-IsGuarded (validate_enrollment t.desired.cloud_init) (opened wire))
  ]

  observe-IsGuarded :
      (wire : Wire) (run : Text)
      → Guard wire (observe_run o.codec o.services o.transport o.database.reads db wire id run).1
  unfolding observe_run
  observe-IsGuarded wire run = elim (Result-cases (check_run id run)) [
    | inl (e, bad) ↦ inl (ground arith)
    | inr (u, good) ↦ rw (good, observe_run) (observe_over-IsGuarded run wire (opened wire))
  ]

  -- Whatever the target answers: every request to the gateway that may call over the wire
  -- (ObserveHostKey, ConfirmHostKey, Inspect, Enroll, Logs, Upload, Start, Observe, SendSecrets,
  -- Control, Healthcheck, PrepareStorageCopy, TransferStorageCopy and CleanupStorageCopy) makes no
  -- call, or reads the host key of an endpoint, or reads a host key and then makes one call over a
  -- session, and that session is to the target with the id, whose trust is confirmed, with a host
  -- key that is not empty and is the one just read, fingerprint included, at the target's address,
  -- and with the 32 bytes of the target's identity.
  pub calls-IsGuarded :
      (r : Request) (wire : Wire) → IsGuarded o.services o.transport db id wire (calls r wire)
  unfolding inspect_target upload_bundle start_run send_run_secrets control_module check_module
      prepare_copy transfer_copy cleanup_copy
  calls-IsGuarded read_key wire = read-IsGuarded wire
  calls-IsGuarded (confirm_key k) wire = confirm-IsGuarded wire k
  calls-IsGuarded inspect wire = over_session-IsGuarded (λ o. ok tt) (opened wire)
  calls-IsGuarded enroll wire = enroll-IsGuarded wire
  calls-IsGuarded (logs r) wire = logs-IsGuarded wire r
  calls-IsGuarded (upload b) wire = checked-IsGuarded wire _ _ _
  calls-IsGuarded (start r) wire = checked-IsGuarded wire _ _ _
  calls-IsGuarded (observe run) wire = observe-IsGuarded wire run
  calls-IsGuarded (send_secrets run values) wire = checked-IsGuarded wire _ _ _
  calls-IsGuarded (control m a) wire = checked-IsGuarded wire _ _ _
  calls-IsGuarded (healthcheck m) wire = checked-IsGuarded wire _ _ _
  calls-IsGuarded (prepare paths) wire = checked-IsGuarded wire _ _ _
  calls-IsGuarded (transfer token) wire = checked-IsGuarded wire _ _ _
  calls-IsGuarded (cleanup token) wire = checked-IsGuarded wire _ _ _
