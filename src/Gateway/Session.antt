-- ===== src/Gateway/Session.antt =====
-- internal/targetgateway/gateway.go: target, resolveSeed and strictSession. The wiping of seeds is not
-- modelled.
use vpsmith.Base.{Bool, true, false, not, ◌&&◌, Option, none, some, ◌∷◌}
use vpsmith.Base.{if◌then◌else◌, is_empty, eqb, length, find}
use vpsmith.Base.Text.{Text, ◌==◌}
use vpsmith.Base.Result.{Result, ok, err, reject, require, ◌>>=◌, ◌>>◌}
use vpsmith.State.Types.{TrustStatus, Target}
use vpsmith.State.Db.{Db, Services}
use vpsmith.State.Store.{resolve_secret}
use vpsmith.Gateway.Types.{
  HostKeyObservation, Endpoint, Session, Use, use_session, read_host_key, Wire, Transport,
  GatewayError, no_target_id, target_missing, snapshot_failed, trust_required, identity_missing,
  invalid_seed, wire_failed, state_failed, key_mismatch,
}

-- `target`: the snapshot may fail.
unfoldable pub find_target : Bool → Db → Text → Result GatewayError Target
find_target reads db id = do
  reject (is_empty id) no_target_id
  reject (not reads) snapshot_failed
  require (find (λ t. t.id == id) db.targets) target_missing

-- `resolveSeed`: a seed has 32 bytes.
unfoldable pub resolve_seed : Services → Db → Text → Result GatewayError Text
resolve_seed s db id = elim (resolve_secret s db id) [
  | err e ↦ err (state_failed e)
  | ok seed ↦ if eqb (length seed) 32 then ok seed else err invalid_seed
]

abbrev pub is_confirmed : TrustStatus → Bool
is_confirmed TrustStatus.trust_confirmed = true
is_confirmed _ = false

abbrev pub endpoint_of : Target → Endpoint
endpoint_of t = record { address = t.address; ssh_user = t.ssh_user }

abbrev pub is_trusted : Target → Bool
is_trusted t =
    is_confirmed t.ssh_trust
    && not (is_empty t.ssh_host_key)
    && not (is_empty t.ssh_host_fingerprint)

abbrev pub has_key : Target → HostKeyObservation → Bool
has_key t o = t.ssh_host_key == o.public_key && t.ssh_host_fingerprint == o.fingerprint

-- What stands behind the observation of the host key.
unfoldable pub open_session :
    Services → Db → Target → Result Text HostKeyObservation → Result GatewayError Session
open_session s db t (err e) = err (wire_failed e)
open_session s db t (ok o) = do
  reject (not (has_key t o)) (key_mismatch o)
  reject (is_empty t.ssh_identity_secret_id) identity_missing
  seed ← resolve_seed s db t.ssh_identity_secret_id
  ok (record { endpoint = endpoint_of t; host_key = t.ssh_host_key; identity_seed = seed })

-- `strictSession`, with the calls over the wire.
unfoldable pub strict_session :
    Services → Transport → Bool → Db → Wire → Text → Result GatewayError Session × Wire
unfolding find_target open_session
strict_session s w reads db wire id = elim (find_target reads db id) [
  | err e ↦ (err e, wire)
  | ok t ↦
      if is_trusted t
      then (
        open_session s db t (w.on_host_key wire (endpoint_of t)),
        read_host_key (endpoint_of t) ∷ wire,
      )
      else (err trust_required, wire)
]

-- A call over the session that was opened, if it was: its error, and the calls.
unfoldable pub send :
    Transport → Use → Result GatewayError Session × Wire → Option GatewayError × Wire
send w u (err e, wire) = (some e, wire)
send w u (ok sess, wire) = (
  elim (w.on_use wire sess u) [ none ↦ none | some e ↦ some (wire_failed e) ],
  use_session sess u ∷ wire,
)
