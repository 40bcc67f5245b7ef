-- ===== src/Gateway/Trust.antt =====
-- internal/targetgateway/gateway.go: EnsureIdentity, ObserveHostKey, ConfirmHostKey and ResetTrust. The
-- database takes BEGIN and COMMIT or not, as `Database` says; ids, times, seeds and nonces are arguments.
use vpsmith.Base.{Bool, not, ◌&&◌, ◌||◌, Option, none, some, [], ◌∷◌, ◌++◌}
use vpsmith.Base.{if◌then◌else◌, is_empty, find}
use vpsmith.Base.Text.{Text, text, ◌==◌, is_blank}
use vpsmith.Base.Result.{Result, ok, err, require, ◌>>=◌}
use vpsmith.State.Types.{trust_unknown, trust_confirmed, generated, Target}
use vpsmith.State.Db.{Db, Services, StateError}
use vpsmith.State.Change
use vpsmith.State.Store.{change}
use vpsmith.Gateway.Types.{
  SshIdentity, HostKeyObservation, read_host_key, Wire, Transport, GatewayError, no_target_id,
  incomplete_observation, wire_failed, state_failed, key_mismatch, stale_confirmation,
}
use vpsmith.Gateway.Session.{find_target, resolve_seed, is_confirmed, endpoint_of, has_key}

pub record Database : Type 0 where
  pub reads : Bool
  pub begins : Bool
  pub commits : Bool

-- What EnsureIdentity draws and what the store gives it: a seed, a new secret id, a nonce and the time.
pub record Fresh : Type 0 where
  pub seed : Text
  pub secret_id : Text
  pub nonce : Text
  pub now : Text

-- `SSHIdentitySecretID` of internal/managementstate/ssh_identity_access.go.
unfoldable pub identity_of : Text → Db → Result StateError Text
identity_of id db = do
  t ← require (find (λ t. t.id == id) db.targets) StateError.target_missing
  ok t.ssh_identity_secret_id

-- `selected`, as the transaction leaves it.
abbrev pub selected : Text → Text → Text
selected [] new = new
selected (b ∷ bs) new = b ∷ bs

-- The function that EnsureIdentity gives to Change.
unfoldable pub create_identity : Services → Fresh → Text → Db → Result StateError Db
create_identity s f id db = do
  db1 ← Change.create_secret s f.secret_id f.now (text "ssh-admin:" ++ id) generated db
  db2 ← Change.set_secret s f.nonce f.secret_id f.seed db1
  Change.set_ssh_identity id f.secret_id db2

unfoldable pub ensure : Services → Fresh → Text → Db → Result StateError Db
ensure s f id db = elim (identity_of id db) [
  | err e ↦ err e
  | ok [] ↦ create_identity s f id db
  | ok (b ∷ bs) ↦ ok db
]

abbrev pub chosen : Fresh → Result StateError Text → Text
chosen f (err e) = []
chosen f (ok id) = selected id f.secret_id

-- `publicIdentity` is `public`.
unfoldable pub read_identity :
    Services → (Text → Text → SshIdentity) → Text → Text → Db → Result GatewayError SshIdentity
read_identity s public id secret db = do seed ← resolve_seed s db secret; ok (public id seed)

-- What EnsureIdentity does behind the transaction.
unfoldable pub with_identity :
    Services
    → (Text → Text → SshIdentity)
    → Text
    → Text
    → Db × Option StateError
    → Db × Result GatewayError SshIdentity
with_identity s public id secret (db, some e) = (db, err (state_failed e))
with_identity s public id secret (db, none) = (db, read_identity s public id secret db)

-- `EnsureIdentity`: the store behind it, and the identity.
unfoldable pub ensure_identity :
    Services
    → (Text → Text → SshIdentity)
    → Database
    → Fresh
    → Text
    → Db
    → Db × Result GatewayError SshIdentity
ensure_identity s public d f id db =
    if is_empty id
    then (db, err no_target_id)
    else with_identity s public id (chosen f (identity_of id db))
        (change s d.begins d.commits (ensure s f id) db)

-- `ObserveHostKey`.
unfoldable pub observe_host_key :
    Transport → Database → Db → Wire → Text → Result GatewayError HostKeyObservation × Wire
observe_host_key w d db wire id = elim (find_target d.reads db id) [
  | err e ↦ (err e, wire)
  | ok t ↦ elim (w.on_host_key wire (endpoint_of t)) [
    | err e ↦ (err (wire_failed e), read_host_key (endpoint_of t) ∷ wire)
    | ok o ↦ (ok o, read_host_key (endpoint_of t) ∷ wire)
  ]
]

-- `validateObservation` and `sameObservation`.
unfoldable pub is_complete : HostKeyObservation → Bool
is_complete o = not (is_blank o.algorithm || is_blank o.public_key || is_blank o.fingerprint)

unfoldable pub same_observation : HostKeyObservation → HostKeyObservation → Bool
same_observation a b =
    a.algorithm == b.algorithm && a.public_key == b.public_key && a.fingerprint == b.fingerprint

abbrev pub as_gateway : Db × Option StateError → Db × Option GatewayError
as_gateway (db, none) = (db, none)
as_gateway (db, some e) = (db, some (state_failed e))

-- What ConfirmHostKey does with the key that it reads.
unfoldable pub confirm_observed :
    Services
    → Database
    → Db
    → Target
    → HostKeyObservation
    → HostKeyObservation
    → Db × Option GatewayError
unfolding same_observation
confirm_observed s d db t confirmed observed =
    if not (same_observation confirmed observed)
    then (db, some (stale_confirmation observed))
    else if is_confirmed t.ssh_trust
    then (if has_key t observed then (db, none) else (db, some (key_mismatch observed)))
    else as_gateway (
        change s d.begins d.commits
          (Change.set_ssh_trust s t.id observed.public_key observed.fingerprint trust_confirmed) db)

-- `ConfirmHostKey`: the store behind it, its error and the calls.
unfoldable pub confirm_host_key :
    Services
    → Transport
    → Database
    → Db
    → Wire
    → Text
    → HostKeyObservation
    → Db × Option GatewayError × Wire
unfolding is_complete confirm_observed
confirm_host_key s w d db wire id confirmed =
    if not (is_complete confirmed)
    then (db, some incomplete_observation, wire)
    else elim (find_target d.reads db id) [
      | err e ↦ (db, some e, wire)
      | ok t ↦ elim (w.on_host_key wire (endpoint_of t)) [
        | err e ↦ (db, some (wire_failed e), read_host_key (endpoint_of t) ∷ wire)
        | ok observed ↦
            let out = confirm_observed s d db t confirmed observed in
            (out.0, out.1, read_host_key (endpoint_of t) ∷ wire)
      ]
    ]

-- `ResetTrust`, which makes no call.
unfoldable pub reset_trust : Services → Database → Db → Text → Db × Option StateError
reset_trust s d db id =
    change s d.begins d.commits (Change.set_ssh_trust s id [] [] trust_unknown) db
