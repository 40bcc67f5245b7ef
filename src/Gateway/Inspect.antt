-- ===== src/Gateway/Inspect.antt =====
-- internal/targetgateway: Inspect and Logs of gateway.go, and Enroll of enrollment.go. `now` is the time
-- and `json` the encoding of an observation.
use vpsmith.Base.{ℕ, Bool, true, false, not, ◌&&◌, ◌||◌, Option, none, some, List, [], ◌∷◌}
use vpsmith.Base.{is_empty, eqb, leb, length}
use vpsmith.Base.Int.{in_range}
use vpsmith.Base.Text.{Text, text, ◌==◌, is_blank, trim_space, to_lower}
use vpsmith.Base.Result.{Result, ok, err, reject, for_each, ◌>>◌}
use vpsmith.Base.Dict.{Dict, text_at}
use vpsmith.State.Types.{CloudInitDesiredState}
use vpsmith.State.Db.{Db, Services, StateError}
use vpsmith.State.Change
use vpsmith.State.Store.{change}
use vpsmith.State.Observed.{PrimaryHardening, Observed, sort_ports, normalize_observed}
use vpsmith.Gateway.Types.{
  LogKind, LogRequest, Session, inspect, logs, use_session, Wire, Transport, GatewayError,
  wire_failed, state_failed, unsupported_log_kind, invalid_log_name, invalid_log_lines,
  no_cloud_init, cloud_init_version, not_bare, root_unlocked, invalid_ssh_config, ssh_value,
  wrong_ufw, no_fail2ban, no_updates,
}
use vpsmith.Gateway.Session.{find_target, strict_session, send}
use vpsmith.Gateway.Trust.{Database}

-- What is recorded of an observation: the time is set and the lists are sorted.
unfoldable pub stamped : Text → Observed → Observed
stamped now o = normalize_observed (record o { observed_at = now })

abbrev pub recorded : Observed → Db × Option StateError → Db × Result GatewayError Observed
recorded o (db, none) = (db, ok o)
recorded o (db, some e) = (db, err (state_failed e))

unfoldable pub keep_observed :
    Services
    → Database
    → (Observed → Text)
    → Text
    → Observed
    → Db
    → Db × Result GatewayError Observed
keep_observed s d json id o db =
    recorded o (change s d.begins d.commits (Change.record_observed_state s id (json o)) db)

module _ (s : Services) (w : Transport) (d : Database) (json : Observed → Text) (now : Text) where
  -- The observation over a session, if `accept` takes it, and the record of it.
  unfoldable pub observe_with :
      (Observed → Result GatewayError (Unit {0}))
      → Text
      → Session
      → Db
      → Wire
      → Db × Result GatewayError Observed
  unfolding keep_observed
  observe_with accept id sess db wire = elim (w.on_inspect wire sess) [
    | err e ↦ (db, err (wire_failed e))
    | ok o ↦ elim (accept o) [
      | err e ↦ (db, err e)
      | ok u ↦ keep_observed s d json id (stamped now o) db
    ]
  ]

  unfoldable pub over_session :
      (Observed → Result GatewayError (Unit {0}))
      → Text
      → Db
      → Result GatewayError Session × Wire
      → Db × Result GatewayError Observed × Wire
  unfolding observe_with
  over_session accept id db (err e, wire) = (db, err e, wire)
  over_session accept id db (ok sess, wire) =
      let out = observe_with accept id sess db wire in
      (out.0, out.1, use_session sess inspect ∷ wire)

  -- `Inspect`.
  unfoldable pub inspect_target : Db → Wire → Text → Db × Result GatewayError Observed × Wire
  unfolding over_session
  inspect_target db wire id =
      over_session (λ o. ok tt) id db (strict_session s w d.reads db wire id)

-- The settings of the SSH daemon that an enrollment requires.
abbrev pub required : Dict Text
required =
    (text "permitrootlogin", text "no")
    ∷ (text "passwordauthentication", text "no")
    ∷ (text "kbdinteractiveauthentication", text "no")
    ∷ (text "pubkeyauthentication", text "yes")
    ∷ (text "authenticationmethods", text "publickey")
    ∷ (text "permitemptypasswords", text "no")
    ∷ (text "logingracetime", text "20")
    ∷ (text "maxauthtries", text "3")
    ∷ (text "maxsessions", text "3")
    ∷ (text "maxstartups", text "10:30:60")
    ∷ (text "x11forwarding", text "no")
    ∷ (text "allowagentforwarding", text "no")
    ∷ (text "allowtcpforwarding", text "no")
    ∷ (text "allowstreamlocalforwarding", text "no")
    ∷ (text "permittunnel", text "no")
    ∷ (text "gatewayports", text "no")
    ∷ (text "permituserenvironment", text "no")
    ∷ (text "compression", text "no")
    ∷ (text "loglevel", text "verbose")
    ∷ []

unfoldable pub same_ports : List ℕ → List ℕ → Bool
same_ports [] [] = true
same_ports [] (q ∷ qs) = false
same_ports (p ∷ ps) [] = false
same_ports (p ∷ ps) (q ∷ qs) = eqb p q && same_ports ps qs

abbrev pub firewall_holds : PrimaryHardening → Bool
firewall_holds f =
    f.ufw_active
    && f.ufw_default_incoming == text "deny"
    && f.ufw_default_outgoing == text "allow"
    && f.ufw_default_routed == text "deny"
    && f.ufw_logging_low
    && not f.ufw_unexpected_public_allow
    && same_ports (sort_ports f.ufw_allowed_public_tcp_ports) (22 ∷ 80 ∷ 443 ∷ [])

-- `validateEnrollment`.
unfoldable pub validate_enrollment :
    CloudInitDesiredState → Observed → Result GatewayError (Unit {0})
unfolding same_ports
validate_enrollment desired o = do
  let f = o.host.primary_hardening
  reject
      (not o.cloud_init.present
        || not (o.cloud_init.status == text "ok")
        || is_blank o.cloud_init.version
        || is_blank o.cloud_init.finished_at)
      no_cloud_init
  reject
      (is_blank desired.definition_version
        || not (o.cloud_init.version == desired.definition_version))
      cloud_init_version
  reject (o.core.present || not (is_empty o.modules)) not_bare
  reject (not f.root_password_locked) root_unlocked
  reject (not f.ssh_config_valid) invalid_ssh_config
  for_each (λ p. reject (not (to_lower (text_at f.ssh_values p.0) == p.1)) (ssh_value p.0)) required
  reject (not (firewall_holds f)) wrong_ufw
  reject (not f.fail2ban_ssh_active || not f.fail2ban_recidive_active) no_fail2ban
  reject (not f.unattended_upgrades_enabled || not f.automatic_reboot_disabled) no_updates

-- `Enroll`. The result's `PrimaryHardening` is a field of its `Observed`.
unfoldable pub enroll :
    Services
    → Transport
    → Database
    → (Observed → Text)
    → Text
    → Db
    → Wire
    → Text
    → Db × Result GatewayError Observed × Wire
unfolding over_session
enroll s w d json now db wire id = elim (find_target d.reads db id) [
  | err e ↦ (db, err e, wire)
  | ok t ↦
      over_session s w d json now (validate_enrollment t.desired.cloud_init) id db
        (strict_session s w d.reads db wire id)
]

-- `safeObjectName` of ssh_transport.go.
unfoldable pub object_byte : ℕ → Bool
object_byte c =
    (leb b'a' c && leb c b'z')
    || (leb b'A' c && leb c b'Z')
    || (leb b'0' c && leb c b'9')
    || eqb c b'.'
    || eqb c b'_'
    || eqb c b'@'
    || eqb c b':'
    || eqb c b'-'

unfoldable pub all_object : Text → Bool
unfolding object_byte
all_object [] = true
all_object (c ∷ s) = object_byte c && all_object s

unfoldable pub safe_object_name : Text → Bool
unfolding all_object
safe_object_name [] = false
safe_object_name (c ∷ s) = not (eqb c b'-') && leb (length (c ∷ s)) 255 && all_object (c ∷ s)

abbrev pub max_log_lines : ℕ
max_log_lines = 2000

abbrev pub known_kind : LogKind → Bool
known_kind (LogKind.log_other k) = false
known_kind _ = true

-- The request that Logs sends, if it takes it.
unfoldable pub check_logs : LogRequest → Result GatewayError LogRequest
unfolding safe_object_name
check_logs r = do
  reject (not (known_kind r.kind)) unsupported_log_kind
  let name = trim_space r.name
  reject (not (safe_object_name name)) invalid_log_name
  reject (not (in_range 1 max_log_lines r.lines)) invalid_log_lines
  ok (record r { name = name })

-- `Logs`: its error, and the calls.
unfoldable pub read_logs :
    Services → Transport → Bool → Db → Wire → Text → LogRequest → Option GatewayError × Wire
unfolding check_logs
read_logs s w reads db wire id r = elim (check_logs r) [
  | err e ↦ (some e, wire)
  | ok request ↦ send w (logs request) (strict_session s w reads db wire id)
]
