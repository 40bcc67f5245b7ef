-- ===== src/Tests/Gateways.antt =====
-- Requests to a small target gateway.
use vpsmith.Base.Sort.{insert_by, sort_by, sort_texts}
use vpsmith.Base.Dict.{lookup}
use vpsmith.Base.Result.{for_each}
use vpsmith.Gateway.Inspect.{
  keep_observed, observe_with, over_session, same_ports, validate_enrollment,
}
use vpsmith.Base.Text.{
  cut_prefix, has_infix, has_prefix, less, lower_byte, space_one, space_three, space_two, trim_left,
  trim_reversed,
}
use vpsmith.Base.Table.{has_row, insert_row, update_all, update_row}
use vpsmith.State.Guards.{any_contains, domain_columns, reject_material}
use vpsmith.Gateway.Session.{open_session, resolve_seed}
use vpsmith.State.Store.{change, resolve_row}
use vpsmith.State.Statements.{insert_secret, update_secret, update_target}
use vpsmith.Gateway.Trust.{create_identity, ensure, identity_of, read_identity, with_identity}
use vpsmith.Base.{find}
use vpsmith.Base.{◌⊎◌, ◌≡◌, refl, true, some, [], ◌∷◌}
use vpsmith.Base.Int.{ℤ}
use vpsmith.Base.Text.{text, ◌==◌, is_blank, trim_space, to_lower}
use vpsmith.Base.Result.{ok, err}
use vpsmith.State.Types.{Target, trust_confirmed}
use vpsmith.State.Change
use vpsmith.State.Observed
use vpsmith.State.Observed.{Observed}
use vpsmith.Gateway.Types.{logs, use_session, LogKind, LogRequest, Session, GatewayError}
use vpsmith.Gateway.Session.{find_target, strict_session}
use vpsmith.Gateway.Trust.{ensure_identity, confirm_host_key}
use vpsmith.Gateway.Inspect.{stamped, enroll, read_logs}
use vpsmith.Gateway.Guarded.{Request, Outside, calls, calls-IsGuarded}
use vpsmith.Gateway.Guarded.Sessions.{IsGuarded}
use vpsmith.Gateway.Trusted.Rows.{target_at}
use vpsmith.Gateway.Trusted.{Confirmed, confirm_host_key-Confirmed, confirm_host_key-confirmed}
use vpsmith.Gateway.Ensured.{IsIdentity, ensure_identity-IsIdentity, ensure_identity-again}
use vpsmith.Gateway.Hardened.{IsHardened}
use vpsmith.Gateway.Enrolled.{enroll-IsHardened, enroll-unchanged}
use vpsmith.Gateway.Bounds.{IsBounded, read_logs-IsBounded}
use vpsmith.Tests.Stores.{demo}
use vpsmith.Tests.Bundles.{small_codec}
use vpsmith.Tests.Targets.{
  seed, target, new_db, confirmed_db, ensured_db, key, observed, unready, transport, database,
  fresh, public, json,
}

abbrev outside : Outside
outside = record {
  codec = small_codec;
  services = demo;
  transport = transport (ok observed);
  database = database;
  json = json;
  now = text "now";
}

abbrev log_request : LogRequest
log_request = record {
  kind = LogKind.journal_unit;
  name = text "caddy";
  scope = [];
  lines = ℤ.pos 100;
}

logs-IsGuarded_example :
    IsGuarded demo
      (transport (ok observed))
      confirmed_db
      (text "t")
      []
      (calls outside confirmed_db (text "t") (Request.logs log_request) [])
logs-IsGuarded_example =
    calls-IsGuarded outside confirmed_db (text "t") (Request.logs log_request) []

new_key-Confirmed : Confirmed (transport (ok observed)) new_db [] (text "t") key (
  (confirm_host_key demo (transport (ok observed)) database new_db [] (text "t") key).0,
  (confirm_host_key demo (transport (ok observed)) database new_db [] (text "t") key).1,
)
new_key-Confirmed =
    confirm_host_key-Confirmed demo (transport (ok observed)) database new_db [] (text "t") key

there : target_at (text "t") confirmed_db ≡ some (target (text "s") trust_confirmed (text "k"))
unfolding find ◌==◌
there = refl

other_key-confirmed :
    (confirm_host_key demo
      (transport (ok observed))
      database
      confirmed_db
      []
      (text "t")
      (record key { public_key = text "x" })).0
    ≡ confirmed_db
other_key-confirmed =
    confirm_host_key-confirmed demo (transport (ok observed)) database confirmed_db [] (text "t")
      (record key { public_key = text "x" }) (target (text "s") trust_confirmed (text "k")) there
      refl

made :
    ensure_identity demo public database fresh (text "t") new_db
    ≡ (ensured_db, ok (record { public_key = seed; fingerprint = text "t" }))
unfolding ensure_identity ensure create_identity identity_of read_identity with_identity
    Change.create_secret Change.set_secret Change.set_ssh_identity insert_secret update_secret
    update_target change resolve_row resolve_seed reject_material find ◌==◌ is_blank insert_row
    has_row any_contains domain_columns has_infix update_row update_all
made = refl

made-IsIdentity :
    IsIdentity demo public
      (text "t")
      ensured_db
      (record { public_key = seed; fingerprint = text "t" })
made-IsIdentity = ensure_identity-IsIdentity demo public database fresh (text "t") new_db made

made-again :
    ensure_identity demo public database (record fresh { seed = [] }) (text "t") ensured_db
    ≡ (ensured_db, ok (record { public_key = seed; fingerprint = text "t" }))
made-again =
    ensure_identity-again demo public database fresh (text "t") new_db database
      (record fresh { seed = [] }) made refl refl

enrolled :
    (enroll demo (transport (ok observed)) database json (text "now") confirmed_db [] (text "t")).1
    ≡ ok (stamped (text "now") observed)
unfolding enroll find_target find ◌==◌ strict_session resolve_seed resolve_row validate_enrollment
    is_blank for_each to_lower lookup Observed.sort_ports sort_by change
    Change.record_observed_state reject_material insert_by sort_texts has_row update_all update_row
    cut_prefix has_infix has_prefix less lower_byte space_one space_three space_two trim_left
    trim_reversed trim_space keep_observed observe_with over_session same_ports open_session
    update_target
enrolled = refl

enrolled-IsHardened :
    (t : Target) × (o : Observed) × (find_target true confirmed_db (text "t") ≡ ok t)
    × IsHardened t.desired.cloud_init o
    × (stamped (text "now") observed ≡ stamped (text "now") o)
    × (Change.record_observed_state demo
          (text "t")
          (json (stamped (text "now") observed))
          confirmed_db
        ≡ ok
            (enroll demo
              (transport (ok observed))
              database
              json
              (text "now")
              confirmed_db
              []
              (text "t")).0)
enrolled-IsHardened =
    enroll-IsHardened demo (transport (ok observed)) database json (text "now") (text "t")
      confirmed_db [] enrolled

refused :
    (enroll demo (transport (ok unready)) database json (text "now") confirmed_db [] (text "t")).1
    ≡ err GatewayError.no_cloud_init
unfolding enroll find_target find ◌==◌ strict_session resolve_seed resolve_row validate_enrollment
    is_blank for_each to_lower lookup Observed.sort_ports sort_by change
    Change.record_observed_state reject_material insert_by sort_texts has_row update_all update_row
    cut_prefix has_infix has_prefix less lower_byte space_one space_three space_two trim_left
    trim_reversed trim_space keep_observed observe_with over_session same_ports open_session
    update_target
refused = refl

refused-unchanged :
    (enroll demo (transport (ok unready)) database json (text "now") confirmed_db [] (text "t")).0
    ≡ confirmed_db
refused-unchanged =
    enroll-unchanged demo (transport (ok unready)) database json (text "now") (text "t")
      confirmed_db [] refused

small_logs-IsBounded :
    ((read_logs demo (transport (ok observed)) true confirmed_db [] (text "t") log_request).1 ≡ [])
    ⊎ (((read_logs demo (transport (ok observed)) true confirmed_db [] (text "t") log_request).1
          ≡ (strict_session demo (transport (ok observed)) true confirmed_db [] (text "t")).1)
        ⊎ ((sess : Session) × (q : LogRequest) × ((read_logs demo
                (transport (ok observed))
                true
                confirmed_db
                []
                (text "t")
                log_request).1
              ≡ use_session sess (logs q)
                ∷ (strict_session demo (transport (ok observed)) true confirmed_db [] (text "t")).1)
            × IsBounded q))
small_logs-IsBounded =
    read_logs-IsBounded demo (transport (ok observed)) true confirmed_db [] (text "t") log_request
