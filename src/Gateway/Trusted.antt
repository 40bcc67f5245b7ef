-- ===== src/Gateway/Trusted.antt =====
-- internal/targetgateway/gateway.go: what ConfirmHostKey, ResetTrust and EnsureIdentity leave in the store.
pub mod Rows
use mathlib.Core.Option
use vpsmith.Base.{
  ◌≡◌, refl, sym, ap, ◌∙◌, inl, inr, arith, Bool, true, false, Option, none, some, List, [], ◌∷◌,
}
use vpsmith.Base.{if◌then◌else◌, find, find-some, Bool-cases, Option-cases}
use vpsmith.Base.Text.{Text, ◌==◌, eq_iff}
use vpsmith.Base.Result.{ok, err, Result-cases}
use vpsmith.Base.Table.{update_row, update_all}
use vpsmith.State.Types.{TrustStatus, trust_confirmed, Target}
use vpsmith.State.Db.{Db, Services, target_key}
use vpsmith.State.Statements.{update_target}
use vpsmith.State.Change
use vpsmith.State.Store.{change}
use vpsmith.Gateway.Types.{HostKeyObservation, read_host_key, Wire, Transport, GatewayError}
use vpsmith.Gateway.Session.{find_target, is_confirmed, endpoint_of, has_key}
use vpsmith.Gateway.Trust.{
  Database, is_complete, same_observation, as_gateway, confirm_observed, confirm_host_key,
}
use vpsmith.Gateway.Trusted.Rows.{target_at, update_target_lem, set_ssh_trust_lem, find_target_at}

-- What a confirmation that returns an error, or none, has done.
abbrev pub Confirmed :
    Transport → Db → Wire → Text → HostKeyObservation → Db × Option GatewayError → Type 0
Confirmed w db wire id key (db', some e) = db' ≡ db
Confirmed w db wire id key (db', none) =
    (t : Target) × (target_at id db' ≡ some t)
    × (t.ssh_trust ≡ trust_confirmed)
    × (t.ssh_host_key ≡ key.public_key)
    × (t.ssh_host_fingerprint ≡ key.fingerprint)
    × (w.on_host_key wire (endpoint_of t) ≡ ok key)

same_observation_lem : (a b : HostKeyObservation) → same_observation a b ≡ true → a ≡ b
unfolding same_observation
same_observation_lem a b h = ground (
  arith,
  eq_iff a.algorithm b.algorithm,
  eq_iff a.public_key b.public_key,
  eq_iff a.fingerprint b.fingerprint,
)

confirmed_lem : (t : TrustStatus) → is_confirmed t ≡ true → t ≡ trust_confirmed
confirmed_lem TrustStatus.trust_confirmed h = refl
confirmed_lem TrustStatus.trust_unknown h = cc
confirmed_lem TrustStatus.trust_blocked h = cc
confirmed_lem (TrustStatus.trust_other o) h = cc

-- The transaction that confirms the key.
trust-Confirmed :
    (s : Services) (w : Transport) (d : Database) (db : Db) (wire : Wire) (id : Text) (t : Target)
    (key observed : HostKeyObservation)
    → target_at id db ≡ some t
    → w.on_host_key wire (endpoint_of t) ≡ ok observed
    → key ≡ observed
    → Confirmed w db wire id key (
        as_gateway (
          change s d.begins d.commits
            (Change.set_ssh_trust s t.id observed.public_key observed.fingerprint trust_confirmed)
            db))
unfolding change
trust-Confirmed s w d db wire id t key observed there read same =
    let write =
      Change.set_ssh_trust s t.id observed.public_key observed.fingerprint trust_confirmed in
    elim (Bool-cases d.begins) [
      | inr closed ↦ rw (closed, change) refl
      | inl begun ↦ elim (Result-cases (write db)) [
        | inl (e, bad) ↦ rw (begun, change) (rw bad refl)
        | inr (db', good) ↦ elim (Bool-cases d.commits) [
          | inr failed ↦ rw (begun, change) (rw (good, failed) refl)
          | inl done ↦
              let own : t.id ≡ id =
                (eq_iff t.id id).0 (find-some (λ x. x.id == id) db.targets there) in
              let e =
                set_ssh_trust_lem s t.id observed.public_key observed.fingerprint trust_confirmed db
                  id good in
              let t' : Target = record t {
                ssh_host_key = observed.public_key;
                ssh_host_fingerprint = observed.fingerprint;
                ssh_trust = trust_confirmed;
              } in
              rw (begun, change)
                (rw (good, done)
                  (
                    t',
                    rw (e, (eq_iff t.id id).1 own, there),
                    refl,
                    ap (λ o. o.public_key) (sym same),
                    ap (λ o. o.fingerprint) (sym same),
                    read ∙ ap ok (sym same),
                  ))
        ]
      ]
    ]

-- Behind the reading of the key.
confirm_observed-Confirmed :
    (s : Services) (w : Transport) (d : Database) (db : Db) (wire : Wire) (id : Text) (t : Target)
    (key observed : HostKeyObservation)
    → target_at id db ≡ some t
    → w.on_host_key wire (endpoint_of t) ≡ ok observed
    → Confirmed w db wire id key (confirm_observed s d db t key observed)
unfolding confirm_observed
confirm_observed-Confirmed s w d db wire id t key observed there read =
    elim (Bool-cases (same_observation key observed)) [
      | inr stale ↦ rw (stale, confirm_observed) refl
      | inl fresh ↦
          let same : key ≡ observed = same_observation_lem key observed fresh in
          elim (Bool-cases (is_confirmed t.ssh_trust)) [
            | inl known ↦ elim (Bool-cases (has_key t observed)) [
              | inr other ↦ rw (fresh, confirm_observed) (rw (known, other) refl)
              | inl held ↦
                  let key_same : t.ssh_host_key ≡ key.public_key =
                    ground (arith, eq_iff t.ssh_host_key observed.public_key) in
                  let print_same : t.ssh_host_fingerprint ≡ key.fingerprint =
                    ground (arith, eq_iff t.ssh_host_fingerprint observed.fingerprint) in
                  rw (fresh, confirm_observed)
                    (rw (known, held)
                      (
                        t,
                        there,
                        confirmed_lem t.ssh_trust known,
                        key_same,
                        print_same,
                        read ∙ ap ok (sym same),
                      ))
            ]
            | inr new ↦
                rw (fresh, confirm_observed)
                  (rw new (trust-Confirmed s w d db wire id t key observed there read same))
          ]
    ]

-- The rounds of ConfirmHostKey.
module _ (s : Services) (w : Transport) (d : Database) (db : Db) (wire : Wire) (id : Text)
    (key : HostKeyObservation) where
  confirm_incomplete :
      is_complete key ≡ false
      → confirm_host_key s w d db wire id key ≡ (db, some GatewayError.incomplete_observation, wire)
  unfolding confirm_host_key
  confirm_incomplete bad = ground arith

  confirm_missing :
      (e : GatewayError)
      → is_complete key ≡ true
      → find_target d.reads db id ≡ err e
      → confirm_host_key s w d db wire id key ≡ (db, some e, wire)
  unfolding confirm_host_key
  confirm_missing e good missing = ground arith

  module _ (t : Target) (good : is_complete key ≡ true)
      (there : find_target d.reads db id ≡ ok t) where
    confirm_silent :
        (e : Text)
        → w.on_host_key wire (endpoint_of t) ≡ err e
        → confirm_host_key s w d db wire id key
          ≡ (db, some (GatewayError.wire_failed e), read_host_key (endpoint_of t) ∷ wire)
    unfolding confirm_host_key
    confirm_silent e silent = ground arith

    confirm_read :
        (o : HostKeyObservation)
        → w.on_host_key wire (endpoint_of t) ≡ ok o
        → confirm_host_key s w d db wire id key ≡ (
          (confirm_observed s d db t key o).0,
          (confirm_observed s d db t key o).1,
          read_host_key (endpoint_of t) ∷ wire,
        )
    unfolding confirm_host_key
    confirm_read o read = ground arith

  -- `ConfirmHostKey`, whatever the target and the store do: after an error the store is as it was;
  -- without an error the store has the target as confirmed, with the key and the fingerprint that
  -- the caller confirmed, and these are what the target's endpoint answered.
  pub confirm_host_key-Confirmed :
      Confirmed w db wire id key
        ((confirm_host_key s w d db wire id key).0, (confirm_host_key s w d db wire id key).1)
  confirm_host_key-Confirmed = elim (Bool-cases (is_complete key)) [
    | inr bad ↦ rw (confirm_incomplete bad) refl
    | inl good ↦ elim (Result-cases (find_target d.reads db id)) [
      | inl (e, missing) ↦ rw (confirm_missing e good missing) refl
      | inr (t, there) ↦ elim (Result-cases (w.on_host_key wire (endpoint_of t))) [
        | inl (e, silent) ↦ rw (confirm_silent t good there e silent) refl
        | inr (o, read) ↦ rw (confirm_read t good there o read) (
            confirm_observed-Confirmed s w d db wire id t key o (find_target_at d.reads db id there)
              read)
      ]
    ]
  ]

  confirm_observed_known :
      (t : Target) (o : HostKeyObservation)
      → is_confirmed t.ssh_trust ≡ true
      → (confirm_observed s d db t key o).0 ≡ db
  unfolding confirm_observed
  confirm_observed_known t o known = ground arith

  -- Where the target's trust is confirmed, `ConfirmHostKey` leaves the store as it is, whatever
  -- key is confirmed or read: a confirmed key is never replaced.
  pub confirm_host_key-confirmed :
      (t : Target)
      → target_at id db ≡ some t
      → t.ssh_trust ≡ trust_confirmed
      → (confirm_host_key s w d db wire id key).0 ≡ db
  confirm_host_key-confirmed t at_id sure = elim (Bool-cases (is_complete key)) [
    | inr bad ↦ rw (confirm_incomplete bad) refl
    | inl good ↦ elim (Result-cases (find_target d.reads db id)) [
      | inl (e, missing) ↦ rw (confirm_missing e good missing) refl
      | inr (t', there) ↦
          let same : t' ≡ t = ground (arith, find_target_at d.reads db id there) in
          let known : is_confirmed t'.ssh_trust ≡ true = rw same (rw sure refl) in
          elim (Result-cases (w.on_host_key wire (endpoint_of t'))) [
            | inl (e, silent) ↦ rw (confirm_silent t' good there e silent) refl
            | inr (o, read) ↦
                rw (confirm_read t' good there o read) (confirm_observed_known t' o known)
          ]
    ]
  ]
