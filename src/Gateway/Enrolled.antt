-- ===== src/Gateway/Enrolled.antt =====
-- internal/targetgateway: what Enroll leaves in the store.
use vpsmith.Base.{
  ◌≡◌, refl, sym, ap, ◌∙◌, subst, inl, inr, ◌⊎◌, arith, Bool, true, false, none, some,
}
use vpsmith.Base.{Bool-cases}
use vpsmith.Base.Text.{Text}
use vpsmith.Base.Result.{Result, ok, err, Result-cases}
use vpsmith.State.Types.{Target}
use vpsmith.State.Db.{Db, Services, StateError}
use vpsmith.State.Change
use vpsmith.State.Store.{change}
use vpsmith.State.Observed.{Observed}
use vpsmith.Gateway.Types.{Session, Wire, Transport, GatewayError, wire_failed, state_failed}
use vpsmith.Gateway.Session.{find_target, strict_session}
use vpsmith.Gateway.Trust.{Database}
use vpsmith.Gateway.Inspect.{
  keep_observed, recorded, stamped, observe_with, over_session, validate_enrollment, enroll,
}
use vpsmith.Gateway.Hardened.{IsHardened, validate_enrollment-IsHardened}

-- A transaction fails and leaves the store, or does its calls.
change_lem :
    (s : Services) (begins commits : Bool) (f : Db → Result StateError Db) (db : Db)
    → ((e : StateError) × (change s begins commits f db ≡ (db, some e)))
      ⊎ ((db' : Db) × (f db ≡ ok db') × (change s begins commits f db ≡ (db', none)))
unfolding change
change_lem s false commits f db = inl (StateError.begin_failed, refl)
change_lem s true commits f db = elim (Result-cases (f db)) [
  | inl (e, h) ↦ inl (e, ground arith)
  | inr (db', h) ↦ elim (Bool-cases commits) [
    | inl c ↦ inr (db', h, ground arith)
    | inr c ↦ inl (StateError.commit_failed, ground arith)
  ]
]

module _ (s : Services) (w : Transport) (d : Database) (json : Observed → Text) (now id : Text)
    (db : Db) where
  -- An observation was refused and the store is the one before; or it was accepted, and is recorded.
  abbrev pub Settled :
      (Observed → Result GatewayError (Unit {0})) → Db × Result GatewayError Observed → Type 0
  Settled accept out =
      ((e : GatewayError) × (out.0 ≡ db) × (out.1 ≡ err e))
      ⊎ ((o : Observed) × (db' : Db) × (accept o ≡ ok tt)
          × (Change.record_observed_state s id (json (stamped now o)) db ≡ ok db')
          × (out.0 ≡ db')
          × (out.1 ≡ ok (stamped now o)))

  keep_observed_lem :
      (accept : Observed → Result GatewayError (Unit {0})) (o : Observed)
      → accept o ≡ ok tt
      → Settled accept (keep_observed s d json id (stamped now o) db)
  unfolding keep_observed
  keep_observed_lem accept o h =
      elim (change_lem s d.begins d.commits
        (Change.record_observed_state s id (json (stamped now o))) db) [
          | inl (e, k) ↦ inl (
            state_failed e,
            ap (λ p. (recorded (stamped now o) p).0) k,
            ap (λ p. (recorded (stamped now o) p).1) k,
          )
          | inr (db', k, c) ↦ inr (
            o,
            db',
            h,
            k,
            ap (λ p. (recorded (stamped now o) p).0) c,
            ap (λ p. (recorded (stamped now o) p).1) c,
          )
        ]

  observe_with_lem :
      (accept : Observed → Result GatewayError (Unit {0})) (sess : Session) (wire : Wire)
      → Settled accept (observe_with s w d json now accept id sess db wire)
  unfolding observe_with
  observe_with_lem accept sess wire = elim (Result-cases (w.on_inspect wire sess)) [
    | inl (e, h) ↦ rw (h, observe_with) (inl (wire_failed e, refl, refl))
    | inr (o, h) ↦
        rw (h, observe_with)
          (elim (Result-cases (accept o)) [
            | inl (e, k) ↦ rw k (inl (e, refl, refl))
            | inr (u, k) ↦ rw k (keep_observed_lem accept o k)
          ])
  ]

  over_session_lem :
      (accept : Observed → Result GatewayError (Unit {0}))
      (opened : Result GatewayError Session × Wire)
      → let out = over_session s w d json now accept id db opened in Settled accept (out.0, out.1)
  unfolding over_session
  over_session_lem accept (err e, wire) = inl (e, refl, refl)
  over_session_lem accept (ok sess, wire) = observe_with_lem accept sess wire

  -- What an enrollment comes to: an error at the same store, or a hardened target that is recorded.
  enroll_lem :
      (wire : Wire)
      → let out = enroll s w d json now db wire id in
        ((e : GatewayError) × (out.0 ≡ db) × (out.1 ≡ err e))
        ⊎ ((t : Target) × (find_target d.reads db id ≡ ok t)
            × (o : Observed) × IsHardened t.desired.cloud_init o
            × (db' : Db) × (Change.record_observed_state s id (json (stamped now o)) db ≡ ok db')
            × (out.0 ≡ db')
            × (out.1 ≡ ok (stamped now o)))
  unfolding enroll
  enroll_lem wire = elim (Result-cases (find_target d.reads db id)) [
    | inl (e, h) ↦ rw (h, enroll) (inl (e, refl, refl))
    | inr (t, h) ↦
        rw (h, enroll)
          (elim (over_session_lem (validate_enrollment t.desired.cloud_init)
            (strict_session s w d.reads db wire id)) [
              | inl (e, k, l) ↦ inl (e, k, l)
              | inr (o, db', k, r, out, l) ↦ inr (
                t,
                refl,
                o,
                validate_enrollment-IsHardened t.desired.cloud_init o k,
                db',
                r,
                out,
                l,
              )
            ])
  ]

  -- If `Enroll` returns an error, of whatever check, call or transaction, the store is as it was.
  pub enroll-unchanged :
      (wire : Wire) {e : GatewayError}
      → (enroll s w d json now db wire id).1 ≡ err e
      → (enroll s w d json now db wire id).0 ≡ db
  enroll-unchanged wire h = elim (enroll_lem wire) [
    | inl (e, k, l) ↦ k
    | inr (t, f, o, safe, db', r, k, l) ↦ cc
  ]

  -- If `Enroll` returns an observation, it is that of a target without core and modules, whose
  -- cloud-init has succeeded at the desired version, whose root password is locked, whose SSH
  -- daemon has all the required settings, whose firewall is active, denies what comes in or is
  -- routed and lets in the ports 22, 80 and 443 alone, with bans for SSH and with unattended
  -- upgrades; and the store is the one in which the observation, with its time and in its order,
  -- is recorded.
  pub enroll-IsHardened :
      (wire : Wire) {kept : Observed}
      → (enroll s w d json now db wire id).1 ≡ ok kept
      → (t : Target) × (o : Observed) × (find_target d.reads db id ≡ ok t)
        × IsHardened t.desired.cloud_init o
        × (kept ≡ stamped now o)
        × (Change.record_observed_state s id (json kept) db
            ≡ ok (enroll s w d json now db wire id).0)
  enroll-IsHardened wire {kept} h = elim (enroll_lem wire) [
    | inl (e, k, l) ↦ cc
    | inr (t, f, o, safe, db', r, k, l) ↦
        let same : kept ≡ stamped now o = cc in
        (
          t,
          o,
          f,
          safe,
          same,
          subst
              (λ x.
                Change.record_observed_state s id (json x) db
                ≡ ok (enroll s w d json now db wire id).0)
              (sym same) (r ∙ ap ok (sym k)),
        )
  ]
