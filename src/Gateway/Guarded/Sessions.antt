-- ===== src/Gateway/Guarded/Sessions.antt =====
-- internal/targetgateway/gateway.go: what strictSession may do over the wire.
use vpsmith.Base.{◌≡◌, ◌≢◌, refl, sym, subst, inl, inr, ◌⊎◌, arith, Bool, true, not, some, [], ◌∷◌}
use vpsmith.Base.{is_empty, length, find, Bool-cases, Option-cases}
use vpsmith.Base.Text.{Text, ◌==◌, eq_iff}
use vpsmith.Base.Result.{Result, ok, err, reject, >>=-eq-ok, Result-cases}
use vpsmith.State.Types.{TrustStatus, trust_confirmed, Target}
use vpsmith.State.Db.{Db, Services}
use vpsmith.State.Store.{resolve_secret}
use vpsmith.Gateway.Types.{
  HostKeyObservation, Endpoint, Session, Use, read_host_key, use_session, Wire, Transport,
  GatewayError, identity_missing, key_mismatch, trust_required, wire_failed,
}
use vpsmith.Gateway.Session.{
  find_target, resolve_seed, is_confirmed, endpoint_of, is_trusted, has_key, open_session,
  strict_session,
}

module _ (s : Services) (w : Transport) (db : Db) (id : Text) where
  -- A session to the target with the id, whose host key was just read, at the end of these calls, and is
  -- the confirmed one; the seed is the 32 bytes of the target's identity.
  pub record IsVerified (sess : Session) (before : Wire) : Type 0 where
    pub target : Target
    pub found : find (λ t. t.id == id) db.targets ≡ some target
    pub confirmed : target.ssh_trust ≡ trust_confirmed
    pub some_key : target.ssh_host_key ≢ []
    pub key : HostKeyObservation
    pub read : w.on_host_key before sess.endpoint ≡ ok key
    pub same_key : key.public_key ≡ target.ssh_host_key
    pub same_fingerprint : key.fingerprint ≡ target.ssh_host_fingerprint
    pub host_key : sess.host_key ≡ target.ssh_host_key
    pub endpoint : sess.endpoint ≡ endpoint_of target
    pub seed : resolve_secret s db target.ssh_identity_secret_id ≡ ok sess.identity_seed
    pub whole : length sess.identity_seed ≡ 32

  -- A request makes no call, reads a host key, or reads the host key of the endpoint of a verified
  -- session and then makes one call over that.
  abbrev pub IsGuarded : Wire → Wire → Type 0
  IsGuarded before calls =
      (calls ≡ before)
      ⊎ ((e : Endpoint) × (calls ≡ read_host_key e ∷ before))
      ⊎ ((sess : Session) × (u : Use) × (calls
            ≡ use_session sess u ∷ read_host_key sess.endpoint ∷ before)
          × IsVerified sess before)

  is_confirmed_lem : (t : TrustStatus) → is_confirmed t ≡ true → t ≡ trust_confirmed
  is_confirmed_lem TrustStatus.trust_confirmed h = refl
  is_confirmed_lem TrustStatus.trust_unknown h = cc
  is_confirmed_lem TrustStatus.trust_blocked h = cc
  is_confirmed_lem (TrustStatus.trust_other o) h = cc

  nonempty : (t : Text) → not (is_empty t) ≡ true → t ≢ []
  nonempty [] h = absurd (ground arith)
  nonempty (b ∷ bs) h = λ e. cc

  resolve_seed_lem :
      (secret : Text) {seed : Text}
      → resolve_seed s db secret ≡ ok seed
      → (resolve_secret s db secret ≡ ok seed) × (length seed ≡ 32)
  unfolding resolve_seed
  resolve_seed_lem secret {seed} h = elim (Result-cases (resolve_secret s db secret)) [
    | inl (e, bad) ↦ ground arith
    | inr (value, good) ↦ let same : value ≡ seed = ground arith in (ground arith, ground arith)
  ]

  find_target_lem :
      (reads : Bool) {t : Target}
      → find_target reads db id ≡ ok t
      → find (λ t. t.id == id) db.targets ≡ some t
  unfolding find_target
  find_target_lem reads {t} h = elim (Option-cases (find (λ t. t.id == id) db.targets)) [
    | inl missing ↦ ground arith
    | inr (t', there) ↦ ground arith
  ]

  open_session-IsVerified :
      (t : Target) (before : Wire) (o : HostKeyObservation) {sess : Session}
      → find (λ t. t.id == id) db.targets ≡ some t
      → is_trusted t ≡ true
      → w.on_host_key before (endpoint_of t) ≡ ok o
      → open_session s db t (ok o) ≡ ok sess
      → (sess.endpoint ≡ endpoint_of t) × IsVerified sess before
  unfolding open_session
  open_session-IsVerified t before o {sess} found trusted read h =
      let (_, e1, h1) = >>=-eq-ok (reject (not (has_key t o)) (key_mismatch o)) _ h in
      let (_, e2, h2) =
        >>=-eq-ok (reject (is_empty t.ssh_identity_secret_id) identity_missing) _ h1 in
      let (seed, e3, h3) = >>=-eq-ok (resolve_seed s db t.ssh_identity_secret_id) _ h2 in
      let made : (record {
        endpoint = endpoint_of t;
        host_key = t.ssh_host_key;
        identity_seed = seed;
      })
          ≡ sess =
        ground arith in
      let (opened, whole) = resolve_seed_lem t.ssh_identity_secret_id e3 in
      subst (λ (x : Session). (x.endpoint ≡ endpoint_of t) × IsVerified x before) made
        (
          refl,
          record {
            target = t;
            found = found;
            confirmed = is_confirmed_lem t.ssh_trust (ground arith);
            some_key = nonempty t.ssh_host_key (ground arith);
            key = o;
            read = read;
            same_key = sym ((eq_iff t.ssh_host_key o.public_key).0 (ground arith));
            same_fingerprint = sym ((eq_iff t.ssh_host_fingerprint o.fingerprint).0 (ground arith));
            host_key = refl;
            endpoint = refl;
            seed = opened;
            whole = whole;
          },
        )

  -- What comes of opening a session.
  pub data Opening (before : Wire) : Result GatewayError Session × Wire → Type 0 where
    refused : (e : GatewayError) → Opening before (err e, before)
    unverified :
        (e : GatewayError) (p : Endpoint) → Opening before (err e, read_host_key p ∷ before)
    verified :
        (sess : Session)
        → IsVerified sess before
        → Opening before (ok sess, read_host_key sess.endpoint ∷ before)

  pub strict_session-Opening :
      (reads : Bool) (before : Wire) → Opening before (strict_session s w reads db before id)
  unfolding strict_session
  strict_session-Opening reads before = elim (Result-cases (find_target reads db id)) [
    | inl (e, bad) ↦ rw (bad, strict_session) (refused e)
    | inr (t, good) ↦ elim (Bool-cases (is_trusted t)) [
      | inr no_trust ↦ rw (good, strict_session) (rw no_trust (refused trust_required))
      | inl trusted ↦ elim (Result-cases (w.on_host_key before (endpoint_of t))) [
        | inl (e, silent) ↦
            rw (good, strict_session)
              (rw (trusted, silent) (unverified (wire_failed e) (endpoint_of t)))
        | inr (o, read) ↦ elim (Result-cases (open_session s db t (ok o))) [
          | inl (e, closed) ↦
              rw (good, strict_session) (rw (trusted, read, closed) (unverified e (endpoint_of t)))
          | inr (sess, opened) ↦
              let (same, v) =
                open_session-IsVerified t before o (find_target_lem reads good) trusted read
                  opened in
              rw (good, strict_session)
                (rw (trusted, read, opened)
                  (subst (λ p. Opening before (ok sess, read_host_key p ∷ before)) same
                    (verified sess v)))
        ]
      ]
    ]
  ]
