-- ===== src/Gateway/Ensured.antt =====
-- internal/targetgateway/gateway.go: what EnsureIdentity leaves in the store.
use vpsmith.Base.{
  ◌≡◌, ◌≢◌, refl, sym, ap, ◌∙◌, subst, inl, inr, arith, true, false, some, List, [], ◌∷◌,
}
use vpsmith.Base.{is_empty, eqb, length, find, Bool-cases}
use vpsmith.Base.Text.{Text, ◌==◌, eq_refl}
use vpsmith.Base.Result.{ok, err, >>=-eq-ok, Result-cases}
use vpsmith.Base.Table.{has_row, update_row}
use vpsmith.State.Types.{Target}
use vpsmith.State.Db.{Db, Services, StateError, target_key}
use vpsmith.State.Statements.{update_target}
use vpsmith.State.Guards.{require_secret}
use vpsmith.State.Change
use vpsmith.State.Store.{change, resolve_secret}
use vpsmith.Gateway.Types.{SshIdentity}
use vpsmith.Gateway.Session.{resolve_seed}
use vpsmith.Gateway.Trust.{
  Database, Fresh, identity_of, create_identity, ensure, chosen, read_identity, with_identity,
  ensure_identity,
}
use vpsmith.Gateway.Trusted.Rows.{update_target_lem}

has_row-find :
    (id : Text) (rows : List Target)
    → has_row target_key id rows ≡ true
    → (t : Target) × (find (λ t. t.id == id) rows ≡ some t)
unfolding has_row find
has_row-find id [] h = cc
has_row-find id (t ∷ rows) h = elim (Bool-cases (t.id == id)) [
  | inl own ↦ (t, ground arith)
  | inr other ↦
      let rest : has_row target_key id rows ≡ true = ground arith in
      let (u, there) = has_row-find id rows rest in (u, ground arith)
]

update_target-there :
    (id : Text) (f : Target → Target) (db : Db) {db' : Db}
    → update_target id f db ≡ ok db'
    → has_row target_key id db.targets ≡ true
unfolding update_target update_row
update_target-there id f db h = ground arith

-- The identity that SetSSHIdentity has set.
set_ssh_identity_lem :
    (id secret : Text) (db : Db) {db' : Db}
    → Change.set_ssh_identity id secret db ≡ ok db'
    → (secret ≢ []) × (identity_of id db' ≡ ok secret)
unfolding Change.set_ssh_identity identity_of
set_ssh_identity_lem id [] db h = ground arith
set_ssh_identity_lem id (b ∷ bs) db {db'} h =
    let (_, e1, h1) = >>=-eq-ok (require_secret db (b ∷ bs)) _ h in
    let f : Target → Target = λ t. record t { ssh_identity_secret_id = b ∷ bs } in
    let (t, there) = has_row-find id db.targets (update_target-there id f db h1) in
    let e = update_target_lem id id f db (λ t. refl) h1 in
    (λ p. cc, ground (arith, e, there, eq_refl id))

create_identity_lem :
    (s : Services) (f : Fresh) (id : Text) (db : Db) {db' : Db}
    → create_identity s f id db ≡ ok db'
    → (f.secret_id ≢ []) × (identity_of id db' ≡ ok f.secret_id)
unfolding create_identity
create_identity_lem s f id db h =
    let (db1, e1, h1) = >>=-eq-ok (Change.create_secret s f.secret_id f.now _ _ db) _ h in
    let (db2, e2, h2) = >>=-eq-ok (Change.set_secret s f.nonce f.secret_id f.seed db1) _ h1 in
    set_ssh_identity_lem id f.secret_id db2 h2

module _ (s : Services) (f : Fresh) (id : Text) (db : Db) where
  ensure_old :
      {secret : Text}
      → identity_of id db ≡ ok secret
      → secret ≢ []
      → (ensure s f id db ≡ ok db) × (chosen f (identity_of id db) ≡ secret)
  unfolding ensure
  ensure_old {secret = []} there some_id = absurd (some_id refl)
  ensure_old {secret = b ∷ bs} there some_id = (ground arith, ground arith)

  ensure_new : identity_of id db ≡ ok [] → ensure s f id db ≡ create_identity s f id db
  unfolding ensure
  ensure_new there = ground arith

  ensure_missing : {e : StateError} → identity_of id db ≡ err e → ensure s f id db ≡ err e
  unfolding ensure
  ensure_missing there = ground arith

  -- The identity behind a successful transaction is the one that is read.
  ensure_lem :
      {db' : Db}
      → ensure s f id db ≡ ok db'
      → (secret : Text) × (secret ≢ [])
        × (chosen f (identity_of id db) ≡ secret)
        × (identity_of id db' ≡ ok secret)
  ensure_lem {db'} h = elim (Result-cases (identity_of id db)) [
    | inl (e, missing) ↦ cc (ensure_missing missing)
    | inr ([], there) ↦
        let (some_id, now) = create_identity_lem s f id db (sym (ensure_new there) ∙ h) in
        (f.secret_id, some_id, rw there refl, now)
    | inr (b ∷ bs, there) ↦
        let (same, own) = ensure_old there (λ p. cc) in
        let kept : db' ≡ db = ground (arith, same) in (b ∷ bs, (λ p. cc), own, rw kept there)
  ]

-- The identity that was returned is that of the target: of the 32 bytes of its secret.
abbrev pub IsIdentity : Services → (Text → Text → SshIdentity) → Text → Db → SshIdentity → Type 0
IsIdentity s public id db i =
    (secret : Text) × (seed : Text) × (secret ≢ [])
    × (identity_of id db ≡ ok secret)
    × (resolve_secret s db secret ≡ ok seed)
    × (length seed ≡ 32)
    × (i ≡ public id seed)

read_identity_lem :
    (s : Services) (public : Text → Text → SshIdentity) (id secret : Text) (db : Db)
    {i : SshIdentity}
    → read_identity s public id secret db ≡ ok i
    → (seed : Text) × (resolve_secret s db secret ≡ ok seed)
      × (length seed ≡ 32)
      × (i ≡ public id seed)
unfolding read_identity resolve_seed
read_identity_lem s public id secret db {i} h = elim (Result-cases (resolve_secret s db secret)) [
  | inl (e, bad) ↦ ground arith
  | inr (seed, good) ↦ elim (Bool-cases (eqb (length seed) 32)) [
    | inr short ↦ ground arith
    | inl whole ↦ (seed, good, ground arith, ground arith)
  ]
]

module _ (s : Services) (public : Text → Text → SshIdentity) (d : Database) (f : Fresh) (id : Text)
    (db : Db) where
  -- What a successful call has gone through.
  succeeded :
      {db' : Db} {i : SshIdentity}
      → ensure_identity s public d f id db ≡ (db', ok i)
      → (is_empty id ≡ false)
        × (ensure s f id db ≡ ok db')
        × (read_identity s public id (chosen f (identity_of id db)) db' ≡ ok i)
  unfolding ensure_identity change with_identity
  succeeded {db'} {i} h = elim (Bool-cases (is_empty id)) [
    | inl empty ↦ ground arith
    | inr some_id ↦ elim (Bool-cases d.begins) [
      | inr closed ↦ ground arith
      | inl begun ↦ elim (Result-cases (ensure s f id db)) [
        | inl (e, bad) ↦ ground arith
        | inr (db1, good) ↦ elim (Bool-cases d.commits) [
          | inr failed ↦ ground arith
          | inl done ↦
              let same : db1 ≡ db' = ground arith in (some_id, good ∙ ap ok same, ground arith)
        ]
      ]
    ]
  ]

  -- An identity that `EnsureIdentity` returns without an error is made of the 32 bytes that the
  -- store it leaves holds for the secret which that store names as the target's identity.
  pub ensure_identity-IsIdentity :
      {db' : Db} {i : SshIdentity}
      → ensure_identity s public d f id db ≡ (db', ok i)
      → IsIdentity s public id db' i
  ensure_identity-IsIdentity {db'} {i} h =
      let (_, made, read) = succeeded h in
      let (secret, some_id, own, now) = ensure_lem s f id db made in
      let (seed, good, whole, same) = read_identity_lem s public id _ db' read in
      (
        secret,
        seed,
        some_id,
        now,
        subst (λ x. resolve_secret s db' x ≡ ok seed) own good,
        whole,
        same,
      )

  -- Once `EnsureIdentity` has returned an identity, a later call at the store it left, whatever
  -- seed and id it draws, returns the same identity and changes nothing, where the database takes
  -- BEGIN and COMMIT.
  pub ensure_identity-again :
      (d' : Database) (f' : Fresh) {db' : Db} {i : SshIdentity}
      → ensure_identity s public d f id db ≡ (db', ok i)
      → d'.begins ≡ true
      → d'.commits ≡ true
      → ensure_identity s public d' f' id db' ≡ (db', ok i)
  unfolding ensure_identity change with_identity
  ensure_identity-again d' f' {db'} {i} h begins commits =
      let (some_target, made, read) = succeeded h in
      let (secret, some_id, own, now) = ensure_lem s f id db made in
      let (same, chosen_again) = ensure_old s f' id db' now some_id in
      let read_again : read_identity s public id secret db' ≡ ok i =
        subst (λ x. read_identity s public id x db' ≡ ok i) own read in
      rw (some_target, begins) (rw (same, commits) (rw (chosen_again, read_again) refl))
