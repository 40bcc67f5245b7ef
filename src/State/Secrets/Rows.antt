-- ===== src/State/Secrets/Rows.antt =====
-- internal/managementstate/store.go: what ResolveSecret reads from the rows of the secrets.
use vpsmith.Base.{◌≡◌, refl, sym, ◌∙◌, arith, inl, inr, true, false, some, List, [], ◌∷◌}
use vpsmith.Base.{if◌then◌else◌, is_empty, Bool-cases}
use vpsmith.Base.Text.{Text, ◌==◌, eq_iff}
use vpsmith.Base.Result.{ok, err}
use vpsmith.Base.Table.{has_row, update_row, update_all, delete_row, delete_all}
use vpsmith.State.Types.{Secret}
use vpsmith.State.Db.{Db, Services, StateError, secret_key}
use vpsmith.State.Statements.{update_secret, remove_secret}
use vpsmith.State.Change.{has_unset, has_set, set_secret}
use vpsmith.State.Store.{resolve_row}

-- What the cipher of crypto.go promises: what was sealed under an id opens under it, and a sealed
-- value has a nonce in front, so it is not empty.
abbrev pub IsCipher : Services → Type 0
IsCipher s =
    (id nonce plain : Text)
    → (s.decrypt id (s.encrypt id nonce plain) ≡ some plain)
      × (is_empty (s.encrypt id nonce plain) ≡ false)

abbrev pub sealed_as : Text → Secret → Secret
sealed_as c r = record r { ciphertext = some c }

module _ (s : Services) where
  skip_row :
      (id : Text) (r : Secret) (rows : List Secret)
      → (r.id == id) ≡ false
      → resolve_row s id (r ∷ rows) ≡ resolve_row s id rows
  unfolding resolve_row
  skip_row id r rows miss = ground arith

  same_head :
      (id : Text) (r : Secret) (rows others : List Secret)
      → resolve_row s id rows ≡ resolve_row s id others
      → resolve_row s id (r ∷ rows) ≡ resolve_row s id (r ∷ others)
  unfolding resolve_row
  same_head id r rows others e = elim (Bool-cases (r.id == id)) [
    | inl hit ↦ rw hit refl
    | inr miss ↦ rw miss e
  ]

module _ (s : Services) (cipher : IsCipher s) where
  open_sealed :
      (id c plain : Text)
      → is_empty c ≡ false
      → s.decrypt id c ≡ some plain
      → (r : Secret) (rows : List Secret) → r.id ≡ id
      → r.ciphertext ≡ some c
      → resolve_row s id (r ∷ rows) ≡ ok plain
  unfolding resolve_row
  open_sealed id [] plain some_bytes opens r rows same holds = cc
  open_sealed id (b ∷ bs) plain some_bytes opens r rows same holds = ground (arith, eq_iff r.id id)

  -- Reading the row that a statement has sealed.
  pub resolve_row-sealed :
      (f : Secret → Secret) (id nonce plain : Text)
      → ((r : Secret) → ((f r).id ≡ r.id) × ((f r).ciphertext ≡ some (s.encrypt id nonce plain)))
      → (rows : List Secret) → has_row secret_key id rows ≡ true
      → resolve_row s id (update_all secret_key id f rows) ≡ ok plain
  unfolding update_all has_row
  resolve_row-sealed f id nonce plain seals [] there = cc
  resolve_row-sealed f id nonce plain seals (r ∷ rows) there = elim (Bool-cases (r.id == id)) [
    | inl hit ↦ rw hit (
        open_sealed id (s.encrypt id nonce plain) plain (cipher id nonce plain).1
          (cipher id nonce plain).0 (f r) (update_all secret_key id f rows)
          (ground (arith, eq_iff r.id id, seals r)) (seals r).1)
    | inr miss ↦
        rw (miss, skip_row s id r (update_all secret_key id f rows) miss)
          (resolve_row-sealed f id nonce plain seals rows (ground arith))
  ]

pub has_unset-has_row :
    (id : Text) (rows : List Secret) → has_unset id rows ≡ true → has_row secret_key id rows ≡ true
unfolding has_unset has_row
has_unset-has_row id [] h = cc
has_unset-has_row id (r ∷ rows) h = ground (arith, has_unset-has_row id rows)

pub has_set-has_row :
    (id : Text) (rows : List Secret) → has_set id rows ≡ true → has_row secret_key id rows ≡ true
unfolding has_set has_row
has_set-has_row id [] h = cc
has_set-has_row id (r ∷ rows) h = ground (arith, has_set-has_row id rows)

pub updated_secrets :
    (id : Text) (f : Secret → Secret) (db : Db) {db' : Db}
    → update_secret id f db ≡ ok db'
    → db'.secrets ≡ update_all secret_key id f db.secrets
unfolding update_secret update_row
updated_secrets id f db h = ground arith

pub removed_secrets :
    (id : Text) (db : Db) {db' : Db}
    → remove_secret id db ≡ ok db'
    → (has_row secret_key id db.secrets ≡ true)
      × (db'.secrets ≡ delete_all secret_key id db.secrets)
unfolding remove_secret delete_row
removed_secrets id db h = (ground arith, ground arith)

missing_row : (s : Services) (id : Text) → resolve_row s id [] ≡ err StateError.secret_missing
unfolding resolve_row
missing_row s id = refl

pub set_again :
    (s : Services) (nonce id value : Text) (db : Db)
    → has_unset id db.secrets ≡ false
    → (e : StateError) × (set_secret s nonce id value db ≡ err e)
unfolding set_secret
set_again s nonce id [] db h = (StateError.empty_secret, refl)
set_again s nonce id (b ∷ bs) db h = (StateError.secret_set_or_missing, ground arith)

-- Once sealed, no row of the id is without a value.
pub has_unset-sealed :
    (f : Secret → Secret) (id c : Text)
    → ((r : Secret) → ((f r).id ≡ r.id) × ((f r).ciphertext ≡ some c))
    → (rows : List Secret) → has_unset id (update_all secret_key id f rows) ≡ false
unfolding has_unset update_all
has_unset-sealed f id c seals [] = refl
has_unset-sealed f id c seals (r ∷ rows) =
    ground (arith, has_unset-sealed f id c seals rows, seals r)

-- The rows of another id are read as before.
pub resolve_row-other :
    (s : Services) (f : Secret → Secret) (id j : Text)
    → ((r : Secret) → (f r).id ≡ r.id)
    → (id == j) ≡ false
    → (rows : List Secret)
    → resolve_row s j (update_all secret_key id f rows) ≡ resolve_row s j rows
unfolding update_all
resolve_row-other s f id j same other [] = refl
resolve_row-other s f id j same other (r ∷ rows) =
    let rest = resolve_row-other s f id j same other rows in
    elim (Bool-cases (r.id == id)) [
      | inl hit ↦
          let away : (r.id == j) ≡ false = ground (arith, eq_iff r.id id) in
          let away_too : ((f r).id == j) ≡ false = rw (same r) away in
          rw hit (
            skip_row s j (f r) (update_all secret_key id f rows) away_too
            ∙ (rest ∙ sym (skip_row s j r rows away)))
      | inr miss ↦ rw miss (same_head s j r (update_all secret_key id f rows) rows rest)
    ]

pub resolve_row-deleted :
    (s : Services) (id j : Text) (rows : List Secret)
    → resolve_row s j (delete_all secret_key id rows)
      ≡ (if id == j then err StateError.secret_missing else resolve_row s j rows)
unfolding delete_all
resolve_row-deleted s id j [] = elim (Bool-cases (id == j)) [
  | inl same ↦ rw same (missing_row s j)
  | inr other ↦ rw other refl
]
resolve_row-deleted s id j (r ∷ rows) =
    let rest = resolve_row-deleted s id j rows in
    elim (Bool-cases (r.id == id)) [
      | inl hit ↦ elim (Bool-cases (id == j)) [
        | inl same ↦ rw (hit, same) (rw same at rest)
        | inr other ↦
            let away : (r.id == j) ≡ false = ground (arith, eq_iff r.id id) in
            rw (hit, other) ((rw other at rest) ∙ sym (skip_row s j r rows away))
      ]
      | inr miss ↦ elim (Bool-cases (id == j)) [
        | inl same ↦
            let away : (r.id == j) ≡ false = ground (arith, eq_iff id j) in
            rw (miss, same)
              (skip_row s j r (delete_all secret_key id rows) away ∙ (rw same at rest))
        | inr other ↦
            rw (miss, other)
              (same_head s j r (delete_all secret_key id rows) rows (rw other at rest))
      ]
    ]
