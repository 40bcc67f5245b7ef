-- ===== src/State/Secrets.antt =====
-- The life of a secret in internal/managementstate/store.go: set once, read, rotated, deleted.
mod Rows
pub use Rows.*
use vpsmith.Base.{
  ◌+◌, ◌≡◌, refl, sym, ◌∙◌, subst, arith, inl, inr, true, false, some, List, [], ◌∷◌,
}
use vpsmith.Base.{if◌then◌else◌, is_empty, Bool-cases}
use vpsmith.Base.Text.{Text, ◌==◌, eq_iff}
use vpsmith.Base.Result.{ok, err}
use vpsmith.Base.Table.{has_row, update_row, update_all, delete_row, delete_all}
use vpsmith.State.Types.{Secret}
use vpsmith.State.Db.{Db, Services, StateError, secret_key}
use vpsmith.State.Statements.{update_secret, remove_secret}
use vpsmith.State.Change.{has_unset, has_set, set_secret, rotate_secret, delete_secret}
use vpsmith.State.Guards.{secret_is_referenced}
use vpsmith.State.Store.{resolve_row, resolve_secret}

module _ (s : Services) (cipher : IsCipher s) where
  resolve_row-all :
      (f : Secret → Secret) (id nonce plain : Text)
      → ((r : Secret) → ((f r).id ≡ r.id) × ((f r).ciphertext ≡ some (s.encrypt id nonce plain)))
      → (rows : List Secret) → has_row secret_key id rows ≡ true
      → (j : Text)
      → resolve_row s j (update_all secret_key id f rows)
        ≡ (if id == j then ok plain else resolve_row s j rows)
  resolve_row-all f id nonce plain seals rows there j = elim (Bool-cases (id == j)) [
    | inl same ↦
        let same_id : id ≡ j = ground (arith, eq_iff id j) in
        rw same (
          subst (λ k. resolve_row s k (update_all secret_key id f rows) ≡ ok plain) same_id
            (resolve_row-sealed s cipher f id nonce plain seals rows there))
    | inr other ↦ rw other (resolve_row-other s f id j (λ r. (seals r).0) other rows)
  ]

  -- After `SetSecret` has returned without an error, under a cipher that opens what it sealed and
  -- seals nothing as the empty text, `ResolveSecret` gives the value for this id, and for every
  -- other id what it gave before; and a second `SetSecret` for the id, whatever the value, is an
  -- error.
  pub set_secret-resolve_secret :
      (nonce id value : Text) (db : Db) {db' : Db}
      → set_secret s nonce id value db ≡ ok db'
      → ((j : Text)
          → resolve_secret s db' j ≡ (if id == j then ok value else resolve_secret s db j))
        × ((nonce' value' : Text) → (e : StateError) × (set_secret s nonce' id value' db' ≡ err e))
  unfolding set_secret
  set_secret-resolve_secret nonce id value db {db' = db'} h =
      let f : Secret → Secret = sealed_as (s.encrypt id nonce value) in
      let unset : has_unset id db.secrets ≡ true = ground arith in
      let e : update_secret id f db ≡ ok db' = ground arith in
      let made : db'.secrets ≡ update_all secret_key id f db.secrets = updated_secrets id f db e in
      (
        λ j. rw made (
            resolve_row-all f id nonce value (λ r. (refl, refl)) db.secrets
              (has_unset-has_row id db.secrets unset) j),
        λ nonce' value'. set_again s nonce' id value' db' (
            rw made
              (has_unset-sealed f id (s.encrypt id nonce value) (λ r. (refl, refl)) db.secrets)),
      )

  -- After `RotateSecret` has returned without an error, under a cipher that opens what it sealed
  -- and seals nothing as the empty text, the secret had a value before; `ResolveSecret` gives the
  -- new one for this id, and for every other id what it gave before.
  pub rotate_secret-resolve_secret :
      (nonce now id value : Text) (db : Db) {db' : Db}
      → rotate_secret s nonce now id value db ≡ ok db'
      → (has_set id db.secrets ≡ true)
        × ((j : Text)
            → resolve_secret s db' j ≡ (if id == j then ok value else resolve_secret s db j))
  unfolding rotate_secret
  rotate_secret-resolve_secret nonce now id value db {db' = db'} h =
      let f : Secret → Secret = λ r. record r {
        ciphertext = some (s.encrypt id nonce value);
        rotated_at = now;
        rotation_count = r.rotation_count + 1;
      } in
      let set : has_set id db.secrets ≡ true = ground arith in
      let e : update_secret id f db ≡ ok db' = ground arith in
      let made : db'.secrets ≡ update_all secret_key id f db.secrets = updated_secrets id f db e in
      (
        set,
        λ j. rw made (
            resolve_row-all f id nonce value (λ r. (refl, refl)) db.secrets
              (has_set-has_row id db.secrets set) j),
      )

-- After `DeleteSecret` has returned without an error, neither a target nor the GitHub
-- configuration named the secret, it was there, and `ResolveSecret` finds it no more and gives for
-- every other id what it gave before.
pub delete_secret-resolve_secret :
    (s : Services) (id : Text) (db : Db) {db' : Db}
    → delete_secret id db ≡ ok db'
    → (secret_is_referenced db id ≡ false)
      × (has_row secret_key id db.secrets ≡ true)
      × ((j : Text)
          → resolve_secret s db' j
            ≡ (if id == j then err StateError.secret_missing else resolve_secret s db j))
unfolding delete_secret
delete_secret-resolve_secret s id db {db' = db'} h =
    let e : remove_secret id db ≡ ok db' = ground arith in
    let (there, made) = removed_secrets id db e in
    (ground arith, there, λ j. rw made (resolve_row-deleted s id j db.secrets))
