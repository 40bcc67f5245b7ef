-- ===== src/State/Invariant/Tables/References.antt =====
-- internal/managementstate: what a changed table keeps of its keys and of the references to it.
use vpsmith.Base.{◌≡◌, refl, arith, inl, inr, true, Option, none, some, List, [], ◌∷◌, ◌++◌}
use vpsmith.Base.{All, All-map}
use vpsmith.Base.Text.{Text}
use vpsmith.Base.Result.{ok, require, ◌>>=◌}
use vpsmith.Base.Table.{
  has_row, insert_row, update_row, update_all, delete_row, delete_all, Unique, has_row-append,
}
use vpsmith.State.Types.{SourceKind, Target, Secret, SourceArtifact, GithubConfig}
use vpsmith.State.Db.{Db, StateError, secret_key}
use vpsmith.State.Sources.{has_base}
use vpsmith.State.Invariant.Defs.{HasSecret, IsRegistered, HasToken, IsConsistent}

pub require_then :
    {A B : Type 0} (o : Option A) (e : StateError) (f : A → B) {b : B}
    → (do a ← require o e; ok (f a)) ≡ ok b
    → (a : A) × (o ≡ some a) × (b ≡ f a)
require_then none e f h = cc
require_then (some a) e f h = (a, refl, cc)

module _ {A : Type 0} (key : A → Text) where
  pub insert_row-keeps :
      (row : A) (rows : List A) {rows' : List A}
      → insert_row key row rows ≡ some rows'
      → (id : Text) → has_row key id rows ≡ true
      → has_row key id rows' ≡ true
  unfolding insert_row
  insert_row-keeps row rows {rows' = rows'} h id there =
      let e : rows' ≡ rows ++ (row ∷ []) = ground arith in
      rw e (ground (arith, has_row-append key id row rows))

  pub update_row-eq :
      (k : Text) (f : A → A) (rows : List A) {rows' : List A}
      → update_row key k f rows ≡ some rows'
      → rows' ≡ update_all key k f rows
  unfolding update_row
  update_row-eq k f rows h = ground arith

  pub delete_row-eq :
      (k : Text) (rows : List A) {rows' : List A}
      → delete_row key k rows ≡ some rows'
      → rows' ≡ delete_all key k rows
  unfolding delete_row
  delete_row-eq k rows h = ground arith

-- References survive where no secret is lost.
abbrev pub Keeps : List Secret → List Secret → Type 0
Keeps before after = (id : Text) → HasSecret before id → HasSecret after id

IsRegistered-Keeps :
    (before after : List Secret)
    → Keeps before after
    → (t : Target) → IsRegistered before t
    → IsRegistered after t
IsRegistered-Keeps before after keep t h = (
  elim h.0 [ inl e ↦ inl e | inr e ↦ inr (keep t.ssh_identity_secret_id e) ],
  h.1,
  All-map (λ m. All (HasSecret before) m.secret_ids) (λ m. All (HasSecret after) m.secret_ids)
      t.desired.modules (λ m. All-map (HasSecret before) (HasSecret after) m.secret_ids keep) h.2,
)

HasToken-Keeps :
    (before after : List Secret)
    → Keeps before after
    → (g : Option GithubConfig) → HasToken before g
    → HasToken after g
HasToken-Keeps before after keep none h = tt
HasToken-Keeps before after keep (some g) h = keep g.pat_secret_id h

pub has_base-append :
    (id : Text) (kind : SourceKind) (a : SourceArtifact) (rows : List SourceArtifact)
    → has_base id kind rows ≡ true
    → has_base id kind (rows ++ (a ∷ [])) ≡ true
unfolding has_base
has_base-append id kind a [] h = cc
has_base-append id kind a (b ∷ rows) h = ground (arith, has_base-append id kind a rows)

pub with_secrets :
    (db : Db) (rows : List Secret)
    → Unique secret_key rows
    → Keeps db.secrets rows
    → IsConsistent db
    → IsConsistent (record db { secrets = rows })
with_secrets db rows u keep c =
    let ((t, s, b, r, k, a, w), (targets, records, workspaces, github)) = c in
    (
      (t, u, b, r, k, a, w),
      (
        All-map (IsRegistered db.secrets) (IsRegistered rows) db.targets
            (IsRegistered-Keeps db.secrets rows keep) targets,
        records,
        workspaces,
        HasToken-Keeps db.secrets rows keep db.github github,
      ),
    )
