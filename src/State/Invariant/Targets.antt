-- ===== src/State/Invariant/Targets.antt =====
-- The statements of internal/managementstate on the targets and the deletion of a secret: what each asks
-- for to keep the store consistent.
use vpsmith.Base.{◌≡◌, sym, subst, arith, inl, inr, false, Option, none, some, List, [], ◌∷◌}
use vpsmith.Base.{All, All-append}
use vpsmith.Base.Text.{Text, ◌==◌, contains, eq_iff}
use vpsmith.Base.Result.{ok}
use vpsmith.Base.Table.{
  insert_row, update_row, delete_row, delete_all, Unique, insert_row-Unique, update_all-Unique,
  has_row-delete_all, delete_all-Unique, All-update_all,
}
use vpsmith.State.Types.{ModuleDesiredState, Target, Secret, GithubConfig}
use vpsmith.State.Db.{Db, StateError, target_key, secret_key}
use vpsmith.State.Guards.{desired_refers, target_refers, github_refers, secret_is_referenced}
use vpsmith.State.Statements.{insert_target, update_target, remove_secret}
use vpsmith.State.Invariant.Defs.{HasSecret, HasModuleSecrets, IsRegistered, HasToken, IsConsistent}
use vpsmith.State.Invariant.Tables.{require_then, update_row-eq, delete_row-eq}

pub insert_target-IsConsistent :
    (row : Target) (db : Db) {db' : Db}
    → insert_target row db ≡ ok db'
    → IsRegistered db.secrets row
    → IsConsistent db
    → IsConsistent db'
unfolding insert_target
insert_target-IsConsistent row db h registered c =
    let (rows, e, same) =
      require_then (insert_row target_key row db.targets) StateError.constraint_violated
        (λ rows. record db { targets = rows }) h in
    let (keys, references) = c in
    let (u, made) = insert_row-Unique target_key row db.targets e keys.0 in
    subst IsConsistent (sym same) (
      (u, keys.1, keys.2, keys.3, keys.4, keys.5, keys.6),
      (
        subst (All (IsRegistered db.secrets)) (sym made) (
            All-append (IsRegistered db.secrets) db.targets (row ∷ []) references.0
              (registered, tt)),
        references.1,
        references.2,
        references.3,
      ),
    )

pub update_target-IsConsistent :
    (id : Text) (f : Target → Target) (db : Db) {db' : Db}
    → ((t : Target) → target_key (f t) ≡ target_key t)
    → ((t : Target) → IsRegistered db.secrets t → IsRegistered db.secrets (f t))
    → update_target id f db ≡ ok db'
    → IsConsistent db
    → IsConsistent db'
unfolding update_target
update_target-IsConsistent id f db same_key keep h c =
    let (rows, e, same) =
      require_then (update_row target_key id f db.targets) StateError.target_missing
        (λ rows. record db { targets = rows }) h in
    let (keys, references) = c in
    let made = sym (update_row-eq target_key id f db.targets e) in
    subst IsConsistent (sym same) (
      (
        subst (Unique target_key) made
            (update_all-Unique target_key id f db.targets same_key keys.0),
        keys.1,
        keys.2,
        keys.3,
        keys.4,
        keys.5,
        keys.6,
      ),
      (
        subst (All (IsRegistered db.secrets)) made
            (All-update_all target_key (IsRegistered db.secrets) id f db.targets keep references.0),
        references.1,
        references.2,
        references.3,
      ),
    )

-- A secret other than the deleted one stays.
HasSecret-delete :
    (id j : Text) (secrets : List Secret)
    → (id == j) ≡ false
    → HasSecret secrets j
    → HasSecret (delete_all secret_key id secrets) j
HasSecret-delete id j secrets other there =
    rw (has_row-delete_all secret_key id j secrets, other) there

All-HasSecret-delete :
    (id : Text) (secrets : List Secret) (ids : List Text)
    → contains ids id ≡ false
    → All (HasSecret secrets) ids
    → All (HasSecret (delete_all secret_key id secrets)) ids
unfolding contains
All-HasSecret-delete id secrets [] h there = tt
All-HasSecret-delete id secrets (j ∷ ids) h there = (
  HasSecret-delete id j secrets (ground (arith, eq_iff id j, eq_iff j id)) there.0,
  All-HasSecret-delete id secrets ids (ground arith) there.1,
)

HasModuleSecrets-delete :
    (id : Text) (secrets : List Secret) (ms : List ModuleDesiredState)
    → desired_refers id ms ≡ false
    → HasModuleSecrets secrets ms
    → HasModuleSecrets (delete_all secret_key id secrets) ms
unfolding desired_refers
HasModuleSecrets-delete id secrets [] h there = tt
HasModuleSecrets-delete id secrets (m ∷ ms) h there = (
  All-HasSecret-delete id secrets m.secret_ids (ground arith) there.0,
  HasModuleSecrets-delete id secrets ms (ground arith) there.1,
)

targets-delete :
    (id : Text) (secrets : List Secret) (ts : List Target)
    → target_refers id ts ≡ false
    → All (IsRegistered secrets) ts
    → All (IsRegistered (delete_all secret_key id secrets)) ts
unfolding target_refers
targets-delete id secrets [] h there = tt
targets-delete id secrets (t ∷ ts) h there =
    let other : (t.ssh_identity_secret_id == id) ≡ false = ground arith in
    let away : (id == t.ssh_identity_secret_id) ≡ false =
      ground (arith, eq_iff id t.ssh_identity_secret_id, eq_iff t.ssh_identity_secret_id id) in
    (
      (
        elim there.0.0 [
          | inl e ↦ inl e
          | inr e ↦ inr (HasSecret-delete id t.ssh_identity_secret_id secrets away e)
        ],
        there.0.1,
        HasModuleSecrets-delete id secrets t.desired.modules (ground arith) there.0.2,
      ),
      targets-delete id secrets ts (ground arith) there.1,
    )

github-delete :
    (id : Text) (secrets : List Secret) (g : Option GithubConfig)
    → github_refers id g ≡ false
    → HasToken secrets g
    → HasToken (delete_all secret_key id secrets) g
github-delete id secrets none h there = tt
github-delete id secrets (some g) h there =
    HasSecret-delete id g.pat_secret_id secrets
      (ground (arith, eq_iff id g.pat_secret_id, eq_iff g.pat_secret_id id)) there

pub remove_secret-IsConsistent :
    (id : Text) (db : Db) {db' : Db}
    → remove_secret id db ≡ ok db'
    → secret_is_referenced db id ≡ false
    → IsConsistent db
    → IsConsistent db'
unfolding remove_secret
remove_secret-IsConsistent id db h free c =
    let (rows, e, same) =
      require_then (delete_row secret_key id db.secrets) StateError.secret_missing
        (λ rows. record db { secrets = rows }) h in
    let made = sym (delete_row-eq secret_key id db.secrets e) in
    let (keys, references) = c in
    subst IsConsistent (sym same) (
      (
        keys.0,
        subst (Unique secret_key) made (delete_all-Unique secret_key id db.secrets keys.1),
        keys.2,
        keys.3,
        keys.4,
        keys.5,
        keys.6,
      ),
      (
        subst (λ rows. All (IsRegistered rows) db.targets) made
            (targets-delete id db.secrets db.targets (ground arith) references.0),
        references.1,
        references.2,
        subst (λ rows. HasToken rows db.github) made
            (github-delete id db.secrets db.github (ground arith) references.3),
      ),
    )
