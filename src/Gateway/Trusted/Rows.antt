-- ===== src/Gateway/Trusted/Rows.antt =====
-- internal/managementstate: the row of one target, behind SetSSHTrust and in the gateway's look-up.
use mathlib.Core.Option
use vpsmith.Base.{◌≡◌, refl, inl, inr, arith, Bool, Option, some, List, [], ◌∷◌}
use vpsmith.Base.{if◌then◌else◌, find, Option-cases}
use vpsmith.Base.Text.{Text, ◌==◌, eq_iff}
use vpsmith.Base.Result.{ok}
use vpsmith.Base.Table.{update_row, update_all}
use vpsmith.State.Types.{TrustStatus, Target}
use vpsmith.State.Db.{Db, Services, target_key}
use vpsmith.State.Statements.{update_target}
use vpsmith.State.Change
use vpsmith.Gateway.Session.{find_target}

abbrev pub target_at : Text → Db → Option Target
target_at id db = find (λ t. t.id == id) db.targets

-- An update of the row of one target.
find-update_all :
    (k j : Text) (f : Target → Target) (rows : List Target)
    → ((t : Target) → (f t).id ≡ t.id)
    → find (λ t. t.id == j) (update_all target_key k f rows)
      ≡ (if k == j then Option.map f (find (λ t. t.id == j) rows) else find (λ t. t.id == j) rows)
unfolding find update_all
find-update_all k j f [] same = ground arith
find-update_all k j f (t ∷ rows) same =
    ground
      (arith, find-update_all k j f rows same, same t, eq_iff t.id k, eq_iff t.id j, eq_iff k j)

pub update_target_lem :
    (k j : Text) (f : Target → Target) (db : Db) {db' : Db}
    → ((t : Target) → (f t).id ≡ t.id)
    → update_target k f db ≡ ok db'
    → target_at j db' ≡ (if k == j then Option.map f (target_at j db) else target_at j db)
unfolding update_target update_row
update_target_lem k j f db {db'} same h =
    let e : db' ≡ record db { targets = update_all target_key k f db.targets } = ground arith in
    rw e (find-update_all k j f db.targets same)

pub set_ssh_trust_lem :
    (s : Services) (id key fingerprint : Text) (trust : TrustStatus) (db : Db) (j : Text) {db' : Db}
    → Change.set_ssh_trust s id key fingerprint trust db ≡ ok db'
    → target_at j db' ≡ (
        if id == j
        then Option.map
            (λ (t : Target). record t {
              ssh_host_key = key;
              ssh_host_fingerprint = fingerprint;
              ssh_trust = trust;
            })
            (target_at j db)
        else target_at j db)
unfolding Change.set_ssh_trust
set_ssh_trust_lem s id key fingerprint trust db j {db'} h =
    let f : Target → Target =
      λ t. record t { ssh_host_key = key; ssh_host_fingerprint = fingerprint; ssh_trust = trust } in
    let e : update_target id f db ≡ ok db' = ground arith in
    update_target_lem id j f db (λ t. refl) e

pub find_target_at :
    (reads : Bool) (db : Db) (id : Text) {t : Target}
    → find_target reads db id ≡ ok t
    → target_at id db ≡ some t
unfolding find_target
find_target_at reads db id {t} h = elim (Option-cases (target_at id db)) [
  | inl missing ↦ ground arith
  | inr (t', there) ↦ ground arith
]
