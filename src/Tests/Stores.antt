-- ===== src/Tests/Stores.antt =====
-- Small stores of internal/managementstate, with a cipher that puts a byte in front.
use vpsmith.Base.{◌≡◌, refl, true, false, Option, none, some, List, [], ◌∷◌, if◌then◌else◌}
use vpsmith.Base.Text.{
  Text, text, ◌==◌, cut_prefix, has_prefix, has_infix, trim_left, trim_reversed, trim_space,
  is_blank, space_one, space_two, space_three,
}
use vpsmith.Base.Result.{Result, ok, err}
use vpsmith.Base.Table.{has_row, insert_row, update_all, update_row, delete_all, delete_row}
use vpsmith.State.Types.{SecretOrigin, TrustStatus, Secret, TargetRegistration, ExecutionBundle}
use vpsmith.State.Db.{Db, Services, StateError, empty_db, secret_key}
use vpsmith.State.Statements.{
  insert_target, insert_secret, update_secret, remove_secret, insert_bundle,
}
use vpsmith.State.Change
use vpsmith.State.Change.{has_unset, has_set}
use vpsmith.State.Guards.{
  any_contains, domain_columns, reject_material, target_refers, desired_refers,
  secret_is_referenced,
}
use vpsmith.State.Store.{Op, apply, apply_all, change, resolve_secret}
use vpsmith.State.Secrets.{IsCipher, set_secret-resolve_secret, delete_secret-resolve_secret}
use vpsmith.State.Invariant.Defs.{IsConsistent}
use vpsmith.State.Invariant.Always.{Reachable, Reachable-IsConsistent}
use vpsmith.State.Connection.{Commit, at_rest}
use vpsmith.State.Transaction.{Fares, Statements, change_on}
use vpsmith.State.Atomic.{IsAtomic, change_on-IsAtomic}
use vpsmith.State.Invariant.History.{Extends, apply_all-Extends}

abbrev open_sealed : Text → Option Text
open_sealed [] = none
open_sealed (b ∷ bs) = some bs

abbrev pub demo : Services
demo = record {
  encrypt = λ id nonce plain. 1 ∷ plain;
  decrypt = λ id sealed. open_sealed sealed;
  json = λ d. text "{}";
}

demo-IsCipher : IsCipher demo
demo-IsCipher id nonce plain = (refl, refl)

abbrev registration : TargetRegistration
registration = record {
  id = text "t";
  address = text "a";
  ssh_user = text "u";
  ssh_identity_secret_id = text "s";
  ssh_host_key = [];
  ssh_host_fingerprint = [];
  ssh_trust = TrustStatus.trust_unknown;
}

abbrev metadata : ExecutionBundle
metadata = record {
  id = text "b";
  target_id = text "t";
  kind = text "k";
  version = text "1";
  sha256 = text "h";
  created_at = [];
}

abbrev setup : List Op
setup =
    Op.create_secret (text "s") (text "now") (text "key") SecretOrigin.user
    ∷ Op.set_secret (text "n") (text "s") (text "value")
    ∷ Op.create_target registration
    ∷ Op.append_execution_bundle (text "now") metadata
    ∷ []

-- The store after the calls.
abbrev stored : Result StateError Db → Db
stored (ok db) = db
stored (err e) = empty_db

abbrev pub db_of : List Op → Db
db_of ops = stored (apply_all demo ops empty_db)

setup-IsConsistent : IsConsistent (change demo true true (apply_all demo setup) empty_db).0
setup-IsConsistent =
    Reachable-IsConsistent demo (change demo true true (apply_all demo setup) empty_db).0
      (Reachable.changed true true setup empty_db Reachable.opened)

-- A COMMIT that is refused and leaves the transaction to the ROLLBACK.
abbrev refusing : Fares
refusing = record { begins = true; stays_open = true; commit = Commit.refused; rolls_back = true }

-- The calls as the statements of a change function.
abbrev stated : Result StateError Db → Db × Option StateError
stated (ok db) = (db, none)
stated (err e) = (empty_db, some e)

abbrev statements : List Op → Statements
statements ops db = stated (apply_all demo ops db)

setup-IsAtomic :
    IsAtomic refusing
      (statements setup)
      (at_rest empty_db)
      (change_on refusing (statements setup) (at_rest empty_db))
setup-IsAtomic = change_on-IsAtomic refusing (statements setup) (at_rest empty_db)

setup-runs : apply_all demo setup empty_db ≡ ok (db_of setup)
unfolding apply_all apply Change.create_secret insert_secret Change.set_secret update_secret
    has_unset any_contains domain_columns Change.create_target insert_target
    Change.append_execution_bundle insert_bundle reject_material has_row insert_row update_row
    update_all ◌==◌ has_infix has_prefix cut_prefix is_blank trim_space trim_left trim_reversed
    space_one space_two space_three
setup-runs = refl

setup-Extends : Extends empty_db (db_of setup)
setup-Extends = apply_all-Extends demo setup empty_db setup-runs

abbrev row : Option Text → Secret
row value = record {
  id = text "s";
  name = text "key";
  origin = SecretOrigin.user;
  created_at = text "now";
  rotated_at = [];
  rotation_count = 0;
  ciphertext = value;
}

abbrev unset_db : Db
unset_db = record empty_db { secrets = row none ∷ [] }

abbrev set_db : Db
set_db = record empty_db { secrets = row (some (1 ∷ text "value")) ∷ [] }

sets : Change.set_secret demo (text "n") (text "s") (text "value") unset_db ≡ ok set_db
unfolding Change.set_secret update_secret has_unset any_contains domain_columns has_row update_row
    update_all ◌==◌ has_infix has_prefix cut_prefix
sets = refl

set_secret-resolve_secret_example :
    ((j : Text)
      → resolve_secret demo set_db j
        ≡ (if text "s" == j then ok (text "value") else resolve_secret demo unset_db j))
    × ((nonce value : Text)
        → (e : StateError) × (Change.set_secret demo nonce (text "s") value set_db ≡ err e))
set_secret-resolve_secret_example =
    set_secret-resolve_secret demo demo-IsCipher (text "n") (text "s") (text "value") unset_db sets

deletes : Change.delete_secret (text "s") set_db ≡ ok empty_db
unfolding Change.delete_secret remove_secret target_refers desired_refers has_row delete_row
    delete_all ◌==◌
deletes = refl

delete_secret-resolve_secret_example :
    (secret_is_referenced set_db (text "s") ≡ false)
    × (has_row secret_key (text "s") set_db.secrets ≡ true)
    × ((j : Text)
        → resolve_secret demo empty_db j
          ≡ (if text "s" == j then err StateError.secret_missing else resolve_secret demo set_db j))
delete_secret-resolve_secret_example = delete_secret-resolve_secret demo (text "s") set_db deletes
