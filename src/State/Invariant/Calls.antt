-- ===== src/State/Invariant/Calls.antt =====
-- The methods of `Change` of internal/managementstate on targets and secrets keep the store consistent.
use vpsmith.Base.{◌≡◌, refl, arith, ◌+◌, ◌⊎◌, inl, inr, true, none, some, List, [], ◌∷◌}
use vpsmith.Base.{if◌then◌else◌, is_empty, All}
use vpsmith.Base.Text.{Text, text, trim_space}
use vpsmith.Base.Keys.{for_each-All}
use vpsmith.Base.Result.{ok, for_each}
use vpsmith.State.Types.{
  TrustStatus, trust_unknown, SecretOrigin, ModuleDesiredState, DesiredState, Target,
  TargetRegistration, Secret,
}
use vpsmith.State.Db.{Db, Services, valid_trust}
use vpsmith.State.Change
use vpsmith.State.Guards.{default_trust, empty_desired, require_secret, require_secrets}
use vpsmith.State.Statements.{
  insert_target, update_target, insert_secret, update_secret, remove_secret, remove_backup,
}
use vpsmith.State.Invariant.Defs.{HasSecret, HasModuleSecrets, IsConsistent}
use vpsmith.State.Invariant.Tables
use vpsmith.State.Invariant.Targets

-- What the foreign keys of a registration ask for.
pub require_secret-HasSecret :
    (db : Db) (id : Text) → require_secret db id ≡ ok tt → HasSecret db.secrets id
require_secret-HasSecret db id h = ground arith

require_identity :
    (db : Db) (id : Text)
    → (if is_empty id then ok tt else require_secret db id) ≡ ok tt
    → (id ≡ []) ⊎ HasSecret db.secrets id
require_identity db [] h = inl refl
require_identity db (b ∷ bs) h = inr (require_secret-HasSecret db (b ∷ bs) h)

require_secrets-HasModuleSecrets :
    (db : Db) (ms : List ModuleDesiredState)
    → require_secrets db ms ≡ ok tt
    → HasModuleSecrets db.secrets ms
require_secrets-HasModuleSecrets db ms h =
    for_each-All (λ m. for_each (require_secret db) m.secret_ids)
      (λ m. All (HasSecret db.secrets) m.secret_ids)
      (λ m.
        for_each-All (require_secret db) (HasSecret db.secrets) (require_secret-HasSecret db)
          m.secret_ids)
      ms h

pub create_target-IsConsistent :
    (v : TargetRegistration) (db : Db) {db' : Db}
    → Change.create_target v db ≡ ok db'
    → IsConsistent db
    → IsConsistent db'
unfolding Change.create_target
create_target-IsConsistent v db {db' = db'} h c =
    let row : Target = record {
      id = v.id;
      address = v.address;
      ssh_user = v.ssh_user;
      ssh_identity_secret_id = v.ssh_identity_secret_id;
      ssh_host_key = v.ssh_host_key;
      ssh_host_fingerprint = v.ssh_host_fingerprint;
      ssh_trust = default_trust v.ssh_trust;
      desired = empty_desired;
      observed = text "{}";
    } in
    let found : (if is_empty v.ssh_identity_secret_id
          then ok tt
          else require_secret db v.ssh_identity_secret_id)
        ≡ ok tt =
      ground arith in
    let trusted : valid_trust (default_trust v.ssh_trust) ≡ true = ground arith in
    let e : insert_target row db ≡ ok db' = ground arith in
    Targets.insert_target-IsConsistent row db e
      (require_identity db v.ssh_identity_secret_id found, trusted, tt) c

pub create_pending_target-IsConsistent :
    (id user : Text) (db : Db) {db' : Db}
    → Change.create_pending_target id user db ≡ ok db'
    → IsConsistent db
    → IsConsistent db'
unfolding Change.create_pending_target
create_pending_target-IsConsistent id user db {db' = db'} h c =
    let row : Target = record {
      id = id;
      address = [];
      ssh_user = user;
      ssh_identity_secret_id = [];
      ssh_host_key = [];
      ssh_host_fingerprint = [];
      ssh_trust = trust_unknown;
      desired = empty_desired;
      observed = text "{}";
    } in
    let e : insert_target row db ≡ ok db' = ground arith in
    Targets.insert_target-IsConsistent row db e (inl refl, refl, tt) c

pub set_target_address-IsConsistent :
    (id address : Text) (db : Db) {db' : Db}
    → Change.set_target_address id address db ≡ ok db'
    → IsConsistent db
    → IsConsistent db'
unfolding Change.set_target_address
set_target_address-IsConsistent id address db {db' = db'} h c =
    let f : Target → Target = λ t. record t { address = trim_space address } in
    let e : update_target id f db ≡ ok db' = ground arith in
    Targets.update_target-IsConsistent id f db (λ t. refl) (λ t r. r) e c

pub set_ssh_identity-IsConsistent :
    (id secret : Text) (db : Db) {db' : Db}
    → Change.set_ssh_identity id secret db ≡ ok db'
    → IsConsistent db
    → IsConsistent db'
unfolding Change.set_ssh_identity
set_ssh_identity-IsConsistent id secret db {db' = db'} h c =
    let f : Target → Target = λ t. record t { ssh_identity_secret_id = secret } in
    let e : update_target id f db ≡ ok db' = ground arith in
    let there : HasSecret db.secrets secret = ground arith in
    Targets.update_target-IsConsistent id f db (λ t. refl) (λ t r. (inr there, r.1, r.2)) e c

pub delete_backup-IsConsistent :
    (id : Text) (db : Db) {db' : Db}
    → Change.delete_backup id db ≡ ok db'
    → IsConsistent db
    → IsConsistent db'
unfolding Change.delete_backup
delete_backup-IsConsistent id db {db' = db'} h c =
    let e : remove_backup id db ≡ ok db' = ground arith in
    Tables.remove_backup-IsConsistent id db e c

pub delete_secret-IsConsistent :
    (id : Text) (db : Db) {db' : Db}
    → Change.delete_secret id db ≡ ok db'
    → IsConsistent db
    → IsConsistent db'
unfolding Change.delete_secret
delete_secret-IsConsistent id db {db' = db'} h c =
    let e : remove_secret id db ≡ ok db' = ground arith in
    Targets.remove_secret-IsConsistent id db e (ground arith) c

module _ (s : Services) where
  pub set_ssh_trust-IsConsistent :
      (id key fingerprint : Text) (trust : TrustStatus) (db : Db) {db' : Db}
      → Change.set_ssh_trust s id key fingerprint trust db ≡ ok db'
      → IsConsistent db
      → IsConsistent db'
  unfolding Change.set_ssh_trust
  set_ssh_trust-IsConsistent id key fingerprint trust db {db' = db'} h c =
      let f : Target → Target = λ t. record t {
        ssh_host_key = key;
        ssh_host_fingerprint = fingerprint;
        ssh_trust = trust;
      } in
      let valid : valid_trust trust ≡ true = ground arith in
      let e : update_target id f db ≡ ok db' = ground arith in
      Targets.update_target-IsConsistent id f db (λ t. refl) (λ t r. (r.0, valid, r.2)) e c

  pub set_desired_state-IsConsistent :
      (id : Text) (d : DesiredState) (db : Db) {db' : Db}
      → Change.set_desired_state s id d db ≡ ok db'
      → IsConsistent db
      → IsConsistent db'
  unfolding Change.set_desired_state
  set_desired_state-IsConsistent id d db {db' = db'} h c =
      let f : Target → Target = λ t. record t { desired = d } in
      let found : require_secrets db d.modules ≡ ok tt = ground arith in
      let e : update_target id f db ≡ ok db' = ground arith in
      let there = require_secrets-HasModuleSecrets db d.modules found in
      Targets.update_target-IsConsistent id f db (λ t. refl) (λ t r. (r.0, r.1, there)) e c

  pub record_observed_state-IsConsistent :
      (id o : Text) (db : Db) {db' : Db}
      → Change.record_observed_state s id o db ≡ ok db'
      → IsConsistent db
      → IsConsistent db'
  unfolding Change.record_observed_state
  record_observed_state-IsConsistent id o db {db' = db'} h c =
      let f : Target → Target = λ t. record t { observed = o } in
      let e : update_target id f db ≡ ok db' = ground arith in
      Targets.update_target-IsConsistent id f db (λ t. refl) (λ t r. r) e c

  pub create_secret-IsConsistent :
      (id now name : Text) (origin : SecretOrigin) (db : Db) {db' : Db}
      → Change.create_secret s id now name origin db ≡ ok db'
      → IsConsistent db
      → IsConsistent db'
  unfolding Change.create_secret
  create_secret-IsConsistent id now name origin db {db' = db'} h c =
      let row : Secret = record {
        id = id;
        name = name;
        origin = origin;
        created_at = now;
        rotated_at = [];
        rotation_count = 0;
        ciphertext = none;
      } in
      let e : insert_secret row db ≡ ok db' = ground arith in
      Tables.insert_secret-IsConsistent row db e c

  pub set_secret-IsConsistent :
      (nonce id value : Text) (db : Db) {db' : Db}
      → Change.set_secret s nonce id value db ≡ ok db'
      → IsConsistent db
      → IsConsistent db'
  unfolding Change.set_secret
  set_secret-IsConsistent nonce id value db {db' = db'} h c =
      let f : Secret → Secret = λ r. record r { ciphertext = some (s.encrypt id nonce value) } in
      let e : update_secret id f db ≡ ok db' = ground arith in
      Tables.update_secret-IsConsistent id f db (λ r. refl) e c

  pub rotate_secret-IsConsistent :
      (nonce now id value : Text) (db : Db) {db' : Db}
      → Change.rotate_secret s nonce now id value db ≡ ok db'
      → IsConsistent db
      → IsConsistent db'
  unfolding Change.rotate_secret
  rotate_secret-IsConsistent nonce now id value db {db' = db'} h c =
      let f : Secret → Secret = λ r. record r {
        ciphertext = some (s.encrypt id nonce value);
        rotated_at = now;
        rotation_count = r.rotation_count + 1;
      } in
      let e : update_secret id f db ≡ ok db' = ground arith in
      Tables.update_secret-IsConsistent id f db (λ r. refl) e c
