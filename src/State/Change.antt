-- ===== src/State/Change.antt =====
-- The methods of `Change` in internal/managementstate/store.go, bootstrap_target.go, ssh_identity.go
-- and recovery.go: each takes the tables as the transaction has left them.
use vpsmith.Base.{◌+◌, Bool, true, false, not, ◌&&◌, ◌||◌, Option, none, some, List, [], ◌∷◌}
use vpsmith.Base.{if◌then◌else◌, is_empty}
use vpsmith.Base.Text.{Text, text, ◌==◌, is_blank, trim_space}
use vpsmith.Base.Result.{Result, ok, reject, ◌>>◌}
use vpsmith.Base.Table.{has_row}
use vpsmith.State.Types.{
  TrustStatus, trust_unknown, SecretOrigin, DesiredState, Target, TargetRegistration, Secret,
  ExecutionBundle, ExecutionRecord, BackupArtifact,
}
use vpsmith.State.Statements.{
  insert_target, insert_secret, insert_bundle, insert_record, insert_backup, update_target,
  update_secret, remove_secret, remove_backup,
}
use vpsmith.State.Db.{
  Db, trust_doc, desired_doc, observed_doc, name_doc, bundle_doc, record_doc, backup_doc, Services,
  StateError, incomplete, invalid_trust, invalid_origin, invalid_secret_name, empty_secret,
  secret_missing, secret_set_or_missing, secret_referenced, constraint_violated, valid_trust,
  valid_origin, valid_backup_type, needs_instance, bundle_key,
}
use vpsmith.State.Guards.{
  require_secret, validate_modules, validate_desired, empty_desired, require_secrets,
  secret_is_referenced, default_trust, reject_known, assert_absent,
}

-- `CreateTarget`. An empty trust status is the unknown one.
unfoldable pub create_target : TargetRegistration → Db → Result StateError Db
create_target v db = do
  reject (is_empty v.id || is_blank v.address || is_blank v.ssh_user) incomplete
  let trust = default_trust v.ssh_trust
  reject (not (valid_trust trust)) invalid_trust
  if is_empty v.ssh_identity_secret_id then ok tt else require_secret db v.ssh_identity_secret_id
  let row : Target = record {
    id = v.id;
    address = v.address;
    ssh_user = v.ssh_user;
    ssh_identity_secret_id = v.ssh_identity_secret_id;
    ssh_host_key = v.ssh_host_key;
    ssh_host_fingerprint = v.ssh_host_fingerprint;
    ssh_trust = trust;
    desired = empty_desired;
    observed = text "{}";
  }
  insert_target row db

-- `CreatePendingTarget`.
unfoldable pub create_pending_target : Text → Text → Db → Result StateError Db
create_pending_target id ssh_user db = do
  reject (is_empty id || is_blank ssh_user) incomplete
  let row : Target = record {
    id = id;
    address = [];
    ssh_user = ssh_user;
    ssh_identity_secret_id = [];
    ssh_host_key = [];
    ssh_host_fingerprint = [];
    ssh_trust = trust_unknown;
    desired = empty_desired;
    observed = text "{}";
  }
  insert_target row db

-- `SetTargetAddress`.
unfoldable pub set_target_address : Text → Text → Db → Result StateError Db
set_target_address id address db = do
  let trimmed = trim_space address
  reject (is_empty trimmed) incomplete
  update_target id (λ t. record t { address = trimmed }) db

-- `SetSSHIdentity`.
unfoldable pub set_ssh_identity : Text → Text → Db → Result StateError Db
set_ssh_identity id secret db = do
  reject (is_empty secret) incomplete
  require_secret db secret
  update_target id (λ t. record t { ssh_identity_secret_id = secret }) db

-- `DeleteBackup`.
unfoldable pub delete_backup : Text → Db → Result StateError Db
delete_backup id db = do reject (is_empty id) incomplete; remove_backup id db

-- `DeleteSecret`.
unfoldable pub delete_secret : Text → Db → Result StateError Db
delete_secret id db = do reject (secret_is_referenced db id) secret_referenced; remove_secret id db

abbrev pub is_unset : Option Text → Bool
is_unset none = true
is_unset (some c) = false

-- Whether a row has the id and no value, or a value.
unfoldable pub has_unset : Text → List Secret → Bool
has_unset id [] = false
has_unset id (r ∷ rows) = if r.id == id && is_unset r.ciphertext then true else has_unset id rows

unfoldable pub has_set : Text → List Secret → Bool
has_set id [] = false
has_set id (r ∷ rows) = if r.id == id && not (is_unset r.ciphertext) then true else has_set id rows

module _ (s : Services) where
  -- `SetSSHTrust`.
  unfoldable pub set_ssh_trust : Text → Text → Text → TrustStatus → Db → Result StateError Db
  set_ssh_trust id host_key fingerprint trust db = do
    reject (not (valid_trust trust)) invalid_trust
    reject_known s db (trust_doc host_key fingerprint)
    update_target id
        (λ t. record t {
          ssh_host_key = host_key;
          ssh_host_fingerprint = fingerprint;
          ssh_trust = trust;
        })
        db

  -- `SetDesiredState`.
  unfoldable pub set_desired_state : Text → DesiredState → Db → Result StateError Db
  unfolding validate_modules
  set_desired_state id value db = do
    validate_desired value
    require_secrets db value.modules
    reject_known s db (desired_doc value)
    update_target id (λ t. record t { desired = value }) db

  -- `RecordObservedState`.
  unfoldable pub record_observed_state : Text → Text → Db → Result StateError Db
  record_observed_state id value db = do
    reject_known s db (observed_doc value)
    update_target id (λ t. record t { observed = value }) db

  -- `CreateSecret`, with the new id and the time.
  unfoldable pub create_secret : Text → Text → Text → SecretOrigin → Db → Result StateError Db
  create_secret id now name origin db = do
    reject (is_blank name) invalid_secret_name
    reject (not (valid_origin origin)) invalid_origin
    reject_known s db (name_doc name)
    let row : Secret = record {
      id = id;
      name = name;
      origin = origin;
      created_at = now;
      rotated_at = [];
      rotation_count = 0;
      ciphertext = none;
    }
    insert_secret row db

  -- `SetSecret`.
  unfoldable pub set_secret : Text → Text → Text → Db → Result StateError Db
  unfolding has_unset
  set_secret nonce id value db = do
    reject (is_empty value) empty_secret
    reject (not (has_unset id db.secrets)) secret_set_or_missing
    assert_absent s db value
    let sealed = s.encrypt id nonce value
    update_secret id (λ r. record r { ciphertext = some sealed }) db

  -- `RotateSecret`.
  unfoldable pub rotate_secret : Text → Text → Text → Text → Db → Result StateError Db
  unfolding has_set
  rotate_secret nonce now id value db = do
    reject (is_empty value) empty_secret
    assert_absent s db value
    let sealed = s.encrypt id nonce value
    reject (not (has_set id db.secrets)) secret_missing
    update_secret id
        (λ r. record r {
          ciphertext = some sealed;
          rotated_at = now;
          rotation_count = r.rotation_count + 1;
        })
        db

  -- `AppendExecutionBundle`, with the time.
  unfoldable pub append_execution_bundle : Text → ExecutionBundle → Db → Result StateError Db
  append_execution_bundle now v db = do
    reject
        (is_empty v.id
          || is_empty v.target_id
          || is_blank v.kind
          || is_blank v.version
          || is_blank v.sha256)
        incomplete
    let row : ExecutionBundle = record v {
      created_at = if is_empty v.created_at then now else v.created_at;
    }
    reject_known s db (bundle_doc row)
    insert_bundle row db

  -- `AppendExecutionRecord`; its bundle is a foreign key.
  unfoldable pub append_execution_record : ExecutionRecord → Db → Result StateError Db
  append_execution_record v db = do
    reject
        (is_empty v.id
          || is_empty v.bundle_id
          || is_empty v.target_id
          || is_blank v.outcome
          || is_empty v.started_at)
        incomplete
    reject_known s db (record_doc v)
    reject (not (has_row bundle_key v.bundle_id db.bundles)) constraint_violated
    insert_record v db

  -- `RegisterBackup`, with the time.
  unfoldable pub register_backup : Text → BackupArtifact → Db → Result StateError Db
  register_backup now v db = do
    reject (is_empty v.id || is_empty v.target_id || not (valid_backup_type v.type)) incomplete
    reject (needs_instance v.type && is_empty v.module_instance_id) incomplete
    let row : BackupArtifact = record v {
      created_at = if is_empty v.created_at then now else v.created_at;
    }
    reject_known s db (backup_doc row)
    insert_backup row db
