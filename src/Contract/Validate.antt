-- ===== src/Contract/Validate.antt =====
-- internal/modulecontract: the checks of containers, storage, networks and secrets (validation.go and
-- validation_refs.go). A Go set is the list of what was put into it.
use vpsmith.Base.{Bool, not, ◌&&◌, ◌||◌, none, some, List, [], ◌∷◌, ◌++◌, map}
use vpsmith.Base.{if◌then◌else◌, is_empty}
use vpsmith.Base.Int.{is_negative}
use vpsmith.Base.Text.{Text, text, ◌==◌, contains, is_blank}
use vpsmith.Base.Result.{Result, ok, err, reject, for_each, ◌>>=◌, ◌>>◌}
use vpsmith.Base.Dict.{Dict, lookup, insert, keys}
use vpsmith.Contract.Types.{Container, Mount, PersistentStorage, Secret, Module}
use vpsmith.Contract.Patterns.{is_identifier, is_absolute_clean_path}
use vpsmith.Contract.Errors.{
  ContractError, invalid_container_id, duplicate_container, unknown_image, negative_user,
  mapped_user_ns, direct_host_ports, empty_capability, duplicate_capability,
  duplicate_container_network, duplicate_mount, invalid_storage_id, duplicate_storage,
  invalid_storage_path, claimed_path, undeclared_storage, invalid_mount_target, invalid_network_id,
  duplicate_network, invalid_network_role, unknown_network, invalid_secret_id, duplicate_secret,
  invalid_secret_source, invalid_secret_delivery, no_secret_name, invalid_secret_path,
  no_secret_container, unknown_secret_container, shared_secret_target, environment_secret,
}

abbrev pub Check : Type 0
Check = Result ContractError (Unit {0})

-- A loop over declarations with a key: `before`, then no key twice, then `after`. The result is the set
-- of the keys.
module _ {A : Type 0} (key : A → Text) (twice : Text → ContractError)
    (before after : A → Check) where
  unfoldable pub declare : List Text → List A → Result ContractError (List Text)
  declare seen [] = ok seen
  declare seen (x ∷ xs) = do
    before x
    reject (contains seen (key x)) (twice (key x))
    after x
    declare (key x ∷ seen) xs

-- The loops over the capabilities, the networks and the mounts of a container.
unfoldable pub check_distinct :
    (Text → Check) → (Text → ContractError) → List Text → List Text → Check
check_distinct before twice seen [] = ok tt
check_distinct before twice seen (t ∷ ts) = do
  before t
  reject (contains seen t) (twice t)
  check_distinct before twice (t ∷ seen) ts

unfoldable pub check_container : List Text → Container → Check
unfolding check_distinct
check_container images c = do
  reject (not (contains images c.image)) (unknown_image c.id c.image)
  reject (is_negative c.user) (negative_user c.id)
  reject (not (c.user_ns == text "nomap")) (mapped_user_ns c.id)
  reject (not (is_empty c.host_ports)) (direct_host_ports c.id)
  check_distinct (λ t. reject (is_blank t) (empty_capability c.id)) (duplicate_capability c.id) []
      c.capabilities
  check_distinct (λ t. ok tt) (duplicate_container_network c.id) [] c.networks
  check_distinct (λ t. ok tt) (duplicate_mount c.id) [] (map (λ m. m.target) c.mounts)

-- `validateContainers`: the set of the containers.
unfoldable pub validate_containers : List Text → List Container → Result ContractError (List Text)
validate_containers images =
    declare (λ c. c.id) duplicate_container
      (λ c. reject (not (is_identifier c.id)) (invalid_container_id c.id)) (check_container images)
      []

-- The loop over the persistent storage, with the ids and with the paths and their owners.
unfoldable pub declare_storage :
    List Text → Dict Text → List PersistentStorage → Result ContractError (List Text)
declare_storage ids paths [] = ok ids
declare_storage ids paths (s ∷ rest) = do
  reject (not (is_identifier s.id)) (invalid_storage_id s.id)
  reject (contains ids s.id) (duplicate_storage s.id)
  reject (not (is_absolute_clean_path s.path)) (invalid_storage_path s.id)
  elim (lookup s.path paths) [ none ↦ ok tt | some owner ↦ err (claimed_path s.path owner s.id) ]
  declare_storage (s.id ∷ ids) (insert s.path s.id paths) rest

unfoldable pub check_mount : List Text → Container → Mount → Check
check_mount storage c m = do
  reject (not (contains storage m.storage_id)) (undeclared_storage c.id m.storage_id)
  reject (not (is_absolute_clean_path m.target)) (invalid_mount_target c.id)

-- `validateStorage`.
unfoldable pub validate_storage : Module → Check
validate_storage m = do
  storage ← declare_storage [] [] m.persistent
  for_each (λ c. for_each (check_mount storage c) c.mounts) m.containers

unfoldable pub is_role : Text → Bool
is_role r = r == text "edge" || r == text "internal" || r == text "app" || r == text "egress"

-- `validateNetworks`.
unfoldable pub validate_networks : Module → Check
unfolding is_role
validate_networks m = do
  networks ←
      declare (λ n. n.id) duplicate_network
        (λ n. reject (not (is_identifier n.id)) (invalid_network_id n.id))
        (λ n. reject (not (is_role n.role)) (invalid_network_role n.id n.role)) [] m.networks
  for_each
      (λ c. for_each (λ n. reject (not (contains networks n)) (unknown_network c.id n)) c.networks)
      m.containers

abbrev pub is_file : Secret → Bool
is_file s = s.delivery == text "file"

abbrev pub is_environment : Secret → Bool
is_environment s = s.delivery == text "environment"

-- The key of a secret in a container, and the loop over the containers of a secret.
unfoldable pub target_of : Secret → Text → Text
target_of s c =
    c ++ (text ":" ++ (s.delivery ++ (text ":" ++ (if is_file s then s.path else s.name))))

unfoldable pub claim_targets :
    List Text → Secret → Dict Text → List Text → Result ContractError (Dict Text)
unfolding target_of
claim_targets containers s targets [] = ok targets
claim_targets containers s targets (c ∷ cs) = do
  reject (not (contains containers c)) (unknown_secret_container s.id c)
  elim (lookup (target_of s c) targets) [
    | none ↦ ok tt
    | some owner ↦ err (shared_secret_target (target_of s c) owner s.id)
  ]
  claim_targets containers s (insert (target_of s c) s.id targets) cs

-- What a secret must be like by itself.
unfoldable pub check_secret : Secret → Check
check_secret s = do
  reject (not (s.source == text "generated") && not (s.source == text "user"))
      (invalid_secret_source s.id)
  reject (not (is_environment s) && not (is_file s)) (invalid_secret_delivery s.id)
  reject (is_blank s.name) (no_secret_name s.id)
  reject (is_file s && not (is_absolute_clean_path s.path)) (invalid_secret_path s.id)
  reject (is_empty s.containers) (no_secret_container s.id)

-- The loop over the secrets: the names of those that are delivered as an environment variable.
unfoldable pub declare_secrets :
    List Text → List Text → List Text → Dict Text → List Secret → Result ContractError (List Text)
unfolding check_secret claim_targets
declare_secrets containers ids names targets [] = ok names
declare_secrets containers ids names targets (s ∷ rest) = do
  reject (not (is_identifier s.id)) (invalid_secret_id s.id)
  reject (contains ids s.id) (duplicate_secret s.id)
  check_secret s
  targets' ← claim_targets containers s targets s.containers
  declare_secrets containers (s.id ∷ ids) (if is_environment s then s.name ∷ names else names)
      targets' rest

-- `validateSecrets`.
unfoldable pub validate_secrets : List Text → Module → Check
validate_secrets containers m = do
  names ← declare_secrets containers [] [] [] m.secrets
  for_each
      (λ c.
        for_each (λ name. reject (contains names name) (environment_secret c.id name))
          (keys c.environment))
      m.containers
