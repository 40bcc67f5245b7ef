-- ===== src/Contract/Compile.antt =====
-- internal/modulecontract: normalize (helpers.go) and Compile (compiler.go). A package is the files that
-- its `fs.FS` can read; the YAML decoder is a parameter.
use vpsmith.Base.{Bool, Option, [], ◌∷◌, map}
use vpsmith.Base.Text.{Text, text, less, lex, has_byte}
use vpsmith.Base.Result.{Result, ok, err, reject, require, for_each, ◌>>=◌, ◌>>◌}
use vpsmith.Base.Dict.{Dict, lookup, insert, keys}
use vpsmith.Base.Sort.{sort_by, sort_texts}
use vpsmith.Contract.Types.{Container, Secret, EgressRule, PublicRoute, Dependency, Module}
use vpsmith.Contract.Errors.{
  ContractError, no_package_fs, unreadable_contract, nul_byte, undecodable, more_documents,
  trailing_invalid, unreadable_action,
}
use vpsmith.Contract.Validate.{
  Check, validate_containers, validate_storage, validate_networks, validate_secrets,
}
use vpsmith.Contract.Integration.{validate_integration}
use vpsmith.Contract.Actions.{check_head, check_image, validate_actions}

-- `validate`, with `url.Parse` as a parameter.
unfoldable pub validate : (Text → Option (Text × Text)) → Module → Check
validate parse_url m = do
  check_head m
  for_each check_image m.images
  containers ← validate_containers (keys m.images) m.containers
  validate_storage m
  validate_networks m
  validate_secrets containers m
  validate_integration parse_url containers m
  validate_actions m

-- The orders of `normalize`.
unfoldable pub by : {A : Type 0} → (A → Text) → A → A → Bool
by key a b = less (key a) (key b)

unfoldable pub egress_before : EgressRule → EgressRule → Bool
egress_before a b = lex a.container b.container (less a.reason b.reason)

unfoldable pub route_before : PublicRoute → PublicRoute → Bool
route_before a b = lex a.hostname b.hostname (less a.path_prefix b.path_prefix)

unfoldable pub dependency_before : Dependency → Dependency → Bool
dependency_before a b =
    lex a.target_module b.target_module
      (lex a.interface_id b.interface_id (less a.consumer b.consumer))

unfoldable pub normal_container : Container → Container
unfolding by
normal_container c = record c {
  capabilities = sort_texts c.capabilities;
  networks = sort_texts c.networks;
  mounts = sort_by (by (λ m. m.target)) c.mounts;
}

unfoldable pub normal_secret : Secret → Secret
normal_secret s = record s { containers = sort_texts s.containers }

unfoldable pub normal_route : PublicRoute → PublicRoute
normal_route r = record r {
  authelia = record r.authelia {
    users = sort_texts r.authelia.users;
    groups = sort_texts r.authelia.groups;
  };
}

-- `normalize`. A missing map is an empty one here from the start.
unfoldable pub normalize : Module → Module
unfolding by egress_before route_before dependency_before normal_container normal_secret
    normal_route
normalize m = record m {
  containers = map normal_container (sort_by (by (λ c. c.id)) m.containers);
  persistent = sort_by (by (λ s. s.id)) m.persistent;
  secrets = map normal_secret (sort_by (by (λ s. s.id)) m.secrets);
  networks = sort_by (by (λ n. n.id)) m.networks;
  egress = sort_by egress_before m.egress;
  public_routes = map normal_route (sort_by route_before m.public_routes);
  service_checks = sort_by (by (λ h. h.id)) m.service_checks;
  interfaces = sort_by (by (λ i. i.id)) m.interfaces;
  dependencies = sort_by dependency_before m.dependencies;
}

-- What the decoder makes of a document and of what stands behind it.
pub data Trailer : Type 0 where
  end_of_file another_document malformed : Trailer

-- `parse_url` is `url.Parse`; `decode` gives the contract of module.yaml with no action files.
pub record Tools : Type 0 where
  pub parse_url : Text → Option (Text × Text)
  pub decode : Text → Option Module
  pub trailer : Text → Trailer

-- The loop over the actions of a validated contract.
unfoldable pub read_actions : Dict Text → Dict Text → Dict Text → Result ContractError (Dict Text)
read_actions fs files [] = ok files
read_actions fs files ((id, path) ∷ actions) = do
  content ← require (lookup path fs) (unreadable_action id path)
  read_actions fs (insert id content files) actions

abbrev pub check_trailer : Trailer → Result ContractError (Unit {0})
check_trailer Trailer.end_of_file = ok tt
check_trailer Trailer.another_document = err more_documents
check_trailer Trailer.malformed = err trailing_invalid

-- `Compile`. A package with no file system is `none`.
unfoldable pub compile : Tools → Option (Dict Text) → Result ContractError Module
unfolding read_actions
compile tools pkg = do
  fs ← require pkg no_package_fs
  raw ← require (lookup (text "module.yaml") fs) unreadable_contract
  reject (has_byte raw 0) nul_byte
  m ← require (tools.decode raw) undecodable
  check_trailer (tools.trailer raw)
  validate tools.parse_url m
  files ← read_actions fs [] m.actions
  ok (normalize (record m { action_files = files }))
