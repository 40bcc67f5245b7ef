-- ===== src/Tests/Contracts.antt =====
-- A small module of internal/modulecontract: one container with storage, networks, a secret and a route.
use vpsmith.Base.{◌≡◌, refl, true, false, none, some, [], ◌∷◌, All}
use vpsmith.Base.Int.{pos}
use vpsmith.Base.Text.{
  Text, text, ◌==◌, contains, is_blank, trim_space, trim_left, trim_reversed, space_one, space_two,
  space_three, has_prefix, has_suffix, has_infix, cut_prefix, contains_any, has_byte, to_lower,
  lower_byte, equal_fold, split, join,
}
use vpsmith.Base.Text.Last.{cut_last}
use vpsmith.Base.Result.{ok, for_each}
use vpsmith.Base.Dict.{Dict, lookup, insert, has_key, Distinct}
use vpsmith.Base.Sort.{sort_by, insert_by, sort_texts}
use vpsmith.Bundle.Paths.{clean, clean_onto, clean_step}
use vpsmith.Contract.Types.{Module}
use vpsmith.Contract.Patterns.{
  is_digit, is_lower, is_word, in_identifier, is_identifier, is_suffix_byte, is_suffix, in_version,
  exact_version, label_rest, is_label, all_labels, is_hostname, check_tag, check_image_ref,
  is_absolute_clean_path, count_byte, check_action_path,
}
use vpsmith.Contract.Validate.{
  declare, check_distinct, check_container, validate_containers, declare_storage, check_mount,
  validate_storage, is_role, validate_networks, target_of, claim_targets, check_secret,
  declare_secrets, validate_secrets,
}
use vpsmith.Contract.Integration.{
  roles_onto, roles_of, attachments_onto, attachments, is_attached, check_egress, check_route,
  check_type, check_health, check_interface, check_dependency, validate_integration,
}
use vpsmith.Contract.Actions.{
  check_action, check_transition, validate_actions, check_image, check_head,
}
use vpsmith.Contract.Compile.{
  validate, by, normal_container, normal_secret, normal_route, normalize, Trailer, Tools,
  read_actions, compile,
}
use vpsmith.Contract.Valid.Defs.{IsContract}
use vpsmith.Contract.Valid.{compile-IsContract, HasFile, compile-action_files}

abbrev decoded : Dict Text → Module
decoded files = record {
  id = text "blog";
  version = text "1.2.0";
  core_contract = text "1";
  images = (text "app", record { ref = text "docker.io/blog:1.2" }) ∷ [];
  containers =
      record {
        id = text "app";
        image = text "app";
        user = pos 1000;
        user_ns = text "nomap";
        capabilities = [];
        mounts =
            record { storage_id = text "posts"; target = text "/posts"; read_only = false } ∷ [];
        networks = text "front" ∷ [];
        host_ports = [];
        environment = (text "MODE", text "live") ∷ [];
      }
      ∷ [];
  persistent = record { id = text "posts"; path = text "/srv/posts" } ∷ [];
  secrets =
      record {
        id = text "key";
        source = text "generated";
        delivery = text "environment";
        name = text "KEY";
        path = [];
        containers = text "app" ∷ [];
      }
      ∷ [];
  resources = record {
    memory_bytes = pos 1;
    cpu_quota = pos 1;
    pids_limit = pos 1;
    tasks_max = pos 1;
  };
  networks = record { id = text "front"; role = text "edge" } ∷ [];
  egress = [];
  public_routes =
      record {
        hostname = text "Blog.example.org";
        path_prefix = text "/";
        container = text "app";
        port = pos 8080;
        authelia = record { mode = text "public"; users = []; groups = [] };
      }
      ∷ [];
  healthcheck = record {
    id = [];
    type = text "tcp";
    container = text "app";
    url = [];
    port = pos 8080;
    command = [];
  };
  service_checks = [];
  validation_action = text "check";
  interfaces =
      record { id = text "api"; container = text "app"; port = pos 81; protocol = text "http" }
      ∷ [];
  dependencies =
      record { target_module = text "db"; interface_id = text "sql"; consumer = text "app" } ∷ [];
  actions = (text "check", text "actions/check.sh") ∷ [];
  update_from = (text "1.1.0", record { actions = text "check" ∷ [] }) ∷ [];
  uninstall = record { delete_persistent_data = true; delete_secrets = true };
  action_files = files;
}

abbrev tools : Tools
tools = record {
  parse_url = λ u. none;
  decode = λ raw. some (decoded []);
  trailer = λ raw. Trailer.end_of_file;
}

abbrev pkg : Dict Text
pkg = (text "module.yaml", text "m") ∷ (text "actions/check.sh", text "exit 0") ∷ []

abbrev contract : Module
contract = decoded ((text "check", text "exit 0") ∷ [])

compiled : compile tools (some pkg) ≡ ok contract
unfolding compile validate check_head check_image validate_containers declare check_container
    check_distinct validate_storage declare_storage check_mount validate_networks is_role
    validate_secrets declare_secrets check_secret claim_targets target_of validate_integration
    attachments roles_onto roles_of attachments_onto is_attached check_egress check_route
    check_health check_type check_interface check_dependency validate_actions check_action
    check_transition read_actions normalize normal_container normal_secret normal_route by sort_by
    insert_by sort_texts for_each is_identifier in_identifier is_lower is_digit is_word
    exact_version in_version is_suffix is_suffix_byte is_hostname all_labels is_label label_rest
    check_image_ref check_tag cut_last is_absolute_clean_path check_action_path count_byte clean
    clean_onto clean_step lookup insert has_key ◌==◌ contains is_blank trim_space trim_left
    trim_reversed space_one space_two space_three has_prefix has_suffix has_infix cut_prefix
    contains_any has_byte to_lower lower_byte equal_fold split join
compiled = refl

contract-IsContract : IsContract contract
contract-IsContract = compile-IsContract tools pkg compiled

contract_apart : Distinct contract.actions
unfolding has_key lookup
contract_apart = (refl, tt)

contract-action_files : All (HasFile pkg contract.action_files) contract.actions
contract-action_files = compile-action_files tools pkg compiled contract_apart
