-- ===== src/Tests/Plans.antt =====
-- A small deployment of internal/deployment: a consumer and a provider of one interface.
use vpsmith.Base.{◌≡◌, refl, inl, inr, ◌⊎◌, true, false, none, List, [], ◌∷◌, All}
use vpsmith.Base.{find}
use vpsmith.Base.Int.{pos}
use vpsmith.Base.Text.{
  Text, text, ◌==◌, less, contains, cut_prefix, trim_prefix, trim_left, trim_reversed, trim_space,
  is_blank, space_one, space_two, space_three,
}
use vpsmith.Base.Result.{Result, ok, err}
use vpsmith.Base.Dict.{lookup, insert, has_key}
use vpsmith.Base.Sort.{insert_by, sort_by}
use vpsmith.Contract.Types.{Module, Dependency, InternalInterface}
use vpsmith.Deployment.Types.{
  OperationKind, Request, DesiredModule, ObservedNetwork, ObservedClaim, LinkNetwork,
  CompiledModule,
}
use vpsmith.Deployment.Graph.{
  Library, choose_subnet, note_owner, note_relationship, note_network, note_networks, providers_of,
  resolve_provider, select_link_subnet, derive_link, derive_dependencies, derive_modules,
  derive_links, owner_key,
}
use vpsmith.Deployment.Subnets.{IsChoice, choose_subnet-IsChoice}
use vpsmith.Deployment.Links.{derive_links-subnet, derive_links-observed}
use vpsmith.Deployment.Claims.{
  Claim, claim, derive_claims, observed_claims, check_neighbours, validate_claims,
  same_logical_owner,
}
use vpsmith.Deployment.Collisions.{validate_claims-owner}
use vpsmith.Deployment.Validation.{find_module, validate_update}
use vpsmith.Deployment.Plan.{Plan, PlanError, base_name, append_action, append_updates, build_plan}
use vpsmith.Deployment.Plans.{IsPlan, IsReadOnly, build_plan-IsPlan, build_plan-IsReadOnly}

abbrev small_library : Library
small_library = record { sum = λ t. 1 ∷ 2 ∷ 3 ∷ 4 ∷ 5 ∷ 6 ∷ []; is_prefix = λ t. true }

abbrev desired : Text → DesiredModule
desired id = record {
  instance_id = id;
  source = record {
    instance_id = id;
    source_id = text "s";
    package_id = text "p";
    git_commit = text "c";
    package_sha256 = text "h";
    package_fs = [];
  };
  secret_ids = [];
  resources = record {
    memory_bytes = pos 0;
    cpu_quota = pos 0;
    pids_limit = pos 0;
    tasks_max = pos 0;
  };
}

abbrev contract : Text → List InternalInterface → List Dependency → Module
contract id interfaces dependencies = record {
  id = id;
  version = text "1";
  core_contract = text "1";
  images = [];
  containers = [];
  persistent = [];
  secrets = [];
  resources = record {
    memory_bytes = pos 1;
    cpu_quota = pos 1;
    pids_limit = pos 1;
    tasks_max = pos 1;
  };
  networks = [];
  egress = [];
  public_routes = [];
  healthcheck = record {
    id = text "h";
    type = text "http";
    container = text "c";
    url = [];
    port = pos 0;
    command = [];
  };
  service_checks = [];
  validation_action = text "check";
  interfaces = interfaces;
  dependencies = dependencies;
  actions = (text "check", text "actions/check") ∷ [];
  update_from = [];
  uninstall = record { delete_persistent_data = true; delete_secrets = true };
  action_files = (text "check", text "x") ∷ [];
}

abbrev compiled : Text → List InternalInterface → List Dependency → CompiledModule
compiled id interfaces dependencies = record {
  desired = desired id;
  contract = contract id interfaces dependencies;
  images = [];
  effective = record {
    memory_bytes = pos 1;
    cpu_quota = pos 1;
    pids_limit = pos 1;
    tasks_max = pos 1;
  };
}

abbrev mods : List CompiledModule
mods =
    compiled (text "a") []
      (record { target_module = text "b"; interface_id = text "i"; consumer = text "c" } ∷ [])
    ∷ compiled (text "b")
        (record { id = text "i"; container = text "d"; port = pos 1; protocol = text "tcp" } ∷ [])
        []
    ∷ []

abbrev link : LinkNetwork
link = record {
  relationship = text "b/i->a/c";
  name = text "vpsmith-link-010203040506";
  subnet = text "10.241.2.0/24";
  alias = text "if-01020304";
  provider = text "b/d";
  consumer = text "a/c";
}

abbrev network : ObservedNetwork
network = record {
  name = text "vpsmith-link-010203040506";
  subnet = text "10.241.2.0/24";
  relationship = text "b/i->a/c";
}

derives : derive_links small_library mods (network ∷ []) ≡ ok (link ∷ [])
unfolding derive_links note_networks note_network note_owner note_relationship derive_modules
    derive_dependencies derive_link resolve_provider providers_of find select_link_subnet lookup
    insert has_key ◌==◌ sort_by insert_by
derives = refl

small_link-subnet : text "b/i->a/c" ≡ text "b/i->a/c"
small_link-subnet =
    derive_links-subnet small_library mods (network ∷ []) derives link link (inl refl) (inl refl)
      refl

small_link-observed : owner_key network ≡ text "b/i->a/c"
small_link-observed =
    derive_links-observed small_library mods (network ∷ []) derives link network (inl refl)
      (inl refl) refl refl

small-IsChoice : IsChoice [] (choose_subnet (1 ∷ 2 ∷ []) [])
small-IsChoice = choose_subnet-IsChoice (1 ∷ 2 ∷ []) []

abbrev seen_claim : ObservedClaim
seen_claim = record { kind = text "subnet"; value = text "10.241.2.0/24"; owner = text "b/i->a/c" }

abbrev noted_claim : Claim
noted_claim = claim (text "subnet") (text "10.241.2.0/24") (text "observed:b/i->a/c")

notes : observed_claims (seen_claim ∷ []) ≡ ok (noted_claim ∷ [])
unfolding observed_claims is_blank trim_space trim_left trim_reversed space_one space_two
    space_three
notes = refl

validates : validate_claims mods (link ∷ []) (seen_claim ∷ []) ≡ ok tt
unfolding validate_claims observed_claims derive_claims is_blank trim_space trim_left trim_reversed
    space_one space_two space_three sort_by insert_by less ◌==◌ check_neighbours trim_prefix
    cut_prefix
validates = refl

abbrev made_claim : Claim
made_claim = claim (text "subnet") (text "10.241.2.0/24") (text "b/i->a/c")

small_claims-owner :
    (made_claim ≡ noted_claim)
    ⊎ (same_logical_owner (text "b/i->a/c") (text "observed:b/i->a/c") ≡ true)
unfolding derive_claims ◌==◌
small_claims-owner =
    validate_claims-owner mods (link ∷ []) (seen_claim ∷ []) (noted_claim ∷ []) notes validates
      made_claim noted_claim (inr (inl refl)) (inr (inr (inr (inl refl)))) refl

abbrev request : Request
request = record {
  operation = OperationKind.validate;
  target_id = text "t";
  subject_instance = text "a";
  desired_modules = [];
  observed = record {
    target_id = text "t";
    core_id = [];
    modules = [];
    networks = [];
    claims = [];
  };
  core_contract = [];
  core_source = record { kind = []; id = []; version = []; git_commit = []; package_sha256 = [] };
  backup_required = false;
  subject_source = none;
  subject_secret_ids = [];
}

abbrev planned : Result PlanError Plan → Plan
planned r = elim r [
  | ok p ↦ p
  | err e ↦ record { plan = []; steps = []; action_files = []; action_ids = [] }
]

plans : build_plan request mods [] [] ≡ ok (planned (build_plan request mods [] []))
unfolding build_plan find_module append_updates append_action lookup contains base_name ◌==◌
plans = refl

small-IsPlan : IsPlan (planned (build_plan request mods [] []))
small-IsPlan = build_plan-IsPlan request mods [] [] plans

idle : validate_update request mods ≡ ok []
unfolding validate_update
idle = refl

small-IsReadOnly : All IsReadOnly (planned (build_plan request mods [] [])).steps
small-IsReadOnly = build_plan-IsReadOnly request mods [] refl idle plans
