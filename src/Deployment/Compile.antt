-- ===== src/Deployment/Compile.antt =====
-- internal/deployment/compiler.go: an operation is prepared from a request.
use vpsmith.Base.{Bool, not, ◌&&◌, ◌||◌, Option, none, some, List, [], ◌∷◌, map}
use vpsmith.Base.{if◌then◌else◌, is_empty}
use vpsmith.Base.Int.{pos}
use vpsmith.Base.Text.{Text, text, ◌==◌, less}
use vpsmith.Base.Result.{Result, ok, err, reject, require, ◌>>=◌, ◌>>◌}
use vpsmith.Base.Dict.{Dict, lookup, keys, text_at}
use vpsmith.Base.Sort.{sort_by, sort_texts}
use vpsmith.Bundle.Types.{Bundle, File, Input, Precondition, ValidationSpec}
use vpsmith.Bundle.Codec.{Codec}
use vpsmith.Bundle.Normalize.{InputError}
use vpsmith.Bundle.Assemble.{build}
use vpsmith.Contract.Types.{Module}
use vpsmith.Deployment.Types.{
  OperationKind, Request, DesiredModule, FrozenModuleSource, ResourceOverride, ObservedModule,
  LinkNetwork, CompiledModule,
}
use vpsmith.Deployment.Graph.{GraphError, Library, derive_links}
use vpsmith.Deployment.Claims.{ClaimError, validate_claims}
use vpsmith.Deployment.Validation.{
  RequestError, is_uninstall, is_validate, find_module, find_observed, validate_request,
  validate_subject, validate_secret_bindings, merge_resources, validate_provider_removal,
  validate_update, action_writable_paths,
}
use vpsmith.Deployment.Plan.{
  PlanError, PlanStep, GeneratedArtifact, build_plan, validation_specs, bundle_kind,
}
use vpsmith.Deployment.Diff.{DiffFact, ExpectedPost, preconditions, diff_state, expected_post}
use vpsmith.Deployment.Freeze.{
  FrozenIdentity, freeze_plan_identities, bundle_secrets, valid_digest, subject_version,
  subject_bundle_identity, ref_of,
}

pub data PrepareError : Type 0 where
  bad_request : RequestError → PrepareError
  bad_graph : GraphError → PrepareError
  bad_claims : ClaimError → PrepareError
  bad_plan : PlanError → PrepareError
  bad_bundle : InputError → PrepareError
  compile_failed incomplete_source core_mismatch : Text → PrepareError
  image_unresolved invalid_digest image_drift : Text → PrepareError
  subject_present no_subject_source foreign_subject_source : PrepareError
  subject_not_installed different_identity no_artifacts : PrepareError

-- What the compiler is given or calls: the module compiler, the registry as it answers during the
-- preparation, the artifact generators, and the encoding of the expected state.
pub record Services : Type 0 where
  pub compile : Dict Text → Option Module
  pub resolve : Text → Option Text
  pub generate : List CompiledModule → List LinkNetwork → Option (List GeneratedArtifact)
  pub encode_post : ExpectedPost → Option Text
  pub library : Library
  pub codec : Codec

pub record PreparedOperation : Type 0 where
  pub operation : OperationKind
  pub plan_required : Bool
  pub plan : List PlanStep
  pub frozen_sources : List FrozenIdentity
  pub image_digests : Dict Text
  pub expected_changes : List DiffFact
  pub artifacts : List GeneratedArtifact
  pub preconditions : List Precondition
  pub validations : List ValidationSpec
  pub link_networks : List LinkNetwork
  pub bundle : Bundle

-- An error of a part is handed on.
abbrev pub lift : {E F A : Type 0} → (E → F) → Result E A → Result F A
lift f (ok a) = ok a
lift f (err e) = err (f e)

abbrev pub image_ref : Module → Text → Text
image_ref m id = ref_of (lookup id m.images)

abbrev pub module_before : CompiledModule → CompiledModule → Bool
module_before a b = less a.desired.instance_id b.desired.instance_id

module _ (s : Services) where
  -- The loop over the sorted ids of the images.
  unfoldable pub resolve_images : Module → List Text → Result PrepareError (Dict Text)
  resolve_images m [] = ok []
  resolve_images m (id ∷ ids) = do
    digest ← require (s.resolve (image_ref m id)) (image_unresolved id)
    reject (not (valid_digest digest)) (invalid_digest id)
    rest ← resolve_images m ids
    ok ((id, digest) ∷ rest)

  -- The body of the loop of `compileModules`.
  unfoldable pub compile_module : Request → DesiredModule → Result PrepareError CompiledModule
  compile_module req d = do
    m ← require (s.compile d.source.package_fs) (compile_failed d.instance_id)
    reject
        (is_empty m.version
          || is_empty d.source.package_sha256
          || is_empty d.source.package_id
          || is_empty d.source.source_id)
        (incomplete_source d.instance_id)
    reject (not (is_empty req.core_contract) && not (m.core_contract == req.core_contract))
        (core_mismatch d.instance_id)
    lift bad_request (validate_secret_bindings m d.secret_ids)
    images ← resolve_images m (sort_texts (keys m.images))
    let compiled : CompiledModule = record {
      desired = d;
      contract = m;
      images = images;
      effective = merge_resources m.resources d.resources;
    }
    ok compiled

  unfoldable pub compile_each :
      Request → List DesiredModule → Result PrepareError (List CompiledModule)
  compile_each req [] = ok []
  compile_each req (d ∷ ds) = do m ← compile_module req d; ms ← compile_each req ds; ok (m ∷ ms)

  -- `compileModules`.
  unfoldable pub compile_modules : Request → Result PrepareError (List CompiledModule)
  compile_modules req = do
    mods ← compile_each req req.desired_modules
    ok (sort_by module_before mods)

  abbrev pub drifts : ObservedModule → Text → Text → Bool
  drifts o id digest =
      not (is_empty (text_at o.image_digests id)) && not (text_at o.image_digests id == digest)

  -- The loop over the images of the removed module.
  unfoldable pub resolve_removed :
      ObservedModule → Module → List Text → Result PrepareError (Dict Text)
  resolve_removed o m [] = ok []
  resolve_removed o m (id ∷ ids) = do
    digest ← require (s.resolve (image_ref m id)) (image_unresolved id)
    reject (not (valid_digest digest)) (invalid_digest id)
    reject (drifts o id digest) (image_drift id)
    rest ← resolve_removed o m ids
    ok ((id, digest) ∷ rest)

  abbrev pub no_override : ResourceOverride
  no_override = record {
    memory_bytes = pos 0;
    cpu_quota = pos 0;
    pids_limit = pos 0;
    tasks_max = pos 0;
  }

  -- `compileDetachedSubject` of an uninstallation whose subject is not desired.
  unfoldable pub compile_removed : Request → FrozenModuleSource → Result PrepareError CompiledModule
  compile_removed req source = do
    reject (not (is_empty source.instance_id) && not (source.instance_id == req.subject_instance))
        foreign_subject_source
    m ← require (s.compile source.package_fs) (compile_failed req.subject_instance)
    reject
        (is_empty source.source_id || is_empty source.package_id || is_empty source.package_sha256)
        (incomplete_source req.subject_instance)
    reject (not (is_empty req.core_contract) && not (m.core_contract == req.core_contract))
        (core_mismatch req.subject_instance)
    lift bad_request (validate_secret_bindings m req.subject_secret_ids)
    o ← require (find_observed req.subject_instance req.observed.modules) subject_not_installed
    reject
        (not (o.version == m.version)
          || not (o.package_id == source.package_id)
          || not (o.package_sha256 == source.package_sha256))
        different_identity
    images ← resolve_removed o m (sort_texts (keys m.images))
    let compiled : CompiledModule = record {
      desired = record {
        instance_id = req.subject_instance;
        source = source;
        secret_ids = req.subject_secret_ids;
        resources = no_override;
      };
      contract = m;
      images = images;
      effective = m.resources;
    }
    ok compiled

  abbrev pub compile_subject :
      Request → Option FrozenModuleSource → Result PrepareError (Option CompiledModule)
  compile_subject req none = err no_subject_source
  compile_subject req (some source) = do m ← compile_removed req source; ok (some m)

  -- `compileDetachedSubject`.
  unfoldable pub compile_detached_subject :
      Request → List CompiledModule → Result PrepareError (Option CompiledModule)
  compile_detached_subject req mods =
      if not (is_uninstall req.operation)
      then ok none
      else elim (find_module req.subject_instance mods) [
        | some m ↦ err subject_present
        | none ↦ compile_subject req req.subject_source
      ]

  abbrev pub bundle_file : GeneratedArtifact → File
  bundle_file a = record {
    path = a.path;
    target_path = a.target_path;
    mode = a.mode;
    bytes = a.bytes;
  }

  -- `Prepare`. Of the files of the assembled bundle only the bundle itself is returned.
  unfoldable pub prepare : Request → Result PrepareError PreparedOperation
  prepare req = do
    lift bad_request (validate_request req)
    mods ← compile_modules req
    lift bad_request (validate_subject req mods)
    detached ← compile_detached_subject req mods
    links ← lift bad_graph (derive_links s.library mods req.observed.networks)
    lift bad_claims (validate_claims mods links req.observed.claims)
    if is_uninstall req.operation
        then lift bad_request (validate_provider_removal req mods)
        else ok tt
    updates ← lift bad_request (validate_update req mods)
    artifacts ← require (s.generate mods links) no_artifacts
    p ← lift bad_plan (build_plan req mods artifacts updates)
    let identities = freeze_plan_identities req mods detached
    let identity = subject_bundle_identity req mods detached
    let input : Input = record {
      kind = bundle_kind req.operation;
      target_id = req.target_id;
      subject_kind = text "module";
      subject_id = req.subject_instance;
      subject_identity = identity.0;
      package_id = identity.1;
      package_sha256 = identity.2;
      version = subject_version req mods detached;
      sources = identities.sources;
      images = identities.images;
      files = map bundle_file artifacts;
      actions = p.action_files;
      action_ids = p.action_ids;
      action_writable_paths = action_writable_paths req mods detached;
      secrets = bundle_secrets mods;
      preconditions = preconditions req;
      expected_post = s.encode_post (expected_post req mods artifacts);
      validations = validation_specs req mods;
      steps = p.steps;
      backup_required = req.backup_required;
    }
    bundle ← lift bad_bundle (build s.codec input)
    let prepared : PreparedOperation = record {
      operation = req.operation;
      plan_required = not (is_validate req.operation);
      plan = p.plan;
      frozen_sources = identities.frozen;
      image_digests = identities.image_map;
      expected_changes = diff_state req mods artifacts links;
      artifacts = artifacts;
      preconditions = preconditions req;
      validations = validation_specs req mods;
      link_networks = links;
      bundle = bundle;
    }
    ok prepared
