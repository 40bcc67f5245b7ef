-- ===== src/Deployment/Validation.antt =====
-- internal/deployment/validation.go, transitions.go and action_scope.go: what a request must satisfy.
use vpsmith.Base.{Bool, true, false, not, ◌&&◌, ◌||◌, Option, none, some, List, [], ◌∷◌, map}
use vpsmith.Base.{if◌then◌else◌, is_empty, any}
use vpsmith.Base.Int.{ℤ, is_positive}
use vpsmith.Base.Text.{Text, ◌==◌, contains, is_blank}
use vpsmith.Base.Result.{Result, ok, err, reject, require, for_each, ◌>>=◌, ◌>>◌}
use vpsmith.Base.Dict.{Dict, lookup, keys, text_at}
use vpsmith.Base.Sort.{sort_texts}
use vpsmith.Contract.Types.{Module, Resources}
use vpsmith.Deployment.Types.{
  OperationKind, Request, DesiredModule, ResourceOverride, ObservedModule, CompiledModule,
}

pub data RequestError : Type 0 where
  unsupported_operation no_target no_subject other_target inconsistent_module : RequestError
  duplicate_module : Text → RequestError
  subject_absent unbound_secret undeclared_secret : Text → RequestError
  provider_required : Text → RequestError
  update_subject_absent unknown_version : RequestError
  no_transition : Text → RequestError

abbrev pub is_supported : OperationKind → Bool
is_supported (OperationKind.unsupported t) = false
is_supported _ = true

abbrev pub is_update : OperationKind → Bool
is_update OperationKind.update = true
is_update _ = false

abbrev pub is_uninstall : OperationKind → Bool
is_uninstall OperationKind.uninstall = true
is_uninstall _ = false

abbrev pub is_validate : OperationKind → Bool
is_validate OperationKind.validate = true
is_validate _ = false

-- The loop of `validateRequest`, with the instances seen.
unfoldable pub check_desired : List Text → List DesiredModule → Result RequestError (Unit {0})
check_desired seen [] = ok tt
check_desired seen (m ∷ ms) = do
  reject
      (is_empty m.instance_id
        || (not (is_empty m.source.instance_id) && not (m.source.instance_id == m.instance_id)))
      inconsistent_module
  reject (contains seen m.instance_id) (duplicate_module m.instance_id)
  check_desired (m.instance_id ∷ seen) ms

-- `validateRequest`.
unfoldable pub validate_request : Request → Result RequestError (Unit {0})
validate_request req = do
  reject (not (is_supported req.operation)) unsupported_operation
  reject (is_blank req.target_id) no_target
  reject (is_blank req.subject_instance) no_subject
  reject (not (is_empty req.observed.target_id) && not (req.observed.target_id == req.target_id))
      other_target
  check_desired [] req.desired_modules

-- The module of the instance: the loops that end with `break` or `return`.
unfoldable pub find_module : Text → List CompiledModule → Option CompiledModule
find_module id [] = none
find_module id (m ∷ ms) = if m.desired.instance_id == id then some m else find_module id ms

unfoldable pub find_observed : Text → List ObservedModule → Option ObservedModule
find_observed id [] = none
find_observed id (o ∷ os) = if o.instance_id == id then some o else find_observed id os

-- `validateSubject`.
unfoldable pub validate_subject : Request → List CompiledModule → Result RequestError (Unit {0})
validate_subject req mods =
    if is_uninstall req.operation then ok tt else elim (find_module req.subject_instance mods) [
      | some m ↦ ok tt
      | none ↦ err (subject_absent req.subject_instance)
    ]

-- `validateSecretBindings`.
unfoldable pub validate_secret_bindings : Module → Dict Text → Result RequestError (Unit {0})
validate_secret_bindings m bindings = do
  for_each (λ s. reject (is_blank (text_at bindings s.id)) (unbound_secret s.id)) m.secrets
  for_each (λ id. reject (not (any (λ s. s.id == id) m.secrets)) (undeclared_secret id))
      (keys bindings)

abbrev pub override : ℤ → ℤ → ℤ
override o base = if is_positive o then o else base

-- `mergeResources`.
unfoldable pub merge_resources : Resources → ResourceOverride → Resources
merge_resources base o = record {
  memory_bytes = override o.memory_bytes base.memory_bytes;
  cpu_quota = override o.cpu_quota base.cpu_quota;
  pids_limit = override o.pids_limit base.pids_limit;
  tasks_max = override o.tasks_max base.tasks_max;
}

-- The loop of `validateProviderRemoval`: the first instance with a dependency on the module.
unfoldable pub find_dependent : Text → List CompiledModule → Option Text
find_dependent id [] = none
find_dependent id (m ∷ ms) =
    if any (λ d. d.target_module == id) m.contract.dependencies
    then some m.desired.instance_id
    else find_dependent id ms

abbrev pub module_id_of : Option ObservedModule → Text
module_id_of none = []
module_id_of (some o) = o.module_id

-- `validateProviderRemoval`.
unfoldable pub validate_provider_removal :
    Request → List CompiledModule → Result RequestError (Unit {0})
validate_provider_removal req mods =
    let removed = module_id_of (find_observed req.subject_instance req.observed.modules) in
    if is_empty removed then ok tt else elim (find_dependent removed mods) [
      | none ↦ ok tt
      | some instance_id ↦ err (provider_required instance_id)
    ]

abbrev pub version_of : Option ObservedModule → Text
version_of none = []
version_of (some o) = o.version

-- `validateUpdate`: the actions of the transition.
unfoldable pub validate_update : Request → List CompiledModule → Result RequestError (List Text)
validate_update req mods = if not (is_update req.operation) then ok [] else do
  target ← require (find_module req.subject_instance mods) update_subject_absent
  let old = version_of (find_observed req.subject_instance req.observed.modules)
  reject (is_empty old) unknown_version
  transition ← require (lookup old target.contract.update_from) (no_transition old)
  ok transition.actions

abbrev pub storage_paths : Option CompiledModule → List Text
storage_paths none = []
storage_paths (some m) = sort_texts (map (λ s. s.path) m.contract.persistent)

abbrev pub own_detached : Text → Option CompiledModule → Option CompiledModule
own_detached id none = none
own_detached id (some m) = if m.desired.instance_id == id then some m else none

-- `actionWritablePaths`.
unfoldable pub action_writable_paths :
    Request → List CompiledModule → Option CompiledModule → List Text
action_writable_paths req mods detached = elim (find_module req.subject_instance mods) [
  | some m ↦ storage_paths (some m)
  | none ↦ storage_paths (own_detached req.subject_instance detached)
]
