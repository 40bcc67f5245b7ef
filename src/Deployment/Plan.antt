-- ===== src/Deployment/Plan.antt =====
-- internal/deployment/plan.go: the steps of an operation.
use vpsmith.Base.{ℕ, Bool, true, false, Option, none, some, List, [], ◌∷◌, ◌++◌, map}
use vpsmith.Base.{if◌then◌else◌, is_empty}
use vpsmith.Base.Text.{Text, text, ◌==◌, contains, split}
use vpsmith.Base.Result.{Result, ok, require, ◌>>=◌}
use vpsmith.Base.Dict.{lookup, text_at}
use vpsmith.Bundle.Types.{File, Step, ValidationSpec, Kind}
use vpsmith.Deployment.Types.{OperationKind, Request, CompiledModule}
use vpsmith.Deployment.Validation.{find_module, is_validate}

pub record PlanStep : Type 0 where
  pub id : Text
  pub description : Text
  pub mutating : Bool

pub record GeneratedArtifact : Type 0 where
  pub path : Text
  pub target_path : Text
  pub mode : ℕ
  pub bytes : Text
  pub sha256 : Text

pub data PlanError : Type 0 where
  no_action_subject : PlanError
  unknown_action : Text → PlanError

-- What the slices of `buildPlan` hold. The set of the seen actions is that of the action ids.
pub record Plan : Type 0 where
  pub plan : List PlanStep
  pub steps : List Step
  pub action_files : List File
  pub action_ids : List Text

-- `path.Base`: the last element that is not empty.
abbrev pub last_part : Text → List Text → Text
last_part found [] = found
last_part found (w ∷ ws) = last_part (if is_empty w then found else w) ws

unfoldable pub base_name : Text → Text
base_name p = if is_empty p then text "." else last_part (text "/") (split b'/' p)

abbrev pub artifact_plan_step : GeneratedArtifact → PlanStep
artifact_plan_step a = record {
  id = text "apply:" ++ a.path;
  description = text "Generate and apply " ++ a.path;
  mutating = true;
}

abbrev pub artifact_step : GeneratedArtifact → Step
artifact_step a = record {
  id = text "apply:" ++ a.path;
  kind = text "apply-artifact";
  artifact = a.path;
  action = [];
  args = [];
  mutating = true;
}

abbrev pub start_plan : Request → List GeneratedArtifact → Plan
start_plan req artifacts =
    let applied = if is_validate req.operation then [] else artifacts in
    record {
      plan = map artifact_plan_step applied;
      steps = map artifact_step applied;
      action_files = [];
      action_ids = [];
    }

abbrev pub action_plan_step : Text → Bool → PlanStep
action_plan_step id mutating = record {
  id = text "action:" ++ id;
  description = text "Run registered action " ++ id;
  mutating = mutating;
}

abbrev pub action_step : Text → Bool → Step
action_step id mutating = record {
  id = text "action:" ++ id;
  kind = text "action";
  artifact = [];
  action = id;
  args = [];
  mutating = mutating;
}

-- The bundle's file of an action that was not seen before.
abbrev pub add_action_file : Text → CompiledModule → Text → Text → Plan → Plan
add_action_file subject target id rel p =
    if contains p.action_ids id
    then p
    else let file : File = record {
      path = text "actions/" ++ (subject ++ (text "/" ++ base_name rel));
      target_path = [];
      mode = 365;
      bytes = text_at target.contract.action_files id;
    } in
      record p {
        action_files = p.action_files ++ (file ∷ []);
        action_ids = p.action_ids ++ (id ∷ []);
      }

abbrev pub add_action_steps : Text → Bool → Plan → Plan
add_action_steps id mutating p = record p {
  plan = p.plan ++ (action_plan_step id mutating ∷ []);
  steps = p.steps ++ (action_step id mutating ∷ []);
}

-- `appendAction`.
unfoldable pub append_action :
    Request → Option CompiledModule → Text → Bool → Plan → Result PlanError Plan
append_action req target id mutating p = do
  m ← require target no_action_subject
  rel ← require (lookup id m.contract.actions) (unknown_action id)
  ok (add_action_steps id mutating (add_action_file req.subject_instance m id rel p))

unfoldable pub append_updates :
    Request → Option CompiledModule → List Text → Plan → Result PlanError Plan
append_updates req target [] p = ok p
append_updates req target (id ∷ ids) p = do
  p' ← append_action req target id true p
  append_updates req target ids p'

abbrev pub append_validation : Request → Option CompiledModule → Plan → Result PlanError Plan
append_validation req none p = ok p
append_validation req (some m) p = append_action req (some m) m.contract.validation_action false p

-- `buildPlan`.
unfoldable pub build_plan :
    Request → List CompiledModule → List GeneratedArtifact → List Text → Result PlanError Plan
build_plan req mods artifacts update_actions = do
  let target = find_module req.subject_instance mods
  p ← append_updates req target update_actions (start_plan req artifacts)
  append_validation req target p

-- `validationSpecs`.
unfoldable pub validation_specs : Request → List CompiledModule → List ValidationSpec
validation_specs req [] = []
validation_specs req (m ∷ ms) =
    let rest = validation_specs req ms in
    if m.desired.instance_id == req.subject_instance
    then record {
      id = m.desired.instance_id ++ (text ":" ++ m.contract.validation_action);
      read_only = true;
    }
      ∷ rest
    else rest

-- `bundleKind`.
abbrev pub bundle_kind : OperationKind → Kind
bundle_kind OperationKind.install = Kind.installation
bundle_kind OperationKind.validate = Kind.validation
bundle_kind _ = Kind.migration
