-- ===== src/Contract/Actions.antt =====
-- internal/modulecontract: validateActions (validation_actions.go) and the checks with which validate
-- begins (validation.go).
use vpsmith.Base.{Bool, not, ◌&&◌, ◌||◌, none, some, is_empty}
use vpsmith.Base.Int.{is_positive}
use vpsmith.Base.Text.{Text, ◌==◌, is_blank}
use vpsmith.Base.Result.{ok, err, reject, for_each, ◌>>◌}
use vpsmith.Base.Dict.{has_key}
use vpsmith.Contract.Types.{Image, UpdateTransition, Resources, Module}
use vpsmith.Contract.Patterns.{is_identifier, exact_version, check_image_ref, check_action_path}
use vpsmith.Contract.Errors
use vpsmith.Contract.Validate.{Check}

unfoldable pub check_action : Text × Text → Check
check_action (id, path) = do
  reject (not (is_identifier id)) (Errors.invalid_action_id id)
  elim (check_action_path path) [ none ↦ ok tt | some e ↦ err (Errors.invalid_action_path id e) ]

unfoldable pub check_transition : Module → Text × UpdateTransition → Check
check_transition m (old, transition) = do
  reject (not (exact_version old)) Errors.inexact_update_from
  reject (old == m.version) (Errors.update_from_itself old)
  for_each (λ a. reject (not (has_key a m.actions)) (Errors.unknown_update_action a old))
      transition.actions

-- `validateActions`.
unfoldable pub validate_actions : Module → Check
validate_actions m = do
  reject (is_empty m.actions) Errors.no_actions
  for_each check_action m.actions
  reject (not (has_key m.validation_action m.actions))
      (Errors.unknown_validation_action m.validation_action)
  for_each (check_transition m) m.update_from

unfoldable pub check_image : Text × Image → Check
check_image (id, image) = do
  reject (not (is_identifier id)) (Errors.invalid_image_id id)
  elim (check_image_ref image.ref) [ none ↦ ok tt | some e ↦ err (Errors.invalid_image id e) ]

abbrev pub are_positive : Resources → Bool
are_positive r =
    is_positive r.memory_bytes
    && is_positive r.cpu_quota
    && is_positive r.pids_limit
    && is_positive r.tasks_max

-- The checks of `validate` in front of those of the lists.
unfoldable pub check_head : Module → Check
check_head m = do
  reject (not (is_identifier m.id)) Errors.invalid_module_id
  reject (not (exact_version m.version)) Errors.inexact_module_version
  reject (not (exact_version m.core_contract)) Errors.inexact_core_contract
  reject (is_empty m.images) Errors.no_images
  reject (is_empty m.containers) Errors.no_containers
  reject (is_blank m.validation_action) Errors.no_validation_action
  reject (not m.uninstall.delete_persistent_data || not m.uninstall.delete_secrets)
      Errors.uninstall_keeps
  reject (not (are_positive m.resources)) Errors.resources_not_positive
