-- ===== src/Contract/Errors.antt =====
-- internal/modulecontract: the errors of validate and of Compile, each with the names in its message.
use vpsmith.Base.Text.{Text}
use vpsmith.Contract.Patterns.{ImageError, PathError}

pub data ContractError : Type 0 where
  invalid_module_id inexact_module_version inexact_core_contract : ContractError
  no_images no_containers no_validation_action uninstall_keeps resources_not_positive :
      ContractError
  invalid_image_id : Text → ContractError
  invalid_image : Text → ImageError → ContractError
  invalid_container_id duplicate_container : Text → ContractError
  unknown_image : Text → Text → ContractError
  negative_user mapped_user_ns direct_host_ports empty_capability : Text → ContractError
  duplicate_capability duplicate_container_network duplicate_mount : Text → Text → ContractError
  invalid_storage_id duplicate_storage invalid_storage_path : Text → ContractError
  claimed_path : Text → Text → Text → ContractError
  undeclared_storage : Text → Text → ContractError
  invalid_mount_target : Text → ContractError
  invalid_network_id duplicate_network : Text → ContractError
  invalid_network_role unknown_network : Text → Text → ContractError
  invalid_secret_id duplicate_secret invalid_secret_source : Text → ContractError
  invalid_secret_delivery no_secret_name invalid_secret_path no_secret_container :
      Text → ContractError
  unknown_secret_container : Text → Text → ContractError
  shared_secret_target : Text → Text → Text → ContractError
  environment_secret : Text → Text → ContractError
  unknown_egress_container no_egress_reason no_egress_network : Text → ContractError
  invalid_hostname unknown_route_container invalid_route_port : Text → ContractError
  relative_route_path invalid_route_mode : Text → ContractError
  duplicate_route no_edge_network : Text → ContractError
  unnamed_check : ContractError
  duplicate_check unknown_check_container : Text → ContractError
  invalid_check_url invalid_check_port no_check_command invalid_check_type : ContractError
  invalid_interface_id duplicate_interface : Text → ContractError
  unknown_interface_container : Text → Text → ContractError
  invalid_interface_port invalid_interface_protocol : Text → ContractError
  invalid_dependency self_dependency : ContractError
  unknown_consumer duplicate_dependency : Text → ContractError
  no_actions : ContractError
  invalid_action_id : Text → ContractError
  invalid_action_path : Text → PathError → ContractError
  unknown_validation_action : Text → ContractError
  inexact_update_from : ContractError
  update_from_itself : Text → ContractError
  unknown_update_action : Text → Text → ContractError
  no_package_fs unreadable_contract nul_byte undecodable more_documents trailing_invalid :
      ContractError
  unreadable_action : Text → Text → ContractError
