-- ===== src/Contract/Integration.antt =====
-- internal/modulecontract: validateIntegration, validateHealthcheck, validateActions and validate.
-- The parser of URLs is a parameter: the scheme and the host, if the text parses.
use vpsmith.Base.{Bool, false, not, ◌&&◌, ◌||◌, Option, none, some, List, [], ◌∷◌, ◌++◌}
use vpsmith.Base.{if◌then◌else◌, is_empty}
use vpsmith.Base.Int.{ℤ, in_range}
use vpsmith.Base.Text.{Text, text, ◌==◌, contains, is_blank, has_prefix, to_lower}
use vpsmith.Base.Result.{ok, err, reject, for_each, ◌>>=◌, ◌>>◌}
use vpsmith.Base.Dict.{Dict, lookup, insert, text_at}
use vpsmith.Contract.Types.{
  Container, Network, EgressRule, PublicRoute, Healthcheck, InternalInterface, Dependency, Module,
}
use vpsmith.Contract.Patterns.{is_identifier, is_hostname}
use vpsmith.Contract.Errors
use vpsmith.Contract.Errors.{ContractError}
use vpsmith.Contract.Validate.{Check, declare}

-- `networkRoles`, and `containerNetworks`: the roles of the networks of each container.
unfoldable pub roles_onto : Dict Text → List Network → Dict Text
roles_onto roles [] = roles
roles_onto roles (n ∷ ns) = roles_onto (insert n.id n.role roles) ns

unfoldable pub roles_of : Dict Text → List Text → List Text
roles_of roles [] = []
roles_of roles (n ∷ ns) = text_at roles n ∷ roles_of roles ns

unfoldable pub attachments_onto : Dict Text → Dict (List Text) → List Container → Dict (List Text)
unfolding roles_of
attachments_onto roles found [] = found
attachments_onto roles found (c ∷ cs) =
    attachments_onto roles (insert c.id (roles_of roles c.networks) found) cs

unfoldable pub attachments : Module → Dict (List Text)
unfolding roles_onto attachments_onto
attachments m = attachments_onto (roles_onto [] m.networks) [] m.containers

-- Whether a container is attached to a network with the role.
unfoldable pub is_attached : Dict (List Text) → Text → Text → Bool
is_attached found c role = elim (lookup c found) [ none ↦ false | some roles ↦ contains roles role ]

unfoldable pub check_egress : List Text → Dict (List Text) → EgressRule → Check
check_egress containers found e = do
  reject (not (contains containers e.container)) (Errors.unknown_egress_container e.container)
  reject (is_blank e.reason) (Errors.no_egress_reason e.container)
  reject (not (is_attached found e.container (text "egress")))
      (Errors.no_egress_network e.container)

abbrev pub is_port : ℤ → Bool
is_port = in_range 1 65535

-- The checks of a route in front of that of its key, which names host and path.
unfoldable pub check_route : List Text → PublicRoute → Check
check_route containers r = do
  reject (not (is_hostname (to_lower r.hostname))) (Errors.invalid_hostname r.hostname)
  reject (not (contains containers r.container)) (Errors.unknown_route_container r.container)
  reject (not (is_port r.port)) (Errors.invalid_route_port r.hostname)
  reject (is_empty r.path_prefix || not (has_prefix r.path_prefix (text "/")))
      (Errors.relative_route_path r.hostname)
  reject (not (r.authelia.mode == text "protected") && not (r.authelia.mode == text "public"))
      (Errors.invalid_route_mode r.hostname)

abbrev pub route_key : PublicRoute → Text
route_key r = to_lower r.hostname ++ (text ":" ++ r.path_prefix)

abbrev pub is_web : Option (Text × Text) → Bool
is_web none = false
is_web (some (scheme, host)) =
    (scheme == text "http" || scheme == text "https") && not (is_empty host)

abbrev pub has_command : List Text → Bool
has_command [] = false
has_command (c ∷ cs) = not (is_blank c)

unfoldable pub check_interface : List Text → InternalInterface → Check
check_interface containers i = do
  reject (not (contains containers i.container))
      (Errors.unknown_interface_container i.id i.container)
  reject (not (is_port i.port)) (Errors.invalid_interface_port i.id)
  reject (not (i.protocol == text "tcp") && not (i.protocol == text "http"))
      (Errors.invalid_interface_protocol i.id)

unfoldable pub check_dependency : Text → List Text → Dependency → Check
check_dependency own containers d = do
  reject (not (is_identifier d.target_module) || not (is_identifier d.interface_id))
      Errors.invalid_dependency
  reject (d.target_module == own) Errors.self_dependency
  reject (not (contains containers d.consumer)) (Errors.unknown_consumer d.consumer)

abbrev pub dependency_key : Dependency → Text
dependency_key d = d.target_module ++ (text ":" ++ (d.interface_id ++ (text ":" ++ d.consumer)))

module _ (parse_url : Text → Option (Text × Text)) where
  unfoldable pub check_type : Healthcheck → Check
  check_type h =
      if h.type == text "http"
      then reject (not (is_web (parse_url h.url))) Errors.invalid_check_url
      else if h.type == text "tcp"
      then reject (not (is_port h.port)) Errors.invalid_check_port
      else if h.type == text "command"
      then reject (not (has_command h.command)) Errors.no_check_command
      else err Errors.invalid_check_type

  -- `validateHealthcheck`, behind the check of the id.
  unfoldable pub check_health : List Text → Healthcheck → Check
  check_health containers h = do
    reject (not (contains containers h.container)) (Errors.unknown_check_container h.container)
    check_type h

  -- `validateIntegration`.
  unfoldable pub validate_integration : List Text → Module → Check
  unfolding attachments
  validate_integration containers m = do
    let found = attachments m
    for_each (check_egress containers found) m.egress
    routes ←
        declare route_key Errors.duplicate_route (check_route containers)
          (λ r.
            reject (not (is_attached found r.container (text "edge")))
              (Errors.no_edge_network r.container))
          [] m.public_routes
    check_health containers m.healthcheck
    checks ←
        declare (λ h. h.id) Errors.duplicate_check
          (λ h. reject (not (is_identifier h.id)) Errors.unnamed_check) (check_health containers) []
          m.service_checks
    interfaces ←
        declare (λ i. i.id) Errors.duplicate_interface
          (λ i. reject (not (is_identifier i.id)) (Errors.invalid_interface_id i.id))
          (check_interface containers) [] m.interfaces
    dependencies ←
        declare dependency_key Errors.duplicate_dependency (check_dependency m.id containers)
          (λ d. ok tt) [] m.dependencies
    ok tt
