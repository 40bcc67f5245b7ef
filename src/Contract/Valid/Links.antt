-- ===== src/Contract/Valid/Links.antt =====
-- internal/modulecontract: what validateIntegration and validateActions find out, and validate as a whole.
use vpsmith.Base.{◌≡◌, refl, arith, true, not, Option, List, [], ◌∷◌, All, All-map}
use vpsmith.Base.Int.{ℤ, pos, negsuc}
use vpsmith.Base.Text.{Text, text, eq_refl, contains}
use vpsmith.Base.Result.{ok, reject, for_each, >>=-eq-ok}
use vpsmith.Base.Dict.{Dict, lookup, has_key, keys}
use vpsmith.Base.Table.{has_row, Unique}
use vpsmith.Base.Keys.{for_each-All}
use vpsmith.Contract.Types.{
  Container, EgressRule, PublicRoute, Healthcheck, InternalInterface, Dependency, UpdateTransition,
  Module,
}
use vpsmith.Contract.Errors
use vpsmith.Contract.Errors.{ContractError}
use vpsmith.Contract.Validate.{
  declare, validate_containers, validate_storage, validate_networks, validate_secrets,
}
use vpsmith.Contract.Integration.{
  attachments, is_attached, check_egress, is_port, check_route, route_key, check_health,
  check_interface, check_dependency, dependency_key, validate_integration,
}
use vpsmith.Contract.Actions.{check_transition, validate_actions, check_head, check_image}
use vpsmith.Contract.Compile.{validate}
use vpsmith.Contract.Valid.Defs.{
  HasContainer, IsPort, IsContainer, IsAttached, IsRoute, IsEgress, IsInterface, IsDependency,
  IsContract,
}
use vpsmith.Contract.Valid.Declared.{declare-Declared}
use vpsmith.Contract.Valid.Attached.{is_attached-IsAttached}
use vpsmith.Contract.Valid.Lists.{
  validate_containers-Containers, validate_storage-Storage, validate_networks-Networks,
  validate_secrets_lem,
}

is_port-IsPort : (z : ℤ) → is_port z ≡ true → IsPort z
is_port-IsPort (pos n) h = (n, refl, ground arith, ground arith)
is_port-IsPort (negsuc n) h = cc

module _ (m : Module) (containers : List Text)
    (same : (t : Text) → contains containers t ≡ has_row (λ c. c.id) t m.containers) where
  known : (t : Text) → contains containers t ≡ true → HasContainer m t
  known t h = ground (arith, same t)

  check_egress-IsEgress :
      (e : EgressRule) → check_egress containers (attachments m) e ≡ ok tt → IsEgress m e
  unfolding check_egress
  check_egress-IsEgress e h = (
    known e.container (ground arith),
    is_attached-IsAttached m e.container (text "egress") (λ p. cc) (ground arith),
  )

  check_route_lem :
      (r : PublicRoute)
      → check_route containers r ≡ ok tt
      → HasContainer m r.container × IsPort r.port
  unfolding check_route
  check_route_lem r h = (known r.container (ground arith), is_port-IsPort r.port (ground arith))

  check_interface-IsInterface :
      (i : InternalInterface) → check_interface containers i ≡ ok tt → IsInterface m i
  unfolding check_interface
  check_interface-IsInterface i h =
      (known i.container (ground arith), is_port-IsPort i.port (ground arith))

  check_dependency-IsDependency :
      (d : Dependency) → check_dependency m.id containers d ≡ ok tt → IsDependency m d
  unfolding check_dependency
  check_dependency-IsDependency d h =
      (known d.consumer (ground arith), λ e. ground (arith, eq_refl m.id))

  module _ (parse_url : Text → Option (Text × Text)) where
    check_health-HasContainer :
        (h : Healthcheck) → check_health parse_url containers h ≡ ok tt → HasContainer m h.container
    unfolding check_health
    check_health-HasContainer h e = known h.container (ground arith)

    pub record Integration : Type 0 where
      pub egress : All (IsEgress m) m.egress
      pub routes : All (IsRoute m) m.public_routes
      pub health : HasContainer m m.healthcheck.container
      pub checks_apart : Unique (λ h. h.id) m.service_checks
      pub checks : All (λ h. HasContainer m h.container) m.service_checks
      pub interfaces_apart : Unique (λ i. i.id) m.interfaces
      pub interfaces : All (IsInterface m) m.interfaces
      pub dependencies : All (IsDependency m) m.dependencies

    edge_lem :
        (r : PublicRoute)
        → reject
            (not (is_attached (attachments m) r.container (text "edge")))
            (Errors.no_edge_network r.container)
          ≡ ok tt
        → IsAttached m r.container (text "edge")
    edge_lem r h = is_attached-IsAttached m r.container (text "edge") (λ p. cc) (ground arith)

    pub validate_integration-Integration :
        validate_integration parse_url containers m ≡ ok tt → Integration
    unfolding validate_integration
    validate_integration-Integration h =
        let (_, e1, h1) =
          >>=-eq-ok (for_each (check_egress containers (attachments m)) m.egress) _ h in
        let (routes, e2, h2) =
          >>=-eq-ok (declare route_key Errors.duplicate_route _ _ [] m.public_routes) _ h1 in
        let (_, e3, h3) = >>=-eq-ok (check_health parse_url containers m.healthcheck) _ h2 in
        let (checks, e4, h4) =
          >>=-eq-ok (declare (λ h. h.id) Errors.duplicate_check _ _ [] m.service_checks) _ h3 in
        let (interfaces, e5, h5) =
          >>=-eq-ok (declare (λ i. i.id) Errors.duplicate_interface _ _ [] m.interfaces) _ h4 in
        let (dependencies, e6, h6) =
          >>=-eq-ok (declare dependency_key Errors.duplicate_dependency _ _ [] m.dependencies) _
            h5 in
        let route = declare-Declared _ _ _ _ [] m.public_routes e2 in
        let check = declare-Declared _ _ _ _ [] m.service_checks e4 in
        let interface = declare-Declared _ _ _ _ [] m.interfaces e5 in
        let dependency = declare-Declared _ _ _ _ [] m.dependencies e6 in
        record {
          egress = for_each-All _ _ check_egress-IsEgress m.egress e1;
          routes =
              All-map _ _ m.public_routes
                (λ r p. let l = check_route_lem r p.0 in (l.0, l.1, edge_lem r p.1)) route.checked;
          health = check_health-HasContainer m.healthcheck e3;
          checks_apart = check.apart;
          checks =
              All-map _ _ m.service_checks (λ c p. check_health-HasContainer c p.1) check.checked;
          interfaces_apart = interface.apart;
          interfaces =
              All-map _ _ m.interfaces (λ i p. check_interface-IsInterface i p.1) interface.checked;
          dependencies =
              All-map _ _ m.dependencies (λ d p. check_dependency-IsDependency d p.0)
                dependency.checked;
        }

-- The registered actions.
pub record Actions (m : Module) : Type 0 where
  pub validation : has_key m.validation_action m.actions ≡ true
  pub updates : All (λ u. All (λ a. has_key a m.actions ≡ true) u.1.actions) m.update_from

transition_lem :
    (m : Module) (u : Text × UpdateTransition)
    → check_transition m u ≡ ok tt
    → All (λ a. has_key a m.actions ≡ true) u.1.actions
unfolding check_transition
transition_lem m (old, transition) h =
    for_each-All (λ a. reject (not (has_key a m.actions)) (Errors.unknown_update_action a old)) _
      (λ a one. ground arith) transition.actions (ground arith)

pub validate_actions-Actions : (m : Module) → validate_actions m ≡ ok tt → Actions m
unfolding validate_actions
validate_actions-Actions m h =
    let last : for_each (check_transition m) m.update_from ≡ ok tt = ground arith in
    record {
      validation = ground arith;
      updates = for_each-All (check_transition m) _ (transition_lem m) m.update_from last;
    }

-- The keys of the images are the entries.
keys-has_key : {V : Type 0} (k : Text) (d : Dict V) → contains (keys d) k ≡ has_key k d
unfolding contains has_key lookup
keys-has_key k [] = refl
keys-has_key k ((j, v) ∷ d) = ground (arith, keys-has_key k d)

All-zip3 :
    (m : Module) (cs : List Container)
    → All (λ c. has_key c.image m.images ≡ true) cs
    → All (λ c. All (λ n. has_row (λ w. w.id) n m.networks ≡ true) c.networks) cs
    → All (λ c. All (λ t. has_row (λ s. s.id) t.storage_id m.persistent ≡ true) c.mounts) cs
    → All (λ c. c.host_ports ≡ []) cs
    → All (IsContainer m) cs
All-zip3 m [] i n s p = tt
All-zip3 m (c ∷ cs) i n s p = (
  record { image = i.0; networks = n.0; storage = s.0; closed = p.0 },
  All-zip3 m cs i.1 n.1 s.1 p.1,
)

pub validate-IsContract :
    (parse_url : Text → Option (Text × Text)) (m : Module)
    → validate parse_url m ≡ ok tt
    → IsContract m
unfolding validate
validate-IsContract parse_url m h =
    let (_, e1, h1) = >>=-eq-ok (check_head m) _ h in
    let (_, e2, h2) = >>=-eq-ok (for_each check_image m.images) _ h1 in
    let (containers, e3, h3) = >>=-eq-ok (validate_containers (keys m.images) m.containers) _ h2 in
    let (_, e4, h4) = >>=-eq-ok (validate_storage m) _ h3 in
    let (_, e5, h5) = >>=-eq-ok (validate_networks m) _ h4 in
    let (_, e6, h6) = >>=-eq-ok (validate_secrets containers m) _ h5 in
    let (_, e7, h7) = >>=-eq-ok (validate_integration parse_url containers m) _ h6 in
    let c = validate_containers-Containers (keys m.images) m.containers e3 in
    let s = validate_storage-Storage m e4 in
    let n = validate_networks-Networks m e5 in
    let x = validate_secrets_lem containers m e6 in
    let i = validate_integration-Integration m containers c.same parse_url e7 in
    let a = validate_actions-Actions m h7 in
    record {
      containers_apart = c.apart;
      storage_apart = s.apart;
      paths_apart = s.paths_apart;
      networks_apart = n.apart;
      secrets_apart = x.apart;
      checks_apart = i.checks_apart;
      interfaces_apart = i.interfaces_apart;
      containers =
          All-zip3 m m.containers
            (All-map _ _ m.containers (λ y p. ground (arith, keys-has_key y.image m.images))
              c.images_known)
            n.known s.mounts c.closed;
      secrets =
          All-map _ _ m.secrets
            (λ y p. All-map _ _ y.containers (λ t q. known m containers c.same t q) p) x.known;
      egress = i.egress;
      routes = i.routes;
      health = i.health;
      checks = i.checks;
      interfaces = i.interfaces;
      dependencies = i.dependencies;
      validation = a.validation;
      updates = a.updates;
    }
