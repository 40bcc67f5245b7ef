-- ===== src/Contract/Valid/Defs.antt =====
-- internal/modulecontract: a contract whose parts refer only to parts that are declared.
use vpsmith.Base.{ℕ, ◌≤◌, ◌≡◌, ◌≢◌, true, [], All, Any}
use vpsmith.Base.Int.{ℤ, pos}
use vpsmith.Base.Text.{Text, text, contains}
use vpsmith.Base.Dict.{has_key}
use vpsmith.Base.Table.{has_row, Unique}
use vpsmith.Contract.Types.{
  Container, EgressRule, PublicRoute, InternalInterface, Dependency, Module,
}

abbrev pub HasContainer : Module → Text → Type 0
HasContainer m c = has_row (λ x. x.id) c m.containers ≡ true

-- A number from 1 to 65535.
abbrev pub IsPort : ℤ → Type 0
IsPort z = (n : ℕ) × (z ≡ pos n) × (1 ≤ n) × (n ≤ 65535)

-- The image, the networks and the storage of a container are declared; it has no port of the host.
pub record IsContainer (m : Module) (c : Container) : Type 0 where
  pub image : has_key c.image m.images ≡ true
  pub networks : All (λ n. has_row (λ x. x.id) n m.networks ≡ true) c.networks
  pub storage : All (λ t. has_row (λ x. x.id) t.storage_id m.persistent ≡ true) c.mounts
  pub closed : c.host_ports ≡ []

-- The container is attached to a declared network with the role.
abbrev pub IsAttached : Module → Text → Text → Type 0
IsAttached m id role =
    Any
      (λ c. (c.id ≡ id) × Any (λ n. (contains c.networks n.id ≡ true) × (n.role ≡ role)) m.networks)
      m.containers

abbrev pub IsRoute : Module → PublicRoute → Type 0
IsRoute m r = HasContainer m r.container × IsPort r.port × IsAttached m r.container (text "edge")

abbrev pub IsEgress : Module → EgressRule → Type 0
IsEgress m e = HasContainer m e.container × IsAttached m e.container (text "egress")

abbrev pub IsInterface : Module → InternalInterface → Type 0
IsInterface m i = HasContainer m i.container × IsPort i.port

abbrev pub IsDependency : Module → Dependency → Type 0
IsDependency m d = HasContainer m d.consumer × (d.target_module ≢ m.id)

pub record IsContract (m : Module) : Type 0 where
  pub containers_apart : Unique (λ c. c.id) m.containers
  pub storage_apart : Unique (λ s. s.id) m.persistent
  pub paths_apart : Unique (λ s. s.path) m.persistent
  pub networks_apart : Unique (λ n. n.id) m.networks
  pub secrets_apart : Unique (λ s. s.id) m.secrets
  pub checks_apart : Unique (λ h. h.id) m.service_checks
  pub interfaces_apart : Unique (λ i. i.id) m.interfaces
  pub containers : All (IsContainer m) m.containers
  pub secrets : All (λ s. All (HasContainer m) s.containers) m.secrets
  pub egress : All (IsEgress m) m.egress
  pub routes : All (IsRoute m) m.public_routes
  pub health : HasContainer m m.healthcheck.container
  pub checks : All (λ h. HasContainer m h.container) m.service_checks
  pub interfaces : All (IsInterface m) m.interfaces
  pub dependencies : All (IsDependency m) m.dependencies
  pub validation : has_key m.validation_action m.actions ≡ true
  pub updates : All (λ u. All (λ a. has_key a m.actions ≡ true) u.1.actions) m.update_from
