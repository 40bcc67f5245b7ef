-- ===== src/State/Observed.antt =====
-- internal/managementstate/observed_facts.go and types.go: the observed state of a target, and
-- NormalizeObservedState. A Go `int` or `int64` of an observation is a natural number.
use vpsmith.Base.{ℕ, Bool, List, map, ltb}
use vpsmith.Base.Text.{Text, less}
use vpsmith.Base.Dict.{Dict}
use vpsmith.Base.Sort.{sort_by, sort_texts}

pub record PrimaryHardening : Type 0 where
  pub root_password_locked : Bool
  pub ssh_config_valid : Bool
  pub ssh_values : Dict Text
  pub ufw_active : Bool
  pub ufw_default_incoming : Text
  pub ufw_default_outgoing : Text
  pub ufw_default_routed : Text
  pub ufw_logging_low : Bool
  pub ufw_unexpected_public_allow : Bool
  pub ufw_allowed_public_tcp_ports : List ℕ
  pub fail2ban_ssh_active : Bool
  pub fail2ban_recidive_active : Bool
  pub unattended_upgrades_enabled : Bool
  pub automatic_reboot_disabled : Bool

pub record ByteCounts : Type 0 where
  pub total_bytes : ℕ
  pub available_bytes : ℕ

pub record HostObserved : Type 0 where
  pub reachable : Bool
  pub ssh : Bool
  pub hostname : Text
  pub os_id : Text
  pub os_version : Text
  pub kernel : Text
  pub root_filesystem : ByteCounts
  pub memory : ByteCounts
  pub swap : ByteCounts
  pub reboot_required : Bool
  pub ufw_active : Bool
  pub fail2ban_active : Bool
  pub primary_hardening : PrimaryHardening

pub record PodmanObserved : Type 0 where
  pub present : Bool
  pub rootless : Bool
  pub cgroup_version : Text
  pub rootless_network_cmd : Text

pub record UnitObserved : Type 0 where
  pub name : Text
  pub scope : Text
  pub present : Bool
  pub running : Bool
  pub active_state : Text
  pub sub_state : Text

pub record ContainerObserved : Type 0 where
  pub name : Text
  pub present : Bool
  pub running : Bool
  pub health : Text
  pub networks : List Text

pub record NetworkObserved : Type 0 where
  pub name : Text
  pub internal : Bool
  pub present : Bool
  pub subnets : List Text
  pub relationship : Text
  pub members : List Text

pub record ServiceObserved : Type 0 where
  pub present : Bool
  pub running : Bool
  pub config_checked : Bool
  pub config_valid : Bool

pub record ArtifactObserved : Type 0 where
  pub path : Text
  pub present : Bool
  pub sha256 : Text

pub record ProofObserved : Type 0 where
  pub id : Text
  pub bundle_id : Text
  pub bundle_sha256 : Text
  pub kind : Text
  pub outcome : Text
  pub sha256 : Text

pub record LinkObserved : Type 0 where
  pub name : Text
  pub present : Bool
  pub subnet : Text
  pub relationship : Text
  pub definition_matches : Bool
  pub members : List Text

pub record CloudInitObserved : Type 0 where
  pub present : Bool
  pub status : Text
  pub version : Text
  pub finished_at : Text

pub record CoreObserved : Type 0 where
  pub present : Bool
  pub source_id : Text
  pub version : Text
  pub package_sha256 : Text
  pub running : Bool
  pub podman : PodmanObserved
  pub units : List UnitObserved
  pub containers : List ContainerObserved
  pub networks : List NetworkObserved
  pub caddy : ServiceObserved
  pub authelia : ServiceObserved
  pub execution_proofs : List ProofObserved
  pub managed_artifacts : List ArtifactObserved

pub record ModuleObserved : Type 0 where
  pub present : Bool
  pub instance_id : Text
  pub package_id : Text
  pub version : Text
  pub package_sha256 : Text
  pub running : Bool
  pub health : Text
  pub units : List UnitObserved
  pub containers : List ContainerObserved
  pub networks : List NetworkObserved
  pub managed_artifacts : List ArtifactObserved

pub record Observed : Type 0 where
  pub observed_at : Text
  pub host : HostObserved
  pub cloud_init : CloudInitObserved
  pub core : CoreObserved
  pub modules : List ModuleObserved
  pub podman_networks : List NetworkObserved
  pub link_networks : List LinkObserved
  pub managed_artifacts : List ArtifactObserved

-- `sort.Slice` by a text of each element.
unfoldable pub sort_key : {A : Type 0} → (A → Text) → List A → List A
sort_key key xs = sort_by (λ a b. less (key a) (key b)) xs

unfoldable pub normal_container : ContainerObserved → ContainerObserved
normal_container c = record c { networks = sort_texts c.networks }

unfoldable pub normal_network : NetworkObserved → NetworkObserved
normal_network n = record n { members = sort_texts n.members; subnets = sort_texts n.subnets }

unfoldable pub normal_link : LinkObserved → LinkObserved
normal_link l = record l { members = sort_texts l.members }

unfoldable pub normal_module : ModuleObserved → ModuleObserved
normal_module m = record m {
  units = sort_key (λ u. u.name) m.units;
  containers = map normal_container (sort_key (λ c. c.name) m.containers);
  networks = map normal_network (sort_key (λ n. n.name) m.networks);
  managed_artifacts = sort_key (λ a. a.path) m.managed_artifacts;
}

unfoldable pub normal_core : CoreObserved → CoreObserved
normal_core c = record c {
  units = sort_key (λ u. u.name) c.units;
  containers = map normal_container (sort_key (λ x. x.name) c.containers);
  networks = map normal_network (sort_key (λ n. n.name) c.networks);
  execution_proofs = sort_key (λ p. p.id) c.execution_proofs;
  managed_artifacts = sort_key (λ a. a.path) c.managed_artifacts;
}

unfoldable pub sort_ports : List ℕ → List ℕ
sort_ports ports = sort_by ltb ports

unfoldable pub normal_host : HostObserved → HostObserved
normal_host h = record h {
  primary_hardening = record h.primary_hardening {
    ufw_allowed_public_tcp_ports = sort_ports h.primary_hardening.ufw_allowed_public_tcp_ports;
  };
}

-- `NormalizeObservedState`.
unfoldable pub normalize_observed : Observed → Observed
unfolding normal_core normal_host
normalize_observed o = record o {
  host = normal_host o.host;
  core = normal_core o.core;
  modules = map normal_module (sort_key (λ m. m.instance_id) o.modules);
  podman_networks = map normal_network (sort_key (λ n. n.name) o.podman_networks);
  link_networks = map normal_link (sort_key (λ l. l.name) o.link_networks);
  managed_artifacts = sort_key (λ a. a.path) o.managed_artifacts;
}
