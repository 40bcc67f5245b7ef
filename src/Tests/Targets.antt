-- ===== src/Tests/Targets.antt =====
-- A small target gateway: one target whose host key is confirmed, and a transport that answers.
use vpsmith.Base.{true, false, none, some, [], ◌∷◌}
use vpsmith.Base.Text.{Text, text}
use vpsmith.Base.Result.{Result, ok, err}
use vpsmith.State.Types.{Target, TrustStatus, trust_confirmed, SecretOrigin, DesiredState}
use vpsmith.State.Db.{Db, empty_db}
use vpsmith.State.Guards.{empty_desired}
use vpsmith.State.Observed
use vpsmith.State.Observed.{Observed}
use vpsmith.Gateway.Types.{SshIdentity, HostKeyObservation, Transport}
use vpsmith.Gateway.Trust.{Database, Fresh}
use vpsmith.Gateway.Inspect.{required}

abbrev pub seed : Text
seed = text "0123456789abcdef0123456789abcdef"

abbrev pub desired : DesiredState
desired = record empty_desired {
  cloud_init = record empty_desired.cloud_init { definition_version = text "1" };
}

abbrev pub target : Text → TrustStatus → Text → Target
target secret trust key = record {
  id = text "t";
  address = text "a";
  ssh_user = text "u";
  ssh_identity_secret_id = secret;
  ssh_host_key = key;
  ssh_host_fingerprint = key;
  ssh_trust = trust;
  desired = desired;
  observed = [];
}

abbrev pub new_db : Db
new_db = record empty_db { targets = target [] TrustStatus.trust_unknown [] ∷ [] }

abbrev pub confirmed_db : Db
confirmed_db = record empty_db {
  targets = target (text "s") trust_confirmed (text "k") ∷ [];
  secrets =
      record {
        id = text "s";
        name = text "ssh-admin:t";
        origin = SecretOrigin.generated;
        created_at = text "now";
        rotated_at = [];
        rotation_count = 0;
        ciphertext = some (1 ∷ seed);
      }
      ∷ [];
}

abbrev pub ensured_db : Db
ensured_db = record confirmed_db { targets = target (text "s") TrustStatus.trust_unknown [] ∷ [] }

abbrev pub key : HostKeyObservation
key = record { algorithm = text "e"; public_key = text "k"; fingerprint = text "k" }

abbrev pub no_bytes : Observed.ByteCounts
no_bytes = record { total_bytes = 0; available_bytes = 0 }

abbrev pub no_service : Observed.ServiceObserved
no_service = record {
  present = false;
  running = false;
  config_checked = false;
  config_valid = false;
}

abbrev pub hardening : Observed.PrimaryHardening
hardening = record {
  root_password_locked = true;
  ssh_config_valid = true;
  ssh_values = required;
  ufw_active = true;
  ufw_default_incoming = text "deny";
  ufw_default_outgoing = text "allow";
  ufw_default_routed = text "deny";
  ufw_logging_low = true;
  ufw_unexpected_public_allow = false;
  ufw_allowed_public_tcp_ports = 80 ∷ 22 ∷ 443 ∷ [];
  fail2ban_ssh_active = true;
  fail2ban_recidive_active = true;
  unattended_upgrades_enabled = true;
  automatic_reboot_disabled = true;
}

abbrev pub observed : Observed
observed = record {
  observed_at = [];
  host = record {
    reachable = true;
    ssh = true;
    hostname = text "h";
    os_id = text "debian";
    os_version = text "13";
    kernel = text "6";
    root_filesystem = no_bytes;
    memory = no_bytes;
    swap = no_bytes;
    reboot_required = false;
    ufw_active = true;
    fail2ban_active = true;
    primary_hardening = hardening;
  };
  cloud_init = record {
    present = true;
    status = text "ok";
    version = text "1";
    finished_at = text "then";
  };
  core = record {
    present = false;
    source_id = [];
    version = [];
    package_sha256 = [];
    running = false;
    podman = record {
      present = false;
      rootless = false;
      cgroup_version = [];
      rootless_network_cmd = [];
    };
    units = [];
    containers = [];
    networks = [];
    caddy = no_service;
    authelia = no_service;
    execution_proofs = [];
    managed_artifacts = [];
  };
  modules = [];
  podman_networks = [];
  link_networks = [];
  managed_artifacts = [];
}

abbrev pub unready : Observed
unready = record observed { cloud_init = record observed.cloud_init { present = false } }

abbrev pub transport : Result Text Observed → Transport
transport answer = record {
  on_host_key = λ wire endpoint. ok key;
  on_inspect = λ wire sess. answer;
  on_observe = λ wire sess run. err (text "silent");
  on_use = λ wire sess u. none;
  runs_executions = true;
  runs_runtime = true;
  prepares_copies = true;
  transfers_copies = true;
  cleans_copies = true;
}

abbrev pub database : Database
database = record { reads = true; begins = true; commits = true }

abbrev pub fresh : Fresh
fresh = record { seed = seed; secret_id = text "s"; nonce = text "n"; now = text "now" }

abbrev pub public : Text → Text → SshIdentity
public id private = record { public_key = private; fingerprint = id }

abbrev pub json : Observed → Text
json o = o.observed_at
