-- ===== src/Contract/Valid/Lists.antt =====
-- internal/modulecontract: what the checks of containers, storage, networks and secrets find out.
use vpsmith.Base.{◌≡◌, refl, inl, inr, arith, true, false, not, List, [], ◌∷◌, All, All-map}
use vpsmith.Base.{if◌then◌else◌, is_empty}
use vpsmith.Base.Text.{Text, contains}
use vpsmith.Base.Result.{ok, >>=-eq-ok, Result-cases}
use vpsmith.Base.Dict.{Dict, insert}
use vpsmith.Base.Table.{has_row, Unique}
use vpsmith.Base.Keys.{for_each-All, fresh-has_row}
use vpsmith.Contract.Types.{Container, HostPort, Mount, Secret, Module}
use vpsmith.Contract.Errors.{duplicate_network}
use vpsmith.Contract.Validate.{
  declare, check_container, validate_containers, declare_storage, check_mount, validate_storage,
  validate_networks, target_of, claim_targets, is_environment, declare_secrets, validate_secrets,
}
use vpsmith.Contract.Valid.Declared.{Fresh, Fresh-rest, declare-Declared, declare_storage-Declared}

-- The set of the containers, behind the check of them.
pub record Containers (images : List Text) (rows : List Container) (found : List Text)
    : Type 0 where
  pub apart : Unique (λ c. c.id) rows
  pub same : (t : Text) → contains found t ≡ has_row (λ c. c.id) t rows
  pub images_known : All (λ c. contains images c.image ≡ true) rows
  pub closed : All (λ c. c.host_ports ≡ []) rows

none_open : (ports : List HostPort) → not (is_empty ports) ≡ false → ports ≡ []
none_open [] h = refl
none_open (p ∷ ports) h = ground arith

check_container_lem :
    (images : List Text) (c : Container)
    → check_container images c ≡ ok tt
    → (contains images c.image ≡ true) × (c.host_ports ≡ [])
unfolding check_container
check_container_lem images c h = (ground arith, none_open c.host_ports (ground arith))

pub contains-nil : (t : Text) → contains [] t ≡ false
unfolding contains
contains-nil t = refl

pub validate_containers-Containers :
    (images : List Text) (rows : List Container) {found : List Text}
    → validate_containers images rows ≡ ok found
    → Containers images rows found
unfolding validate_containers
validate_containers-Containers images rows {found} h =
    let d = declare-Declared _ _ _ (check_container images) [] rows h in
    record {
      apart = d.apart;
      same = λ t. ground (arith, d.same t, contains-nil t);
      images_known = All-map _ _ rows (λ c p. (check_container_lem images c p.1).0) d.checked;
      closed = All-map _ _ rows (λ c p. (check_container_lem images c p.1).1) d.checked;
    }

pub record Storage (m : Module) : Type 0 where
  pub apart : Unique (λ s. s.id) m.persistent
  pub paths_apart : Unique (λ s. s.path) m.persistent
  pub mounts :
      All
        (λ c. All (λ t. has_row (λ s. s.id) t.storage_id m.persistent ≡ true) c.mounts)
        m.containers

check_mount_lem :
    (storage : List Text) (c : Container) (t : Mount)
    → check_mount storage c t ≡ ok tt
    → contains storage t.storage_id ≡ true
unfolding check_mount
check_mount_lem storage c t h = ground arith

pub validate_storage-Storage : (m : Module) → validate_storage m ≡ ok tt → Storage m
unfolding validate_storage
validate_storage-Storage m h =
    let (storage, good, rest) = >>=-eq-ok (declare_storage [] [] m.persistent) _ h in
    let d = declare_storage-Declared [] [] m.persistent good in
    record {
      apart = d.apart;
      paths_apart = d.paths_apart;
      mounts =
          for_each-All _ _
            (λ c inner.
              for_each-All _ _
                (λ t one.
                  let e = check_mount_lem storage c t one in
                  ground (arith, d.same t.storage_id, contains-nil t.storage_id))
                c.mounts inner)
            m.containers rest;
    }

pub record Networks (m : Module) : Type 0 where
  pub apart : Unique (λ n. n.id) m.networks
  pub known : All (λ c. All (λ n. has_row (λ w. w.id) n m.networks ≡ true) c.networks) m.containers

pub validate_networks-Networks : (m : Module) → validate_networks m ≡ ok tt → Networks m
unfolding validate_networks
validate_networks-Networks m h =
    let (found, good, rest) =
      >>=-eq-ok (declare (λ n. n.id) duplicate_network _ _ [] m.networks) _ h in
    let d = declare-Declared _ _ _ _ [] m.networks good in
    record {
      apart = d.apart;
      known =
          for_each-All _ _
            (λ c inner.
              for_each-All _ _ (λ n one. ground (arith, d.same n, contains-nil n)) c.networks inner)
            m.containers rest;
    }

pub record Secrets (containers : List Text) (rows : List Secret) (ids : List Text) : Type 0 where
  pub fresh : Fresh (λ s. s.id) ids rows
  pub apart : Unique (λ s. s.id) rows
  pub known : All (λ s. All (λ c. contains containers c ≡ true) s.containers) rows

claim_targets_lem :
    (containers : List Text) (s : Secret) (targets : Dict Text) (cs : List Text) {found : Dict Text}
    → claim_targets containers s targets cs ≡ ok found
    → All (λ c. contains containers c ≡ true) cs
unfolding claim_targets
claim_targets_lem containers s targets [] h = tt
claim_targets_lem containers s targets (c ∷ cs) {found} h =
    let rest : claim_targets containers s (insert (target_of s c) s.id targets) cs ≡ ok found =
      ground arith in
    (ground arith, claim_targets_lem containers s (insert (target_of s c) s.id targets) cs rest)

declare_secrets-Secrets :
    (containers ids names : List Text) (targets : Dict Text) (rows : List Secret)
    {found : List Text}
    → declare_secrets containers ids names targets rows ≡ ok found
    → Secrets containers rows ids
unfolding declare_secrets
declare_secrets-Secrets containers ids names targets [] h = record {
  fresh = tt;
  apart = tt;
  known = tt;
}
declare_secrets-Secrets containers ids names targets (s ∷ rows) {found} h =
    let new : contains ids s.id ≡ false = ground arith in
    elim (Result-cases (claim_targets containers s targets s.containers)) [
      | inl (e, bad) ↦ ground arith
      | inr (more, good) ↦
          let names' : List Text = if is_environment s then s.name ∷ names else names in
          let g : declare_secrets containers (s.id ∷ ids) names' more rows ≡ ok found =
            ground arith in
          let rest = declare_secrets-Secrets containers (s.id ∷ ids) names' more rows g in
          let (old, other) = Fresh-rest (λ (x : Secret). x.id) s.id ids rows rest.fresh in
          record {
            fresh = (new, old);
            apart = (fresh-has_row (λ x. x.id) s.id rows other, rest.apart);
            known = (claim_targets_lem containers s targets s.containers good, rest.known);
          }
    ]

pub validate_secrets_lem :
    (containers : List Text) (m : Module)
    → validate_secrets containers m ≡ ok tt
    → Secrets containers m.secrets []
unfolding validate_secrets
validate_secrets_lem containers m h =
    let (names, good, rest) = >>=-eq-ok (declare_secrets containers [] [] [] m.secrets) _ h in
    declare_secrets-Secrets containers [] [] [] m.secrets good
