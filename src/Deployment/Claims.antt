-- ===== src/Deployment/Claims.antt =====
-- internal/deployment/claims.go: no two owners hold the same resource.
use vpsmith.Base.{Bool, not, ◌&&◌, ◌||◌, List, [], ◌∷◌, ◌++◌, map}
use vpsmith.Base.{if◌then◌else◌, is_empty}
use vpsmith.Base.Text.{Text, text, ◌==◌, is_blank, less, to_lower, trim_prefix}
use vpsmith.Base.Result.{Result, ok, reject, ◌>>=◌, ◌>>◌}
use vpsmith.Base.Sort.{sort_by}
use vpsmith.Contract.Types.{Container}
use vpsmith.Deployment.Types.{ObservedClaim, LinkNetwork, CompiledModule}

pub record Claim : Type 0 where
  pub kind : Text
  pub value : Text
  pub owner : Text

pub data ClaimError : Type 0 where
  incomplete_claim : ClaimError
  resource_collision : Claim → Claim → ClaimError

abbrev pub claim : Text → Text → Text → Claim
claim kind value owner = record { kind = kind; value = value; owner = owner }

abbrev pub container_claims : Text → Text → List Container → List Claim
container_claims owner prefix [] = []
container_claims owner prefix (c ∷ cs) =
    claim (text "container") (prefix ++ (text "-" ++ c.id)) owner
    ∷ claim (text "unit") (prefix ++ (text "-" ++ (c.id ++ text ".service"))) owner
    ∷ container_claims owner prefix cs

abbrev pub module_claims : CompiledModule → List Claim
module_claims m =
    let owner = m.desired.instance_id in
    let prefix = text "vpsmith-" ++ owner in
    container_claims owner prefix m.contract.containers
    ++ (map (λ s. claim (text "path") s.path owner) m.contract.persistent
        ++ (map (λ n. claim (text "network") (prefix ++ (text "-" ++ n.id)) owner)
              m.contract.networks
            ++ (map (λ r. claim (text "hostname") (to_lower r.hostname) owner)
                  m.contract.public_routes
                ++ map (λ p. claim (text "secret") p.1 owner) m.desired.secret_ids)))

abbrev pub link_claims : LinkNetwork → List Claim
link_claims l =
    claim (text "network") l.name l.relationship
    ∷ claim (text "subnet") l.subnet l.relationship
    ∷ claim (text "alias") (l.name ++ (text ":" ++ l.alias)) l.relationship
    ∷ []

abbrev pub all_module_claims : List CompiledModule → List Claim
all_module_claims [] = []
all_module_claims (m ∷ ms) = module_claims m ++ all_module_claims ms

abbrev pub all_link_claims : List LinkNetwork → List Claim
all_link_claims [] = []
all_link_claims (l ∷ ls) = link_claims l ++ all_link_claims ls

-- `deriveClaims`.
unfoldable pub derive_claims : List CompiledModule → List LinkNetwork → List Claim
derive_claims mods links = all_module_claims mods ++ all_link_claims links

-- The loop over the observed claims.
unfoldable pub observed_claims : List ObservedClaim → Result ClaimError (List Claim)
observed_claims [] = ok []
observed_claims (o ∷ os) = do
  reject (is_blank o.kind || is_blank o.value) incomplete_claim
  rest ← observed_claims os
  ok (claim o.kind o.value (text "observed:" ++ o.owner) ∷ rest)

-- The order of `sort.Slice`.
abbrev pub claim_before : Claim → Claim → Bool
claim_before a b =
    if not (a.kind == b.kind)
    then less a.kind b.kind
    else if not (a.value == b.value)
    then less a.value b.value
    else less a.owner b.owner

-- `sameLogicalOwner`.
abbrev pub same_logical_owner : Text → Text → Bool
same_logical_owner a b =
    not (is_empty (trim_prefix a (text "observed:")))
    && trim_prefix a (text "observed:") == trim_prefix b (text "observed:")

abbrev pub collides : Claim → Claim → Bool
collides a b = a.kind == b.kind && a.value == b.value && not (same_logical_owner a.owner b.owner)

-- The loop over neighbours, from a claim on.
unfoldable pub check_neighbours : Claim → List Claim → Result ClaimError (Unit {0})
check_neighbours a [] = ok tt
check_neighbours a (b ∷ cs) = do
  reject (collides a b) (resource_collision a b)
  check_neighbours b cs

abbrev pub check_claims : List Claim → Result ClaimError (Unit {0})
check_claims [] = ok tt
check_claims (a ∷ cs) = check_neighbours a cs

-- `validateClaims`.
unfoldable pub validate_claims :
    List CompiledModule → List LinkNetwork → List ObservedClaim → Result ClaimError (Unit {0})
validate_claims mods links observed = do
  seen ← observed_claims observed
  check_claims (sort_by claim_before (derive_claims mods links ++ seen))
