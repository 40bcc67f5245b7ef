-- ===== src/Deployment/Graph.antt =====
-- internal/deployment/graph.go: the link networks between the modules.
use vpsmith.Base.{
  ℕ, zero, suc, ◌+◌, ◌*◌, ◌/◌, ◌%◌, Bool, not, ◌&&◌, Option, none, some, List, [], ◌∷◌, ◌++◌,
}
use vpsmith.Base.{if◌then◌else◌, is_empty, take, find, ltb}
use vpsmith.Base.Text.{Text, text, ◌==◌, less}
use vpsmith.Base.Result.{Result, ok, err, reject, require, ◌>>=◌, ◌>>◌}
use vpsmith.Base.Dict.{Dict, lookup, insert, has_key, text_at}
use vpsmith.Base.Sort.{sort_by}
use vpsmith.Contract.Types.{InternalInterface, Dependency}
use vpsmith.Deployment.Types.{ObservedNetwork, LinkNetwork, CompiledModule}

pub data GraphError : Type 0 where
  name_collision invalid_subnet subnet_collision duplicate_relationship : Text → GraphError
  missing_provider ambiguous_provider missing_interface : Text → GraphError
  unexpected_name no_subnet : Text → GraphError
  no_free_subnet : GraphError

-- crypto/sha256 and net/netip.
pub record Library : Type 0 where
  -- The 32 bytes of `sha256.Sum256`.
  pub sum : Text → List ℕ
  -- Whether `netip.ParsePrefix` takes the text.
  pub is_prefix : Text → Bool

-- `encoding/hex`.
abbrev pub hex_digit : ℕ → ℕ
hex_digit n = if ltb n 10 then n + 48 else n + 87

abbrev pub hex : List ℕ → Text
hex [] = []
hex (b ∷ bs) = hex_digit (b / 16) ∷ hex_digit (b % 16) ∷ hex bs

-- `%d` of a number below 1000.
abbrev pub decimal : ℕ → Text
decimal n =
    if ltb n 10
    then (n + 48) ∷ []
    else if ltb n 100
    then (n / 10 + 48) ∷ (n % 10 + 48) ∷ []
    else (n / 100 + 48) ∷ ((n / 10) % 10 + 48) ∷ (n % 10 + 48) ∷ []

-- The subnet of one of the 4096 numbers that `chooseSubnet` tries.
unfoldable pub candidate : ℕ → Text
candidate v =
    text "10." ++ (decimal (240 + v / 256) ++ (text "." ++ (decimal (v % 256) ++ text ".0/24")))

-- The loop of `chooseSubnet` from a probe on, with the number of probes left.
unfoldable pub probe_from : Dict Text → ℕ → ℕ → ℕ → Option Text
probe_from used seed probe zero = none
probe_from used seed probe (suc left) =
    let rest = probe_from used seed (probe + 1) left in
    let c = candidate ((seed + probe) % 4096) in if is_empty (text_at used c) then some c else rest

abbrev pub seed_of : List ℕ → ℕ
seed_of (a ∷ b ∷ bs) = a * 256 + b
seed_of _ = 0

-- `chooseSubnet`.
unfoldable pub choose_subnet : List ℕ → Dict Text → Option Text
choose_subnet sum used = probe_from used (seed_of sum) 0 4096

-- The maps of `deriveLinks`.
pub record Used : Type 0 where
  pub by_relationship : Dict ObservedNetwork
  pub names : Dict Text
  pub subnets : Dict Text

abbrev pub nothing_used : Used
nothing_used = record { by_relationship = []; names = []; subnets = [] }

abbrev pub owner_key : ObservedNetwork → Text
owner_key n = if is_empty n.relationship then text "observed:" ++ n.name else n.relationship

-- An entry that the map has for another owner is a collision; an empty one is not entered.
unfoldable pub note_owner : GraphError → Text → Text → Dict Text → Result GraphError (Dict Text)
note_owner e value owner used =
    if is_empty value
    then ok used
    else if has_key value used && not (text_at used value == owner)
    then err e
    else ok (insert value owner used)

unfoldable pub note_relationship :
    ObservedNetwork → Dict ObservedNetwork → Result GraphError (Dict ObservedNetwork)
note_relationship n by_relationship =
    if is_empty n.relationship
    then ok by_relationship
    else if has_key n.relationship by_relationship
    then err (duplicate_relationship n.relationship)
    else ok (insert n.relationship n by_relationship)

module _ (lib : Library) where
  -- The body of the loop over the observed networks.
  unfoldable pub note_network : Used → ObservedNetwork → Result GraphError Used
  note_network used n = do
    names ← note_owner (name_collision n.name) n.name (owner_key n) used.names
    reject (not (is_empty n.subnet) && not (lib.is_prefix n.subnet)) (invalid_subnet n.name)
    subnets ← note_owner (subnet_collision n.subnet) n.subnet (owner_key n) used.subnets
    by_relationship ← note_relationship n used.by_relationship
    ok (record { by_relationship = by_relationship; names = names; subnets = subnets })

  unfoldable pub note_networks : Used → List ObservedNetwork → Result GraphError Used
  note_networks used [] = ok used
  note_networks used (n ∷ ns) = elim (note_network used n) [
    | err e ↦ err e
    | ok used' ↦ note_networks used' ns
  ]

-- The modules of `byModule[id]`.
unfoldable pub providers_of : Text → List CompiledModule → List CompiledModule
providers_of id [] = []
providers_of id (m ∷ ms) =
    let rest = providers_of id ms in if m.contract.id == id then m ∷ rest else rest

-- `resolveProvider`.
unfoldable pub resolve_provider :
    List CompiledModule
    → CompiledModule
    → Dependency
    → Result GraphError (CompiledModule × InternalInterface)
resolve_provider mods consumer d = elim (providers_of d.target_module mods) [
  | [] ↦ err (missing_provider d.target_module)
  | p ∷ [] ↦ do
    i ←
        require (find (λ i. i.id == d.interface_id) p.contract.interfaces)
          (missing_interface d.interface_id)
    ok (p, i)
  | p ∷ q ∷ ps ↦ err (ambiguous_provider d.target_module)
]

-- `selectLinkSubnet`.
unfoldable pub select_link_subnet : Text → Text → List ℕ → Used → Result GraphError Text
select_link_subnet rel name sum used = elim (lookup rel used.by_relationship) [
  | some existing ↦ do
    reject (not (existing.name == name)) (unexpected_name rel)
    reject (is_empty existing.subnet) (no_subnet rel)
    let owner = text_at used.subnets existing.subnet
    reject (not (is_empty owner) && not (owner == rel)) (subnet_collision existing.subnet)
    ok existing.subnet
  | none ↦ do
    let owner = text_at used.names name
    reject (not (is_empty owner) && not (owner == rel)) (name_collision name)
    require (choose_subnet sum used.subnets) no_free_subnet
]

abbrev pub relationship_of : CompiledModule → Dependency → CompiledModule → Text
relationship_of provider d consumer =
    provider.desired.instance_id
    ++ (text "/"
        ++ (d.interface_id
            ++ (text "->" ++ (consumer.desired.instance_id ++ (text "/" ++ d.consumer)))))

module _ (lib : Library) (mods : List CompiledModule) where
  -- The body of the inner loop of `deriveLinks`.
  unfoldable pub derive_link :
      CompiledModule → Dependency → Used → Result GraphError (Used × LinkNetwork)
  derive_link consumer d used = do
    (provider, interface) ← resolve_provider mods consumer d
    let rel = relationship_of provider d consumer
    let digest = lib.sum rel
    let name = text "vpsmith-link-" ++ hex (take 6 digest)
    subnet ← select_link_subnet rel name digest used
    let used' : Used = record used {
      names = insert name rel used.names;
      subnets = insert subnet rel used.subnets;
    }
    let link : LinkNetwork = record {
      relationship = rel;
      name = name;
      subnet = subnet;
      alias = text "if-" ++ hex (take 4 digest);
      provider = provider.desired.instance_id ++ (text "/" ++ interface.container);
      consumer = consumer.desired.instance_id ++ (text "/" ++ d.consumer);
    }
    ok (used', link)

  unfoldable pub derive_dependencies :
      CompiledModule → List Dependency → Used → Result GraphError (Used × List LinkNetwork)
  derive_dependencies consumer [] used = ok (used, [])
  derive_dependencies consumer (d ∷ ds) used = do
    (used', link) ← derive_link consumer d used
    (last, links) ← derive_dependencies consumer ds used'
    ok (last, link ∷ links)

  unfoldable pub derive_modules :
      List CompiledModule → Used → Result GraphError (Used × List LinkNetwork)
  derive_modules [] used = ok (used, [])
  derive_modules (m ∷ ms) used = do
    (used', links) ← derive_dependencies m m.contract.dependencies used
    (last, more) ← derive_modules ms used'
    ok (last, links ++ more)

abbrev pub link_before : LinkNetwork → LinkNetwork → Bool
link_before a b = less a.relationship b.relationship

-- `deriveLinks`.
unfoldable pub derive_links :
    Library → List CompiledModule → List ObservedNetwork → Result GraphError (List LinkNetwork)
derive_links lib mods observed = do
  used ← note_networks lib nothing_used observed
  (last, links) ← derive_modules lib mods mods used
  ok (sort_by link_before links)
