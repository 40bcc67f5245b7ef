-- ===== src/Deployment/Diff.antt =====
-- internal/deployment/state.go: what the target must be like before and after, and how it differs now. A
-- Go map is visited in the order of its entries here; Go leaves the order open.
use vpsmith.Base.{Bool, not, ◌&&◌, ◌||◌, Option, none, some, List, [], ◌∷◌, ◌++◌, map}
use vpsmith.Base.{if◌then◌else◌, is_empty}
use vpsmith.Base.Text.{Text, text, ◌==◌, contains, less, cut}
use vpsmith.Base.Dict.{Dict, insert, text_at}
use vpsmith.Base.Sort.{sort_by, sort_texts}
use vpsmith.Bundle.Types.{Precondition}
use vpsmith.Contract.Types.{Container}
use vpsmith.Deployment.Types.{Request, ObservedModule, LinkNetwork, CompiledModule}
use vpsmith.Deployment.Validation.{find_observed, is_uninstall}
use vpsmith.Deployment.Plan.{GeneratedArtifact}

pub record DiffFact : Type 0 where
  pub kind : Text
  pub subject : Text
  pub desired : Text
  pub observed : Text

abbrev pub fact : Text → Text → Text → Text → DiffFact
fact kind subject desired observed = record {
  kind = kind;
  subject = subject;
  desired = desired;
  observed = observed;
}

abbrev pub condition : Text → Text → Text → Precondition
condition kind subject expected = record { kind = kind; subject = subject; expected = expected }

abbrev pub module_conditions : List ObservedModule → List Precondition
module_conditions [] = []
module_conditions (o ∷ os) =
    condition (text "module-version") o.instance_id o.version
    ∷ condition (text "module-package-sha256") o.instance_id o.package_sha256
    ∷ (map (λ p. condition (text "artifact-sha256") p.0 p.1) o.artifact_sha256
        ++ module_conditions os)

-- `preconditions`.
unfoldable pub preconditions : Request → List Precondition
preconditions req =
    condition (text "target") req.target_id (text "same-target")
    ∷ (module_conditions req.observed.modules
        ++ (if is_empty req.observed.core_id
            then []
            else condition (text "core") (text "core") req.observed.core_id ∷ []))

-- `participantInstance` of generator_inventory.go.
abbrev pub participant_instance : Text → Text
participant_instance v = elim (cut b'/' v) [ none ↦ v | some (a, b) ↦ a ]

abbrev pub container_objects : Text → List Container → List Text
container_objects prefix [] = []
container_objects prefix (c ∷ cs) =
    (text "container:" ++ (prefix ++ (text "-" ++ c.id)))
    ∷ (text "unit:" ++ (prefix ++ (text "-" ++ (c.id ++ text ".service"))))
    ∷ container_objects prefix cs

abbrev pub link_objects : Text → List LinkNetwork → List Text
link_objects id [] = []
link_objects id (l ∷ ls) =
    let rest = link_objects id ls in
    if participant_instance l.provider == id || participant_instance l.consumer == id
    then (text "network:" ++ l.name) ∷ rest
    else rest

-- `runtimeObjects`.
unfoldable pub runtime_objects : CompiledModule → List LinkNetwork → List Text
runtime_objects m links =
    let prefix = text "vpsmith-" ++ m.desired.instance_id in
    sort_texts (
      container_objects prefix m.contract.containers
      ++ (map (λ n. text "network:" ++ (prefix ++ (text "-" ++ n.id))) m.contract.networks
          ++ link_objects m.desired.instance_id links))

-- A set of texts, as a list without repetition.
unfoldable pub set_of : List Text → List Text
set_of [] = []
set_of (t ∷ ts) = let rest = set_of ts in if contains rest t then rest else t ∷ rest

unfoldable pub without : Text → List Text → List Text
without t [] = []
without t (u ∷ us) = let rest = without t us in if u == t then rest else u ∷ rest

-- The two loops over the runtime objects of a module: what is wanted and missing, and what is left.
unfoldable pub runtime_facts : Text → List Text → List Text → List DiffFact
runtime_facts id [] got = map (λ v. fact (text "runtime_unexpected") id [] v) got
runtime_facts id (w ∷ ws) got =
    let rest = runtime_facts id ws (without w got) in
    if contains got w then rest else fact (text "runtime_missing") id w [] ∷ rest

abbrev pub image_facts : Text → Dict Text → Dict Text → List DiffFact
image_facts id seen [] = []
image_facts id seen ((image, digest) ∷ images) =
    let rest = image_facts id seen images in
    if text_at seen image == digest
    then rest
    else fact (text "image_digest_changed") (id ++ (text "/" ++ image)) digest (text_at seen image)
      ∷ rest

abbrev pub changed : Text → Text → Text → Text → List DiffFact
changed kind subject desired observed =
    if observed == desired then [] else fact kind subject desired observed ∷ []

-- The module of an instance in the map `obs`, where the last one wins.
abbrev pub last_observed :
    Text → Option ObservedModule → List ObservedModule → Option ObservedModule
last_observed id found [] = found
last_observed id found (o ∷ os) =
    last_observed id (if o.instance_id == id then some o else found) os

abbrev pub module_facts : List LinkNetwork → CompiledModule → Option ObservedModule → List DiffFact
module_facts links m none =
    fact (text "module_missing") m.desired.instance_id m.contract.version [] ∷ []
module_facts links m (some o) =
    let id = m.desired.instance_id in
    changed (text "version_changed") id m.contract.version o.version
    ++ (changed (text "source_changed") id m.desired.source.package_sha256 o.package_sha256
        ++ (image_facts id o.image_digests m.images
            ++ runtime_facts id (runtime_objects m links) (set_of o.runtime_objects)))

abbrev pub all_module_facts :
    List LinkNetwork → List ObservedModule → List CompiledModule → List DiffFact
all_module_facts links observed [] = []
all_module_facts links observed (m ∷ ms) =
    module_facts links m (last_observed m.desired.instance_id none observed)
    ++ all_module_facts links observed ms

abbrev pub removed_facts : Option ObservedModule → List DiffFact
removed_facts none = []
removed_facts (some o) = fact (text "module_removed") o.instance_id [] o.version ∷ []

-- The map `artifactObs`.
abbrev pub enter_all : Dict Text → Dict Text → Dict Text
enter_all [] m = m
enter_all ((k, v) ∷ more) m = enter_all more (insert k v m)

abbrev pub observed_artifacts : List ObservedModule → Dict Text → Dict Text
observed_artifacts [] m = m
observed_artifacts (o ∷ os) m = observed_artifacts os (enter_all o.artifact_sha256 m)

abbrev pub artifact_facts : Dict Text → List GeneratedArtifact → List DiffFact
artifact_facts seen [] = []
artifact_facts seen (a ∷ as') =
    let got = text_at seen a.target_path in
    let rest = artifact_facts seen as' in
    if not (is_empty got) && not (got == a.sha256)
    then fact (text "artifact_hash_changed") a.target_path a.sha256 got ∷ rest
    else rest

abbrev pub fact_before : DiffFact → DiffFact → Bool
fact_before a b = if a.kind == b.kind then less a.subject b.subject else less a.kind b.kind

-- `diffState`.
unfoldable pub diff_state :
    Request → List CompiledModule → List GeneratedArtifact → List LinkNetwork → List DiffFact
diff_state req mods artifacts links =
    let observed = req.observed.modules in
    let removed =
      if is_uninstall req.operation
      then removed_facts (find_observed req.subject_instance observed)
      else [] in
    sort_by fact_before (
      removed
      ++ (all_module_facts links observed mods
          ++ artifact_facts (observed_artifacts observed []) artifacts))

-- `expectedPost`: the document, before it is JSON.
pub record ModulePost : Type 0 where
  pub instance_id : Text
  pub module_id : Text
  pub version : Text
  pub package_sha256 : Text
  pub images : Dict Text

pub record ExpectedPost : Type 0 where
  pub target_id : Text
  pub modules : List ModulePost
  pub artifacts : Dict Text

abbrev pub module_post : CompiledModule → ModulePost
module_post m = record {
  instance_id = m.desired.instance_id;
  module_id = m.contract.id;
  version = m.contract.version;
  package_sha256 = m.desired.source.package_sha256;
  images = m.images;
}

unfoldable pub expected_post : Request → List CompiledModule → List GeneratedArtifact → ExpectedPost
expected_post req mods artifacts = record {
  target_id = req.target_id;
  modules = map module_post mods;
  artifacts = enter_all (map (λ a. (a.target_path, a.sha256)) artifacts) [];
}
