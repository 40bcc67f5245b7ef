-- ===== src/Deployment/Freeze.antt =====
-- internal/deployment/freeze.go and helpers.go: the identities that a plan freezes.
use vpsmith.Base.{Bool, true, ◌&&◌, ◌||◌, Option, none, some, List, [], ◌∷◌, ◌++◌, map}
use vpsmith.Base.{if◌then◌else◌, is_empty, eqb, leb, length}
use vpsmith.Base.Text.{Text, text, ◌==◌, has_prefix, trim_prefix}
use vpsmith.Base.Dict.{Dict, lookup, keys, text_at}
use vpsmith.Base.Sort.{sort_texts}
use vpsmith.Bundle.Types.{SourceIdentity, ImageIdentity, SecretReference}
use vpsmith.Deployment.Diff.{enter_all}
use vpsmith.Contract.Types.{Image, Secret}
use vpsmith.Deployment.Types.{Request, CompiledModule}
use vpsmith.Deployment.Validation.{find_module, find_observed}

pub record FrozenIdentity : Type 0 where
  pub instance_id : Text
  pub module_id : Text
  pub version : Text
  pub source_id : Text
  pub package_id : Text
  pub git_commit : Text
  pub package_sha256 : Text

pub record Identities : Type 0 where
  pub frozen : List FrozenIdentity
  pub sources : List SourceIdentity
  pub images : List ImageIdentity
  pub image_map : Dict Text

abbrev pub frozen_identity : CompiledModule → FrozenIdentity
frozen_identity m = record {
  instance_id = m.desired.instance_id;
  module_id = m.contract.id;
  version = m.contract.version;
  source_id = m.desired.source.source_id;
  package_id = m.desired.source.package_id;
  git_commit = m.desired.source.git_commit;
  package_sha256 = m.desired.source.package_sha256;
}

abbrev pub source_identity : CompiledModule → SourceIdentity
source_identity m = record {
  kind = text "module";
  id = m.desired.source.source_id;
  version = m.contract.version;
  git_commit = m.desired.source.git_commit;
  package_sha256 = m.desired.source.package_sha256;
}

abbrev pub ref_of : Option Image → Text
ref_of none = []
ref_of (some i) = i.ref

abbrev pub image_identities : CompiledModule → List Text → List ImageIdentity
image_identities m [] = []
image_identities m (id ∷ ids) =
    record {
      name = m.desired.instance_id ++ (text "/" ++ id);
      ref = ref_of (lookup id m.contract.images);
      digest = text_at m.images id;
    }
    ∷ image_identities m ids

abbrev pub all_image_identities : List CompiledModule → List ImageIdentity
all_image_identities [] = []
all_image_identities (m ∷ ms) =
    image_identities m (sort_texts (keys m.images)) ++ all_image_identities ms

abbrev pub with_detached : List CompiledModule → Option CompiledModule → List CompiledModule
with_detached mods none = mods
with_detached mods (some m) = mods ++ (m ∷ [])

-- `freezePlanIdentities`.
unfoldable pub freeze_plan_identities :
    Request → List CompiledModule → Option CompiledModule → Identities
freeze_plan_identities req mods detached =
    let all = with_detached mods detached in
    let core = if is_empty req.core_source.id then [] else req.core_source ∷ [] in
    let images = all_image_identities all in
    record {
      frozen = map frozen_identity all;
      sources = core ++ map source_identity all;
      images = images;
      image_map = enter_all (map (λ i. (i.name, i.digest)) images) [];
    }

abbrev pub secret_target : Secret → Text
secret_target s = if s.delivery == text "file" then s.path else s.name

abbrev pub secret_references : CompiledModule → List Secret → List SecretReference
secret_references m [] = []
secret_references m (s ∷ ss) =
    map
      (λ c. record {
        secret_id = text_at m.desired.secret_ids s.id;
        container = m.desired.instance_id ++ (text "/" ++ c);
        delivery = s.delivery;
        target = secret_target s;
      })
      s.containers
    ++ secret_references m ss

-- `bundleSecrets`.
unfoldable pub bundle_secrets : List CompiledModule → List SecretReference
bundle_secrets [] = []
bundle_secrets (m ∷ ms) = secret_references m m.contract.secrets ++ bundle_secrets ms

-- The digits that `hex.DecodeString` takes.
abbrev pub hex_digits : Text → Bool
hex_digits [] = true
hex_digits (c ∷ s) =
    ((leb b'0' c && leb c b'9') || (leb b'a' c && leb c b'f') || (leb b'A' c && leb c b'F'))
    && hex_digits s

-- `validDigest`. 64 digits are an even number.
unfoldable pub valid_digest : Text → Bool
valid_digest v =
    has_prefix v (text "sha256:")
    && eqb (length v) 71
    && hex_digits (trim_prefix v (text "sha256:"))

-- `subjectVersion`.
abbrev pub subject_version : Request → List CompiledModule → Option CompiledModule → Text
subject_version req mods detached = elim (find_module req.subject_instance mods) [
  | some m ↦ m.contract.version
  | none ↦ elim detached [
    | some m ↦ m.contract.version
    | none ↦ elim (find_observed req.subject_instance req.observed.modules) [
      | some o ↦ o.version
      | none ↦ text "unknown"
    ]
  ]
]

-- `subjectBundleIdentity`: the module, its package and the package's hash.
abbrev pub identity_of : CompiledModule → Text × Text × Text
identity_of m = (m.contract.id, m.desired.source.package_id, m.desired.source.package_sha256)

abbrev pub subject_bundle_identity :
    Request → List CompiledModule → Option CompiledModule → Text × Text × Text
subject_bundle_identity req mods detached = elim (find_module req.subject_instance mods) [
  | some m ↦ identity_of m
  | none ↦ elim detached [ some m ↦ identity_of m | none ↦ (text "unknown", [], []) ]
]
