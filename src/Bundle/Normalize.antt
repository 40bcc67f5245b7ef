-- ===== src/Bundle/Normalize.antt =====
-- internal/executionbundle/normalize.go: what an input has to satisfy, and the one order in which a
-- manifest lists its parts.
use Prim.Native.Nat.{bit_and}
use vpsmith.Base.{ℕ, Bool, not, ◌&&◌, ◌||◌, List, [], ◌∷◌, ◌++◌}
use vpsmith.Base.{if◌then◌else◌, eqb, is_empty, length}
use vpsmith.Base.Text.{Text, text, ◌==◌, less, contains, is_blank, has_prefix, trim_prefix}
use vpsmith.Base.Result.{Result, ok, reject, for_each, ◌>>=◌, ◌>>◌}
use vpsmith.Base.Sort.{sort_by, sort_texts}
use vpsmith.Bundle.Types.{
  is_validation, is_known, SourceIdentity, ImageIdentity, SecretReference, Precondition, Step,
  Artifact, Action, File, Manifest, Input,
}
use vpsmith.Bundle.Paths.{valid_bundle_path, valid_target_path, valid_writable_path, valid_sha256}
use vpsmith.Bundle.Codec.{Codec}

pub data InputError : Type 0 where
  invalid_kind incomplete_identity unequal_actions writable_needs_module : InputError
  invalid_writable_path duplicate_writable_path : Text → InputError
  invalid_package_sha256 invalid_source invalid_image : InputError
  mutating_step : Text → InputError
  invalid_target_path invalid_path duplicate_path unsafe_mode : Text → InputError
  expected_post_encoding manifest_encoding archive_encoding : InputError

unfoldable pub check_writable : List Text → List Text → Result InputError (Unit {0})
check_writable seen [] = ok tt
check_writable seen (p ∷ ps) = do
  reject (not (valid_writable_path p)) (invalid_writable_path p)
  reject (contains seen p) (duplicate_writable_path p)
  check_writable (p ∷ seen) ps

abbrev pub check_source : SourceIdentity → Result InputError (Unit {0})
check_source s =
    reject
      (is_blank s.kind
        || is_blank s.id
        || is_blank s.version
        || not (valid_sha256 s.package_sha256))
      invalid_source

abbrev pub check_image : ImageIdentity → Result InputError (Unit {0})
check_image i =
    reject
      (is_blank i.name
        || is_blank i.ref
        || not (has_prefix i.digest (text "sha256:"))
        || not (valid_sha256 (trim_prefix i.digest (text "sha256:"))))
      invalid_image

abbrev pub check_step : Step → Result InputError (Unit {0})
check_step s = reject s.mutating (mutating_step s.id)

unfoldable pub validate_input : Input → Result InputError (Unit {0})
unfolding check_writable
validate_input input = do
  reject (not (is_known input.kind)) invalid_kind
  reject
      (is_blank input.target_id
        || is_blank input.subject_kind
        || is_blank input.subject_id
        || is_blank input.subject_identity
        || is_blank input.version)
      incomplete_identity
  reject (not (eqb (length input.action_ids) (length input.actions))) unequal_actions
  reject (not (is_empty input.action_writable_paths) && not (input.subject_kind == text "module"))
      writable_needs_module
  check_writable [] input.action_writable_paths
  reject (not (input.package_sha256 == []) && not (valid_sha256 input.package_sha256))
      invalid_package_sha256
  for_each check_source input.sources
  for_each check_image input.images
  if is_validation input.kind then for_each check_step input.steps else ok tt

-- `files` and `seen` of `normalizeFiles`; `files` is in the order of the calls of `add`.
pub record Added : Type 0 where
  pub seen : List Text
  pub files : List File

-- 0o755 and 0o444.
abbrev pub mode_mask : ℕ
mode_mask = 493

abbrev pub read_only_mode : ℕ
read_only_mode = 292

abbrev pub with_mode : File → File
with_mode f = if eqb f.mode 0 then record f { mode = read_only_mode } else f

-- The closure `add`: the file as it is kept. Its digest is taken by the caller.
unfoldable pub add : Added → File → Result InputError (File × Added)
add a f = do
  reject (not (valid_bundle_path f.path)) (invalid_path f.path)
  reject (contains a.seen f.path) (duplicate_path f.path)
  reject (not (eqb (bit_and (with_mode f).mode mode_mask) (with_mode f).mode)) (unsafe_mode f.path)
  ok (with_mode f, record { seen = f.path ∷ a.seen; files = a.files ++ (with_mode f ∷ []) })

module _ (c : Codec) where
  -- The loop over `in.Files`. The artifact carries the mode that the input gives.
  unfoldable pub add_files : Added → List File → Result InputError (List Artifact × Added)
  unfolding add
  add_files a [] = ok ([], a)
  add_files a (f ∷ fs) = do
    reject (not (valid_target_path f.target_path)) (invalid_target_path f.target_path)
    (kept, a') ← add a f
    (rest, a'') ← add_files a' fs
    let made : Artifact = record {
      path = f.path;
      target_path = f.target_path;
      sha256 = c.sha256_hex f.bytes;
      mode = f.mode;
    }
    ok (made ∷ rest, a'')

  -- The loop over `in.Actions`; `validateInput` has compared the lengths.
  unfoldable pub add_actions :
      Added → List Text → List File → Result InputError (List Action × Added)
  unfolding add
  add_actions a (id ∷ ids) (f ∷ fs) = do
    (kept, a') ← add a f
    (rest, a'') ← add_actions a' ids fs
    let made : Action = record { id = id; path = f.path; sha256 = c.sha256_hex f.bytes }
    ok (made ∷ rest, a'')
  add_actions a _ _ = ok ([], a)

  unfoldable pub normalize_files :
      Input → Result InputError (List File × List Artifact × List Action)
  unfolding add_files add_actions
  normalize_files input = do
    (artifacts, a) ← add_files (record { seen = []; files = [] }) input.files
    (actions, a') ← add_actions a input.action_ids input.actions
    ok (a'.files, sort_by (λ x y. less x.path y.path) artifacts, actions)

abbrev pub source_before : SourceIdentity → SourceIdentity → Bool
source_before a b = if a.kind == b.kind then less a.id b.id else less a.kind b.kind

abbrev pub secret_before : SecretReference → SecretReference → Bool
secret_before a b =
    if not (a.secret_id == b.secret_id)
    then less a.secret_id b.secret_id
    else if not (a.container == b.container)
    then less a.container b.container
    else less a.target b.target

abbrev pub precondition_before : Precondition → Precondition → Bool
precondition_before a b =
    if not (a.kind == b.kind)
    then less a.kind b.kind
    else if not (a.subject == b.subject)
    then less a.subject b.subject
    else less a.expected b.expected

-- A nil slice and an empty one are both the empty list here.
unfoldable pub normalize_manifest : Manifest → Manifest
normalize_manifest m = record m {
  sources = sort_by source_before m.sources;
  images = sort_by (λ a b. less a.name b.name) m.images;
  artifacts = sort_by (λ a b. less a.path b.path) m.artifacts;
  action_writable_paths = sort_texts m.action_writable_paths;
  secrets = sort_by secret_before m.secrets;
  preconditions = sort_by precondition_before m.preconditions;
  validations = sort_by (λ a b. less a.id b.id) m.validations;
}
