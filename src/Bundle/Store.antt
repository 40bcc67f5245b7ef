-- ===== src/Bundle/Store.antt =====
-- `Assemble`, `Open` and `store` of internal/executionbundle/assembler.go: the directory of bundles, as
-- a list of its file names with their bytes.
use vpsmith.Base.{Bool, false, not, ◌||◌, none, some, [], ◌∷◌, ◌++◌, if◌then◌else◌}
use vpsmith.Base.Text.{Text, text, ◌==◌, has_prefix, contains_any}
use vpsmith.Base.Result.{Result, ok, err, reject, require, ◌>>=◌, ◌>>◌}
use vpsmith.Base.Dict.{Dict, lookup, insert}
use vpsmith.Bundle.Types.{Bundle, Manifest, Kind, Input}
use vpsmith.Bundle.Codec.{Codec}
use vpsmith.Bundle.Normalize.{InputError}
use vpsmith.Bundle.Assemble.{build}
use vpsmith.Bundle.Verify.{BundleError, verify}

pub data StoreError : Type 0 where
  bad_input : InputError → StoreError
  bad_bundle : BundleError → StoreError
  different_bytes : Text → StoreError
  unreadable unwritable invalid_id no_bundle : StoreError

-- Whether the file of a bundle can be read, where it is there, and written: created, written, synced
-- and closed, with its directory. A file that is not written to the end is removed again.
pub record Disk : Type 0 where
  pub reads : Bool
  pub writes : Bool

abbrev pub file_of : Text → Text
file_of id = id ++ text ".tar"

-- `store`.
unfoldable pub store : Disk → Bundle → Dict Text → Result StoreError (Dict Text)
store disk b dir = if not disk.reads then err unreadable else elim (lookup (file_of b.id) dir) [
  | some existing ↦ if existing == b.bytes then ok dir else err (different_bytes b.id)
  | none ↦ if disk.writes then ok (insert (file_of b.id) b.bytes dir) else err unwritable
]

-- An error of a part is handed on.
abbrev pub hand_on : {E F A : Type 0} → (E → F) → Result E A → Result F A
hand_on f (ok a) = ok a
hand_on f (err e) = err (f e)

module _ (c : Codec) where
  -- `Assemble`: the bundle and the directory that has it.
  unfoldable pub assemble : Disk → Input → Dict Text → Result StoreError (Bundle × Dict Text)
  assemble disk input dir = do
    b ← hand_on bad_input (build c input)
    dir' ← store disk b dir
    ok (b, dir')

  -- The bundle of a file, before it is verified.
  abbrev pub found_bundle : Text → Text → Manifest → Bundle
  found_bundle id bytes m = record {
    id = id;
    kind = m.kind;
    sha256 = c.sha256_hex bytes;
    bytes = bytes;
    manifest = m;
  }

  -- What stands in a bundle whose manifest is not read yet.
  abbrev pub no_manifest : Manifest
  no_manifest = record {
    format_version = 0;
    runner = record { version = []; path = []; sha256 = [] };
    bundle_id = [];
    kind = Kind.other [];
    target_id = [];
    subject_kind = [];
    subject_id = [];
    subject_identity = [];
    package_id = [];
    package_sha256 = [];
    version = [];
    sources = [];
    images = [];
    artifacts = [];
    actions = [];
    action_writable_paths = [];
    secrets = [];
    preconditions = [];
    expected_post = [];
    validations = [];
    steps = [];
    backup_required = false;
  }

  -- `Open`.
  unfoldable pub open_bundle : Disk → Text → Dict Text → Result StoreError Bundle
  open_bundle disk id dir = do
    reject (not (has_prefix id (text "bundle_")) || contains_any id (b'/' ∷ b'\\' ∷ 0 ∷ []))
        invalid_id
    reject (not disk.reads) unreadable
    bytes ← require (lookup (file_of id) dir) no_bundle
    m ← hand_on bad_bundle (verify c (found_bundle id bytes no_manifest))
    ok (found_bundle id bytes m)
