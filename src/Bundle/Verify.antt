-- ===== src/Bundle/Verify.antt =====
-- internal/executionbundle/verify.go: a manifest is read from a bundle's bytes alone.
use vpsmith.Base.{ℕ, Bool, not, ◌&&◌, ◌||◌, Option, none, some, List, [], ◌∷◌}
use vpsmith.Base.{◌++◌, if◌then◌else◌, eqb, is_empty}
use vpsmith.Base.Text.{Text, text, ◌==◌, contains, split, cut_prefix}
use vpsmith.Base.Result.{Result, ok, err, reject, require, for_each, ◌>>=◌, ◌>>◌}
use vpsmith.Base.Dict.{Dict, lookup, has_key}
use vpsmith.Bundle.Types.{Manifest, Bundle, RunnerIdentity}
use vpsmith.Bundle.Paths.{safe_archive_path, valid_sha256}
use vpsmith.Bundle.Codec.{Codec, Member, Trailer, bundle_id_of}

pub data BundleError : Type 0 where
  incomplete_bundle outer_digest_mismatch archive_unreadable : BundleError
  unsafe_member duplicate_member : Text → BundleError
  manifest_missing manifest_undecodable trailer_undecodable multiple_values : BundleError
  unsupported_version : ℕ → BundleError
  id_mismatch invalid_runner checksums_missing checksums_invalid : BundleError
  duplicate_checksum checksum_without_member member_hash_mismatch uncovered_member :
      Text → BundleError
  runner_missing runner_hash_mismatch not_canonical content_id_invalid : BundleError

-- The loop over the archive: `files` maps each name to its bytes.
unfoldable pub read_members : Dict Text → List Member → Result BundleError (Dict Text)
read_members files [] = ok files
read_members files (m ∷ ms) = do
  reject (not (safe_archive_path m.name) || not m.regular) (unsafe_member m.name)
  reject (has_key m.name files) (duplicate_member m.name)
  read_members (files ++ ((m.name, m.bytes) ∷ [])) ms

-- `strings.Cut(line, "  ")`.
unfoldable pub cut_checksum : Text → Option (Text × Text)
cut_checksum [] = none
cut_checksum (a ∷ s) =
    let r = cut_checksum s in
    elim (cut_prefix (a ∷ s) (text "  ")) [
      | some name ↦ some ([], name)
      | none ↦ elim r [ none ↦ none | some (d, n) ↦ some (a ∷ d, n) ]
    ]

-- `strings.TrimSuffix(s, "\n")`.
unfoldable pub trim_newline : Text → Text
trim_newline [] = []
trim_newline (a ∷ []) = if eqb a 10 then [] else a ∷ []
trim_newline (a ∷ b ∷ s) = a ∷ trim_newline (b ∷ s)

module _ (c : Codec) where
  -- One line of SHA256SUMS: the names listed so far, with this one.
  unfoldable pub check_line : Dict Text → List Text → Text → Result BundleError (List Text)
  unfolding cut_checksum
  check_line files listed line = if is_empty line then ok listed else do
    (digest, name) ← require (cut_checksum line) checksums_invalid
    reject (not (valid_sha256 digest) || not (safe_archive_path name) || name == text "SHA256SUMS")
        checksums_invalid
    reject (contains listed name) (duplicate_checksum name)
    bytes ← require (lookup name files) (checksum_without_member name)
    reject (not (c.sha256_hex bytes == digest)) (member_hash_mismatch name)
    ok (name ∷ listed)

  unfoldable pub check_lines : Dict Text → List Text → List Text → Result BundleError (List Text)
  unfolding check_line
  check_lines files listed [] = ok listed
  check_lines files listed (line ∷ lines) = do
    listed' ← check_line files listed line
    check_lines files listed' lines

  abbrev pub covered : List Text → Text × Text → Result BundleError (Unit {0})
  covered listed (name, bytes) =
      reject (not (name == text "SHA256SUMS") && not (contains listed name)) (uncovered_member name)

  unfoldable pub verify_payload_checksums : Dict Text → Result BundleError (Unit {0})
  unfolding check_lines trim_newline
  verify_payload_checksums files = do
    document ← require (lookup (text "SHA256SUMS") files) checksums_missing
    listed ← check_lines files [] (split 10 (trim_newline document))
    for_each (covered listed) files

  unfoldable pub require_json_eof : Text → Result BundleError (Unit {0})
  require_json_eof rest = elim (c.next_value rest) [
    | Trailer.eof ↦ ok tt
    | Trailer.malformed ↦ err trailer_undecodable
    | Trailer.another_value ↦ err multiple_values
  ]

  abbrev pub runner_invalid : RunnerIdentity → Bool
  runner_invalid r =
      r.version == [] || not (safe_archive_path r.path) || not (valid_sha256 r.sha256)

  unfoldable pub read_manifest : Dict Text → Result BundleError Manifest
  unfolding require_json_eof
  read_manifest files = do
    bytes ← require (lookup (text "manifest.json") files) manifest_missing
    (m, rest) ← require (c.decode bytes) manifest_undecodable
    require_json_eof rest
    ok m

  unfoldable pub check_header : Text → Manifest → Result BundleError (Unit {0})
  check_header id m = do
    reject (not (eqb m.format_version 2)) (unsupported_version m.format_version)
    reject (not (m.bundle_id == id)) id_mismatch
    reject (runner_invalid m.runner) invalid_runner

  unfoldable pub check_runner : Dict Text → RunnerIdentity → Result BundleError (Unit {0})
  check_runner files r = do
    runner ← require (lookup r.path files) runner_missing
    reject (not (c.sha256_hex runner == r.sha256)) runner_hash_mismatch

  unfoldable pub check_content_id : Text → Manifest → Result BundleError (Unit {0})
  check_content_id id m = do
    identity ← require (c.encode (record m { bundle_id = [] })) not_canonical
    reject (not (bundle_id_of c identity == id)) content_id_invalid

  unfoldable pub verify_manifest : Text → Dict Text → Manifest → Result BundleError Manifest
  verify_manifest id files m = do
    check_header id m
    verify_payload_checksums files
    check_runner files m.runner
    check_content_id id m
    ok m

  -- What `Verify` does behind the archive loop.
  unfoldable pub verify_files : Text → Dict Text → Result BundleError Manifest
  verify_files id files = do m ← read_manifest files; verify_manifest id files m

  unfoldable pub verify : Bundle → Result BundleError Manifest
  verify b = do
    reject (b.id == [] || b.sha256 == [] || is_empty b.bytes) incomplete_bundle
    reject (not (c.sha256_hex b.bytes == b.sha256)) outer_digest_mismatch
    members ← require (c.read_tar b.bytes) archive_unreadable
    files ← read_members [] members
    verify_files b.id files
