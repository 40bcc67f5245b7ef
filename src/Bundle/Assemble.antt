-- ===== src/Bundle/Assemble.antt =====
-- internal/executionbundle/assembler.go and canonical.go: a bundle is built from an input.
use vpsmith.Base.{List, [], ◌∷◌, ◌++◌}
use vpsmith.Base.Text.{Text, text, less}
use vpsmith.Base.Result.{Result, ok, require, ◌>>=◌, ◌>>◌}
use vpsmith.Base.Sort.{sort_by}
use vpsmith.Bundle.Types.{File, Manifest, Input, Bundle, Artifact, Action}
use vpsmith.Bundle.Codec.{Codec, bundle_id_of}
use vpsmith.Bundle.Normalize.{
  InputError, expected_post_encoding, manifest_encoding, archive_encoding, validate_input,
  normalize_files, normalize_manifest,
}

abbrev pub by_path : List File → List File
by_path = sort_by (λ a b. less a.path b.path)

module _ (c : Codec) where
  abbrev pub checksum_lines : List File → Text
  checksum_lines [] = []
  checksum_lines (f ∷ fs) =
      c.sha256_hex f.bytes ++ (text "  " ++ (f.path ++ (10 ∷ checksum_lines fs)))

  unfoldable pub checksum_document : List File → Text
  checksum_document files = checksum_lines (by_path files)

  abbrev pub runner_file : File
  runner_file = record {
    path = c.runner_path;
    target_path = [];
    mode = 365;
    bytes = c.runner_bytes;
  }

  -- The manifest before its id is known.
  unfoldable pub draft_manifest : Input → List Artifact → List Action → Text → Manifest
  draft_manifest input artifacts actions post = normalize_manifest (record {
    format_version = 2;
    runner = record { version = c.runner_version; path = c.runner_path; sha256 = c.runner_sha256 };
    bundle_id = [];
    kind = input.kind;
    target_id = input.target_id;
    subject_kind = input.subject_kind;
    subject_id = input.subject_id;
    subject_identity = input.subject_identity;
    package_id = input.package_id;
    package_sha256 = input.package_sha256;
    version = input.version;
    sources = input.sources;
    images = input.images;
    artifacts = artifacts;
    actions = actions;
    action_writable_paths = input.action_writable_paths;
    secrets = input.secrets;
    preconditions = input.preconditions;
    expected_post = post;
    validations = input.validations;
    steps = input.steps;
    backup_required = input.backup_required;
  })

  -- The payload with the manifest and the checksums of all.
  unfoldable pub packed_files : List File → Text → List File
  unfolding checksum_document
  packed_files files manifest =
      let document : File = record {
        path = text "manifest.json";
        target_path = [];
        mode = 292;
        bytes = manifest ++ (10 ∷ []);
      } in
      let all = files ++ (runner_file ∷ document ∷ []) in
      let sums : File = record {
        path = text "SHA256SUMS";
        target_path = [];
        mode = 292;
        bytes = checksum_document all;
      } in
      by_path (all ++ (sums ∷ []))

  -- `Assemble` up to the call of `store`.
  unfoldable pub build : Input → Result InputError Bundle
  unfolding packed_files draft_manifest
  build input = do
    validate_input input
    (files, artifacts, actions) ← normalize_files c input
    post ← require input.expected_post expected_post_encoding
    let draft = draft_manifest input artifacts actions post
    identity ← require (c.encode draft) manifest_encoding
    let m : Manifest = record draft { bundle_id = bundle_id_of c identity }
    manifest ← require (c.encode m) manifest_encoding
    payload ← require (c.write_tar (packed_files files manifest)) archive_encoding
    ok (record {
      id = m.bundle_id;
      kind = input.kind;
      sha256 = c.sha256_hex payload;
      bytes = payload;
      manifest = m;
    })
