-- ===== src/Tests/Bundles.antt =====
-- A small bundle of internal/executionbundle, with a codec whose archive is fixed.
use vpsmith.Base.{◌≡◌, refl, true, false, some, List, [], ◌∷◌, ◌++◌}
use vpsmith.Base.Text.{
  Text, text, ◌==◌, contains, cut_prefix, has_prefix, has_suffix, has_byte, contains_any, split,
  join,
}
use vpsmith.Base.Result.{ok, for_each}
use vpsmith.Base.Dict.{lookup, has_key}
use vpsmith.Bundle.Types.{Bundle, Manifest, Kind}
use vpsmith.Bundle.Codec.{Codec, Member, Trailer}
use vpsmith.Bundle.Paths.{
  clean_step, clean_onto, clean, safe_archive_path, hex_byte, all_hex, valid_sha256,
}
use vpsmith.Bundle.Verify.{
  read_members, cut_checksum, trim_newline, check_line, check_lines, verify_payload_checksums,
  require_json_eof, read_manifest, check_header, check_runner, check_content_id, verify_manifest,
  verify_files, verify,
}
use vpsmith.Base.Text.{
  is_blank, trim_space, trim_left, trim_reversed, space_one, space_two, space_three, less,
}
use vpsmith.Base.Dict.{Dict, insert}
use vpsmith.Base.Sort.{sort_by, insert_by, sort_texts}
use vpsmith.Bundle.Types.{Input}
use vpsmith.Bundle.Normalize.{
  validate_input, check_writable, normalize_files, add_files, add_actions, normalize_manifest,
}
use vpsmith.Bundle.Assemble.{build, draft_manifest, packed_files, checksum_document}
use vpsmith.Bundle.Store.{Disk, file_of, store, assemble, open_bundle}
use vpsmith.Bundle.Kept.{IsStored, IsUntouched, assemble-IsStored, open_bundle-IsVerified}
use vpsmith.Bundle.Sound.{IsVerified, verify-IsVerified}

abbrev hash : Text
hash = text "aaaaaaaaaaaaaaaaaaaaaaaaaaaaaaaaaaaaaaaaaaaaaaaaaaaaaaaaaaaaaaaa"

abbrev pub small_id : Text
small_id = text "bundle_aaaaaaaaaaaaaaaaaaaaaaaaaaaaaaaa"

abbrev pub small_manifest : Manifest
small_manifest = record {
  format_version = 2;
  runner = record { version = text "1"; path = text "runner"; sha256 = hash };
  bundle_id = small_id;
  kind = Kind.validation;
  target_id = text "t";
  subject_kind = text "core";
  subject_id = text "core";
  subject_identity = text "core";
  package_id = [];
  package_sha256 = [];
  version = text "1";
  sources = [];
  images = [];
  artifacts = [];
  actions = [];
  action_writable_paths = [];
  secrets = [];
  preconditions = [];
  expected_post = text "{}";
  validations = [];
  steps = [];
  backup_required = false;
}

abbrev small_members : List Member
small_members =
    record { name = text "manifest.json"; regular = true; bytes = text "m" }
    ∷ record { name = text "runner"; regular = true; bytes = text "r" }
    ∷ record {
      name = text "SHA256SUMS";
      regular = true;
      bytes = hash ++ (text "  manifest.json" ++ (10 ∷ (hash ++ (text "  runner" ++ (10 ∷ [])))));
    }
    ∷ []

abbrev pub small_codec : Codec
small_codec = record {
  sha256_hex = λ t. hash;
  encode = λ m. some (text "m");
  decode = λ t. some (small_manifest, []);
  next_value = λ t. Trailer.eof;
  write_tar = λ fs. some (text "tar");
  read_tar = λ t. some small_members;
  runner_version = text "1";
  runner_path = text "runner";
  runner_bytes = text "r";
  runner_sha256 = hash;
}

abbrev pub small_bundle : Bundle
small_bundle = record {
  id = small_id;
  kind = Kind.validation;
  sha256 = hash;
  bytes = text "tar";
  manifest = small_manifest;
}

pub small_bundle-verify : verify small_codec small_bundle ≡ ok small_manifest
unfolding verify verify_files read_manifest require_json_eof verify_manifest check_header
    check_runner check_content_id verify_payload_checksums check_lines check_line cut_checksum
    trim_newline read_members safe_archive_path clean clean_onto clean_step valid_sha256 all_hex
    hex_byte ◌==◌ contains cut_prefix has_prefix has_suffix has_byte contains_any split join lookup
    has_key for_each
small_bundle-verify = refl

small_bundle-IsVerified :
    (members : List Member) × IsVerified small_codec small_bundle small_manifest members
small_bundle-IsVerified = verify-IsVerified small_codec small_bundle small_bundle-verify

abbrev well : Disk
well = record { reads = true; writes = true }

abbrev small_input : Input
small_input = record {
  kind = Kind.validation;
  target_id = text "t";
  subject_kind = text "core";
  subject_id = text "core";
  subject_identity = text "core";
  package_id = [];
  package_sha256 = [];
  version = text "1";
  sources = [];
  images = [];
  files = [];
  actions = [];
  action_ids = [];
  action_writable_paths = [];
  secrets = [];
  preconditions = [];
  expected_post = some (text "{}");
  validations = [];
  steps = [];
  backup_required = false;
}

abbrev small_directory : Dict Text
small_directory = (file_of small_id, text "tar") ∷ []

small_assembles : assemble small_codec well small_input [] ≡ ok (small_bundle, small_directory)
unfolding assemble build validate_input check_writable normalize_files add_files add_actions
    draft_manifest normalize_manifest packed_files checksum_document store insert lookup sort_by
    insert_by sort_texts for_each is_blank trim_space trim_left trim_reversed space_one space_two
    space_three ◌==◌ less
small_assembles = refl

small_assemble-IsStored :
    (build small_codec small_input ≡ ok small_bundle)
    × IsStored small_bundle [] small_directory
    × ((name : Text) → IsUntouched name [] small_directory)
small_assemble-IsStored = assemble-IsStored small_codec well small_input [] small_assembles

small_opens : open_bundle small_codec well small_id small_directory ≡ ok small_bundle
unfolding open_bundle lookup has_prefix cut_prefix contains_any has_byte ◌==◌ verify verify_files
    read_manifest require_json_eof verify_manifest check_header check_runner check_content_id
    verify_payload_checksums check_lines check_line cut_checksum trim_newline read_members
    safe_archive_path clean clean_onto clean_step valid_sha256 all_hex hex_byte contains has_suffix
    split join has_key for_each
small_opens = refl

small_open-IsVerified :
    (small_id ≡ small_id)
    × (lookup (file_of small_id) small_directory ≡ some (text "tar"))
    × ((members : List Member) × IsVerified small_codec small_bundle small_manifest members)
small_open-IsVerified = open_bundle-IsVerified small_codec well small_id small_directory small_opens
