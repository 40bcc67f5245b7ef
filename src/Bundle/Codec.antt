-- ===== src/Bundle/Codec.antt =====
-- What the package takes from the Go libraries crypto/sha256, encoding/json and archive/tar, and the
-- runner that internal/targetrunner embeds.
use vpsmith.Base.{Bool, Option, List, ◌++◌, take}
use vpsmith.Base.Text.{Text, text}
use vpsmith.Bundle.Types.{Manifest, File}

-- A member of an archive. `regular` is `Typeflag == tar.TypeReg`.
pub record Member : Type 0 where
  pub name : Text
  pub regular : Bool
  pub bytes : Text

-- What a JSON decoder finds behind the value that it has read.
pub data Trailer : Type 0 where
  eof malformed another_value : Trailer

pub record Codec : Type 0 where
  -- The 64 hexadecimal digits of `sha256.Sum256`.
  pub sha256_hex : Text → Text
  -- `canonicalJSON` of a manifest.
  pub encode : Manifest → Option Text
  -- `Decoder.Decode` with unknown fields refused: the first value, and what is left.
  pub decode : Text → Option (Manifest × Text)
  pub next_value : Text → Trailer
  -- `deterministicTar`.
  pub write_tar : List File → Option Text
  -- The members up to the end of the archive, or a reader's error.
  pub read_tar : Text → Option (List Member)
  pub runner_version : Text
  pub runner_path : Text
  pub runner_bytes : Text
  pub runner_sha256 : Text

-- `"bundle_" + hex.EncodeToString(sum[:16])`.
abbrev pub bundle_id_of : Codec → Text → Text
bundle_id_of c identity = text "bundle_" ++ take 32 (c.sha256_hex identity)
