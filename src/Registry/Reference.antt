-- ===== src/Registry/Reference.antt =====
-- internal/registry/reference.go: parseReference and validSHA256Digest.
use vpsmith.Base.{ℕ, Bool, true, ◌&&◌, ◌||◌, [], ◌∷◌, ◌++◌, is_empty, eqb, leb, length, drop}
use vpsmith.Base.Text.{
  Text, text, trim_space, to_lower, equal_fold, contains_any, has_infix, has_prefix, cut,
}
use vpsmith.Base.Text.Last.{cut_last}
use vpsmith.Base.Result.{Result, ok, reject, require, ◌>>=◌, ◌>>◌}

pub record ImageReference : Type 0 where
  pub registry : Text
  pub repository : Text
  pub tag : Text

pub data ReferenceError : Type 0 where
  not_fixed no_registry no_tag bad_repository bad_tag : ReferenceError

abbrev pub bad_in_repository : Text → Bool
bad_in_repository s =
    has_infix s (text "..") || has_prefix s (text "/") || contains_any s (text " " ++ (9 ∷ []))

abbrev pub is_moving : Text → Bool
is_moving tag = equal_fold tag (text "latest") || contains_any tag (text "*<>=^~| ")

-- What stands behind the registry.
unfoldable pub parse_remainder : Text → Text → Result ReferenceError ImageReference
parse_remainder registry remainder = do
  parts ← require (cut_last b':' remainder) no_tag
  reject (is_empty parts.0 || is_empty parts.1) no_tag
  reject (bad_in_repository parts.0) bad_repository
  reject (is_moving parts.1) bad_tag
  ok (record { registry = to_lower registry; repository = parts.0; tag = parts.1 })

-- `parseReference`.
unfoldable pub parse_reference : Text → Result ReferenceError ImageReference
parse_reference given = do
  let ref = trim_space given
  reject (is_empty ref || contains_any ref (text "@?#" ++ (13 ∷ 10 ∷ 0 ∷ []))) not_fixed
  parts ← require (cut b'/' ref) no_registry
  reject (is_empty parts.0 || is_empty parts.1) no_registry
  parse_remainder parts.0 parts.1

abbrev pub hex_letter : ℕ → Bool
hex_letter c =
    (leb b'0' c && leb c b'9') || (leb b'a' c && leb c b'f') || (leb b'A' c && leb c b'F')

unfoldable pub all_hex_letters : Text → Bool
all_hex_letters [] = true
all_hex_letters (c ∷ s) = hex_letter c && all_hex_letters s

-- `validSHA256Digest`.
unfoldable pub valid_digest : Text → Bool
unfolding all_hex_letters
valid_digest v =
    eqb (length v) 71 && has_prefix (to_lower v) (text "sha256:") && all_hex_letters (drop 7 v)
