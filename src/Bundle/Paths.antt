-- ===== src/Bundle/Paths.antt =====
-- The path tests of internal/executionbundle/normalize.go and verify.go, over `path.Clean`.
use mathlib.Core.List.{reverse}
use vpsmith.Base.{ℕ, Bool, true, false, not, ◌&&◌, ◌||◌, List, [], ◌∷◌}
use vpsmith.Base.{if◌then◌else◌, eqb, leb, is_empty, length}
use vpsmith.Base.Text.{Text, text, ◌==◌, has_prefix, contains_any, split, join}

-- `path.Clean` on the elements of a path. `out` is what is kept so far, the last element first.
unfoldable pub clean_step : Bool → List Text → Text → List Text
clean_step rooted [] w =
    if w == [] || w == text "." then [] else if w == text ".." && rooted then [] else w ∷ []
clean_step rooted (top ∷ out) w =
    if w == [] || w == text "."
    then top ∷ out
    else if w == text ".." && not (top == text "..")
    then out
    else w ∷ top ∷ out

unfoldable pub clean_onto : Bool → List Text → List Text → List Text
unfolding clean_step
clean_onto rooted out [] = out
clean_onto rooted out (w ∷ ws) = clean_onto rooted (clean_step rooted out w) ws

-- `path.Clean`.
unfoldable pub clean : Text → Text
unfolding clean_onto
clean s =
    let rooted = has_prefix s (text "/") in
    let kept = join b'/' (reverse (clean_onto rooted [] (split b'/' s))) in
    if rooted then b'/' ∷ kept else if is_empty kept then text "." else kept

-- The bytes "\r\n\x00".
abbrev pub line_bytes : Text
line_bytes = 13 ∷ 10 ∷ 0 ∷ []

-- `add` of `normalizeFiles`: a path that it takes.
unfoldable pub valid_bundle_path : Text → Bool
valid_bundle_path p = not (
    p == []
    || not (clean p == p)
    || has_prefix p (text "/")
    || has_prefix p (text "../")
    || contains_any p line_bytes)

unfoldable pub valid_target_path : Text → Bool
valid_target_path p =
    not
      (p == [] || not (has_prefix p (text "/")) || not (clean p == p) || contains_any p line_bytes)

unfoldable pub valid_writable_path : Text → Bool
valid_writable_path p = not (
    p == []
    || not (has_prefix p (text "/"))
    || not (clean p == p)
    || contains_any p (13 ∷ 10 ∷ 0 ∷ 9 ∷ 32 ∷ []))

unfoldable pub safe_archive_path : Text → Bool
safe_archive_path p =
    not (p == [])
    && clean p == p
    && not (has_prefix p (text "/"))
    && not (has_prefix p (text "../"))
    && not (contains_any p (92 ∷ line_bytes))

unfoldable pub hex_byte : ℕ → Bool
hex_byte c = (leb b'0' c && leb c b'9') || (leb b'a' c && leb c b'f')

unfoldable pub all_hex : Text → Bool
unfolding hex_byte
all_hex [] = true
all_hex (c ∷ s) = if hex_byte c then all_hex s else false

-- `validSHA256`: 64 lowercase hexadecimal digits.
unfoldable pub valid_sha256 : Text → Bool
unfolding all_hex
valid_sha256 s = if eqb (length s) 64 then all_hex s else false
