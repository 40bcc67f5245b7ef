-- ===== src/Contract/Patterns.antt =====
-- internal/modulecontract: the patterns and the tests on single texts of validation.go, helpers.go and
-- validation_actions.go. A regular expression is the automaton that it describes.
use vpsmith.Base.{
  ℕ, suc, ◌-◌, Bool, true, false, not, ◌&&◌, ◌||◌, Option, none, some, List, [], ◌∷◌,
}
use vpsmith.Base.{if◌then◌else◌, eqb, leb, is_empty, length}
use vpsmith.Base.Text.{
  Text, text, ◌==◌, has_prefix, has_suffix, contains_any, has_byte, has_infix, trim_space,
  equal_fold, split,
}
use vpsmith.Base.Text.Last.{cut_last}
use vpsmith.Bundle.Paths.{clean}

unfoldable pub is_digit : ℕ → Bool
is_digit c = leb b'0' c && leb c b'9'

unfoldable pub is_lower : ℕ → Bool
is_lower c = leb b'a' c && leb c b'z'

-- `[a-z0-9]`.
unfoldable pub is_word : ℕ → Bool
unfolding is_digit is_lower
is_word c = is_lower c || is_digit c

-- `identifierRE` behind its first letter: inside a word, or behind one of `-_.`.
unfoldable pub in_identifier : Bool → Text → Bool
unfolding is_word
in_identifier inside [] = inside
in_identifier inside (c ∷ s) =
    let word = in_identifier true s in
    let joint = in_identifier false s in
    if is_word c
    then word
    else if inside && (eqb c b'-' || eqb c b'_' || eqb c b'.')
    then joint
    else false

unfoldable pub is_identifier : Text → Bool
unfolding in_identifier is_lower
is_identifier [] = false
is_identifier (c ∷ s) = is_lower c && in_identifier true s

-- `[0-9A-Za-z.-]`.
unfoldable pub is_suffix_byte : ℕ → Bool
unfolding is_word
is_suffix_byte c = is_word c || (leb b'A' c && leb c b'Z') || eqb c b'.' || eqb c b'-'

unfoldable pub is_suffix : Text → Bool
unfolding is_suffix_byte
is_suffix [] = true
is_suffix (c ∷ s) = if is_suffix_byte c then is_suffix s else false

-- `exactVersionRE` behind a digit, or behind a dot, with the dots that may still come.
unfoldable pub in_version : Bool → ℕ → Text → Bool
unfolding is_digit is_suffix
in_version inside dots [] = inside
in_version inside dots (c ∷ s) =
    let more = in_version true dots s in
    let next = in_version false (dots - 1) s in
    if is_digit c
    then more
    else if inside && eqb c b'.' && not (eqb dots 0)
    then next
    else inside && (eqb c b'-' || eqb c b'+') && not (is_empty s) && is_suffix s

-- `exactVersion`.
unfoldable pub exact_version : Text → Bool
unfolding in_version
exact_version value =
    let v = trim_space value in in_version false 3 v && not (contains_any v (text "*<>=^~| ,"))

-- A label of `hostnameRE`: at most 63 bytes of `[a-z0-9-]`, with `[a-z0-9]` first and last.
unfoldable pub label_rest : Bool → Text → Bool
unfolding is_word
label_rest word [] = word
label_rest word (c ∷ s) = if is_word c then label_rest true s else eqb c b'-' && label_rest false s

unfoldable pub is_label : Text → Bool
unfolding label_rest is_word
is_label [] = false
is_label (c ∷ s) = is_word c && label_rest true s && leb (length (c ∷ s)) 63

unfoldable pub all_labels : List Text → Bool
unfolding is_label
all_labels [] = true
all_labels (w ∷ ws) = is_label w && all_labels ws

-- `hostnameRE`: two labels or more.
unfoldable pub is_hostname : Text → Bool
unfolding all_labels
is_hostname s = leb 2 (length (split b'.' s)) && all_labels (split b'.' s)

pub data ImageError : Type 0 where
  no_ref digest_ref no_tag latest_tag tag_range : ImageError

-- `validateImageRef`. The tag is what stands behind the last colon, if no slash stands behind that.
unfoldable pub check_tag : Text → Option ImageError
check_tag tag =
    if is_empty tag
    then some no_tag
    else if equal_fold tag (text "latest")
    then some latest_tag
    else if contains_any tag (text "*<>=^~| ")
    then some tag_range
    else none

unfoldable pub check_image_ref : Text → Option ImageError
unfolding check_tag
check_image_ref value =
    let ref = trim_space value in
    if is_empty ref
    then some no_ref
    else if has_byte ref b'@'
    then some digest_ref
    else elim (cut_last b':' ref) [
      | none ↦ some no_tag
      | some (name, tag) ↦ if has_byte tag b'/' then some no_tag else check_tag tag
    ]

-- `isAbsoluteCleanPath`.
unfoldable pub is_absolute_clean_path : Text → Bool
is_absolute_clean_path p =
    has_prefix p (text "/") && clean p == p && not (contains_any p (13 ∷ 10 ∷ 0 ∷ []))

pub data PathError : Type 0 where
  not_relative not_a_script not_direct : PathError

-- `strings.Count(value, "/")`.
unfoldable pub count_byte : ℕ → Text → ℕ
count_byte c [] = 0
count_byte c (a ∷ s) = if eqb a c then suc (count_byte c s) else count_byte c s

-- `validateActionPath`.
unfoldable pub check_action_path : Text → Option PathError
unfolding count_byte
check_action_path p =
    if is_empty p || not (clean p == p) || has_prefix p (text "/") || has_infix p (text "..")
    then some not_relative
    else if not (has_prefix p (text "actions/")) || not (has_suffix p (text ".sh"))
    then some not_a_script
    else if not (eqb (count_byte b'/' p) 1)
    then some not_direct
    else none
