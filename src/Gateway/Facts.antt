-- ===== src/Gateway/Facts.antt =====
-- internal/targetgateway/ssh_transport.go: what the transport reads of the target's output, and the tests on
-- names and paths. A line is the text between newlines, as bufio.Scanner gives it.
use vpsmith.Base.{
  ℕ, ◌+◌, ◌-◌, ◌*◌, Bool, true, false, not, ◌&&◌, ◌||◌, Option, none, some, List, [], ◌∷◌, is_empty,
  eqb, leb, length, if◌then◌else◌,
}
use mathlib.Core.List.{reverse}
use vpsmith.Base.Text.{Text, text, ◌==◌, trim_space, has_prefix, contains_any, cut, split}
use vpsmith.Base.Result.{Result, ok, err}
use vpsmith.Base.Dict.{Dict, lookup, insert}
use vpsmith.Bundle.Paths.{clean}

-- `bufio.MaxScanTokenSize`: a line of that many bytes is too long.
abbrev pub max_token : ℕ
max_token = 65536

abbrev pub without_return : Text → Text
without_return s = elim (reverse s) [ [] ↦ [] | c ∷ r ↦ if eqb c 13 then reverse r else s ]

-- The lines in front of the first that is too long, and whether there is one.
unfoldable pub scan_pieces : List Text → List Text × Bool
scan_pieces [] = ([], false)
scan_pieces (p ∷ []) =
    if leb max_token (length p)
    then ([], true)
    else if is_empty p
    then ([], false)
    else (without_return p ∷ [], false)
scan_pieces (p ∷ q ∷ ps) =
    let more = scan_pieces (q ∷ ps) in
    if leb max_token (length p) then ([], true) else (without_return p ∷ more.0, more.1)

unfoldable pub scan : Text → List Text × Bool
scan s = scan_pieces (split 10 s)

pub data FactError : Type 0 where
  invalid_output line_too_long : FactError
  missing_fact invalid_fact : Text → FactError

-- `parseTabFacts`.
unfoldable pub tab_facts : Dict Text → List Text → Bool → Result FactError (Dict Text)
tab_facts facts [] too_long = if too_long then err line_too_long else ok facts
tab_facts facts (l ∷ ls) too_long = elim (cut 9 l) [
  | none ↦ err invalid_output
  | some ([], value) ↦ err invalid_output
  | some (c ∷ key, value) ↦ tab_facts (insert (c ∷ key) value facts) ls too_long
]

unfoldable pub parse_tab_facts : Text → Result FactError (Dict Text)
parse_tab_facts raw = tab_facts [] (scan raw).0 (scan raw).1

-- `parseEqualsFacts`.
unfoldable pub equals_facts : Dict Text → List Text → Dict Text
equals_facts facts [] = facts
equals_facts facts (l ∷ ls) = elim (cut b'=' l) [
  | none ↦ equals_facts facts ls
  | some (key, value) ↦ equals_facts (insert key value facts) ls
]

unfoldable pub parse_equals_facts : Text → Dict Text
parse_equals_facts raw = equals_facts [] (scan raw).0

-- `strconv.ParseInt(s, 10, 64)` of a number that is not negative.
unfoldable pub digits_value : ℕ → Text → Option ℕ
digits_value before [] = some before
digits_value before (c ∷ s) =
    let more = digits_value (before * 10 + (c - b'0')) s in
    if leb b'0' c && leb c b'9' then more else none

abbrev pub max_int64 : ℕ
max_int64 = 9223372036854775807

abbrev pub up_to : ℕ → Option ℕ → Option ℕ
up_to limit none = none
up_to limit (some n) = if leb n limit then some n else none

unfoldable pub parse_natural : Text → Option ℕ
parse_natural [] = none
parse_natural (c ∷ []) = digits_value 0 (c ∷ [])
parse_natural (c ∷ d ∷ s) =
    if eqb c b'+'
    then up_to max_int64 (digits_value 0 (d ∷ s))
    else if eqb c b'-'
    then up_to 0 (digits_value 0 (d ∷ s))
    else up_to max_int64 (digits_value 0 (c ∷ d ∷ s))

-- `int64Fact`.
unfoldable pub int64_fact : Dict Text → Text → Result FactError ℕ
int64_fact values key = elim (lookup key values) [
  | none ↦ err (missing_fact key)
  | some value ↦ elim (parse_natural (trim_space value)) [
    | none ↦ err (invalid_fact key)
    | some n ↦ ok n
  ]
]

abbrev pub is_letter : ℕ → Bool
is_letter c = (leb b'a' c && leb c b'z') || (leb b'A' c && leb c b'Z')

abbrev pub user_byte : ℕ → Bool
user_byte c = is_letter c || (leb b'0' c && leb c b'9') || eqb c b'-' || eqb c b'_'

unfoldable pub all_user : Text → Bool
all_user [] = true
all_user (c ∷ s) = user_byte c && all_user s

-- `safeSSHUser`.
unfoldable pub safe_ssh_user : Text → Bool
safe_ssh_user [] = false
safe_ssh_user (c ∷ s) = leb (length (c ∷ s)) 32 && is_letter c && all_user s

-- `safeArtifactPath`.
unfoldable pub safe_artifact_path : Text → Bool
safe_artifact_path p =
    has_prefix p (text "/")
    && clean p == p
    && not (contains_any p (13 ∷ 10 ∷ 0 ∷ []))
    && (has_prefix p (text "/etc/vpsmith/")
        || has_prefix p (text "/var/lib/vpsmith/")
        || has_prefix p (text "/home/"))
