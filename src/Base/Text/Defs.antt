-- ===== src/Base/Text/Defs.antt =====
-- A Go string is its bytes, and `text` gives those of an ASCII literal.
use Prim.Native.Char.{code}
use Prim.Native.String.{String}
use Prim.Native.Nat.{ℕ, ◌+◌}
use mathlib.Core.Bool.{Bool, true, false, ◌&&◌, ◌||◌}
use mathlib.Core.Option.{Option, none, some}
use mathlib.Core.List.{List, [], ◌∷◌, ◌++◌, reverse, map}
use vpsmith.Base.Tests.{eqb, ltb, leb, if◌then◌else◌}
use vpsmith.Base.Lists.{is_empty}

abbrev pub Text : Type 0
Text = List ℕ

abbrev pub text : String → Text
text String.[] = []
text (String.◌∷◌ c s) = code c ∷ text s

infix 50 ◌==◌
unfoldable pub ◌==◌ : Text → Text → Bool
[] == [] = true
[] == (b ∷ t) = false
(a ∷ s) == [] = false
(a ∷ s) == (b ∷ t) = eqb a b && s == t

-- `a < b` on strings: byte by byte.
unfoldable pub less : Text → Text → Bool
less s [] = false
less [] (b ∷ t) = true
less (a ∷ s) (b ∷ t) = ltb a b || (eqb a b && less s t)

unfoldable pub contains : List Text → Text → Bool
contains [] a = false
contains (x ∷ xs) a = if x == a then true else contains xs a

-- `strings.CutPrefix`: the rest behind the prefix.
unfoldable pub cut_prefix : Text → Text → Option Text
cut_prefix s [] = some s
cut_prefix [] (b ∷ p) = none
cut_prefix (a ∷ s) (b ∷ p) = if eqb a b then cut_prefix s p else none

unfoldable pub has_prefix : Text → Text → Bool
unfolding cut_prefix
has_prefix s p = elim (cut_prefix s p) [ none ↦ false | some r ↦ true ]

unfoldable pub trim_prefix : Text → Text → Text
unfolding cut_prefix
trim_prefix s p = elim (cut_prefix s p) [ none ↦ s | some r ↦ r ]

unfoldable pub has_suffix : Text → Text → Bool
unfolding has_prefix
has_suffix s p = has_prefix (reverse s) (reverse p)

-- `strings.ContainsAny` over ASCII characters.
unfoldable pub has_byte : Text → ℕ → Bool
has_byte [] c = false
has_byte (a ∷ s) c = if eqb a c then true else has_byte s c

unfoldable pub contains_any : Text → Text → Bool
unfolding has_byte
contains_any s [] = false
contains_any s (c ∷ cs) = if has_byte s c then true else contains_any s cs

-- `unicode.IsSpace`, on the bytes of a rune: one, two or three of them.
unfoldable pub space_one : ℕ → Bool
space_one a = (leb 9 a && leb a 13) || eqb a 32

unfoldable pub space_two : ℕ → ℕ → Bool
space_two a b = eqb a 0xC2 && (eqb b 0x85 || eqb b 0xA0)

unfoldable pub space_three : ℕ → ℕ → ℕ → Bool
space_three a b c =
    (eqb a 0xE1 && eqb b 0x9A && eqb c 0x80)
    || (eqb a 0xE2
        && eqb b 0x80
        && ((leb 0x80 c && leb c 0x8A) || eqb c 0xA8 || eqb c 0xA9 || eqb c 0xAF))
    || (eqb a 0xE2 && eqb b 0x81 && eqb c 0x9F)
    || (eqb a 0xE3 && eqb b 0x80 && eqb c 0x80)

unfoldable pub trim_left : Text → Text
unfolding space_one space_two space_three
trim_left [] = []
trim_left (a ∷ []) = if space_one a then [] else a ∷ []
trim_left (a ∷ b ∷ []) =
    let r = trim_left (b ∷ []) in
    if space_one a then r else if space_two a b then [] else a ∷ b ∷ []
trim_left (a ∷ b ∷ c ∷ s) =
    let r = trim_left (b ∷ c ∷ s) in
    let r_two = trim_left (c ∷ s) in
    let r_three = trim_left s in
    if space_one a
    then r
    else if space_two a b
    then r_two
    else if space_three a b c
    then r_three
    else a ∷ b ∷ c ∷ s

-- The same on the reversed text: the last byte of a rune comes first.
unfoldable pub trim_reversed : Text → Text
unfolding space_one space_two space_three
trim_reversed [] = []
trim_reversed (a ∷ []) = if space_one a then [] else a ∷ []
trim_reversed (b ∷ a ∷ []) =
    let r = trim_reversed (a ∷ []) in
    if space_one b then r else if space_two a b then [] else b ∷ a ∷ []
trim_reversed (c ∷ b ∷ a ∷ s) =
    let r = trim_reversed (b ∷ a ∷ s) in
    let r_two = trim_reversed (a ∷ s) in
    let r_three = trim_reversed s in
    if space_one c
    then r
    else if space_two b c
    then r_two
    else if space_three a b c
    then r_three
    else c ∷ b ∷ a ∷ s

-- `strings.TrimSpace`.
unfoldable pub trim_space : Text → Text
unfolding trim_left trim_reversed
trim_space s = reverse (trim_reversed (reverse (trim_left s)))

-- `strings.TrimSpace(s) == ""`.
unfoldable pub is_blank : Text → Bool
unfolding trim_space
is_blank s = is_empty (trim_space s)

-- `strings.ToLower` on ASCII letters; other bytes stay.
unfoldable pub lower_byte : ℕ → ℕ
lower_byte c = if leb b'A' c && leb c b'Z' then c + 32 else c

unfoldable pub to_lower : Text → Text
unfolding lower_byte
to_lower s = map lower_byte s

unfoldable pub equal_fold : Text → Text → Bool
unfolding to_lower
equal_fold s t = to_lower s == to_lower t

-- What stands before the first `c`, and what behind it.
unfoldable pub cut : ℕ → Text → Option (Text × Text)
cut c [] = none
cut c (a ∷ s) =
    let r = cut c s in
    if eqb a c then some ([], s) else elim r [ none ↦ none | some (x, y) ↦ some (a ∷ x, y) ]

-- `strings.Split` at a byte.
unfoldable pub split : ℕ → Text → List Text
split c [] = [] ∷ []
split c (a ∷ s) =
    if eqb a c
    then [] ∷ split c s
    else elim (split c s) [ [] ↦ (a ∷ []) ∷ [] | w ∷ ws ↦ (a ∷ w) ∷ ws ]

unfoldable pub join : ℕ → List Text → Text
join c [] = []
join c (w ∷ []) = w
join c (w ∷ v ∷ ws) = w ++ c ∷ join c (v ∷ ws)

-- `bytes.Contains`.
unfoldable pub has_infix : Text → Text → Bool
unfolding has_prefix
has_infix [] p = has_prefix [] p
has_infix (a ∷ s) p = if has_prefix (a ∷ s) p then true else has_infix s p
