-- ===== src/Base/Text/Lengths.antt =====
-- What `strings.TrimSpace` and a cut at a byte leave is not longer than the text.
use Prim.Native.Nat.{ℕ, ◌+◌, ◌≤◌, ◌<◌}
use mathlib.Core.Path.{◌≡◌}
use mathlib.Core.Option.{some}
use mathlib.Core.List.{[], ◌∷◌, reverse_aux, reverse}
use native.Mathlib.Omega.{arith}
use mathlib.Core.Logic.{inl, inr}
use vpsmith.Base.Tests.{Option-cases}
use vpsmith.Base.Lists.{length}
use vpsmith.Base.Text.Defs.{Text, trim_left, trim_reversed, trim_space, cut}

length-reverse_aux : (s t : Text) → length (reverse_aux s t) ≡ length s + length t
length-reverse_aux [] t = omega arith
length-reverse_aux (c ∷ s) t = omega (arith, length-reverse_aux s (c ∷ t))

length-reverse : (s : Text) → length (reverse s) ≡ length s
length-reverse s = omega (arith, length-reverse_aux s [])

length-trim_left : (s : Text) → length (trim_left s) ≤ length s
unfolding trim_left
length-trim_left [] = omega arith
length-trim_left (a ∷ []) = ground arith
length-trim_left (a ∷ b ∷ []) = ground (arith, length-trim_left (b ∷ []))
length-trim_left (a ∷ b ∷ c ∷ s) =
    ground (arith, length-trim_left (b ∷ c ∷ s), length-trim_left (c ∷ s), length-trim_left s)

length-trim_reversed : (s : Text) → length (trim_reversed s) ≤ length s
unfolding trim_reversed
length-trim_reversed [] = omega arith
length-trim_reversed (a ∷ []) = ground arith
length-trim_reversed (a ∷ b ∷ []) = ground (arith, length-trim_reversed (b ∷ []))
length-trim_reversed (a ∷ b ∷ c ∷ s) =
    ground (
      arith,
      length-trim_reversed (b ∷ c ∷ s),
      length-trim_reversed (c ∷ s),
      length-trim_reversed s,
    )

pub length-trim_space : (s : Text) → length (trim_space s) ≤ length s
unfolding trim_space
length-trim_space s = omega (
  arith,
  length-reverse (trim_reversed (reverse (trim_left s))),
  length-trim_reversed (reverse (trim_left s)),
  length-reverse (trim_left s),
  length-trim_left s,
)

pub length-cut : (c : ℕ) (s : Text) {x y : Text} → cut c s ≡ some (x, y) → length y < length s
unfolding cut
length-cut c [] h = ground arith
length-cut c (a ∷ s) {x} {y} h = elim (Option-cases (cut c s)) [
  | inl none_behind ↦ ground arith
  | inr ((u, v), there) ↦ ground (arith, length-cut c s {x = u} {y = v} there)
]
