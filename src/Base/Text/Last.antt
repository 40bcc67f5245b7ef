-- ===== src/Base/Text/Last.antt =====
-- Texts cut at the last occurrence of a byte, as the program does with `strings.LastIndex`.
use Prim.Native.Nat.{ℕ}
use mathlib.Core.Option.{Option, none, some}
use mathlib.Core.List.{[], ◌∷◌}
use vpsmith.Base.Tests.{eqb, if◌then◌else◌}
use vpsmith.Base.Text.Defs.{Text}

-- What stands before the last `c`, and what behind it.
unfoldable pub cut_last : ℕ → Text → Option (Text × Text)
cut_last c [] = none
cut_last c (a ∷ s) = elim (cut_last c s) [
  | some (x, y) ↦ some (a ∷ x, y)
  | none ↦ if eqb a c then some ([], s) else none
]
