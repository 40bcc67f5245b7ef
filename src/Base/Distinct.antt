-- ===== src/Base/Distinct.antt =====
-- Lists of texts without a repetition, and the sets that the program keeps as sorted lists.
use mathlib.Core.Path.{◌≡◌}
use mathlib.Core.Logic.{inl, inr}
use mathlib.Core.Bool.{Bool, false}
use mathlib.Core.List.{List, [], ◌∷◌}
use native.Mathlib.Omega.{arith}
use vpsmith.Base.Tests.{Bool-cases}
use vpsmith.Base.Lists.{All}
use vpsmith.Base.Text.{Text, ◌==◌, eq_iff, contains}
use vpsmith.Base.Sort.{insert_by, sort_by, insert_by-All, sort_by-All}

abbrev pub Distinct : List Text → Type 0
Distinct [] = Unit
Distinct (t ∷ ts) = All (λ u. (u == t) ≡ false) ts × Distinct ts

contains-All : (ts : List Text) (t : Text) → contains ts t ≡ false → All (λ u. (u == t) ≡ false) ts
unfolding contains
contains-All [] t h = tt
contains-All (u ∷ ts) t h = (ground arith, contains-All ts t (ground arith))

pub Distinct-cons :
    (ts : List Text) (t : Text) → contains ts t ≡ false → Distinct ts → Distinct (t ∷ ts)
Distinct-cons ts t new h = (contains-All ts t new, h)

eq-false-sym : (t u : Text) → (t == u) ≡ false → (u == t) ≡ false
eq-false-sym t u h = ground (arith, eq_iff t u, eq_iff u t)

module _ (before : Text → Text → Bool) where
  insert_by-Distinct :
      (t : Text) (ts : List Text)
      → All (λ u. (u == t) ≡ false) ts
      → Distinct ts
      → Distinct (insert_by before t ts)
  unfolding insert_by
  insert_by-Distinct t [] new h = (tt, tt)
  insert_by-Distinct t (u ∷ ts) new h = elim (Bool-cases (before u t)) [
    | inl e ↦ rw e (
      insert_by-All before (λ v. (v == u) ≡ false) t ts (eq-false-sym u t new.0) h.0,
      insert_by-Distinct t ts new.1 h.1,
    )
    | inr e ↦ rw e (new, h)
  ]

  pub sort_by-Distinct : (ts : List Text) → Distinct ts → Distinct (sort_by before ts)
  unfolding sort_by
  sort_by-Distinct [] h = tt
  sort_by-Distinct (t ∷ ts) h =
      insert_by-Distinct t (sort_by before ts) (sort_by-All before (λ u. (u == t) ≡ false) ts h.0)
        (sort_by-Distinct ts h.1)
