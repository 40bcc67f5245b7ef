-- ===== src/Base/Dict.antt =====
-- A Go map with text keys, as an association list in the order in which a `range` visits it.
use mathlib.Core.Path.{◌≡◌, refl}
use mathlib.Core.Bool.{Bool, true, false}
use mathlib.Core.Option.{Option, none, some}
use mathlib.Core.List.{List, [], ◌∷◌, ◌++◌, map}
use native.Mathlib.Omega.{arith}
use vpsmith.Base.Tests.{if◌then◌else◌}
use vpsmith.Base.Text.{Text, ◌==◌, eq_iff}

abbrev pub Dict : Type 0 → Type 0
Dict V = List (Text × V)

module _ {V : Type 0} where
  unfoldable pub lookup : Text → Dict V → Option V
  lookup key [] = none
  lookup key ((found, value) ∷ more) = if found == key then some value else lookup key more

  -- `m[key] = value`: the entry keeps its place, and a new one is the last.
  unfoldable pub insert : Text → V → Dict V → Dict V
  insert key value [] = (key, value) ∷ []
  insert key value ((found, old) ∷ more) =
      if found == key then (key, value) ∷ more else (found, old) ∷ insert key value more

  unfoldable pub has_key : Text → Dict V → Bool
  unfolding lookup
  has_key k m = elim (lookup k m) [ none ↦ false | some v ↦ true ]

  abbrev pub keys : Dict V → List Text
  keys m = map (λ p. p.0) m

  pub lookup-insert :
      (key other : Text) (value : V) (m : Dict V)
      → lookup other (insert key value m) ≡ (if key == other then some value else lookup other m)
  unfolding lookup insert
  lookup-insert key other value [] = refl
  lookup-insert key other value ((found, old) ∷ more) =
      let rest = lookup-insert key other value more in
      ground (arith, rest, eq_iff found other, eq_iff found key, eq_iff key other)

-- `m[k]`: the empty text where the key is missing.
abbrev pub text_at : Dict Text → Text → Text
text_at m k = elim (lookup k m) [ none ↦ [] | some v ↦ v ]

-- No key stands twice.
abbrev pub Distinct : {V : Type 0} → Dict V → Type 0
Distinct [] = Unit
Distinct ((k, v) ∷ m) = (has_key k m ≡ false) × Distinct m

module _ {V : Type 0} where
  pub has_key-append :
      (k j : Text) (v : V) (m : Dict V)
      → has_key k (m ++ ((j, v) ∷ [])) ≡ (if has_key k m then true else j == k)
  unfolding has_key
  has_key-append k j v [] = ground arith
  has_key-append k j v ((i, w) ∷ m) = ground (arith, has_key-append k j v m)

  pub Distinct-append :
      (j : Text) (v : V) (m : Dict V)
      → Distinct m
      → has_key j m ≡ false
      → Distinct (m ++ ((j, v) ∷ []))
  unfolding has_key
  Distinct-append j v [] d h = (refl, tt)
  Distinct-append j v ((i, w) ∷ m) d h = (
    ground (arith, has_key-append i j v m, eq_iff i j, eq_iff j i),
    Distinct-append j v m d.1 (ground arith),
  )
