-- ===== src/Base/Keys.antt =====
-- What sorting, mapping and checking a list keeps of its keys: which keys it has, and that none stands
-- twice.
use mathlib.Core.Path.{◌≡◌, refl}
use mathlib.Core.Logic.{inl, inr}
use mathlib.Core.Bool.{Bool, true, false}
use mathlib.Core.List.{List, [], ◌∷◌, map}
use native.Mathlib.Omega.{arith}
use vpsmith.Base.Tests.{if◌then◌else◌, Bool-cases}
use vpsmith.Base.Lists.{All, Any}
use vpsmith.Base.Text.{Text, ◌==◌, eq_iff, contains}
use vpsmith.Base.Result.{Result, ok, for_each}
use vpsmith.Base.Sort.{insert_by, sort_by}
use vpsmith.Base.Table.{has_row, Unique}

module _ {A : Type 0} (key : A → Text) (before : A → A → Bool) where
  has_row-insert_by :
      (k : Text) (a : A) (rows : List A)
      → has_row key k (insert_by before a rows) ≡ (if key a == k then true else has_row key k rows)
  unfolding has_row insert_by
  has_row-insert_by k a [] = refl
  has_row-insert_by k a (b ∷ rows) = ground (arith, has_row-insert_by k a rows)

  -- Sorting keeps the keys.
  pub has_row-sort_by :
      (k : Text) (rows : List A) → has_row key k (sort_by before rows) ≡ has_row key k rows
  unfolding has_row sort_by
  has_row-sort_by k [] = refl
  has_row-sort_by k (a ∷ rows) =
      ground (arith, has_row-insert_by k a (sort_by before rows), has_row-sort_by k rows)

  insert_by-Unique :
      (a : A) (rows : List A)
      → has_row key (key a) rows ≡ false
      → Unique key rows
      → Unique key (insert_by before a rows)
  unfolding insert_by has_row
  insert_by-Unique a [] new u = (refl, tt)
  insert_by-Unique a (b ∷ rows) new u = elim (Bool-cases (before b a)) [
    | inl e ↦ rw e (
      ground
          (arith, has_row-insert_by (key b) a rows, eq_iff (key a) (key b), eq_iff (key b) (key a)),
      insert_by-Unique a rows (ground arith) u.1,
    )
    | inr e ↦ rw e (new, u)
  ]

  pub sort_by-Unique : (rows : List A) → Unique key rows → Unique key (sort_by before rows)
  unfolding sort_by
  sort_by-Unique [] u = tt
  sort_by-Unique (a ∷ rows) u =
      insert_by-Unique a (sort_by before rows) (ground (arith, has_row-sort_by (key a) rows))
        (sort_by-Unique rows u.1)

-- A map that leaves the keys.
module _ {A B : Type 0} (key : A → Text) (key' : B → Text) (f : A → B)
    (same : (a : A) → key' (f a) ≡ key a) where
  pub has_row-map : (k : Text) (rows : List A) → has_row key' k (map f rows) ≡ has_row key k rows
  unfolding has_row
  has_row-map k [] = refl
  has_row-map k (a ∷ rows) = ground (arith, same a, has_row-map k rows)

  pub map-Unique : (rows : List A) → Unique key rows → Unique key' (map f rows)
  map-Unique [] u = tt
  map-Unique (a ∷ rows) u = (ground (arith, same a, has_row-map (key a) rows), map-Unique rows u.1)

module _ {A B : Type 0} (f : A → B) where
  -- A predicate of what a map makes of each element.
  pub map-All :
      (P : A → Type 0) (Q : B → Type 0) (xs : List A)
      → ((a : A) → P a → Q (f a))
      → All P xs
      → All Q (map f xs)
  map-All P Q [] g h = tt
  map-All P Q (x ∷ xs) g h = (g x h.0, map-All P Q xs g h.1)

  pub map-Any :
      (P : A → Type 0) (Q : B → Type 0) (xs : List A)
      → ((a : A) → P a → Q (f a))
      → Any P xs
      → Any Q (map f xs)
  map-Any P Q [] g h = absurd h
  map-Any P Q (x ∷ xs) g (inl h) = inl (g x h)
  map-Any P Q (x ∷ xs) g (inr h) = inr (map-Any P Q xs g h)

-- A set of keys that none of the rows has.
pub fresh-has_row :
    {A : Type 0} (key : A → Text) (k : Text) (rows : List A)
    → All (λ a. contains (k ∷ []) (key a) ≡ false) rows
    → has_row key k rows ≡ false
unfolding has_row contains
fresh-has_row key k [] h = refl
fresh-has_row key k (a ∷ rows) h =
    ground (arith, fresh-has_row key k rows, eq_iff (key a) k, eq_iff k (key a))

pub for_each-All :
    {E A : Type 0} (check : A → Result E (Unit {0})) (P : A → Type 0)
    → ((a : A) → check a ≡ ok tt → P a)
    → (xs : List A) → for_each check xs ≡ ok tt
    → All P xs
unfolding for_each
for_each-All check P sound [] h = tt
for_each-All check P sound (x ∷ xs) h =
    let e : check x ≡ ok tt = ground arith in
    let f : for_each check xs ≡ ok tt = ground arith in (sound x e, for_each-All check P sound xs f)
