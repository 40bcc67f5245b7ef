-- ===== src/Base/Sort.antt =====
-- `sort.Slice` and `sort.Strings`, as a stable insertion sort by the test `less`.
use mathlib.Core.Path.{◌≡◌}
use mathlib.Core.Bool.{Bool, true, false}
use mathlib.Core.List.{List, [], ◌∷◌, Perm}
use mathlib.Core.List.Perm
use vpsmith.Base.Tests.{if◌then◌else◌, Bool-cases}
use vpsmith.Base.Lists.{All, All-map, Any}
use mathlib.Core.Logic.{◌⊎◌, inl, inr}
use vpsmith.Base.Text.{Text, less}

module _ {A : Type 0} (before : A → A → Bool) where
  unfoldable pub insert_by : A → List A → List A
  insert_by x [] = x ∷ []
  insert_by x (y ∷ ys) = if before y x then y ∷ insert_by x ys else x ∷ y ∷ ys

  unfoldable pub sort_by : List A → List A
  unfolding insert_by
  sort_by [] = []
  sort_by (x ∷ xs) = insert_by x (sort_by xs)

  insert_by-perm : (x : A) (ys : List A) → Perm (insert_by x ys) (x ∷ ys)
  unfolding insert_by
  insert_by-perm x [] = Perm.refl (x ∷ [])
  insert_by-perm x (y ∷ ys) = elim (Bool-cases (before y x)) [
    | inl e ↦ rw e (Perm.trans (Perm.cons y (insert_by-perm x ys)) (Perm.swap x y ys))
    | inr e ↦ rw e (Perm.refl (x ∷ y ∷ ys))
  ]

  pub sort_by-perm : (xs : List A) → Perm (sort_by xs) xs
  unfolding sort_by
  sort_by-perm [] = Perm.refl []
  sort_by-perm (x ∷ xs) = Perm.trans (insert_by-perm x (sort_by xs)) (Perm.cons x (sort_by-perm xs))

unfoldable pub sort_texts : List Text → List Text
unfolding sort_by
sort_texts = sort_by less

-- Sorted by a test: nothing comes before something that stands in front of it.
abbrev pub Sorted : {A : Type 0} → (A → A → Bool) → List A → Type 0
Sorted before [] = Unit
Sorted before (x ∷ xs) = All (λ y. before y x ≡ false) xs × Sorted before xs

-- What a test must be like for the sort to sort by it.
pub record IsOrder {A : Type 0} (before : A → A → Bool) : Type 0 where
  pub asym : (a b : A) → before a b ≡ true → before b a ≡ false
  pub trans : (a b c : A) → before b a ≡ false → before c b ≡ false → before c a ≡ false

pub insert_by-All :
    {A : Type 0} (before : A → A → Bool) (P : A → Type 0) (x : A) (ys : List A)
    → P x
    → All P ys
    → All P (insert_by before x ys)
unfolding insert_by
insert_by-All before P x [] p h = (p, tt)
insert_by-All before P x (y ∷ ys) p h = elim (Bool-cases (before y x)) [
  | inl e ↦ rw e (h.0, insert_by-All before P x ys p h.1)
  | inr e ↦ rw e (p, h)
]

pub sort_by-All :
    {A : Type 0} (before : A → A → Bool) (P : A → Type 0) (xs : List A)
    → All P xs
    → All P (sort_by before xs)
unfolding sort_by
sort_by-All before P [] h = tt
sort_by-All before P (x ∷ xs) h =
    insert_by-All before P x (sort_by before xs) h.0 (sort_by-All before P xs h.1)

module _ {A : Type 0} (before : A → A → Bool) (order : IsOrder before) where
  insert_by-Sorted :
      (x : A) (ys : List A) → Sorted before ys → Sorted before (insert_by before x ys)
  unfolding insert_by
  insert_by-Sorted x [] h = (tt, tt)
  insert_by-Sorted x (y ∷ ys) h = elim (Bool-cases (before y x)) [
    | inl e ↦ rw e (
      insert_by-All before (λ z. before z y ≡ false) x ys (order.asym y x e) h.0,
      insert_by-Sorted x ys h.1,
    )
    | inr e ↦ rw e (
      (
        e,
        All-map (λ z. before z y ≡ false) (λ z. before z x ≡ false) ys
            (λ z f. order.trans x y z e f) h.0,
      ),
      h,
    )
  ]

  pub sort_by-Sorted : (xs : List A) → Sorted before (sort_by before xs)
  unfolding sort_by
  sort_by-Sorted [] = tt
  sort_by-Sorted (x ∷ xs) = insert_by-Sorted x (sort_by before xs) (sort_by-Sorted xs)

insert_by-Any :
    {A : Type 0} (before : A → A → Bool) (P : A → Type 0) (x : A) (ys : List A)
    → P x ⊎ Any P ys
    → Any P (insert_by before x ys)
unfolding insert_by
insert_by-Any before P x [] h = h
insert_by-Any before P x (y ∷ ys) h = elim (Bool-cases (before y x)) [
  | inr e ↦ rw e h
  | inl e ↦ rw e (elim h [
    | inl p ↦ inr (insert_by-Any before P x ys (inl p))
    | inr (inl q) ↦ inl q
    | inr (inr k) ↦ inr (insert_by-Any before P x ys (inr k))
  ])
]

-- What stands in a list stands in the sorted list.
pub sort_by-Any :
    {A : Type 0} (before : A → A → Bool) (P : A → Type 0) (xs : List A)
    → Any P xs
    → Any P (sort_by before xs)
unfolding sort_by
sort_by-Any before P [] h = h
sort_by-Any before P (x ∷ xs) (inl p) = insert_by-Any before P x (sort_by before xs) (inl p)
sort_by-Any before P (x ∷ xs) (inr k) =
    insert_by-Any before P x (sort_by before xs) (inr (sort_by-Any before P xs k))
