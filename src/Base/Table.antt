-- ===== src/Base/Table.antt =====
-- A table with a text key, as the list of its rows in the order of insertion: the statements that the
-- program runs on one.
use mathlib.Core.Path.{◌≡◌, refl, sym, subst}
use mathlib.Core.Logic.{inl, inr}
use mathlib.Core.Bool.{Bool, true, false}
use mathlib.Core.Option.{Option, none, some}
use mathlib.Core.List.{List, [], ◌∷◌, ◌++◌}
use native.Mathlib.Omega.{arith}
use vpsmith.Base.Tests.{if◌then◌else◌, Bool-cases}
use vpsmith.Base.Lists.{All}
use vpsmith.Base.Text.{Text, ◌==◌, eq_iff}

module _ {A : Type 0} (key : A → Text) where
  -- `SELECT COUNT(*) … WHERE key=?`, on a key that is unique.
  unfoldable pub has_row : Text → List A → Bool
  has_row k [] = false
  has_row k (a ∷ rows) = if key a == k then true else has_row k rows

  -- `INSERT`, refused on a key that is there.
  unfoldable pub insert_row : A → List A → Option (List A)
  insert_row a rows = if has_row (key a) rows then none else some (rows ++ (a ∷ []))

  -- `UPDATE … WHERE key=?`; `none` if there is no such row.
  unfoldable pub update_all : Text → (A → A) → List A → List A
  update_all k f [] = []
  update_all k f (a ∷ rows) = (if key a == k then f a else a) ∷ update_all k f rows

  unfoldable pub update_row : Text → (A → A) → List A → Option (List A)
  update_row k f rows = if has_row k rows then some (update_all k f rows) else none

  -- `DELETE … WHERE key=?`, likewise.
  unfoldable pub delete_all : Text → List A → List A
  delete_all k [] = []
  delete_all k (a ∷ rows) = let rest = delete_all k rows in if key a == k then rest else a ∷ rest

  unfoldable pub delete_row : Text → List A → Option (List A)
  delete_row k rows = if has_row k rows then some (delete_all k rows) else none

  -- No key stands in two rows.
  abbrev pub Unique : List A → Type 0
  Unique [] = Unit
  Unique (a ∷ rows) = (has_row (key a) rows ≡ false) × Unique rows

  pub has_row-append :
      (k : Text) (a : A) (rows : List A)
      → has_row k (rows ++ (a ∷ [])) ≡ (if has_row k rows then true else key a == k)
  unfolding has_row
  has_row-append k a [] = ground arith
  has_row-append k a (b ∷ rows) = ground (arith, has_row-append k a rows)

  Unique-append :
      (a : A) (rows : List A)
      → Unique rows
      → has_row (key a) rows ≡ false
      → Unique (rows ++ (a ∷ []))
  unfolding has_row
  Unique-append a [] u h = (refl, tt)
  Unique-append a (b ∷ rows) u h = (
    ground (arith, has_row-append (key b) a rows, eq_iff (key a) (key b), eq_iff (key b) (key a)),
    Unique-append a rows u.1 (ground arith),
  )

  pub insert_row-Unique :
      (a : A) (rows : List A) {rows' : List A}
      → insert_row a rows ≡ some rows'
      → Unique rows
      → (Unique rows') × (rows' ≡ rows ++ (a ∷ []))
  unfolding insert_row
  insert_row-Unique a rows {rows' = rows'} h u =
      let e : rows' ≡ rows ++ (a ∷ []) = ground arith in
      let new : has_row (key a) rows ≡ false = ground arith in
      (subst Unique (sym e) (Unique-append a rows u new), e)

  pub has_row-update_all :
      (k j : Text) (f : A → A) (rows : List A)
      → ((a : A) → key (f a) ≡ key a)
      → has_row j (update_all k f rows) ≡ has_row j rows
  unfolding has_row update_all
  has_row-update_all k j f [] same = refl
  has_row-update_all k j f (a ∷ rows) same =
      ground (arith, has_row-update_all k j f rows same, same a)

  pub update_all-Unique :
      (k : Text) (f : A → A) (rows : List A)
      → ((a : A) → key (f a) ≡ key a)
      → Unique rows
      → Unique (update_all k f rows)
  unfolding update_all
  update_all-Unique k f [] same u = tt
  update_all-Unique k f (a ∷ rows) same u = (
    ground (arith, has_row-update_all k (key a) f rows same, same a),
    update_all-Unique k f rows same u.1,
  )

  pub has_row-delete_all :
      (k j : Text) (rows : List A)
      → has_row j (delete_all k rows) ≡ (if k == j then false else has_row j rows)
  unfolding has_row delete_all
  has_row-delete_all k j [] = ground arith
  has_row-delete_all k j (a ∷ rows) =
      ground (arith, has_row-delete_all k j rows, eq_iff k j, eq_iff (key a) j, eq_iff (key a) k)

  pub delete_all-Unique : (k : Text) (rows : List A) → Unique rows → Unique (delete_all k rows)
  unfolding delete_all
  delete_all-Unique k [] u = tt
  delete_all-Unique k (a ∷ rows) u =
      ground (arith, has_row-delete_all k (key a) rows, delete_all-Unique k rows u.1)

  -- What holds of all rows and of what an update makes of one holds of the updated rows.
  pub All-update_all :
      (P : A → Type 0) (k : Text) (f : A → A) (rows : List A)
      → ((a : A) → P a → P (f a))
      → All P rows
      → All P (update_all k f rows)
  unfolding update_all
  All-update_all P k f [] keep h = tt
  All-update_all P k f (a ∷ rows) keep h =
      (ground (arith, keep a h.0, h.0), All-update_all P k f rows keep h.1)

  pub All-delete_all :
      (P : A → Type 0) (k : Text) (rows : List A) → All P rows → All P (delete_all k rows)
  unfolding delete_all
  All-delete_all P k [] h = tt
  All-delete_all P k (a ∷ rows) h = elim (Bool-cases (key a == k)) [
    | inl e ↦ rw (e, delete_all) (All-delete_all P k rows h.1)
    | inr e ↦ rw (e, delete_all) (h.0, All-delete_all P k rows h.1)
  ]
