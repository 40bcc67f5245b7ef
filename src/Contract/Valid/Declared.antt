-- ===== src/Contract/Valid/Declared.antt =====
-- internal/modulecontract: what the loops over declarations find out.
use vpsmith.Base.{◌≡◌, refl, arith, true, false, none, List, [], ◌∷◌, All}
use vpsmith.Base.{if◌then◌else◌}
use vpsmith.Base.Text.{Text, ◌==◌, contains}
use vpsmith.Base.Result.{ok}
use vpsmith.Base.Dict.{Dict, lookup, insert, has_key, lookup-insert}
use vpsmith.Base.Table.{has_row, Unique}
use vpsmith.Base.Keys.{fresh-has_row}
use vpsmith.Contract.Types.{PersistentStorage}
use vpsmith.Contract.Errors.{ContractError}
use vpsmith.Contract.Validate.{Check, declare, declare_storage}

-- No row has a key of the set.
abbrev pub Fresh : {A : Type 0} → (A → Text) → List Text → List A → Type 0
Fresh key seen = All (λ a. contains seen (key a) ≡ false)

-- The keys of a longer set are those of the set and the new one.
pub Fresh-rest :
    {A : Type 0} (key : A → Text) (k : Text) (seen : List Text) (rows : List A)
    → Fresh key (k ∷ seen) rows
    → Fresh key seen rows × Fresh key (k ∷ []) rows
unfolding contains
Fresh-rest key k seen [] h = (tt, tt)
Fresh-rest key k seen (a ∷ rows) h =
    let rest = Fresh-rest key k seen rows h.1 in ((ground arith, rest.0), (ground arith, rest.1))

contains-cons :
    (k : Text) (seen : List Text) (t : Text)
    → contains (k ∷ seen) t ≡ (if k == t then true else contains seen t)
unfolding contains
contains-cons k seen t = refl

module _ {A : Type 0} (key : A → Text) (twice : Text → ContractError)
    (before after : A → Check) where
  pub record Declared (seen : List Text) (rows : List A) (found : List Text) : Type 0 where
    pub checked : All (λ a. (before a ≡ ok tt) × (after a ≡ ok tt)) rows
    pub fresh : Fresh key seen rows
    pub apart : Unique key rows
    pub same :
        (t : Text) → contains found t ≡ (if contains seen t then true else has_row key t rows)

  pub declare-Declared :
      (seen : List Text) (rows : List A) {found : List Text}
      → declare key twice before after seen rows ≡ ok found
      → Declared seen rows found
  unfolding declare has_row
  declare-Declared seen [] {found} h =
      let e : found ≡ seen = ground arith in
      record { checked = tt; fresh = tt; apart = tt; same = λ t. ground arith }
  declare-Declared seen (a ∷ rows) {found} h =
      let e : before a ≡ ok tt = ground arith in
      let f : after a ≡ ok tt = ground arith in
      let new : contains seen (key a) ≡ false = ground arith in
      let g : declare key twice before after (key a ∷ seen) rows ≡ ok found = ground arith in
      let rest = declare-Declared (key a ∷ seen) rows g in
      let (old, other) = Fresh-rest key (key a) seen rows rest.fresh in
      record {
        checked = ((e, f), rest.checked);
        fresh = (new, old);
        apart = (fresh-has_row key (key a) rows other, rest.apart);
        same = λ t. ground (arith, contains-cons (key a) seen t, rest.same t);
      }

-- The loop over the storage: ids and paths.
pub record DeclaredStorage (ids : List Text) (paths : Dict Text) (rows : List PersistentStorage)
    (found : List Text) : Type 0 where
  pub fresh : Fresh (λ s. s.id) ids rows
  pub fresh_paths : All (λ s. has_key s.path paths ≡ false) rows
  pub apart : Unique (λ s. s.id) rows
  pub paths_apart : Unique (λ s. s.path) rows
  pub same :
      (t : Text) → contains found t ≡ (if contains ids t then true else has_row (λ s. s.id) t rows)

Fresh-path :
    (p owner : Text) (paths : Dict Text) (rows : List PersistentStorage)
    → All (λ s. has_key s.path (insert p owner paths) ≡ false) rows
    → All (λ s. has_key s.path paths ≡ false) rows × Fresh (λ s. s.path) (p ∷ []) rows
unfolding has_key contains
Fresh-path p owner paths [] h = (tt, tt)
Fresh-path p owner paths (s ∷ rows) h =
    let rest = Fresh-path p owner paths rows h.1 in
    let e = lookup-insert p s.path owner paths in ((ground arith, rest.0), (ground arith, rest.1))

pub declare_storage-Declared :
    (ids : List Text) (paths : Dict Text) (rows : List PersistentStorage) {found : List Text}
    → declare_storage ids paths rows ≡ ok found
    → DeclaredStorage ids paths rows found
unfolding declare_storage has_row
declare_storage-Declared ids paths [] {found} h =
    let e : found ≡ ids = ground arith in
    record { fresh = tt; fresh_paths = tt; apart = tt; paths_apart = tt; same = λ t. ground arith }
declare_storage-Declared ids paths (s ∷ rows) {found} h =
    let new : contains ids s.id ≡ false = ground arith in
    let unclaimed : lookup s.path paths ≡ none = ground arith in
    let g : declare_storage (s.id ∷ ids) (insert s.path s.id paths) rows ≡ ok found =
      ground arith in
    let rest = declare_storage-Declared (s.id ∷ ids) (insert s.path s.id paths) rows g in
    let (old, other) = Fresh-rest (λ (x : PersistentStorage). x.id) s.id ids rows rest.fresh in
    let (old_paths, other_paths) = Fresh-path s.path s.id paths rows rest.fresh_paths in
    record {
      fresh = (new, old);
      fresh_paths = (unfold has_key in ground arith, old_paths);
      apart = (fresh-has_row (λ x. x.id) s.id rows other, rest.apart);
      paths_apart = (fresh-has_row (λ x. x.path) s.path rows other_paths, rest.paths_apart);
      same = λ t. ground (arith, contains-cons s.id ids t, rest.same t);
    }
