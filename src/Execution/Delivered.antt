-- ===== src/Execution/Delivered.antt =====
-- What `resolveSecrets` of internal/execution/executor.go hands to the target: the referenced secrets, and
-- no others.
use vpsmith.Base.{◌≡◌, refl, ap, subst, arith, inl, inr, ◌⊎◌, true, false, List, [], ◌∷◌, map}
use vpsmith.Base.{if◌then◌else◌, is_empty, All, All-map, Any, Bool-cases}
use vpsmith.Base.Text.{Text, ◌==◌, eq_iff, contains, less, less_asym, less_antitrans}
use vpsmith.Base.Result.{ok, Result-cases}
use vpsmith.Base.Sort.{
  sort_by, sort_texts, Sorted, IsOrder, sort_by-All, sort_by-Any, sort_by-Sorted,
}
use vpsmith.Base.Distinct.{Distinct, Distinct-cons, sort_by-Distinct}
use vpsmith.Bundle.Types.{SecretReference}
use vpsmith.Execution.Types.{SecretValue}
use vpsmith.Execution.Env.{resolve, Trace, Env}
use vpsmith.Execution.Secrets.{secret_ids, resolve_all, resolve_found, resolve_secrets}

abbrev pub id_of : SecretValue → Text
id_of v = v.id

-- The values are those of the references: each reference has its value, which is not empty, each value
-- a reference, and the values are in the order of their ids, each id once.
pub record IsDelivery (refs : List SecretReference) (values : List SecretValue) : Type 0 where
  pub answered : All (λ r. Any (λ t. t ≡ r.secret_id) (map id_of values)) refs
  pub asked : All (λ t. Any (λ r. r.secret_id ≡ t) refs) (map id_of values)
  pub valued : All (λ v. is_empty v.value ≡ false) values
  pub ordered : Sorted less (map id_of values)
  pub distinct : Distinct (map id_of values)

contains-Any : (ts : List Text) (t : Text) → contains ts t ≡ true → Any (λ x. x ≡ t) ts
unfolding contains
contains-Any [] t h = cc
contains-Any (u ∷ ts) t h = elim (Bool-cases (u == t)) [
  | inl e ↦ inl (ground (arith, eq_iff u t))
  | inr e ↦ inr (contains-Any ts t (ground arith))
]

-- The set after one reference.
abbrev with_id : List Text → Text → List Text
with_id ids id = if contains ids id then ids else id ∷ ids

with_id-Any : (ids : List Text) (id : Text) → Any (λ x. x ≡ id) (with_id ids id)
with_id-Any ids id = elim (Bool-cases (contains ids id)) [
  | inl seen ↦ rw seen (contains-Any ids id seen)
  | inr new ↦ rw new (inl refl)
]

with_id-keeps :
    (ids : List Text) (id t : Text) → Any (λ x. x ≡ t) ids → Any (λ x. x ≡ t) (with_id ids id)
with_id-keeps ids id t h = elim (Bool-cases (contains ids id)) [
  | inl seen ↦ rw seen h
  | inr new ↦ rw new (inr h)
]

with_id-cases :
    (ids : List Text) (id t : Text)
    → Any (λ x. x ≡ t) (with_id ids id)
    → (id ≡ t) ⊎ Any (λ x. x ≡ t) ids
with_id-cases ids id t h = elim (Bool-cases (contains ids id)) [
  | inl seen ↦ inr (subst (λ b. Any (λ x. x ≡ t) (if b then ids else id ∷ ids)) seen h)
  | inr new ↦ subst (λ b. Any (λ x. x ≡ t) (if b then ids else id ∷ ids)) new h
]

secret_ids-step :
    (ids : List Text) (r : SecretReference) (refs : List SecretReference) {found : List Text}
    → secret_ids ids (r ∷ refs) ≡ ok found
    → secret_ids (with_id ids r.secret_id) refs ≡ ok found
unfolding secret_ids
secret_ids-step ids r refs h = ground arith

secret_ids-keeps :
    (ids : List Text) (refs : List SecretReference) (t : Text) {found : List Text}
    → secret_ids ids refs ≡ ok found
    → Any (λ x. x ≡ t) ids
    → Any (λ x. x ≡ t) found
unfolding secret_ids
secret_ids-keeps ids [] t {found = found} h there =
    let same : ids ≡ found = ground arith in subst (Any (λ x. x ≡ t)) same there
secret_ids-keeps ids (r ∷ refs) t h there =
    secret_ids-keeps (with_id ids r.secret_id) refs t (secret_ids-step ids r refs h)
      (with_id-keeps ids r.secret_id t there)

secret_ids-answered :
    (ids : List Text) (refs : List SecretReference) {found : List Text}
    → secret_ids ids refs ≡ ok found
    → All (λ r. Any (λ x. x ≡ r.secret_id) found) refs
secret_ids-answered ids [] h = tt
secret_ids-answered ids (r ∷ refs) h =
    let rest = secret_ids-step ids r refs h in
    (
      secret_ids-keeps (with_id ids r.secret_id) refs r.secret_id rest
          (with_id-Any ids r.secret_id),
      secret_ids-answered (with_id ids r.secret_id) refs rest,
    )

secret_ids-asked :
    (ids : List Text) (refs : List SecretReference) (t : Text) {found : List Text}
    → secret_ids ids refs ≡ ok found
    → Any (λ x. x ≡ t) found
    → Any (λ x. x ≡ t) ids ⊎ Any (λ r. r.secret_id ≡ t) refs
unfolding secret_ids
secret_ids-asked ids [] t {found = found} h there =
    let same : found ≡ ids = ground arith in inl (subst (Any (λ x. x ≡ t)) same there)
secret_ids-asked ids (r ∷ refs) t h there =
    elim (secret_ids-asked (with_id ids r.secret_id) refs t (secret_ids-step ids r refs h) there) [
      | inr k ↦ inr (inr k)
      | inl k ↦ elim (with_id-cases ids r.secret_id t k) [ inl e ↦ inr (inl e) | inr l ↦ inl l ]
    ]

with_id-Distinct : (ids : List Text) (id : Text) → Distinct ids → Distinct (with_id ids id)
with_id-Distinct ids id h = elim (Bool-cases (contains ids id)) [
  | inl seen ↦ rw seen h
  | inr new ↦ rw new (Distinct-cons ids id new h)
]

secret_ids-Distinct :
    (ids : List Text) (refs : List SecretReference) {found : List Text}
    → secret_ids ids refs ≡ ok found
    → Distinct ids
    → Distinct found
unfolding secret_ids
secret_ids-Distinct ids [] {found = found} h k =
    let same : ids ≡ found = ground arith in subst Distinct same k
secret_ids-Distinct ids (r ∷ refs) h k =
    secret_ids-Distinct (with_id ids r.secret_id) refs (secret_ids-step ids r refs h)
      (with_id-Distinct ids r.secret_id k)

All-own : {A : Type 0} (xs : List A) → All (λ x. Any (λ y. y ≡ x) xs) xs
All-own [] = tt
All-own {A = A} (x ∷ xs) = (
  inl refl,
  All-map (λ y. Any (λ z. z ≡ y) xs) (λ y. Any (λ z. z ≡ y) (x ∷ xs)) xs (λ y k. inr k)
      (All-own xs),
)

less-IsOrder : IsOrder less
less-IsOrder = record { asym = less_asym; trans = less_antitrans }

delivery :
    (refs : List SecretReference) (found : List Text) (values : List SecretValue)
    → secret_ids [] refs ≡ ok found
    → map id_of values ≡ sort_texts found
    → All (λ v. is_empty v.value ≡ false) values
    → IsDelivery refs values
unfolding sort_texts
delivery refs found values good same valued = record {
  answered = rw same (
      All-map (λ r. Any (λ x. x ≡ r.secret_id) found)
        (λ r. Any (λ x. x ≡ r.secret_id) (sort_by less found)) refs
        (λ r. sort_by-Any less (λ x. x ≡ r.secret_id) found) (secret_ids-answered [] refs good));
  asked = rw same (
      sort_by-All less (λ t. Any (λ r. r.secret_id ≡ t) refs) found
        (All-map (λ t. Any (λ x. x ≡ t) found) (λ t. Any (λ r. r.secret_id ≡ t) refs) found
          (λ t there. elim (secret_ids-asked [] refs t good there) [ inl k ↦ absurd k | inr k ↦ k ])
          (All-own found)));
  valued = valued;
  ordered = rw same (sort_by-Sorted less less-IsOrder found);
  distinct = rw same (sort_by-Distinct less found (secret_ids-Distinct [] refs good tt));
}

module _ (env : Env) where
  resolve_all-ids :
      (tr : Trace) (ids : List Text) {values : List SecretValue}
      → (resolve_all env tr ids).0 ≡ ok values
      → (map id_of values ≡ ids) × All (λ v. is_empty v.value ≡ false) values
  unfolding resolve_all
  resolve_all-ids tr [] {values = values} h =
      let none_left : values ≡ [] = ground arith in (rw none_left refl, rw none_left tt)
  resolve_all-ids tr (id ∷ ids) {values = values} h = elim (Result-cases (env.on_resolve tr id)) [
    | inl (e, bad) ↦ ground arith
    | inr ([], bad) ↦ ground arith
    | inr (b ∷ bs, good) ↦ elim (Result-cases (resolve_all env (resolve id ∷ tr) ids).0) [
      | inl (e, bad) ↦ ground arith
      | inr (more, fine) ↦
          let own : SecretValue = record { id = id; value = b ∷ bs } in
          let made : values ≡ own ∷ more = ground arith in
          let (same, valued) = resolve_all-ids (resolve id ∷ tr) ids fine in
          rw made (ap (λ rest. id ∷ rest) same, (refl, valued))
    ]
  ]

  -- If `resolveSecrets` returns values without an error, every reference has a value under its id,
  -- every value is of an id that some reference names, no value is empty, and the values are in
  -- the order of their ids, no id twice.
  pub resolve_secrets-IsDelivery :
      (tr : Trace) (refs : List SecretReference) {values : List SecretValue}
      → (resolve_secrets env tr refs).0 ≡ ok values
      → IsDelivery refs values
  unfolding resolve_secrets resolve_found
  resolve_secrets-IsDelivery tr refs {values = values} h =
      elim (Result-cases (secret_ids [] refs)) [
        | inl (e, bad) ↦ ground arith
        | inr (found, good) ↦
            let resolved : (resolve_all env tr (sort_texts found)).0 ≡ ok values = ground arith in
            let (same, valued) = resolve_all-ids tr (sort_texts found) resolved in
            delivery refs found values good same valued
      ]
