-- ===== src/Registry/Printed.antt =====
-- internal/registry/reference.go: what a parsed reference stands for.
use vpsmith.Base.{
  ℕ, ◌≡◌, ◌≢◌, refl, ap, ◌∙◌, inl, inr, arith, true, false, ◌||◌, none, some, [], ◌∷◌, ◌++◌,
  is_empty, eqb, Bool-cases, Option-cases,
}
use vpsmith.Base.Text.{
  Text, text, trim_space, to_lower, equal_fold, contains_any, has_byte, has_infix, cut,
}
use vpsmith.Base.Text.Last.{cut_last}
use vpsmith.Base.Result.{ok, require, require-eq-ok, >>=-eq-ok, reject-eq-ok}
use vpsmith.Registry.Reference.{
  ImageReference, not_fixed, no_registry, no_tag, bad_repository, bad_tag, bad_in_repository,
  is_moving, parse_remainder, parse_reference,
}

cut_lem :
    (c : ℕ) (s : Text) {x y : Text}
    → cut c s ≡ some (x, y)
    → (s ≡ x ++ (c ∷ y)) × (has_byte x c ≡ false)
unfolding cut has_byte
cut_lem c [] h = cc
cut_lem c (a ∷ s) {x} {y} h = elim (Bool-cases (eqb a c)) [
  | inl e ↦ (ground arith, ground arith)
  | inr e ↦ elim (Option-cases (cut c s)) [
    | inl none_behind ↦ ground arith
    | inr ((u, v), there) ↦
        let (same, free) = cut_lem c s {x = u} {y = v} there in
        let first : x ≡ a ∷ u = ground arith in
        let rest : y ≡ v = ground arith in
        rw (first, rest) (ap (λ t. a ∷ t) same, ground (arith, free))
  ]
]

cut_last-none : (c : ℕ) (s : Text) → cut_last c s ≡ none → has_byte s c ≡ false
unfolding cut_last has_byte
cut_last-none c [] h = refl
cut_last-none c (a ∷ s) h = elim (Option-cases (cut_last c s)) [
  | inl e ↦ ground (arith, cut_last-none c s e)
  | inr ((u, v), e) ↦ ground arith
]

cut_last_lem :
    (c : ℕ) (s : Text) {x y : Text}
    → cut_last c s ≡ some (x, y)
    → (s ≡ x ++ (c ∷ y)) × (has_byte y c ≡ false)
unfolding cut_last
cut_last_lem c [] h = cc
cut_last_lem c (a ∷ s) {x} {y} h = elim (Option-cases (cut_last c s)) [
  | inl e ↦
      let at_head : eqb a c ≡ true = ground arith in
      let rest : y ≡ s = ground arith in rw rest (ground arith, cut_last-none c s e)
  | inr ((u, v), e) ↦
      let (same, free) = cut_last_lem c s {x = u} {y = v} e in
      let first : x ≡ a ∷ u = ground arith in
      let rest : y ≡ v = ground arith in rw (first, rest) (ap (λ t. a ∷ t) same, free)
]

-- The reference is that text: a host, which the registry is in lower case, a repository and a tag.
pub record IsPrinted (ref : Text) (i : ImageReference) : Type 0 where
  pub host : Text
  pub some_host : host ≢ []
  pub no_slash : has_byte host b'/' ≡ false
  pub lower : i.registry ≡ to_lower host
  pub printed : ref ≡ host ++ (b'/' ∷ (i.repository ++ (b':' ∷ i.tag)))
  pub some_repository : i.repository ≢ []
  pub inside : has_infix i.repository (text "..") ≡ false
  pub some_tag : i.tag ≢ []
  pub no_colon : has_byte i.tag b':' ≡ false
  pub fixed : equal_fold i.tag (text "latest") ≡ false
  pub no_digest : contains_any ref (text "@?#" ++ (13 ∷ 10 ∷ 0 ∷ [])) ≡ false

some_text : (t : Text) → is_empty t ≡ false → t ≢ []
some_text [] h e = ground arith
some_text (c ∷ t) h e = cc

-- A reference that `parseReference` takes is, without the blanks around it, a host, a slash, a
-- repository, a colon and a tag, none of them empty; the registry is the host in lower case, which
-- has no slash, the repository has no two dots in a row, the tag has no colon and is not latest in
-- any case of letters, and the reference pins no digest.
pub parse_reference-IsPrinted :
    (given : Text) {i : ImageReference}
    → parse_reference given ≡ ok i
    → IsPrinted (trim_space given) i
unfolding parse_reference parse_remainder
parse_reference-IsPrinted given {i} h =
    let ref = trim_space given in
    let (e1, h1) =
      reject-eq-ok (is_empty ref || contains_any ref (text "@?#" ++ (13 ∷ 10 ∷ 0 ∷ []))) not_fixed _
        h in
    let ((host, remainder), e2, h2) = >>=-eq-ok (require (cut b'/' ref) no_registry) _ h1 in
    let (e3, h3) = reject-eq-ok (is_empty host || is_empty remainder) no_registry _ h2 in
    let ((repository, tag), e4, h4) = >>=-eq-ok (require (cut_last b':' remainder) no_tag) _ h3 in
    let (e5, h5) = reject-eq-ok (is_empty repository || is_empty tag) no_tag _ h4 in
    let (e6, h6) = reject-eq-ok (bad_in_repository repository) bad_repository _ h5 in
    let (e7, h7) = reject-eq-ok (is_moving tag) bad_tag _ h6 in
    let (whole, no_slash) = cut_lem b'/' ref (require-eq-ok (cut b'/' ref) no_registry e2) in
    let (behind, no_colon) =
      cut_last_lem b':' remainder {x = repository} {y = tag}
        (require-eq-ok (cut_last b':' remainder) no_tag e4) in
    let same : i ≡ record { registry = to_lower host; repository = repository; tag = tag } = cc in
    rw same record {
      host = host;
      some_host = some_text host (ground arith);
      no_slash = no_slash;
      lower = refl;
      printed = whole ∙ ap (λ t. host ++ (b'/' ∷ t)) behind;
      some_repository = some_text repository (ground arith);
      inside = ground arith;
      some_tag = some_text tag (ground arith);
      no_colon = no_colon;
      fixed = ground arith;
      no_digest = ground arith;
    }
