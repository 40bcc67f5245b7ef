-- ===== src/Deployment/Collisions.antt =====
-- `validateClaims` of internal/deployment/claims.go compares neighbours in a sorted list; this is enough.
use vpsmith.Base.{
  ◌≡◌, sym, ◌∙◌, subst, arith, inl, inr, ◌⊎◌, Bool, true, false, ◌&&◌, List, [], ◌∷◌, ◌++◌,
}
use vpsmith.Base.{All, All-Any, Any, Bool-cases}
use vpsmith.Base.Text.{
  Text, text, ◌==◌, eq_iff, eq_comm, less, trim_prefix, lex, lex_between, lex_asym, lex_trans,
  less_asym, less_antitrans,
}
use vpsmith.Base.Result.{ok}
use vpsmith.Base.Sort.{sort_by, Sorted, IsOrder, sort_by-Sorted, sort_by-Any}
use vpsmith.Deployment.Types.{ObservedClaim, LinkNetwork, CompiledModule}
use vpsmith.Deployment.Claims.{
  Claim, derive_claims, observed_claims, claim_before, same_logical_owner, collides,
  check_neighbours, check_claims, validate_claims,
}

claim_before-IsOrder : IsOrder claim_before
claim_before-IsOrder = record {
  asym = λ a b.
      lex_asym a.kind b.kind (lex a.value b.value (less a.owner b.owner))
        (lex b.value a.value (less b.owner a.owner))
        (lex_asym a.value b.value (less a.owner b.owner) (less b.owner a.owner)
          (less_asym a.owner b.owner));
  trans = λ a b c.
      lex_trans a.kind b.kind c.kind (lex b.value a.value (less b.owner a.owner))
        (lex c.value b.value (less c.owner b.owner)) (lex c.value a.value (less c.owner a.owner))
        (lex_trans a.value b.value c.value (less b.owner a.owner) (less c.owner b.owner)
          (less c.owner a.owner) (less_antitrans a.owner b.owner c.owner));
}

-- Two claims on one resource.
abbrev pub same_resource : Claim → Claim → Bool
same_resource a b = a.kind == b.kind && a.value == b.value

-- No two claims of the list collide, the earlier one first.
abbrev pub IsFreeOfCollisions : List Claim → Type 0
IsFreeOfCollisions [] = Unit
IsFreeOfCollisions (a ∷ cs) = All (λ b. collides a b ≡ false) cs × IsFreeOfCollisions cs

same_resource-between :
    (a b c : Claim)
    → claim_before b a ≡ false
    → claim_before c b ≡ false
    → same_resource a c ≡ true
    → same_resource a b ≡ true
same_resource-between a b c h k same =
    let kinds : c.kind ≡ a.kind = ground (arith, eq_iff a.kind c.kind) in
    let values : c.value ≡ a.value = ground (arith, eq_iff a.value c.value) in
    let back : lex a.kind b.kind (lex c.value b.value (less c.owner b.owner)) ≡ false =
      subst (λ t. lex t b.kind (lex c.value b.value (less c.owner b.owner)) ≡ false) kinds k in
    let (same_kind, next, next_back) =
      lex_between a.kind b.kind (lex b.value a.value (less b.owner a.owner))
        (lex c.value b.value (less c.owner b.owner)) h back in
    let back_values : lex a.value b.value (less c.owner b.owner) ≡ false =
      subst (λ t. lex t b.value (less c.owner b.owner) ≡ false) values next_back in
    let (same_value, _, _) =
      lex_between a.value b.value (less b.owner a.owner) (less c.owner b.owner) next back_values in
    ground (arith, eq_iff a.kind b.kind, eq_iff a.value b.value)

same_owner_trans :
    (a b c : Text)
    → same_logical_owner a b ≡ true
    → same_logical_owner b c ≡ true
    → same_logical_owner a c ≡ true
same_owner_trans a b c h k =
    let e = eq_iff (trim_prefix a (text "observed:")) (trim_prefix b (text "observed:")) in
    let f = eq_iff (trim_prefix b (text "observed:")) (trim_prefix c (text "observed:")) in
    let g = eq_iff (trim_prefix a (text "observed:")) (trim_prefix c (text "observed:")) in
    ground arith

same_owner_sym : (a b : Text) → same_logical_owner a b ≡ true → same_logical_owner b a ≡ true
same_owner_sym a b h =
    let e = eq_iff (trim_prefix a (text "observed:")) (trim_prefix b (text "observed:")) in
    let f = eq_iff (trim_prefix b (text "observed:")) (trim_prefix a (text "observed:")) in
    ground arith

past :
    (a b c : Claim)
    → claim_before b a ≡ false
    → collides a b ≡ false
    → claim_before c b ≡ false
    → collides b c ≡ false
    → collides a c ≡ false
past a b c first apart second free = elim (Bool-cases (same_resource a c)) [
  | inr other ↦ ground arith
  | inl same ↦
      let ab : same_resource a b ≡ true = same_resource-between a b c first second same in
      let bc : same_resource b c ≡ true = ground (
        arith,
        eq_iff a.kind b.kind,
        eq_iff a.kind c.kind,
        eq_iff b.kind c.kind,
        eq_iff a.value b.value,
        eq_iff a.value c.value,
        eq_iff b.value c.value,
      ) in
      let one : same_logical_owner a.owner b.owner ≡ true = ground arith in
      let two : same_logical_owner b.owner c.owner ≡ true = ground arith in
      let three = same_owner_trans a.owner b.owner c.owner one two in ground arith
]

-- In a sorted list, a claim that collides with no neighbour collides with none behind it.
check_neighbours-free :
    (a : Claim) (cs : List Claim)
    → Sorted claim_before (a ∷ cs)
    → check_neighbours a cs ≡ ok tt
    → IsFreeOfCollisions (a ∷ cs)
unfolding check_neighbours
check_neighbours-free a [] sorted h = (tt, tt)
check_neighbours-free a (b ∷ cs) sorted h =
    let apart : collides a b ≡ false = ground arith in
    let rest = check_neighbours-free b cs sorted.1 (ground arith) in
    ((apart, further a b cs sorted.0.0 apart sorted.1.0 rest.0), rest)
  where
    further :
        (a b : Claim) (cs : List Claim)
        → claim_before b a ≡ false
        → collides a b ≡ false
        → All (λ c. claim_before c b ≡ false) cs
        → All (λ c. collides b c ≡ false) cs
        → All (λ c. collides a c ≡ false) cs
    further a b [] first apart order free = tt
    further a b (c ∷ cs) first apart order free =
        (past a b c first apart order.0 free.0, further a b cs first apart order.1 free.1)

check_claims-free :
    (cs : List Claim) → Sorted claim_before cs → check_claims cs ≡ ok tt → IsFreeOfCollisions cs
check_claims-free [] sorted h = tt
check_claims-free (a ∷ cs) sorted h = check_neighbours-free a cs sorted h

at_front :
    (c : Claim) (cs : List Claim) (a b : Claim)
    → All (λ x. collides c x ≡ false) cs
    → c ≡ a
    → Any (λ x. x ≡ b) cs
    → collides a b ≡ false
at_front c cs a b free e there =
    let (x, apart, f) = All-Any (λ x. collides c x ≡ false) (λ x. x ≡ b) cs free there in
    subst (λ y. collides y b ≡ false) e (subst (λ y. collides c y ≡ false) f apart)

decide :
    (a b : Claim)
    → same_resource a b ≡ true
    → (a ≡ b) ⊎ (collides a b ≡ false) ⊎ (collides b a ≡ false)
    → (a ≡ b) ⊎ (same_logical_owner a.owner b.owner ≡ true)
decide a b same (inl e) = inl e
decide a b same (inr (inl apart)) = inr (ground arith)
decide a b same (inr (inr apart)) =
    let back : same_resource b a ≡ true =
      ground (arith, eq_comm a.kind b.kind, eq_comm a.value b.value) in
    let owner : same_logical_owner b.owner a.owner ≡ true = ground arith in
    inr (same_owner_sym b.owner a.owner owner)

free_pair :
    (cs : List Claim) (a b : Claim)
    → IsFreeOfCollisions cs
    → Any (λ x. x ≡ a) cs
    → Any (λ x. x ≡ b) cs
    → (a ≡ b) ⊎ (collides a b ≡ false) ⊎ (collides b a ≡ false)
free_pair [] a b free here there = absurd here
free_pair (c ∷ cs) a b free (inl e) (inl f) = inl (sym e ∙ f)
free_pair (c ∷ cs) a b free (inl e) (inr k) = inr (inl (at_front c cs a b free.0 e k))
free_pair (c ∷ cs) a b free (inr k) (inl e) = inr (inr (at_front c cs b a free.0 e k))
free_pair (c ∷ cs) a b free (inr k) (inr l) = free_pair cs a b free.1 k l

-- No resource has two owners: if the observed claims are complete and `validateClaims` returns no
-- error, then of any two claims that the modules, the link networks or the target make on the same
-- kind and value, either both are one claim or they have the same logical owner, although only
-- neighbours in the sorted list are compared.
pub validate_claims-owner :
    (mods : List CompiledModule) (links : List LinkNetwork) (observed : List ObservedClaim)
    (seen : List Claim)
    → observed_claims observed ≡ ok seen
    → validate_claims mods links observed ≡ ok tt
    → (a b : Claim) → Any (λ x. x ≡ a) (derive_claims mods links ++ seen)
    → Any (λ x. x ≡ b) (derive_claims mods links ++ seen)
    → same_resource a b ≡ true
    → (a ≡ b) ⊎ (same_logical_owner a.owner b.owner ≡ true)
unfolding validate_claims
validate_claims-owner mods links observed seen known h a b here there same =
    let all = derive_claims mods links ++ seen in
    let checked : check_claims (sort_by claim_before all) ≡ ok tt = ground arith in
    let free =
      check_claims-free (sort_by claim_before all)
        (sort_by-Sorted claim_before claim_before-IsOrder all) checked in
    decide a b same (
      free_pair (sort_by claim_before all) a b free (sort_by-Any claim_before (λ x. x ≡ a) all here)
        (sort_by-Any claim_before (λ x. x ≡ b) all there))
