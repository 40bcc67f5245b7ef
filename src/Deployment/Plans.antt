-- ===== src/Deployment/Plans.antt =====
-- What `buildPlan` of internal/deployment/plan.go makes of a request.
mod Steps
pub use Steps.*
use vpsmith.Base.{
  ◌≡◌, refl, sym, ap, ◌∙◌, subst, arith, inl, inr, ◌⊎◌, Bool, true, false, Option, none, some, List,
  [], ◌∷◌, ◌++◌, map,
}
use vpsmith.Base.{
  if◌then◌else◌, length, length-append, All, All-map, All-append, Bool-cases, Option-cases,
}
use vpsmith.Base.Text.{Text, text, ◌==◌, eq_iff, eq_refl, contains}
use vpsmith.Base.Result.{ok, Result-cases}
use vpsmith.Base.Dict.{lookup, text_at}
use vpsmith.Bundle.Types.{Step}
use vpsmith.Deployment.Types.{OperationKind, Request, CompiledModule}
use vpsmith.Deployment.Validation.{find_module, is_validate, validate_update}
use vpsmith.Deployment.Plan.{
  Plan, PlanStep, GeneratedArtifact, artifact_plan_step, artifact_step, start_plan,
  action_plan_step, action_step, add_action_file, add_action_steps, append_action, append_updates,
  append_validation, build_plan, base_name,
}

-- The plan that `buildPlan` returns without an error: the plan steps and the bundle steps are the
-- same work, step by step, with the same flag; no action stands twice among the actions of the
-- bundle, each has one file, and every step that runs an action runs one of them.
pub build_plan-IsPlan :
    (req : Request) (mods : List CompiledModule) (artifacts : List GeneratedArtifact)
    (updates : List Text) {p : Plan}
    → build_plan req mods artifacts updates ≡ ok p
    → IsPlan p
unfolding build_plan
build_plan-IsPlan req mods artifacts updates {p = p} h =
    let target = find_module req.subject_instance mods in
    elim (Result-cases (append_updates req target updates (start_plan req artifacts))) [
      | inl (e, bad) ↦ ground arith
      | inr (mid, good) ↦
          let rest : append_validation req target mid ≡ ok p = ground arith in
          append_validation-IsPlan req target mid rest (
            append_updates-IsPlan req target updates (start_plan req artifacts) good
              (start_plan-IsPlan req artifacts))
    ]

abbrev pub IsReadOnly : Step → Type 0
IsReadOnly s = s.mutating ≡ false

no_updates :
    (req : Request) (mods : List CompiledModule) {updates : List Text}
    → is_validate req.operation ≡ true
    → validate_update req mods ≡ ok updates
    → updates ≡ []
unfolding validate_update
no_updates req mods {updates = updates} v h = go req.operation v refl
  where
    go : (op : OperationKind) → is_validate op ≡ true → req.operation ≡ op → updates ≡ []
    go OperationKind.validate v e = ground arith
    go OperationKind.install v e = cc
    go OperationKind.update v e = cc
    go OperationKind.reconfigure v e = cc
    go OperationKind.uninstall v e = cc
    go OperationKind.restore v e = cc
    go (OperationKind.unsupported t) v e = cc

add_action_file-steps :
    (subject : Text) (m : CompiledModule) (id rel : Text) (p : Plan)
    → (add_action_file subject m id rel p).steps ≡ p.steps
add_action_file-steps subject m id rel p = elim (Bool-cases (contains p.action_ids id)) [
  | inl seen ↦ rw seen refl
  | inr new ↦ rw new refl
]

validation-IsReadOnly :
    (req : Request) (target : Option CompiledModule) (p : Plan) {p' : Plan}
    → append_validation req target p ≡ ok p'
    → p.steps ≡ []
    → All IsReadOnly p'.steps
validation-IsReadOnly req none p {p' = p'} h start =
    let same : p'.steps ≡ [] = ground arith in rw same tt
validation-IsReadOnly req (some m) p {p' = p'} h start =
    let id = m.contract.validation_action in
    let (n, rel, e) = append_action-cases req (some m) id false p h in
    let kept = add_action_file-steps req.subject_instance n id rel p in
    let made : p'.steps ≡ action_step id false ∷ [] =
      ap (λ (q : Plan). q.steps) e ∙ ap (λ ss. ss ++ (action_step id false ∷ [])) (kept ∙ start) in
    rw made (refl, tt)

-- A validation changes nothing: for a request to validate, with the update actions that
-- `validateUpdate` returns for it, no step of the plan that `buildPlan` returns is mutating.
pub build_plan-IsReadOnly :
    (req : Request) (mods : List CompiledModule) (artifacts : List GeneratedArtifact)
    {updates : List Text} {p : Plan}
    → is_validate req.operation ≡ true
    → validate_update req mods ≡ ok updates
    → build_plan req mods artifacts updates ≡ ok p
    → All IsReadOnly p.steps
unfolding build_plan append_updates
build_plan-IsReadOnly req mods artifacts {updates = updates} {p = p} v u h =
    let target = find_module req.subject_instance mods in
    let none_left : updates ≡ [] = no_updates req mods v u in
    let h' : build_plan req mods artifacts [] ≡ ok p =
      subst (λ us. build_plan req mods artifacts us ≡ ok p) none_left h in
    validation-IsReadOnly req target (start_plan req artifacts) h' (rw v refl)
