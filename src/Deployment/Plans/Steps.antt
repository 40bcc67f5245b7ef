-- ===== src/Deployment/Plans/Steps.antt =====
-- internal/deployment/plan.go: the steps that a plan gets, one by one.
use vpsmith.Base.{
  ◌≡◌, refl, sym, subst, arith, inl, inr, ◌⊎◌, Bool, true, false, Option, none, some, List, [], ◌∷◌,
  ◌++◌, map,
}
use vpsmith.Base.{
  if◌then◌else◌, length, length-append, All, All-map, All-append, Bool-cases, Option-cases,
}
use vpsmith.Base.Text.{Text, text, ◌==◌, eq_iff, eq_refl, contains}
use vpsmith.Base.Result.{ok, Result-cases}
use vpsmith.Base.Dict.{lookup, text_at}
use vpsmith.Bundle.Types.{Step}
use vpsmith.Deployment.Types.{Request, CompiledModule}
use vpsmith.Deployment.Validation.{is_validate}
use vpsmith.Deployment.Plan.{
  Plan, PlanStep, GeneratedArtifact, artifact_plan_step, artifact_step, start_plan,
  action_plan_step, action_step, add_action_file, add_action_steps, append_action, append_updates,
  append_validation, base_name,
}

-- The plan that is shown and the steps that are run name the same work in the same order.
abbrev pub IsAligned : List PlanStep → List Step → Type 0
IsAligned [] [] = Unit
IsAligned [] (s ∷ ss) = ⊥
IsAligned (p ∷ ps) [] = ⊥
IsAligned (p ∷ ps) (s ∷ ss) = (p.id ≡ s.id) × (p.mutating ≡ s.mutating) × IsAligned ps ss

abbrev pub IsUnrepeated : List Text → Type 0
IsUnrepeated [] = Unit
IsUnrepeated (t ∷ ts) = (contains ts t ≡ false) × IsUnrepeated ts

-- A step runs a file of the bundle, or no action.
abbrev pub IsBacked : List Text → Step → Type 0
IsBacked ids s = (s.action ≡ []) ⊎ (contains ids s.action ≡ true)

pub record IsPlan (p : Plan) : Type 0 where
  pub aligned : IsAligned p.plan p.steps
  pub unrepeated : IsUnrepeated p.action_ids
  pub counted : length p.action_ids ≡ length p.action_files
  pub backed : All (IsBacked p.action_ids) p.steps

IsAligned-append :
    (ps : List PlanStep) (ss : List Step) (p : PlanStep) (s : Step)
    → IsAligned ps ss
    → (p.id ≡ s.id) × (p.mutating ≡ s.mutating)
    → IsAligned (ps ++ (p ∷ [])) (ss ++ (s ∷ []))
IsAligned-append [] [] p s h (e, f) = (e, f, tt)
IsAligned-append [] (t ∷ ss) p s h e = absurd h
IsAligned-append (q ∷ ps) [] p s h e = absurd h
IsAligned-append (q ∷ ps) (t ∷ ss) p s h e = (h.0, h.1, IsAligned-append ps ss p s h.2 e)

contains-append :
    (ts : List Text) (u t : Text)
    → contains (ts ++ (u ∷ [])) t ≡ (if contains ts t then true else u == t)
unfolding contains
contains-append [] u t = ground arith
contains-append (v ∷ ts) u t = ground (arith, contains-append ts u t)

IsUnrepeated-append :
    (ts : List Text) (u : Text)
    → contains ts u ≡ false
    → IsUnrepeated ts
    → IsUnrepeated (ts ++ (u ∷ []))
unfolding contains
IsUnrepeated-append [] u new h = (refl, tt)
IsUnrepeated-append (t ∷ ts) u new h = (
  ground (arith, contains-append ts u t, eq_iff u t, eq_iff t u),
  IsUnrepeated-append ts u (ground arith) h.1,
)

IsBacked-append :
    (ids : List Text) (u : Text) (s : Step) → IsBacked ids s → IsBacked (ids ++ (u ∷ [])) s
IsBacked-append ids u s (inl e) = inl e
IsBacked-append ids u s (inr h) = inr (rw (contains-append ids u s.action, h) refl)

-- The new file, and then the new step.
add_action_file-IsPlan :
    (subject : Text) (m : CompiledModule) (id rel : Text) (p : Plan)
    → IsPlan p
    → IsPlan (add_action_file subject m id rel p)
      × (contains (add_action_file subject m id rel p).action_ids id ≡ true)
add_action_file-IsPlan subject m id rel p h = elim (Bool-cases (contains p.action_ids id)) [
  | inl seen ↦ rw seen (h, seen)
  | inr new ↦ rw new (
    record {
      aligned = h.aligned;
      unrepeated = IsUnrepeated-append p.action_ids id new h.unrepeated;
      counted = omega (
        arith,
        h.counted,
        length-append p.action_ids (id ∷ []),
        length-append p.action_files (
            record {
              path = text "actions/" ++ (subject ++ (text "/" ++ base_name rel));
              target_path = [];
              mode = 365;
              bytes = text_at m.contract.action_files id;
            }
            ∷ []),
      );
      backed =
          All-map (IsBacked p.action_ids) (IsBacked (p.action_ids ++ (id ∷ []))) p.steps
            (IsBacked-append p.action_ids id) h.backed;
    },
    rw (contains-append p.action_ids id id, new, eq_refl id) refl,
  )
]

add_action_steps-IsPlan :
    (id : Text) (mutating : Bool) (p : Plan)
    → contains p.action_ids id ≡ true
    → IsPlan p
    → IsPlan (add_action_steps id mutating p)
add_action_steps-IsPlan id mutating p known h = record {
  aligned =
      IsAligned-append p.plan p.steps (action_plan_step id mutating) (action_step id mutating)
        h.aligned (refl, refl);
  unrepeated = h.unrepeated;
  counted = h.counted;
  backed =
      All-append (IsBacked p.action_ids) p.steps (action_step id mutating ∷ []) h.backed
        (inr known, tt);
}

pub append_action-cases :
    (req : Request) (target : Option CompiledModule) (id : Text) (mutating : Bool) (p : Plan)
    {p' : Plan}
    → append_action req target id mutating p ≡ ok p'
    → (m : CompiledModule) × (rel : Text) × (p'
        ≡ add_action_steps id mutating (add_action_file req.subject_instance m id rel p))
unfolding append_action
append_action-cases req none id mutating p h = cc
append_action-cases req (some m) id mutating p {p' = p'} h =
    elim (Option-cases (lookup id m.contract.actions)) [
      | inl gone ↦ ground arith
      | inr (rel, there) ↦ (m, rel, ground arith)
    ]

append_action-IsPlan :
    (req : Request) (target : Option CompiledModule) (id : Text) (mutating : Bool) (p : Plan)
    {p' : Plan}
    → append_action req target id mutating p ≡ ok p'
    → IsPlan p
    → IsPlan p'
append_action-IsPlan req target id mutating p h plan =
    let (m, rel, e) = append_action-cases req target id mutating p h in
    let (with_file, known) = add_action_file-IsPlan req.subject_instance m id rel p plan in
    subst IsPlan (sym e) (
      add_action_steps-IsPlan id mutating (add_action_file req.subject_instance m id rel p) known
        with_file)

pub append_updates-IsPlan :
    (req : Request) (target : Option CompiledModule) (ids : List Text) (p : Plan) {p' : Plan}
    → append_updates req target ids p ≡ ok p'
    → IsPlan p
    → IsPlan p'
unfolding append_updates
append_updates-IsPlan req target [] p {p' = p'} h plan =
    let same : p ≡ p' = ground arith in subst IsPlan same plan
append_updates-IsPlan req target (id ∷ ids) p {p' = p'} h plan =
    elim (Result-cases (append_action req target id true p)) [
      | inl (e, bad) ↦ ground arith
      | inr (mid, good) ↦
          let rest : append_updates req target ids mid ≡ ok p' = ground arith in
          append_updates-IsPlan req target ids mid rest
            (append_action-IsPlan req target id true p good plan)
    ]

pub append_validation-IsPlan :
    (req : Request) (target : Option CompiledModule) (p : Plan) {p' : Plan}
    → append_validation req target p ≡ ok p'
    → IsPlan p
    → IsPlan p'
append_validation-IsPlan req none p {p' = p'} h plan =
    let same : p ≡ p' = ground arith in subst IsPlan same plan
append_validation-IsPlan req (some m) p h plan =
    append_action-IsPlan req (some m) m.contract.validation_action false p h plan

start-IsAligned :
    (artifacts : List GeneratedArtifact)
    → IsAligned (map artifact_plan_step artifacts) (map artifact_step artifacts)
      × All (IsBacked []) (map artifact_step artifacts)
start-IsAligned [] = (tt, tt)
start-IsAligned (a ∷ rest) =
    let (aligned, backed) = start-IsAligned rest in ((refl, refl, aligned), (inl refl, backed))

pub start_plan-IsPlan :
    (req : Request) (artifacts : List GeneratedArtifact) → IsPlan (start_plan req artifacts)
start_plan-IsPlan req artifacts =
    let applied = if is_validate req.operation then [] else artifacts in
    let (aligned, backed) = start-IsAligned applied in
    record { aligned = aligned; unrepeated = tt; counted = refl; backed = backed }
