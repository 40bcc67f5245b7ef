-- ===== src/Execution/Reconcile.antt =====
-- `Reconcile` of internal/execution/executor.go, by the proof that the target shows.
use vpsmith.Base.{Bool, true, false, ◌||◌, Option, none, some, ◌∷◌}
use vpsmith.Base.{
  ◌≡◌, ◌≢◌, refl, sym, subst, ap, ◌∙◌, inl, inr, ◌⊎◌, arith, is_empty, Bool-cases, Option-cases,
}
use vpsmith.Base.Text.{Text, eq_iff}
use vpsmith.Base.Result.{ok}
use vpsmith.Execution.Types.{Status, success, failed, Run, Proof, Observation, terminal}
use vpsmith.Execution.Env.{observe, finished, Trace, Env}
use vpsmith.Execution.Executor.{
  ExecError, Outcome, alive, classify, classify_proof, classify_status, observation_matches,
  with_status, with_phase, record_terminal, judge, asked_run, reconcile, identity_mismatch,
}

-- The status that a run has by the proof that the target shows of it, if any, and by whether the lock is
-- held or the unit runs.
pub data Shows : Option Proof → Bool → Status → Type 0 where
  busy : Shows none true Status.running
  idle : Shows none false Status.not_started
  succeeded : {p : Proof} {up : Bool} → p.status ≡ success → Shows (some p) up success
  broken : {p : Proof} {up : Bool} → p.status ≡ failed → Shows (some p) up failed
  alive_still : {p : Proof} → p.status ≡ Status.running → Shows (some p) true Status.running
  stopped : {p : Proof} → p.status ≡ Status.running → Shows (some p) false Status.interrupted
  unclear :
      {p : Proof} {up : Bool}
      → p.status ≢ success
      → p.status ≢ failed
      → p.status ≢ Status.running
      → Shows (some p) up Status.unknown

-- A proof with the four identities of the run.
abbrev pub IsOf : Run → Proof → Type 0
IsOf r p =
    (p.run_id ≡ r.id)
    × (p.bundle_id ≡ r.bundle_id)
    × (p.bundle_sha256 ≡ r.bundle_sha256)
    × (p.target_id ≡ r.target_id)

abbrev pub IsOwn : Run → Option Proof → Type 0
IsOwn r none = Unit
IsOwn r (some p) = IsOf r p

abbrev pub IsForeign : Run → Option Proof → Type 0
IsForeign r none = ⊥
IsForeign r (some p) = ¬ IsOf r p

-- The run that was asked for, with the phase of the proof.
abbrev pub IsRun : Run → Option Proof → Run → Type 0
IsRun r none out =
    (out.id ≡ r.id)
    × (out.target_id ≡ r.target_id)
    × (out.bundle_id ≡ r.bundle_id)
    × (out.bundle_sha256 ≡ r.bundle_sha256)
    × (out.phase ≡ r.phase)
IsRun r (some p) out =
    (out.id ≡ r.id)
    × (out.target_id ≡ r.target_id)
    × (out.bundle_id ≡ r.bundle_id)
    × (out.bundle_sha256 ≡ r.bundle_sha256)
    × (out.phase ≡ p.phase)

-- The error of a history that was called.
abbrev pub told : Option Text → Option ExecError
told none = none
told (some e) = some (ExecError.record_failed e)

shows_by :
    (p : Proof) (up : Bool) (s : Status) → p.status ≡ s → Shows (some p) up (classify_proof s up)
shows_by p up Status.success e = Shows.succeeded e
shows_by p up Status.failed e = Shows.broken e
shows_by p true Status.running e = Shows.alive_still e
shows_by p false Status.running e = Shows.stopped e
shows_by p up Status.not_started e = Shows.unclear (λ h. cc) (λ h. cc) (λ h. cc)
shows_by p up Status.interrupted e = Shows.unclear (λ h. cc) (λ h. cc) (λ h. cc)
shows_by p up Status.unknown e = Shows.unclear (λ h. cc) (λ h. cc) (λ h. cc)
shows_by p up (Status.other t) e = Shows.unclear (λ h. cc) (λ h. cc) (λ h. cc)

terminal-cases :
    (s : Status)
    → (((s ≡ success) ⊎ (s ≡ failed)) × (terminal s ≡ true))
      ⊎ ((s ≢ success) × (s ≢ failed) × (terminal s ≡ false))
terminal-cases Status.success = inl (inl refl, refl)
terminal-cases Status.failed = inl (inr refl, refl)
terminal-cases Status.running = inr ((λ h. cc), (λ h. cc), refl)
terminal-cases Status.not_started = inr ((λ h. cc), (λ h. cc), refl)
terminal-cases Status.interrupted = inr ((λ h. cc), (λ h. cc), refl)
terminal-cases Status.unknown = inr ((λ h. cc), (λ h. cc), refl)
terminal-cases (Status.other t) = inr ((λ h. cc), (λ h. cc), refl)

module _ (env : Env) where
  -- What the history is told: a proof of success or of failure, with the returned run, once; nothing else.
  abbrev pub Told : Option Proof → Trace → Outcome → Type 0
  Told none tr out = (out.trace ≡ tr) × (out.error ≡ none)
  Told (some p) tr out =
      (((p.status ≡ success) ⊎ (p.status ≡ failed))
        × (out.trace ≡ finished out.run p ∷ tr)
        × (out.error ≡ told (env.on_finished tr out.run p)))
      ⊎ ((p.status ≢ success) × (p.status ≢ failed) × (out.trace ≡ tr) × (out.error ≡ none))

  -- What is returned for an observation of the run `r`.
  abbrev pub Judged : Run → Observation → Trace → Outcome → Type 0
  Judged r o tr out =
      (IsOwn r o.proof
        × IsRun r o.proof out.run
        × Shows o.proof (o.lock_held || o.unit_running) out.run.status
        × Told o.proof tr out)
      ⊎ (IsForeign r o.proof
          × (out.run ≡ r)
          × (out.trace ≡ tr)
          × (out.error ≡ some identity_mismatch))

  classify_status-Shows : (p : Option Proof) (up : Bool) → Shows p up (classify_status p up)
  classify_status-Shows none true = Shows.busy
  classify_status-Shows none false = Shows.idle
  classify_status-Shows (some p) up = shows_by p up p.status refl

  record_terminal-Told :
      (r : Run) (p : Option Proof) (tr : Trace)
      → Told p tr (record_terminal env r p tr) × ((record_terminal env r p tr).run ≡ r)
  unfolding record_terminal
  record_terminal-Told r none tr = ((refl, refl), refl)
  record_terminal-Told r (some p) tr = elim (terminal-cases p.status) [
    | inr (not_success, not_failed, t) ↦
        rw (t, record_terminal) (inr (not_success, not_failed, refl, refl), refl)
    | inl (ended, t) ↦ elim (Option-cases (env.on_finished tr r p)) [
      | inl e ↦ rw (t, e, record_terminal) (inl (ended, refl, ap told (sym e)), refl)
      | inr (m, e) ↦ rw (t, e, record_terminal) (inl (ended, refl, ap told (sym e)), refl)
    ]
  ]

  matches-IsOwn : (r : Run) (p : Option Proof) → observation_matches r p ≡ true → IsOwn r p
  unfolding observation_matches
  matches-IsOwn r none m = tt
  matches-IsOwn r (some p) m = (
    ground (arith, eq_iff p.run_id r.id),
    ground (arith, eq_iff p.bundle_id r.bundle_id),
    ground (arith, eq_iff p.bundle_sha256 r.bundle_sha256),
    ground (arith, eq_iff p.target_id r.target_id),
  )

  differs-IsForeign : (r : Run) (p : Option Proof) → observation_matches r p ≡ false → IsForeign r p
  unfolding observation_matches
  differs-IsForeign r none m = ground arith
  differs-IsForeign r (some p) m = λ h.
      let (a, b, c, d) = h in
      ground (
        arith,
        (eq_iff p.run_id r.id).1 a,
        (eq_iff p.bundle_id r.bundle_id).1 b,
        (eq_iff p.bundle_sha256 r.bundle_sha256).1 c,
        (eq_iff p.target_id r.target_id).1 d,
      )

  classify-IsRun :
      (r : Run) (o : Observation)
      → IsRun r o.proof (classify (with_phase r o.proof) o)
        × ((classify (with_phase r o.proof) o).status ≡ classify_status o.proof (alive o))
  unfolding classify
  classify-IsRun r o = keeps o.proof (classify_status o.proof (alive o))
    where
      keeps :
          (p : Option Proof) (s : Status)
          → IsRun r p (with_status (with_phase r p) s)
            × ((with_status (with_phase r p) s).status ≡ s)
      keeps none s = ((refl, refl, refl, refl, refl), refl)
      keeps (some p) s = ((refl, refl, refl, refl, refl), refl)

  judge-Judged : (r : Run) (o : Observation) (tr : Trace) → Judged r o tr (judge env r o tr)
  unfolding judge
  judge-Judged r o tr = elim (Bool-cases (observation_matches r o.proof)) [
    | inr m ↦ rw (m, judge) (inr (differs-IsForeign r o.proof m, refl, refl, refl))
    | inl m ↦
        let r' = classify (with_phase r o.proof) o in
        let (kept, status) = classify-IsRun r o in
        let (said, same) = record_terminal-Told r' o.proof tr in
        rw (m, judge)
          (inl (
            matches-IsOwn r o.proof m,
            subst (IsRun r o.proof) (sym same) kept,
            subst (Shows o.proof (alive o)) (sym (ap (λ (x : Run). x.status) same ∙ status))
                (classify_status-Shows o.proof (alive o)),
            said,
          ))
  ]

  -- `Reconcile` of a complete identity that the target answers with an observation. Without a
  -- proof, or with one of the run's id, bundle, hash and target: the returned run keeps these four
  -- and has the phase of the proof; its status is success or failed by a proof of it, running or
  -- interrupted by a proof of a running run and whether the lock is held or the unit runs, unknown
  -- by any other proof, and running or not started without one; and the history is told of a proof
  -- of success or failure once, with the returned run, and its error is returned, while it is not
  -- called for another proof or for none, and no error is returned. With a proof of another
  -- identity the error says so, the run is unchanged and the history is not called.
  pub reconcile-Judged :
      (tr : Trace) (target id bundle_id sha256 : Text) (o : Observation)
      → (is_empty target || is_empty id || is_empty bundle_id || is_empty sha256) ≡ false
      → env.on_observe tr target id ≡ ok o
      → Judged
          (asked_run target id bundle_id sha256)
          o
          (observe target id ∷ tr)
          (reconcile env tr target id bundle_id sha256)
  unfolding reconcile
  reconcile-Judged tr target id bundle_id sha256 o complete seen =
      rw (complete, seen, reconcile)
        (judge-Judged (asked_run target id bundle_id sha256) o (observe target id ∷ tr))
