-- ===== src/Execution/Safety/Sound.antt =====
-- internal/execution/executor.go: what the polling loop of `Execute` keeps, whatever it is told.
use vpsmith.Base.{ℕ, suc, ◌≤◌, Bool, true, false, not, ◌&&◌, Option, none, some, List, [], ◌∷◌}
use vpsmith.Base.{
  ◌≡◌, refl, subst, ◌≢◌, inl, inr, arith, if◌then◌else◌, All, Bool-cases, Option-cases,
}
use vpsmith.Base.Text.{Text}
use vpsmith.Base.Result.{Result, ok, err, Result-cases}
use vpsmith.Bundle.Types.{SecretReference}
use vpsmith.Execution.Types.{
  not_started, success, unknown, Run, Proof, Observation, SecretValue, terminal,
}
use vpsmith.Execution.Env.{Call, observe, send_secrets, finished, resolve, Trace, Env}
use vpsmith.Execution.Secrets.{SecretError, resolve_all, resolve_found, resolve_secrets, secret_ids}
use vpsmith.Execution.Executor.{
  ExecError, identity_mismatch, disappeared, delivery_failed, secrets_unresolved, send_resolved,
  Outcome, with_status, with_phase, fails, cancelled, classify, observe_failed, observation_matches,
  same_identity, settle, deliver, examine, turn, poll, alive, is_gone, awaits_secrets,
  classify_status,
}
use vpsmith.Base.Sort.{sort_texts}
use vpsmith.Execution.Loop.{Holds, poll_rule}

-- How often secrets were sent.
abbrev pub sends : Trace → ℕ
sends [] = 0
sends (send_secrets t id vs ∷ tr) = suc (sends tr)
sends (_ ∷ tr) = sends tr

-- What `Finished` of internal/executionstate wants of its arguments: a terminal proof with the run's
-- identity, and the status that the proof gives.
abbrev pub IsFaithful : Call → Type 0
IsFaithful (finished r p) =
    (terminal p.status ≡ true) × (same_identity r p ≡ true) × (r.status ≡ p.status)
IsFaithful _ = Unit

-- The last call has recorded a successful proof, and the history took it.
abbrev pub Recorded : Env → Run → Trace → Type 0
Recorded env r (finished r' p ∷ tr) =
    (r' ≡ r) × (p.status ≡ success) × (r.status ≡ success) × (env.on_finished tr r p ≡ none)
Recorded env r _ = ⊥

-- A run that ends without an error has recorded its success.
abbrev pub IsConcluded : Env → Option ExecError → Run → Trace → Type 0
IsConcluded env none r tr = Recorded env r tr
IsConcluded env (some e) r tr = Unit

pub record IsSound (env : Env) (o : Outcome) : Type 0 where
  pub once : sends o.trace ≤ 1
  pub started : o.run.status ≢ not_started
  pub history : All IsFaithful o.trace
  pub succeeded : IsConcluded env o.error o.run o.trace

pub record Invariant (sent : Bool) (tr : Trace) : Type 0 where
  pub sent_once : sends tr ≡ (if sent then 1 else 0)
  pub faithful : All IsFaithful tr

-- What the pass has found out before it settles.
abbrev Fits : Run → Option Proof → Type 0
Fits r none = r.status ≢ not_started
Fits r (some p) =
    (same_identity r p ≡ true)
    × (terminal p.status ≡ true → r.status ≡ p.status)
    × (r.status ≢ not_started)

module _ (env : Env) where
  sends-resolve_all : (tr : Trace) (ids : List Text) → sends (resolve_all env tr ids).1 ≡ sends tr
  unfolding resolve_all
  sends-resolve_all tr [] = refl
  sends-resolve_all tr (id ∷ ids) = ground (arith, sends-resolve_all (resolve id ∷ tr) ids)

  resolve_all-IsFaithful :
      (tr : Trace) (ids : List Text) → All IsFaithful tr → All IsFaithful (resolve_all env tr ids).1
  unfolding resolve_all
  resolve_all-IsFaithful tr [] h = h
  resolve_all-IsFaithful tr (id ∷ ids) h =
      ground (arith, resolve_all-IsFaithful (resolve id ∷ tr) ids (tt, h))

  resolve_found-Invariant :
      (tr : Trace) (found : Result SecretError (List Text))
      → Invariant false tr
      → Invariant false (resolve_found env tr found).1
  unfolding resolve_found
  resolve_found-Invariant tr (err e) h = h
  resolve_found-Invariant tr (ok ids) h = record {
    sent_once = ground (arith, sends-resolve_all tr (sort_texts ids));
    faithful = resolve_all-IsFaithful tr (sort_texts ids) h.faithful;
  }

  resolve_secrets-Invariant :
      (tr : Trace) (refs : List SecretReference)
      → Invariant false tr
      → Invariant false (resolve_secrets env tr refs).1
  unfolding resolve_secrets
  resolve_secrets-Invariant tr refs h = resolve_found-Invariant tr (secret_ids [] refs) h

  settle-IsSound :
      (r : Run) (sent : Bool) (p : Option Proof) (tr : Trace)
      → Fits r p
      → Invariant sent tr
      → Holds (IsSound env) (λ _. Invariant) (settle env r sent p tr)
  unfolding settle
  settle-IsSound r sent none tr f h = ground arith
  settle-IsSound r sent (some p) tr f h = ground arith

  fits :
      (r : Run) (p : Option Proof) (up : Bool)
      → observation_matches r p ≡ true
      → (is_gone p && not up) ≡ false
      → Fits (with_phase (with_status r (classify_status p up)) p) p
  unfolding observation_matches
  fits r none up e g = ground arith
  fits r (some p) up e g = ground arith

  Fits-started : (r : Run) (p : Option Proof) → Fits r p → r.status ≢ not_started
  Fits-started r none f = f
  Fits-started r (some p) f = f.2

  pub fails-IsSound :
      (r : Run) (sent : Bool) (e : ExecError) (tr : Trace)
      → r.status ≢ not_started
      → Invariant sent tr
      → IsSound env (fails r e tr)
  fails-IsSound r true e tr n h = record {
    once = omega (arith, h.sent_once);
    started = n;
    history = h.faithful;
    succeeded = tt;
  }
  fails-IsSound r false e tr n h = record {
    once = omega (arith, h.sent_once);
    started = n;
    history = h.faithful;
    succeeded = tt;
  }

  send_resolved-IsSound :
      (r : Run) (p : Option Proof) (resolved : Result SecretError (List SecretValue)) (tr : Trace)
      → Fits r p
      → Invariant false tr
      → Holds (IsSound env) (λ _. Invariant) (send_resolved env r p resolved tr)
  unfolding send_resolved
  send_resolved-IsSound r p (err e) tr f h =
      fails-IsSound r false (secrets_unresolved e) tr (Fits-started r p f) h
  send_resolved-IsSound r p (ok values) tr f h =
      let tr' = send_secrets r.target_id r.id values ∷ tr in
      let now : Invariant true tr' = record {
        sent_once = omega (arith, h.sent_once);
        faithful = (tt, h.faithful);
      } in
      elim (Option-cases (env.on_send tr r.target_id r.id values)) [
        | inr (e, w) ↦
            rw (w, Holds)
              (fails-IsSound (with_status r unknown) true (delivery_failed e) tr' (λ n. cc) now)
        | inl w ↦ rw (w, Holds) (settle-IsSound r true p tr' f now)
      ]

  deliver-IsSound :
      (refs : List SecretReference) (r : Run) (p : Option Proof) (tr : Trace)
      → Fits r p
      → Invariant false tr
      → Holds (IsSound env) (λ _. Invariant) (deliver env refs r p tr)
  unfolding deliver
  deliver-IsSound refs r p tr f h =
      send_resolved-IsSound r p (resolve_secrets env tr refs).0 (resolve_secrets env tr refs).1 f
        (resolve_secrets-Invariant tr refs h)

  examine-Fits :
      (r : Run) (o : Observation)
      → observation_matches r o.proof ≡ true
      → (is_gone o.proof && not (alive o)) ≡ false
      → Fits (with_phase (classify r o) o.proof) o.proof
  unfolding classify observation_matches
  examine-Fits r o e g = fits r o.proof (alive o) e g

  unsent : (sent more : Bool) → (not sent && more) ≡ true → sent ≡ false
  unsent sent more h = ground arith

  examine-IsSound :
      (refs : List SecretReference) (r : Run) (sent : Bool) (o : Observation) (tr : Trace)
      → Invariant sent tr
      → Holds (IsSound env) (λ _. Invariant) (examine env refs r sent o tr)
  unfolding examine
  examine-IsSound refs r sent o tr h = elim (Bool-cases (observation_matches r o.proof)) [
    | inr e ↦ rw e (fails-IsSound (with_status r unknown) sent identity_mismatch tr (λ n. cc) h)
    | inl e ↦ rw e (elim (Bool-cases (is_gone o.proof && not (alive o))) [
      | inl g ↦
          rw g (fails-IsSound (with_status (classify r o) unknown) sent disappeared tr (λ n. cc) h)
      | inr g ↦ rw g (elim (Bool-cases (not sent && awaits_secrets o.proof)) [
        | inl w ↦ rw w (
            deliver-IsSound refs (with_phase (classify r o) o.proof) o.proof tr
              (examine-Fits r o e g)
              (subst (λ x. Invariant x tr) (unsent sent (awaits_secrets o.proof) w) h))
        | inr w ↦ rw w (
            settle-IsSound (with_phase (classify r o) o.proof) sent o.proof tr
              (examine-Fits r o e g) h)
      ])
    ])
  ]

  turn-IsSound :
      (refs : List SecretReference) (r : Run) (sent : Bool) (tr : Trace)
      → Invariant sent tr
      → Holds (IsSound env) (λ _. Invariant) (turn env refs r sent tr)
  unfolding turn
  turn-IsSound refs r sent tr h =
      let tr' = observe r.target_id r.id ∷ tr in
      let now : Invariant sent tr' = record {
        sent_once = h.sent_once;
        faithful = (tt, h.faithful);
      } in
      elim (Result-cases (env.on_observe tr r.target_id r.id)) [
        | inl (e, w) ↦
            rw (w, Holds)
              (fails-IsSound (with_status r unknown) sent (observe_failed e) tr' (λ n. cc) now)
        | inr (o, w) ↦ rw (w, Holds) (examine-IsSound refs r sent o tr' now)
      ]

  pub poll-IsSound :
      (waits : ℕ) (refs : List SecretReference) (r : Run) (sent : Bool) (tr : Trace)
      → Invariant sent tr
      → IsSound env (poll env waits refs r sent tr)
  poll-IsSound waits refs r sent tr h =
      poll_rule env (IsSound env) (λ _. Invariant) refs (turn-IsSound refs)
        (λ r sent tr. fails-IsSound (with_status r unknown) sent cancelled tr (λ n. cc)) waits r
        sent tr h
