-- ===== src/Registry/Rounds.antt =====
-- internal/registry/challenge.go: the loop of parseBearerChallenge ends.
use vpsmith.Base.{
  ℕ, zero, suc, ◌≤◌, ◌<◌, ◌≡◌, ◌≢◌, ap, inl, inr, arith, not, ◌||◌, Option, none, some, [], ◌∷◌,
  is_empty, eqb, ltb, length, take, drop, Bool-cases, Option-cases,
}
use vpsmith.Base.Text.{Text, text, trim_space, equal_fold, cut}
use vpsmith.Base.Text.Lengths.{length-trim_space, length-cut}
use vpsmith.Base.Result.{ok, err, require, require-eq-ok, >>=-eq-ok, reject-eq-ok, Result-cases}
use vpsmith.Base.Dict.{Dict, insert}
use vpsmith.Registry.Challenge.{
  ChallengeError, no_rounds, bad_challenge, unterminated, quoted_value, parse_param, parse_params,
  parse_bearer_challenge,
}

quoted_value_lem :
    (s : Text) {value more : Text} → quoted_value s ≡ ok (value, more) → length more < length s
unfolding quoted_value
quoted_value_lem [] h = cc
quoted_value_lem (c ∷ s) {value} {more} h = elim (Bool-cases (eqb c 34)) [
  | inr e ↦ ground arith
  | inl e ↦
      let there : require (cut 34 s) unterminated ≡ ok (value, more) = ground arith in
      ground (
        arith,
        length-cut 34 s {x = value} {y = more} (require-eq-ok (cut 34 s) unterminated there),
      )
]

parse_param_lem :
    (s : Text) {key value more : Text}
    → parse_param s ≡ ok (key, value, more)
    → length more < length s
unfolding parse_param
parse_param_lem s {key} {value} {more} h =
    let ((k, behind), e1, h1) = >>=-eq-ok (require (cut b'=' s) bad_challenge) _ h in
    let (e2, h2) = reject-eq-ok (is_empty k) bad_challenge _ h1 in
    let ((v, rest), e3, h3) = >>=-eq-ok (quoted_value (trim_space behind)) _ h2 in
    let same : trim_space rest ≡ more = ground arith in
    omega (
      arith,
      ap length same,
      length-trim_space rest,
      length-trim_space behind,
      quoted_value_lem (trim_space behind) e3,
      length-cut b'=' s {x = k} {y = behind} (require-eq-ok (cut b'=' s) bad_challenge e1),
    )

require_lem :
    {A : Type 0} (o : Option A) (e : ChallengeError) → e ≢ no_rounds → require o e ≢ err no_rounds
require_lem none e h k = h (cc k)
require_lem (some a) e h k = cc

quoted_value_rounds : (s : Text) → quoted_value s ≢ err no_rounds
unfolding quoted_value
quoted_value_rounds [] h = cc
quoted_value_rounds (c ∷ s) h = elim (Bool-cases (eqb c 34)) [
  | inr e ↦ ground arith
  | inl e ↦ require_lem (cut 34 s) unterminated (λ k. cc) (ground arith)
]

parse_param_rounds : (s : Text) → parse_param s ≢ err no_rounds
unfolding parse_param
parse_param_rounds s h = elim (Option-cases (cut b'=' s)) [
  | inl e ↦ ground arith
  | inr ((k, behind), e) ↦ elim (Bool-cases (is_empty k)) [
    | inl f ↦ ground arith
    | inr f ↦ elim (Result-cases (quoted_value (trim_space behind))) [
      | inl (g, bad) ↦ quoted_value_rounds (trim_space behind) (ground arith)
      | inr ((v, rest), good) ↦ ground arith
    ]
  ]
]

-- As many rounds as the text has bytes are enough.
parse_params_lem :
    (rounds : ℕ) (params : Dict Text) (s : Text)
    → length s ≤ rounds
    → parse_params rounds params s ≢ err no_rounds
unfolding parse_params
parse_params_lem rounds params [] enough h = cc
parse_params_lem zero params (c ∷ s) enough h = omega arith
parse_params_lem (suc rounds) params (c ∷ s) enough h = elim (Result-cases (parse_param (c ∷ s))) [
  | inl (e, bad) ↦ parse_param_rounds (c ∷ s) (ground arith)
  | inr ((key, value, []), good) ↦ ground arith
  | inr ((key, value, d ∷ more), good) ↦ elim (Bool-cases (eqb d b',')) [
    | inr e ↦ ground arith
    | inl e ↦
        let shorter = parse_param_lem (c ∷ s) {key = key} {value = value} {more = d ∷ more} good in
        parse_params_lem rounds (insert key value params) (trim_space more)
          (omega (arith, length-trim_space more, shorter)) (ground arith)
  ]
]

-- The loop of `parseBearerChallenge` ends on every header: as many rounds as the parameters have
-- bytes are enough, for any text.
pub parse_bearer_challenge-Ends : (given : Text) → parse_bearer_challenge given ≢ err no_rounds
unfolding parse_bearer_challenge
parse_bearer_challenge-Ends given h =
    let value = trim_space given in
    let rest = trim_space (drop 6 value) in
    elim (Bool-cases (ltb (length value) 7 || not (equal_fold (take 6 value) (text "Bearer")))) [
      | inl e ↦ ground arith
      | inr e ↦ elim (Result-cases (parse_params (length rest) [] rest)) [
        | inl (f, bad) ↦ parse_params_lem (length rest) [] rest (omega arith) (ground arith)
        | inr (params, good) ↦ ground arith
      ]
    ]
