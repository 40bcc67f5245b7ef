-- ===== src/Registry/Challenge.antt =====
-- internal/registry/challenge.go: parseBearerChallenge.
use vpsmith.Base.{
  ℕ, zero, suc, true, false, not, ◌||◌, [], ◌∷◌, is_empty, eqb, ltb, length, if◌then◌else◌, take,
  drop,
}
use vpsmith.Base.Text.{Text, text, trim_space, equal_fold, cut}
use vpsmith.Base.Result.{Result, ok, err, reject, require, ◌>>=◌, ◌>>◌}
use vpsmith.Base.Dict.{Dict, insert, text_at}

pub data ChallengeError : Type 0 where
  not_bearer bad_challenge bad_value bad_separator unterminated no_realm no_rounds : ChallengeError

-- A value in quotes, and what stands behind it.
unfoldable pub quoted_value : Text → Result ChallengeError (Text × Text)
quoted_value [] = err bad_value
quoted_value (c ∷ rest) = if eqb c 34 then require (cut 34 rest) unterminated else err bad_value

-- A key with its value, and what stands behind them, without the blanks in front.
unfoldable pub parse_param : Text → Result ChallengeError (Text × Text × Text)
parse_param rest = do
  (key, behind) ← require (cut b'=' rest) bad_challenge
  reject (is_empty key) bad_challenge
  (value, more) ← quoted_value (trim_space behind)
  ok (trim_space key, value, trim_space more)

-- The rounds of the loop; each takes bytes off the text.
unfoldable pub parse_params : ℕ → Dict Text → Text → Result ChallengeError (Dict Text)
parse_params rounds params [] = ok params
parse_params zero params (c ∷ rest) = err no_rounds
parse_params (suc rounds) params (c ∷ rest) = elim (parse_param (c ∷ rest)) [
  | err e ↦ err e
  | ok (key, value, []) ↦ ok (insert key value params)
  | ok (key, value, d ∷ more) ↦ elim (eqb d b',') [
    | true ↦ parse_params rounds (insert key value params) (trim_space more)
    | false ↦ err bad_separator
  ]
]

-- `parseBearerChallenge`: the realm and the parameters.
unfoldable pub parse_bearer_challenge : Text → Result ChallengeError (Text × Dict Text)
parse_bearer_challenge given = do
  let value = trim_space given
  reject (ltb (length value) 7 || not (equal_fold (take 6 value) (text "Bearer"))) not_bearer
  let rest = trim_space (drop 6 value)
  params ← parse_params (length rest) [] rest
  reject (is_empty (text_at params (text "realm"))) no_realm
  ok (text_at params (text "realm"), params)
