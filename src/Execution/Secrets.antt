-- ===== src/Execution/Secrets.antt =====
-- `resolveSecrets` of internal/execution/executor.go. The wiping of the copies is not modelled.
use vpsmith.Base.{List, [], ◌∷◌, if◌then◌else◌, is_empty}
use vpsmith.Base.Text.{Text, contains}
use vpsmith.Base.Result.{Result, ok, err}
use vpsmith.Base.Sort.{sort_texts}
use vpsmith.Bundle.Types.{SecretReference}
use vpsmith.Execution.Types.{SecretValue}
use vpsmith.Execution.Env.{resolve, Trace, Env}

pub data SecretError : Type 0 where
  empty_secret_id : SecretError
  resolve_failed : Text → Text → SecretError
  empty_secret : Text → SecretError

-- The set `ids`, or the error at the first empty id.
unfoldable pub secret_ids : List Text → List SecretReference → Result SecretError (List Text)
secret_ids ids [] = ok ids
secret_ids ids (r ∷ refs) =
    let next = secret_ids (if contains ids r.secret_id then ids else r.secret_id ∷ ids) refs in
    if is_empty r.secret_id then err empty_secret_id else next

module _ (env : Env) where
  -- The loop over the ordered ids, with the calls that it makes.
  unfoldable pub resolve_all : Trace → List Text → Result SecretError (List SecretValue) × Trace
  resolve_all tr [] = (ok [], tr)
  resolve_all tr (id ∷ ids) =
      let (rest, tr') = resolve_all (resolve id ∷ tr) ids in
      elim (env.on_resolve tr id) [
        | err e ↦ (err (resolve_failed id e), resolve id ∷ tr)
        | ok [] ↦ (err (empty_secret id), resolve id ∷ tr)
        | ok (b ∷ bs) ↦ elim rest [
          | err e ↦ (err e, tr')
          | ok values ↦ (ok (record { id = id; value = b ∷ bs } ∷ values), tr')
        ]
      ]

  unfoldable pub resolve_found :
      Trace → Result SecretError (List Text) → Result SecretError (List SecretValue) × Trace
  resolve_found tr (err e) = (err e, tr)
  resolve_found tr (ok ids) = resolve_all tr (sort_texts ids)

  unfoldable pub resolve_secrets :
      Trace → List SecretReference → Result SecretError (List SecretValue) × Trace
  resolve_secrets tr refs = resolve_found tr (secret_ids [] refs)
