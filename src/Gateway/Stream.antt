-- ===== src/Gateway/Stream.antt =====
-- internal/targetgateway/execution_helpers.go: encodeSecretStream.
use vpsmith.Base.{Bool, not, ◌||◌, List, [], ◌∷◌, ◌++◌, is_empty, length, ltb}
use vpsmith.Base.Text.{Text, text, contains}
use vpsmith.Base.Result.{Result, ok, reject, ◌>>=◌, ◌>>◌}
use vpsmith.Base.Bytes.{big_endian}
use vpsmith.Execution.Types.{SecretValue}

-- `secretStreamMagic`.
abbrev pub secret_stream_magic : Text
secret_stream_magic = text "VPSMITH-SECRETS-1" ++ (10 ∷ [])

pub data StreamError : Type 0 where
  invalid_value duplicate_id : StreamError

abbrev pub valid_value : SecretValue → Bool
valid_value v = not (is_empty v.id || ltb 4096 (length v.id) || is_empty v.value)

-- The records of the values, and the zero behind them; `seen` holds the ids so far.
unfoldable pub encode_values : List Text → List SecretValue → Result StreamError Text
encode_values seen [] = ok (big_endian 4 0)
encode_values seen (v ∷ vs) = do
  reject (not (valid_value v)) invalid_value
  reject (contains seen v.id) duplicate_id
  more ← encode_values (v.id ∷ seen) vs
  ok (big_endian 4 (length v.id) ++ (v.id ++ (big_endian 8 (length v.value) ++ (v.value ++ more))))

-- `encodeSecretStream`.
unfoldable pub encode_secret_stream : List SecretValue → Result StreamError Text
encode_secret_stream values = do body ← encode_values [] values; ok (secret_stream_magic ++ body)
