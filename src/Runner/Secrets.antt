-- ===== src/Runner/Secrets.antt =====
-- internal/targetrunner/parts/01.inc and 02.inc: read_secrets of the script that runs on the target. The
-- stream is the bytes that are left of it. A read of the unbuffered stream is one system call: it gives
-- as many bytes as it asks for, less those that are `missing`, or all that are left.
use vpsmith.Base.{ℕ, zero, suc, ◌-◌, Bool, not, [], ◌∷◌, ◌++◌, eqb, ltb, length, take, drop}
use vpsmith.Base.Text.{Text, ◌==◌}
use vpsmith.Base.Result.{Result, ok, err, reject, ◌>>=◌, ◌>>◌}
use vpsmith.Base.Bytes.{number_of}
use vpsmith.Base.Dict.{Dict, has_key}
use vpsmith.Gateway.Stream.{secret_stream_magic}

pub data ReadError : Type 0 where
  magic_mismatch truncated_stream id_too_long not_utf8 secret_too_large truncated_material :
      ReadError
  duplicate_secret : ReadError

abbrev pub max_secret : ℕ
max_secret = 67108864

module _ (missing : Text → ℕ → ℕ) where
  abbrev pub given : ℕ → Text → Text
  given n stream = take (n - missing stream n) stream

  abbrev pub behind : ℕ → Text → Text
  behind n stream = drop (n - missing stream n) stream

  -- A big-endian number of that many bytes, and the rest.
  unfoldable pub read_number : ℕ → Text → Result ReadError (ℕ × Text)
  read_number bytes stream = do
    reject (not (eqb (length (given bytes stream)) bytes)) truncated_stream
    ok (number_of (given bytes stream), behind bytes stream)

  -- The value behind an id, and the rest.
  unfoldable pub read_value : Dict Text → Text → Text → Result ReadError (Text × Text)
  read_value result id stream = do
    (size, rest) ← read_number 8 stream
    reject (ltb max_secret size) secret_too_large
    reject (not (eqb (length (given size rest)) size)) truncated_material
    reject (has_key id result) duplicate_secret
    ok (given size rest, behind size rest)

  -- One round, behind the length of the id. `utf8` says what decodes as UTF-8.
  unfoldable pub read_entry :
      (Text → Bool) → Dict Text → ℕ → Text → Result ReadError (Text × Text × Text)
  read_entry utf8 result size stream = do
    reject (ltb 4096 size) id_too_long
    reject (not (utf8 (given size stream))) not_utf8
    (value, rest) ← read_value result (given size stream) (behind size stream)
    ok (given size stream, value, rest)

  -- The rounds. Each takes bytes off the stream, so that one more than it has is enough of them.
  unfoldable pub read_rounds : ℕ → (Text → Bool) → Dict Text → Text → Result ReadError (Dict Text)
  read_rounds zero utf8 result stream = err truncated_stream
  read_rounds (suc rounds) utf8 result stream = elim (read_number 4 stream) [
    | err e ↦ err e
    | ok (zero, rest) ↦ ok result
    | ok (suc size, rest) ↦ elim (read_entry utf8 result (suc size) rest) [
      | err e ↦ err e
      | ok (id, value, more) ↦ read_rounds rounds utf8 (result ++ ((id, value) ∷ [])) more
    ]
  ]

  -- `read_secrets`.
  unfoldable pub read_secrets : (Text → Bool) → Text → Result ReadError (Dict Text)
  read_secrets utf8 stream = do
    let size = length secret_stream_magic
    reject (not (given size stream == secret_stream_magic)) magic_mismatch
    read_rounds (suc (length stream)) utf8 [] (behind size stream)
