-- ===== src/Tests/Streams.antt =====
-- A secret on its way to the target, and a quoted word.
use vpsmith.Base.{ℕ, ◌≡◌, refl, true, false, some, Bool, [], ◌∷◌, ◌++◌, arith}
use vpsmith.Base.Text.{Text, text, contains}
use vpsmith.Base.Result.{ok}
use vpsmith.Base.Bytes.{big_endian}
use vpsmith.Execution.Types.{SecretValue}
use vpsmith.Gateway.Stream.{secret_stream_magic, encode_values, encode_secret_stream}
use vpsmith.Gateway.Shell.{shell_quote, read_word, Ends, read_word-shell_quote}
use vpsmith.Runner.Secrets.{read_secrets}
use vpsmith.Runner.Delivered.{read_secrets-encode_secret_stream}

abbrev value : SecretValue
value = record { id = text "db"; value = text "pw" }

abbrev any_text : Text → Bool
any_text t = true

abbrev stream : Text
stream =
    secret_stream_magic
    ++ (big_endian 4 2 ++ (text "db" ++ (big_endian 8 2 ++ (text "pw" ++ big_endian 4 0))))

encoded : encode_secret_stream (value ∷ []) ≡ ok stream
unfolding encode_secret_stream encode_values contains
encoded = refl

abbrev no_bytes : Text → ℕ → ℕ
no_bytes s n = 0

delivered : read_secrets no_bytes any_text stream ≡ ok ((text "db", text "pw") ∷ [])
delivered =
    read_secrets-encode_secret_stream no_bytes (λ s n. refl) any_text (value ∷ []) encoded
      ((refl, omega arith), tt)

ends : Ends (text " x")
unfolding read_word
ends = refl

quoted : read_word false (shell_quote (text "a'b") ++ text " x") ≡ some (text "a'b", text " x")
quoted = read_word-shell_quote (text "a'b") (text " x") ends
