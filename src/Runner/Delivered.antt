-- ===== src/Runner/Delivered.antt =====
-- internal/targetrunner: the script reads the secrets that the gateway sends.
use vpsmith.Base.{
  ℕ, zero, suc, ◌-◌, ◌≤◌, ◌<◌, ◌+◌, ◌≡◌, refl, ap, ◌∙◌, subst, Bool, true, false, not, List, [],
  ◌∷◌, ◌++◌, All, map, arith, is_empty, eqb, ltb, length, length-append, append_nil, append_assoc,
}
use vpsmith.Base.Text.{Text, eq_refl, contains}
use vpsmith.Base.Result.{ok, >>=-eq-ok, reject-eq-ok}
use vpsmith.Base.Bytes.{
  big_endian, limit, length-big_endian, number_of-big_endian, take-append, drop-append,
}
use vpsmith.Base.Dict.{Dict, has_key, has_key-append}
use vpsmith.Execution.Types.{SecretValue}
use vpsmith.Gateway.Stream.{
  secret_stream_magic, invalid_value, duplicate_id, valid_value, encode_values,
  encode_secret_stream,
}
use vpsmith.Runner.Secrets.{
  read_number, max_secret, read_value, read_entry, read_rounds, read_secrets,
}

eqb_same : (n : ℕ) → eqb n n ≡ true
eqb_same n = ground arith

sized : (t : Text) → is_empty t ≡ false → (n : ℕ) × (length t ≡ suc n)
sized [] h = ground arith
sized (c ∷ t) h = (length t, refl)

module _ (missing : Text → ℕ → ℕ) (full : (s : Text) (n : ℕ) → missing s n ≡ 0)
    (utf8 : Text → Bool) where
  -- Every read is served in full.
  whole : (n : ℕ) (s : Text) → n - missing s n ≡ n
  whole n s = omega (arith, full s n)

  read_number_lem :
      (k n : ℕ) (rest : Text)
      → n < limit k
      → read_number missing k (big_endian k n ++ rest) ≡ ok (n, rest)
  unfolding read_number
  read_number_lem k n rest h =
      let e = take-append (big_endian k n) rest (length-big_endian k n) in
      let d = drop-append (big_endian k n) rest (length-big_endian k n) in
      rw (whole k (big_endian k n ++ rest), read_number)
        (rw (e, d) (rw (length-big_endian k n, number_of-big_endian k n h) (rw (eqb_same k) refl)))

  -- A value that the script takes: its id decodes, and it is not too large.
  abbrev pub Readable : SecretValue → Type 0
  Readable v = (utf8 v.id ≡ true) × (length v.value ≤ max_secret)

  abbrev pub entry : SecretValue → Text × Text
  entry v = (v.id, v.value)

  read_value_lem :
      (v : SecretValue) (result : Dict Text) (more : Text)
      → Readable v
      → has_key v.id result ≡ false
      → read_value missing result v.id (big_endian 8 (length v.value) ++ (v.value ++ more))
        ≡ ok (v.value, more)
  unfolding read_value
  read_value_lem v result more h new =
      let e = read_number_lem 8 (length v.value) (v.value ++ more) (omega (arith, h.1)) in
      let small : ltb max_secret (length v.value) ≡ false = ground (arith, h.1) in
      rw (e, read_value)
        (rw (whole (length v.value) (v.value ++ more)) (
          rw (small, take-append v.value more refl)
            (rw (eqb_same (length v.value), new) (rw (drop-append v.value more refl) refl))))

  read_entry_lem :
      (v : SecretValue) (result : Dict Text) (more : Text)
      → Readable v
      → valid_value v ≡ true
      → has_key v.id result ≡ false
      → read_entry missing utf8 result
          (length v.id)
          (v.id ++ (big_endian 8 (length v.value) ++ (v.value ++ more)))
        ≡ ok (v.id, v.value, more)
  unfolding read_entry
  read_entry_lem v result more h good new =
      let rest = big_endian 8 (length v.value) ++ (v.value ++ more) in
      let small : ltb 4096 (length v.id) ≡ false = ground arith in
      rw (whole (length v.id) (v.id ++ rest), read_entry)
        (rw (take-append v.id rest refl) (
          rw (small, h.0)
            (rw (drop-append v.id rest refl, read_value_lem v result more h new) refl)))

  seen_lem :
      (id : Text) (v : SecretValue) (seen : List Text) (result : Dict Text)
      → has_key id result ≡ contains seen id
      → has_key id (result ++ (entry v ∷ [])) ≡ contains (v.id ∷ seen) id
  unfolding contains
  seen_lem id v seen result h = ground (arith, has_key-append id v.id v.value result)

  read_end : read_number missing 4 (big_endian 4 0) ≡ ok (0, [])
  read_end =
      subst (λ s. read_number missing 4 s ≡ ok (0, [])) (append_nil (big_endian 4 0))
        (read_number_lem 4 0 [] (omega arith))

  read_round_lem :
      (rounds size : ℕ) (result : Dict Text) (stream rest id value more : Text)
      → read_number missing 4 stream ≡ ok (suc size, rest)
      → read_entry missing utf8 result (suc size) rest ≡ ok (id, value, more)
      → read_rounds missing (suc rounds) utf8 result stream
        ≡ read_rounds missing rounds utf8 (result ++ ((id, value) ∷ [])) more
  unfolding read_rounds
  read_round_lem rounds size result stream rest id value more h k = rw (h, read_rounds) (rw k refl)

  -- The round of a value.
  read_one_lem :
      (v : SecretValue) (rounds : ℕ) (result : Dict Text) (more : Text)
      → Readable v
      → valid_value v ≡ true
      → has_key v.id result ≡ false
      → read_rounds missing (suc rounds) utf8 result (
          big_endian 4 (length v.id)
          ++ (v.id ++ (big_endian 8 (length v.value) ++ (v.value ++ more))))
        ≡ read_rounds missing rounds utf8 (result ++ (entry v ∷ [])) more
  read_one_lem v rounds result more h good new =
      let rest = v.id ++ (big_endian 8 (length v.value) ++ (v.value ++ more)) in
      let long : length v.id ≤ 4096 = ground arith in
      let (size, e) = sized v.id (ground arith) in
      let n : read_number missing 4 (big_endian 4 (length v.id) ++ rest) ≡ ok (length v.id, rest) =
        read_number_lem 4 (length v.id) rest (omega arith) in
      read_round_lem rounds size result _ rest v.id v.value more
        (subst (λ k. read_number missing 4 (big_endian 4 (length v.id) ++ rest) ≡ ok (k, rest)) e n)
        (subst (λ k. read_entry missing utf8 result k rest ≡ ok (v.id, v.value, more)) e
          (read_entry_lem v result more h good new))

  read_rounds_lem :
      (vs : List SecretValue) (rounds : ℕ) (seen : List Text) (result : Dict Text) {bytes : Text}
      → encode_values seen vs ≡ ok bytes
      → All Readable vs
      → ((id : Text) → has_key id result ≡ contains seen id)
      → length vs < rounds
      → read_rounds missing rounds utf8 result bytes ≡ ok (result ++ map entry vs)
  unfolding read_rounds encode_values
  read_rounds_lem [] (suc rounds) seen result {bytes} h ok_all same enough =
      let e : bytes ≡ big_endian 4 0 = ground arith in
      rw (e, append_nil result) (rw (read_end, read_rounds) refl)
  read_rounds_lem (v ∷ vs) (suc rounds) seen result {bytes} h (good, ok_all) same enough =
      let (e1, h1) = reject-eq-ok (not (valid_value v)) invalid_value _ h in
      let (e2, h2) = reject-eq-ok (contains seen v.id) duplicate_id _ h1 in
      let (more, e3, h3) = >>=-eq-ok (encode_values (v.id ∷ seen) vs) _ h2 in
      let e : bytes
          ≡ big_endian 4 (length v.id)
            ++ (v.id ++ (big_endian 8 (length v.value) ++ (v.value ++ more))) =
        cc in
      let good_value : valid_value v ≡ true = ground arith in
      let again =
        read_rounds_lem vs rounds (v.id ∷ seen) (result ++ (entry v ∷ [])) {bytes = more} e3 ok_all
          (λ id. seen_lem id v seen result (same id)) (omega arith) in
      rw (e, read_one_lem v rounds result more good good_value (same v.id ∙ e2))
        (again ∙ ap ok (append_assoc result (entry v ∷ []) (map entry vs)))
  read_rounds_lem vs zero seen result {bytes} h ok_all same enough = ground arith

  bytes_size :
      (v : SecretValue) (more : Text)
      → length (
          big_endian 4 (length v.id)
          ++ (v.id ++ (big_endian 8 (length v.value) ++ (v.value ++ more))))
        ≡ 4 + (length v.id + (8 + (length v.value + length more)))
  bytes_size v more = omega (
    arith,
    length-append (big_endian 4 (length v.id))
        (v.id ++ (big_endian 8 (length v.value) ++ (v.value ++ more))),
    length-append v.id (big_endian 8 (length v.value) ++ (v.value ++ more)),
    length-append (big_endian 8 (length v.value)) (v.value ++ more),
    length-append v.value more,
    length-big_endian 4 (length v.id),
    length-big_endian 8 (length v.value),
  )

  bytes_enough :
      (vs : List SecretValue) (seen : List Text) {bytes : Text}
      → encode_values seen vs ≡ ok bytes
      → length vs < length bytes
  unfolding encode_values
  bytes_enough [] seen {bytes} h =
      let e : bytes ≡ big_endian 4 0 = ground arith in rw e (omega (arith, length-big_endian 4 0))
  bytes_enough (v ∷ vs) seen {bytes} h =
      let (e1, h1) = reject-eq-ok (not (valid_value v)) invalid_value _ h in
      let (e2, h2) = reject-eq-ok (contains seen v.id) duplicate_id _ h1 in
      let (more, e3, h3) = >>=-eq-ok (encode_values (v.id ∷ seen) vs) _ h2 in
      let e : bytes
          ≡ big_endian 4 (length v.id)
            ++ (v.id ++ (big_endian 8 (length v.value) ++ (v.value ++ more))) =
        cc in
      rw e (omega (arith, bytes_enough vs (v.id ∷ seen) e3, bytes_size v more))

  -- What the gateway writes, the script on the target reads: for values that `encodeSecretStream`
  -- takes, whose ids decode as UTF-8 and that have at most 64 MiB each, and where every read of
  -- the stream is served in full, `read_secrets` of the stream returns exactly the ids with their
  -- values, in their order, and without an error.
  pub read_secrets-encode_secret_stream :
      (vs : List SecretValue) {stream : Text}
      → encode_secret_stream vs ≡ ok stream
      → All Readable vs
      → read_secrets missing utf8 stream ≡ ok (map entry vs)
  unfolding read_secrets encode_secret_stream has_key contains
  read_secrets-encode_secret_stream vs {stream} h ok_all =
      let (body, e, h1) = >>=-eq-ok (encode_values [] vs) _ h in
      let all : stream ≡ secret_stream_magic ++ body = cc in
      rw (all, read_secrets)
        (rw (whole 18 (secret_stream_magic ++ body)) (
          rw (eq_refl secret_stream_magic) (
            read_rounds_lem vs (suc (length (secret_stream_magic ++ body))) [] [] e ok_all
              (λ id. refl)
              (omega (arith, bytes_enough vs [] e, length-append secret_stream_magic body)))))
