-- ===== src/Registry/Digests.antt =====
-- internal/registry/oci.go: the digest that Resolve returns, and the requests that it makes.
use vpsmith.Base.{
  ℕ, zero, suc, ◌+◌, ◌≡◌, refl, ap, sym, subst, inl, inr, arith, true, some, [], ◌∷◌, map, eqb,
  length, drop, Bool-cases, Option-cases,
}
use vpsmith.Base.Text.{Text, text, trim_space, to_lower, lower_byte, has_prefix}
use vpsmith.Base.Result.{Result, ok, err, Result-cases}
use vpsmith.Base.Dict.{Dict}
use vpsmith.Bundle.Paths.{hex_byte, all_hex, valid_sha256}
use vpsmith.Registry.Reference.{
  ImageReference, parse_reference, hex_letter, all_hex_letters, valid_digest,
}
use vpsmith.Registry.Oci.{
  get_manifest, get_token, Response, Requests, Web, manifest_url, token_url, read_token,
  bearer_token, digest_of, read_digest, with_token, is_unauthorized, resolve_at, resolve,
}

-- `sha256:` and 64 lowercase hexadecimal digits.
abbrev pub IsDigest : Text → Type 0
IsDigest d = (has_prefix d (text "sha256:") ≡ true) × (valid_sha256 (drop 7 d) ≡ true)

hex_letter_lem : (c : ℕ) → hex_letter c ≡ true → hex_byte (lower_byte c) ≡ true
unfolding hex_byte lower_byte
hex_letter_lem c h = ground arith

all_hex_lem : (s : Text) → all_hex_letters s ≡ true → all_hex (map lower_byte s) ≡ true
unfolding all_hex all_hex_letters
all_hex_lem [] h = refl
all_hex_lem (c ∷ s) h =
    ground (arith, hex_letter_lem c (ground arith), all_hex_lem s (ground arith))

drop-map : (n : ℕ) (s : Text) → drop n (map lower_byte s) ≡ map lower_byte (drop n s)
drop-map zero s = refl
drop-map (suc n) [] = refl
drop-map (suc n) (c ∷ s) = drop-map n s

length-map : (s : Text) → length (map lower_byte s) ≡ length s
length-map [] = refl
length-map (c ∷ s) = ap suc (length-map s)

length-drop : (n k : ℕ) (s : Text) → length s ≡ n + k → length (drop n s) ≡ k
length-drop zero k s h = omega (arith, h)
length-drop (suc n) k [] h = omega (arith, h)
length-drop (suc n) k (c ∷ s) h = length-drop n k s (omega (arith, h))

valid_digest-IsDigest : (v : Text) → valid_digest v ≡ true → IsDigest (to_lower v)
unfolding valid_digest to_lower valid_sha256
valid_digest-IsDigest v h =
    let size : length v ≡ 71 = ground arith in
    let hex : all_hex_letters (drop 7 v) ≡ true = ground arith in
    let e = length-drop 7 64 v size in
    (
      ground arith,
      rw (drop-map 7 v) (rw (length-map (drop 7 v)) (rw (e, all_hex_lem (drop 7 v) hex) refl)),
    )

-- The digest of an answer.
read_digest_lem :
    (w : Web) (answer : Result Text Response) {d : Text}
    → read_digest w answer ≡ ok d
    → IsDigest d × ((r : Response) × (answer ≡ ok r) × (r.status ≡ 200))
unfolding read_digest
read_digest_lem w (err e) h = cc
read_digest_lem w (ok r) {d} h = elim (Bool-cases (eqb r.status 200)) [
  | inr e ↦ ground arith
  | inl e ↦ elim (Result-cases r.body) [
    | inl (f, bad) ↦ ground arith
    | inr (body, good) ↦
        let digest = digest_of w (trim_space r.digest) body in
        elim (Bool-cases (valid_digest digest)) [
          | inr f ↦ ground arith
          | inl f ↦
              let same : to_lower digest ≡ d = ground arith in
              (subst IsDigest same (valid_digest-IsDigest digest f), (r, refl, ground arith))
        ]
  ]
]

-- What a successful resolution has asked, of the URL of the manifest.
pub data Asked (w : Web) (url : Text) : Requests → Type 0 where
  -- The manifest, without a token.
  openly :
      (r : Response)
      → w.answer [] (get_manifest url []) ≡ ok r
      → r.status ≡ 200
      → Asked w url (get_manifest url [] ∷ [])
  -- The manifest, which was refused with a challenge; a token, where the challenge says; and the manifest
  -- with that token.
  with_challenge :
      (challenge place token : Text) (r : Response)
      → is_unauthorized (w.answer [] (get_manifest url [])) ≡ some challenge
      → token_url w challenge ≡ ok place
      → read_token w (w.answer (get_manifest url [] ∷ []) (get_token place)) ≡ ok token
      → w.answer (get_token place ∷ get_manifest url [] ∷ []) (get_manifest url token) ≡ ok r
      → r.status ≡ 200
      → Asked w url (get_manifest url token ∷ get_token place ∷ get_manifest url [] ∷ [])

resolve_at_lem :
    (w : Web) (url : Text) {d : Text}
    → (resolve_at w url).0 ≡ ok d
    → IsDigest d × Asked w url (resolve_at w url).1
unfolding resolve_at bearer_token with_token
resolve_at_lem w url {d} h =
    let first = w.answer [] (get_manifest url []) in
    let calls = get_manifest url [] ∷ [] in
    elim (Option-cases (is_unauthorized first)) [
      | inl e ↦
          let read : read_digest w first ≡ ok d = ground arith in
          let (digest, (r, a, fine)) = read_digest_lem w first read in
          let made : (resolve_at w url).1 ≡ calls = ground arith in
          (digest, subst (Asked w url) (sym made) (Asked.openly r a fine))
      | inr (challenge, e) ↦ elim (Result-cases (token_url w challenge)) [
        | inl (f, bad) ↦ ground arith
        | inr (place, good) ↦
            elim (Result-cases (read_token w (w.answer calls (get_token place)))) [
              | inl (f, bad) ↦ ground arith
              | inr (token, got) ↦
                  let last = w.answer (get_token place ∷ calls) (get_manifest url token) in
                  let read : read_digest w last ≡ ok d = ground arith in
                  let (digest, (r, a, fine)) = read_digest_lem w last read in
                  let made : (resolve_at w url).1
                      ≡ get_manifest url token ∷ get_token place ∷ calls =
                    ground arith in
                  (
                    digest,
                    subst (Asked w url) (sym made)
                        (Asked.with_challenge challenge place token r e good got a fine),
                  )
            ]
      ]
    ]

-- A digest that `Resolve` returns without an error, whatever the registry answers, is sha256: and
-- 64 lowercase hexadecimal digits; the reference parses, and the requests were the manifest's URL
-- alone, answered with 200, or that one, refused with a challenge, the place that the challenge
-- names for a token, and the manifest's URL again with the token that came from there, answered
-- with 200.
pub resolve-IsDigest :
    (w : Web) (endpoints : Dict Text) (ref : Text) {d : Text}
    → (resolve w endpoints ref).0 ≡ ok d
    → (image : ImageReference) × (parse_reference ref ≡ ok image)
      × IsDigest d
      × Asked w (manifest_url w endpoints image) (resolve w endpoints ref).1
unfolding resolve
resolve-IsDigest w endpoints ref {d} h = elim (Result-cases (parse_reference ref)) [
  | inl (e, bad) ↦ ground arith
  | inr (image, good) ↦
      let found : (resolve_at w (manifest_url w endpoints image)).0 ≡ ok d = ground arith in
      let (digest, asked) = resolve_at_lem w (manifest_url w endpoints image) found in
      let same : (resolve w endpoints ref).1 ≡ (resolve_at w (manifest_url w endpoints image)).1 =
        ground arith in
      (image, good, digest, subst (Asked w (manifest_url w endpoints image)) (sym same) asked)
]
