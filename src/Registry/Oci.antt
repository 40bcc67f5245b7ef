-- ===== src/Registry/Oci.antt =====
-- internal/registry/oci.go: Resolve, with the requests over HTTP as a trace, the latest first. What
-- net/http, net/url, encoding/json and crypto/sha256 do is in `Web`.
use vpsmith.Base.{
  ℕ, Bool, ◌||◌, Option, none, some, List, [], ◌∷◌, ◌++◌, is_empty, eqb, if◌then◌else◌,
}
use vpsmith.Base.Text.{Text, text, ◌==◌, trim_space, to_lower, contains_any}
use vpsmith.Base.Result.{Result, ok, err}
use vpsmith.Base.Dict.{Dict, text_at}
use vpsmith.Registry.Reference.{ImageReference, ReferenceError, parse_reference, valid_digest}
use vpsmith.Registry.Challenge.{ChallengeError, parse_bearer_challenge}

pub data Request : Type 0 where
  -- A request for a manifest, with the token, empty where there is none.
  get_manifest : Text → Text → Request
  get_token : Text → Request

pub record Response : Type 0 where
  pub status : ℕ
  pub challenge : Text
  pub digest : Text
  -- The body, or the error of reading it.
  pub body : Result Text Text

abbrev pub Requests : Type 0
Requests = List Request

pub record Web : Type 0 where
  pub answer : Requests → Request → Result Text Response
  pub escape : Text → Text
  -- Whether `url.Parse` takes the realm, with http or https and a host; and the URL with a query.
  pub valid_realm : Text → Bool
  pub with_query : Text → Dict Text → Text
  -- The fields `token` and `access_token`.
  pub decode_token : Text → Option (Text × Text)
  -- The digest in hexadecimal digits.
  pub hex_sha256 : Text → Text

pub data RegistryError : Type 0 where
  bad_reference : ReferenceError → RegistryError
  bad_bearer : ChallengeError → RegistryError
  http_failed : Text → RegistryError
  bad_status : ℕ → RegistryError
  bad_realm bad_token invalid_digest : RegistryError

-- `strings.TrimRight(s, "/")`.
unfoldable pub trim_slashes : Text → Text
trim_slashes [] = []
trim_slashes (c ∷ s) = elim (trim_slashes s) [
  | [] ↦ if eqb c b'/' then [] else c ∷ []
  | d ∷ t ↦ c ∷ d ∷ t
]

-- The host of an endpoint, and the URL of a manifest.
abbrev pub host_of : Text → Text
host_of registry = if registry == text "docker.io" then text "registry-1.docker.io" else registry

unfoldable pub endpoint_for : Dict Text → ImageReference → Text
endpoint_for endpoints image = elim (text_at endpoints image.registry) [
  | [] ↦ text "https://" ++ host_of image.registry
  | c ∷ s ↦ c ∷ s
]

unfoldable pub manifest_url : Web → Dict Text → ImageReference → Text
manifest_url w endpoints image =
    trim_slashes (endpoint_for endpoints image)
    ++ (text "/v2/" ++ (image.repository ++ (text "/manifests/" ++ w.escape image.tag)))

abbrev pub param : Text → Dict Text → Dict Text
param key params = if is_empty (text_at params key) then [] else (key, text_at params key) ∷ []

-- The URL that a challenge asks for.
unfoldable pub token_url : Web → Text → Result RegistryError Text
token_url w challenge = elim (parse_bearer_challenge challenge) [
  | err e ↦ err (bad_bearer e)
  | ok (realm, params) ↦
      if w.valid_realm realm
      then ok (w.with_query realm (param (text "service") params ++ param (text "scope") params))
      else err bad_realm
]

abbrev pub one_of : Text → Text → Text
one_of [] access = access
one_of (c ∷ s) access = c ∷ s

abbrev pub usable : Option (Text × Text) → Result RegistryError Text
usable none = err bad_token
usable (some (token, access)) =
    let t = one_of token access in
    if is_empty t || contains_any t (13 ∷ 10 ∷ []) then err bad_token else ok t

-- The token of an answer.
unfoldable pub read_token : Web → Result Text Response → Result RegistryError Text
read_token w (err e) = err (http_failed e)
read_token w (ok r) =
    if eqb r.status 200
    then elim r.body [ err e ↦ err bad_token | ok body ↦ usable (w.decode_token body) ]
    else err (bad_status r.status)

-- `bearerToken`.
unfoldable pub bearer_token : Web → Text → Requests → Result RegistryError Text × Requests
bearer_token w challenge calls = elim (token_url w challenge) [
  | err e ↦ (err e, calls)
  | ok url ↦ (read_token w (w.answer calls (get_token url)), get_token url ∷ calls)
]

abbrev pub digest_of : Web → Text → Text → Text
digest_of w [] body = text "sha256:" ++ w.hex_sha256 body
digest_of w (c ∷ s) body = c ∷ s

-- The digest of an answer.
unfoldable pub read_digest : Web → Result Text Response → Result RegistryError Text
read_digest w (err e) = err (http_failed e)
read_digest w (ok r) =
    if eqb r.status 200
    then elim r.body [
      | err e ↦ err (http_failed e)
      | ok body ↦
          let digest = digest_of w (trim_space r.digest) body in
          if valid_digest digest then ok (to_lower digest) else err invalid_digest
    ]
    else err (bad_status r.status)

-- Behind the challenge of the first answer.
unfoldable pub with_token :
    Web → Text → Result RegistryError Text × Requests → Result RegistryError Text × Requests
with_token w url (err e, calls) = (err e, calls)
with_token w url (ok token, calls) =
    (read_digest w (w.answer calls (get_manifest url token)), get_manifest url token ∷ calls)

abbrev pub is_unauthorized : Result Text Response → Option Text
is_unauthorized (err e) = none
is_unauthorized (ok r) = if eqb r.status 401 then some r.challenge else none

unfoldable pub resolve_at : Web → Text → Result RegistryError Text × Requests
resolve_at w url =
    let first = w.answer [] (get_manifest url []) in
    let calls = get_manifest url [] ∷ [] in
    elim (is_unauthorized first) [
      | none ↦ (read_digest w first, calls)
      | some challenge ↦ with_token w url (bearer_token w challenge calls)
    ]

-- `Resolve`: the digest, and the requests.
unfoldable pub resolve : Web → Dict Text → Text → Result RegistryError Text × Requests
resolve w endpoints ref = elim (parse_reference ref) [
  | err e ↦ (err (bad_reference e), [])
  | ok image ↦ resolve_at w (manifest_url w endpoints image)
]
