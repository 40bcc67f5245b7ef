-- ===== src/Tests/Images.antt =====
-- A registry that asks for a token.
use vpsmith.Base.Dict.{insert, lookup}
use vpsmith.Registry.Challenge.{parse_param, parse_params, quoted_value}
use vpsmith.Registry.Oci.{
  bearer_token, endpoint_for, read_digest, read_token, resolve_at, token_url, trim_slashes,
  with_token,
}
use vpsmith.Base.Text.Last.{cut_last}
use vpsmith.Registry.Reference.{all_hex_letters, parse_remainder, valid_digest}
use vpsmith.Base.Text.{
  contains_any, cut, cut_prefix, equal_fold, has_byte, has_infix, has_prefix, lower_byte, space_one,
  space_three, space_two, to_lower, trim_left, trim_reversed,
}
use vpsmith.Base.{◌≡◌, ◌≢◌, refl, some, [], ◌∷◌, ◌++◌, true}
use vpsmith.Base.Text.{Text, text, ◌==◌, trim_space}
use vpsmith.Base.Result.{Result, ok, err}
use vpsmith.Registry.Reference.{ImageReference, parse_reference}
use vpsmith.Registry.Challenge.{no_rounds, parse_bearer_challenge}
use vpsmith.Registry.Oci.{
  Request, get_manifest, get_token, Requests, Response, Web, manifest_url, resolve,
}
use vpsmith.Registry.Printed.{IsPrinted, parse_reference-IsPrinted}
use vpsmith.Registry.Rounds.{parse_bearer_challenge-Ends}
use vpsmith.Registry.Digests.{IsDigest, Asked, resolve-IsDigest}

abbrev ref : Text
ref = text " Ghcr.io/org/app:1.2 "

abbrev image : ImageReference
image = record { registry = text "ghcr.io"; repository = text "org/app"; tag = text "1.2" }

abbrev challenge : Text
challenge = text "Bearer realm=" ++ (34 ∷ (text "https://a" ++ (34 ∷ [])))

abbrev digits : Text
digits = text "0123456789abcdef0123456789abcdef0123456789abcdef0123456789abcdef"

abbrev refused : Response
refused = record { status = 401; challenge = challenge; digest = []; body = ok [] }

abbrev granted : Text → Response
granted digest = record { status = 200; challenge = []; digest = digest; body = ok (text "{}") }

abbrev answer : Requests → Request → Result Text Response
answer calls (get_manifest url []) = ok refused
answer calls (get_manifest url (c ∷ s)) = ok (granted (text "SHA256:" ++ digits))
answer calls (get_token url) = ok (granted [])

abbrev web : Web
web = record {
  answer = answer;
  escape = λ t. t;
  valid_realm = λ t. true;
  with_query = λ realm params. realm;
  decode_token = λ body. some (text "token", []);
  hex_sha256 = λ body. digits;
}

parsed : parse_reference ref ≡ ok image
unfolding parse_reference trim_space contains_any cut parse_remainder cut_last has_infix equal_fold
    ◌==◌
parsed = refl

parsed-IsPrinted : IsPrinted (trim_space ref) image
parsed-IsPrinted = parse_reference-IsPrinted ref parsed

challenge-Ends : parse_bearer_challenge challenge ≢ err no_rounds
challenge-Ends = parse_bearer_challenge-Ends challenge

resolved : (resolve web [] ref).0 ≡ ok (text "sha256:" ++ digits)
unfolding resolve parse_reference trim_space contains_any cut parse_remainder cut_last has_infix
    equal_fold ◌==◌ resolve_at with_token bearer_token token_url parse_bearer_challenge parse_params
    parse_param insert lookup cut_prefix has_byte has_prefix lower_byte space_one space_three
    space_two to_lower trim_left trim_reversed quoted_value endpoint_for manifest_url read_digest
    read_token trim_slashes all_hex_letters valid_digest
resolved = refl

resolved-IsDigest :
    (i : ImageReference) × (parse_reference ref ≡ ok i)
    × IsDigest (text "sha256:" ++ digits)
    × Asked web (manifest_url web [] i) (resolve web [] ref).1
resolved-IsDigest = resolve-IsDigest web [] ref resolved
