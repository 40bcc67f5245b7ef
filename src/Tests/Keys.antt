-- ===== src/Tests/Keys.antt =====
-- The output of ssh-keyscan for a host with two keys.
use vpsmith.Base.Bytes.{number_from}
use vpsmith.Base.Text.{
  cut_prefix, space_one, space_three, space_two, split, trim_left, trim_reversed, trim_space,
}
use vpsmith.Gateway.Facts.{scan, scan_pieces}
use vpsmith.Gateway.HostKeys.{
  choose, collect, line_key, non_empty, of_algorithm, parse_fields, parse_public_key, pieces,
  read_ssh_string, space_at,
}
use vpsmith.Base.{◌≡◌, refl, Option, some, [], ◌∷◌, ◌++◌, eqb, if◌then◌else◌, Any}
use vpsmith.Base.Text.{Text, text, ◌==◌, has_prefix}
use vpsmith.Base.Result.{ok}
use vpsmith.Base.Bytes.{big_endian}
use vpsmith.Gateway.Types.{HostKeyObservation}
use vpsmith.Gateway.HostKeys.{preferred, select_host_key, ssh_fingerprint}
use vpsmith.Gateway.Selected.{IsKey, select_host_key-IsKey}

abbrev decode : Text → Option Text
decode [] = some []
decode (c ∷ s) = some (
    if eqb c b'R'
    then big_endian 4 7 ++ (text "ssh-rsa" ++ (1 ∷ []))
    else big_endian 4 11 ++ (text "ssh-ed25519" ++ (1 ∷ [])))

abbrev print : Text → Text
print blob = text "f"

abbrev output : Text
output = text "# h" ++ (10 ∷ (text "h ssh-rsa R" ++ (10 ∷ text "h ssh-ed25519 E")))

abbrev key : HostKeyObservation
key = record {
  algorithm = text "ssh-ed25519";
  public_key = text "ssh-ed25519 E";
  fingerprint = text "SHA256:f";
}

chosen : select_host_key decode print output ≡ ok key
unfolding select_host_key collect scan scan_pieces split line_key has_prefix trim_space non_empty
    pieces space_at parse_public_key parse_fields read_ssh_string big_endian number_from ◌==◌ choose
    cut_prefix space_one space_three space_two trim_left trim_reversed of_algorithm ssh_fingerprint
chosen = refl

chosen-IsKey : IsKey decode print key × Any (λ a. key.algorithm ≡ a) preferred
chosen-IsKey = select_host_key-IsKey decode print output chosen
