-- ===== src/Gateway/HostKeys.antt =====
-- internal/targetgateway: the SSH wire strings and public keys of identity.go, and selectHostKey of
-- ssh_transport.go. encoding/base64, and the base64 text of a SHA-256 sum, are parameters.
use vpsmith.Base.{
  ℕ, zero, suc, ◌+◌, not, Option, none, some, List, [], ◌∷◌, ◌++◌, is_empty, ltb, length, take,
  drop, if◌then◌else◌,
}
use vpsmith.Base.Text.{Text, text, ◌==◌, trim_space, has_prefix, space_one, space_two, space_three}
use vpsmith.Base.Result.{Result, ok, err, reject, require, ◌>>=◌, ◌>>◌}
use vpsmith.Base.Bytes.{number_of}
use vpsmith.Gateway.Types.{HostKeyObservation}
use vpsmith.Gateway.Facts.{scan}

pub data KeyError : Type 0 where
  not_two_fields bad_base64 bad_wire_string bad_wire_length other_algorithm incomplete : KeyError
  line_too_long no_host_key : KeyError
  ambiguous : Text → KeyError

-- `readSSHString`.
unfoldable pub read_ssh_string : Text → Result KeyError (Text × Text)
read_ssh_string value = do
  reject (ltb (length value) 4) bad_wire_string
  let size = number_of (take 4 value)
  reject (ltb (length value) (4 + size)) bad_wire_length
  ok (take size (drop 4 value), drop size (drop 4 value))

-- `strings.Fields`: how many bytes the space in front has, and the texts between spaces.
unfoldable pub space_at : Text → ℕ
space_at [] = 0
space_at (a ∷ []) = if space_one a then 1 else 0
space_at (a ∷ b ∷ []) = if space_one a then 1 else if space_two a b then 2 else 0
space_at (a ∷ b ∷ c ∷ s) =
    if space_one a then 1 else if space_two a b then 2 else if space_three a b c then 3 else 0

unfoldable pub pieces : ℕ → Text → List Text
pieces skip [] = [] ∷ []
pieces (suc skip) (c ∷ s) = pieces skip s
pieces zero (c ∷ s) = elim (space_at (c ∷ s)) [
  | zero ↦ elim (pieces zero s) [ [] ↦ (c ∷ []) ∷ [] | w ∷ ws ↦ (c ∷ w) ∷ ws ]
  | suc k ↦ [] ∷ pieces k s
]

unfoldable pub non_empty : List Text → List Text
non_empty [] = []
non_empty ([] ∷ ws) = non_empty ws
non_empty ((c ∷ w) ∷ ws) = (c ∷ w) ∷ non_empty ws

abbrev pub fields : Text → List Text
fields s = non_empty (pieces zero s)

abbrev pub second_and_third : List Text → Option Text
second_and_third (host ∷ a ∷ p ∷ more) = some (a ++ (32 ∷ p))
second_and_third _ = none

-- The key of a line of ssh-keyscan.
unfoldable pub line_key : Text → Option Text
line_key line = if has_prefix line (text "#") then none else second_and_third (fields line)

-- `sshFingerprint`.
unfoldable pub ssh_fingerprint : (Text → Text) → Text → Text
ssh_fingerprint digest64 blob = text "SHA256:" ++ digest64 blob

module _ (decode64 : Text → Option Text) (digest64 : Text → Text) where
  -- The two fields of a key.
  unfoldable pub parse_fields : Text → Text → Result KeyError HostKeyObservation
  parse_fields algorithm payload = do
    blob ← require (decode64 payload) bad_base64
    (wire_algorithm, rest) ← read_ssh_string blob
    reject (not (wire_algorithm == algorithm)) other_algorithm
    reject (is_empty rest) incomplete
    ok (record {
      algorithm = algorithm;
      public_key = algorithm ++ (32 ∷ payload);
      fingerprint = ssh_fingerprint digest64 blob;
    })

  abbrev pub of_fields : List Text → Result KeyError HostKeyObservation
  of_fields [] = err not_two_fields
  of_fields (a ∷ []) = err not_two_fields
  of_fields (a ∷ p ∷ []) = parse_fields a p
  of_fields (a ∷ p ∷ x ∷ xs) = err not_two_fields

  -- `parsePublicKey`, of the key that selectHostKey builds of two fields of a line.
  unfoldable pub parse_public_key : Text → Result KeyError HostKeyObservation
  parse_public_key key = of_fields (fields key)

  abbrev pub add_key : HostKeyObservation → List HostKeyObservation → List HostKeyObservation
  add_key o [] = o ∷ []
  add_key o (k ∷ ks) = if k.public_key == o.public_key then o ∷ ks else k ∷ add_key o ks

  -- The keys of the lines, each once: the algorithm of a key is the first field of it, so that one list
  -- holds what the source keeps in a map for each algorithm.
  unfoldable pub collect :
      List HostKeyObservation → List Text → Result KeyError (List HostKeyObservation)
  collect keys [] = ok keys
  collect keys (l ∷ ls) = elim (line_key (trim_space l)) [
    | none ↦ collect keys ls
    | some key ↦ elim (parse_public_key key) [ err e ↦ err e | ok o ↦ collect (add_key o keys) ls ]
  ]

unfoldable pub of_algorithm : Text → List HostKeyObservation → List HostKeyObservation
of_algorithm a [] = []
of_algorithm a (k ∷ ks) = if k.algorithm == a then k ∷ of_algorithm a ks else of_algorithm a ks

abbrev pub preferred : List Text
preferred = text "ssh-ed25519" ∷ text "ecdsa-sha2-nistp256" ∷ text "ssh-rsa" ∷ []

unfoldable pub choose : List Text → List HostKeyObservation → Result KeyError HostKeyObservation
choose [] keys = err no_host_key
choose (a ∷ others) keys = elim (of_algorithm a keys) [
  | [] ↦ choose others keys
  | k ∷ [] ↦ ok k
  | k ∷ j ∷ ks ↦ err (ambiguous a)
]

-- `selectHostKey`.
unfoldable pub select_host_key :
    (Text → Option Text) → (Text → Text) → Text → Result KeyError HostKeyObservation
select_host_key decode64 digest64 stdout = do
  keys ← collect decode64 digest64 [] (scan stdout).0
  reject (scan stdout).1 line_too_long
  choose preferred keys
