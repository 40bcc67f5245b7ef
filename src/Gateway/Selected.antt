-- ===== src/Gateway/Selected.antt =====
-- internal/targetgateway/ssh_transport.go: the host key that selectHostKey returns.
use vpsmith.Base.{
  ◌≡◌, ◌≢◌, refl, ap, ◌∙◌, inl, inr, arith, not, Option, some, List, [], ◌∷◌, ◌++◌, All, Any,
  is_empty, Bool-cases, Option-cases, subst,
}
use vpsmith.Base.Text.{Text, text, ◌==◌, eq_iff, trim_space}
use vpsmith.Base.Result.{ok, require, >>=-eq-ok, reject-eq-ok, require-eq-ok, Result-cases}
use vpsmith.Gateway.Types.{HostKeyObservation}
use vpsmith.Gateway.Facts.{scan}
use vpsmith.Gateway.HostKeys.{
  bad_base64, other_algorithm, incomplete, line_too_long, read_ssh_string, fields, parse_fields,
  of_fields, line_key, parse_public_key, add_key, collect, of_algorithm, preferred, choose,
  select_host_key, ssh_fingerprint,
}

module _ (decode64 : Text → Option Text) (digest64 : Text → Text) where
  -- A key of an algorithm and a payload, whose bytes say the algorithm and something behind it.
  pub record IsKey (o : HostKeyObservation) : Type 0 where
    pub payload : Text
    pub blob : Text
    pub rest : Text
    pub key : o.public_key ≡ o.algorithm ++ (32 ∷ payload)
    pub decoded : decode64 payload ≡ some blob
    pub wire : read_ssh_string blob ≡ ok (o.algorithm, rest)
    pub complete : rest ≢ []
    pub print : o.fingerprint ≡ text "SHA256:" ++ digest64 blob

  parse_fields-IsKey :
      (a p : Text) {o : HostKeyObservation} → parse_fields decode64 digest64 a p ≡ ok o → IsKey o
  unfolding parse_fields ssh_fingerprint
  parse_fields-IsKey a p {o} h =
      let (blob, e1, h1) = >>=-eq-ok (require (decode64 p) bad_base64) _ h in
      let ((w, rest), e2, h2) = >>=-eq-ok (read_ssh_string blob) _ h1 in
      let (e3, h3) = reject-eq-ok (not (w == a)) other_algorithm _ h2 in
      let (e4, h4) = reject-eq-ok (is_empty rest) incomplete _ h3 in
      let same : o ≡ record {
        algorithm = a;
        public_key = a ++ (32 ∷ p);
        fingerprint = ssh_fingerprint digest64 blob;
      } =
        cc in
      let own : w ≡ a = (eq_iff w a).0 (ground arith) in
      rw same record {
        payload = p;
        blob = blob;
        rest = rest;
        key = refl;
        decoded = require-eq-ok (decode64 p) bad_base64 e1;
        wire = e2 ∙ ap (λ x. ok (x, rest)) own;
        complete = λ none_left. ground arith;
        print = refl;
      }

  of_fields-IsKey :
      (fs : List Text) {o : HostKeyObservation} → of_fields decode64 digest64 fs ≡ ok o → IsKey o
  of_fields-IsKey [] k = cc
  of_fields-IsKey (a ∷ []) k = cc
  of_fields-IsKey (a ∷ p ∷ []) k = parse_fields-IsKey a p k
  of_fields-IsKey (a ∷ p ∷ x ∷ xs) k = cc

  parse_public_key-IsKey :
      (key : Text) {o : HostKeyObservation}
      → parse_public_key decode64 digest64 key ≡ ok o
      → IsKey o
  unfolding parse_public_key
  parse_public_key-IsKey key {o} h = of_fields-IsKey (fields key) h

  add_key-IsKey :
      (o : HostKeyObservation) (keys : List HostKeyObservation)
      → IsKey o
      → All IsKey keys
      → All IsKey (add_key decode64 digest64 o keys)
  add_key-IsKey o [] h k = (h, tt)
  add_key-IsKey o (j ∷ keys) h (first, k) = elim (Bool-cases (j.public_key == o.public_key)) [
    | inl e ↦ rw e (h, k)
    | inr e ↦ rw e (first, add_key-IsKey o keys h k)
  ]

  -- The keys of one line, and of all.
  collect-IsKey :
      (keys : List HostKeyObservation) (ls : List Text) {all : List HostKeyObservation}
      → All IsKey keys
      → collect decode64 digest64 keys ls ≡ ok all
      → All IsKey all
  unfolding collect
  collect-IsKey keys [] {all} k h = let same : keys ≡ all = cc in subst (All IsKey) same k
  collect-IsKey keys (l ∷ ls) {all} k h = elim (Option-cases (line_key (trim_space l))) [
    | inl e ↦ collect-IsKey keys ls k (ground arith)
    | inr (key, e) ↦ elim (Result-cases (parse_public_key decode64 digest64 key)) [
      | inl (f, bad) ↦ ground arith
      | inr (o, good) ↦
          collect-IsKey (add_key decode64 digest64 o keys) ls
            (add_key-IsKey o keys (parse_public_key-IsKey key good) k) (ground arith)
    ]
  ]

of_algorithm-All :
    (P : HostKeyObservation → Type 0) (a : Text) (keys : List HostKeyObservation)
    → All P keys
    → All (λ o. P o × (o.algorithm ≡ a)) (of_algorithm a keys)
unfolding of_algorithm
of_algorithm-All P a [] h = tt
of_algorithm-All P a (o ∷ keys) (first, h) = elim (Bool-cases (o.algorithm == a)) [
  | inl e ↦ rw e ((first, (eq_iff o.algorithm a).0 e), of_algorithm-All P a keys h)
  | inr e ↦ rw e (of_algorithm-All P a keys h)
]

choose_lem :
    (P : HostKeyObservation → Type 0) (names : List Text) (keys : List HostKeyObservation)
    {o : HostKeyObservation}
    → All P keys
    → choose names keys ≡ ok o
    → P o × Any (λ a. o.algorithm ≡ a) names
unfolding choose
choose_lem P [] keys {o} k h = cc
choose_lem P (a ∷ names) keys {o} k h =
    go (of_algorithm a keys) refl (λ q. choose_lem P names keys k q)
  where
    go :
        (found : List HostKeyObservation)
        → of_algorithm a keys ≡ found
        → (choose names keys ≡ ok o → P o × Any (λ b. o.algorithm ≡ b) names)
        → P o × Any (λ b. o.algorithm ≡ b) (a ∷ names)
    go [] e again = let (p, more) = again (ground arith) in (p, inr more)
    go (j ∷ []) e again =
        let same : j ≡ o = ground arith in
        let (p, own) =
          (subst (All (λ x. P x × (x.algorithm ≡ a))) e (of_algorithm-All P a keys k)).0 in
        (subst P same p, inl (subst (λ x. x.algorithm ≡ a) same own))
    go (j ∷ i ∷ js) e again = ground arith

-- The host key that `selectHostKey` returns of the output of ssh-keyscan, whatever the output: its
-- algorithm is one of ssh-ed25519, ecdsa-sha2-nistp256 and ssh-rsa, the key is the algorithm, a
-- blank and a payload, the payload decodes to bytes that begin with that algorithm as an SSH
-- string and go on behind it, and the fingerprint is SHA256: and the digest of those bytes.
pub select_host_key-IsKey :
    (decode64 : Text → Option Text) (digest64 : Text → Text) (stdout : Text)
    {o : HostKeyObservation}
    → select_host_key decode64 digest64 stdout ≡ ok o
    → IsKey decode64 digest64 o × Any (λ a. o.algorithm ≡ a) preferred
unfolding select_host_key
select_host_key-IsKey decode64 digest64 stdout h =
    let (keys, e1, h1) = >>=-eq-ok (collect decode64 digest64 [] (scan stdout).0) _ h in
    let (e2, h2) = reject-eq-ok (scan stdout).1 line_too_long _ h1 in
    choose_lem (IsKey decode64 digest64) preferred keys
      (collect-IsKey decode64 digest64 [] (scan stdout).0 tt e1) h2
