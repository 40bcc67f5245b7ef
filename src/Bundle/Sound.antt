-- ===== src/Bundle/Sound.antt =====
-- What `Verify` of internal/executionbundle/verify.go has established when it returns a manifest.
use vpsmith.Base.{true, false, some, List, [], ◌∷◌, ◌++◌}
use vpsmith.Base.{◌≡◌, ◌∙◌, ◌⊎◌, inl, inr, arith, subst, All, Any, All-map, map}
use vpsmith.Base.{Bool-cases, Option-cases}
use vpsmith.Base.Text.{Text, text, ◌==◌, eq_iff, contains, split}
use vpsmith.Base.Result.{ok, for_each}
use vpsmith.Base.Result.{>>=-eq-ok, Result-cases}
use vpsmith.Base.Dict.{Dict, lookup, has_key, Distinct, Distinct-append}
use mathlib.Core.List.{append-nil, append_assoc}
use vpsmith.Bundle.Types.{Manifest, Bundle}
use vpsmith.Bundle.Paths.{safe_archive_path}
use vpsmith.Bundle.Codec.{Codec, Member, bundle_id_of}
use vpsmith.Bundle.Verify.{
  read_members, cut_checksum, trim_newline, check_line, check_lines, covered,
  verify_payload_checksums, check_header, verify_manifest, read_manifest, check_content_id,
  verify_files, verify,
}

abbrev pub entry : Member → Text × Text
entry m = (m.name, m.bytes)

abbrev pub IsSafe : Member → Type 0
IsSafe m = (safe_archive_path m.name ≡ true) × (m.regular ≡ true)

abbrev pub sums : Text
sums = text "SHA256SUMS"

read_members_sound :
    (files : Dict Text) (ms : List Member) {out : Dict Text}
    → read_members files ms ≡ ok out
    → Distinct files
    → All IsSafe ms × (out ≡ files ++ map entry ms) × Distinct out
unfolding read_members
read_members_sound files [] h d = (tt, ground (arith, append-nil files), ground arith)
read_members_sound files (m ∷ ms) {out = out} h d =
    let new : has_key m.name files ≡ false = ground arith in
    let next : read_members (files ++ (entry m ∷ [])) ms ≡ ok out = ground arith in
    let rest =
      read_members_sound (files ++ (entry m ∷ [])) ms next
        (Distinct-append m.name m.bytes files d new) in
    ((ground arith, rest.0), rest.1 ∙ append_assoc files (entry m ∷ []) (map entry ms), rest.2)

module _ (c : Codec) (files : Dict Text) where
  -- One of the lines gives the digest of the bytes that stand under the name.
  abbrev pub Covers : Text → Text → Type 0
  Covers name line =
      (bytes : Text) × (lookup name files ≡ some bytes)
      × (cut_checksum line ≡ some (c.sha256_hex bytes, name))

  check_line_sound :
      (listed : List Text) (line : Text) {listed' : List Text} (n : Text)
      → check_line c files listed line ≡ ok listed'
      → contains listed' n ≡ true
      → (contains listed n ≡ true) ⊎ Covers n line
  unfolding check_line contains
  check_line_sound listed [] n h k = inl (ground arith)
  check_line_sound listed (a ∷ line) n h k = elim (Option-cases (cut_checksum (a ∷ line))) [
    | inl e ↦ cc (rw e at h)
    | inr ((digest, name), e) ↦ elim (Option-cases (lookup name files)) [
      | inl f ↦ ground arith
      | inr (bytes, f) ↦ elim (Bool-cases (name == n)) [
        | inl same ↦ inr (
          bytes,
          ground (arith, eq_iff name n),
          ground (arith, eq_iff name n, eq_iff (c.sha256_hex bytes) digest),
        )
        | inr other ↦ inl (ground arith)
      ]
    ]
  ]

  check_lines_sound :
      (listed : List Text) (lines : List Text) {listed' : List Text} (n : Text)
      → check_lines c files listed lines ≡ ok listed'
      → contains listed' n ≡ true
      → (contains listed n ≡ true) ⊎ Any (Covers n) lines
  unfolding check_lines
  check_lines_sound listed [] n h k = inl (ground arith)
  check_lines_sound listed (line ∷ lines) n h k =
      let (between, one, more) = >>=-eq-ok _ _ h in
      elim (check_lines_sound between lines n more k) [
        | inr later ↦ inr (inr later)
        | inl now ↦ elim (check_line_sound listed line n one now) [
          | inl before ↦ inl before
          | inr here ↦ inr (inl here)
        ]
      ]

  covered_sound :
      (listed : List Text) (all : Dict Text)
      → for_each (covered c listed) all ≡ ok tt
      → All (λ p. (p.0 ≡ sums) ⊎ (contains listed p.0 ≡ true)) all
  unfolding for_each
  covered_sound listed [] h = tt
  covered_sound listed ((name, bytes) ∷ all) h =
      (ground (arith, eq_iff name sums), covered_sound listed all (ground arith))

  -- Every member but SHA256SUMS itself is named there with the digest of its bytes.
  abbrev pub IsCovered : Type 0
  IsCovered =
      (document : Text) × (lookup sums files ≡ some document)
      × All (λ p. (p.0 ≡ sums) ⊎ Any (Covers p.0) (split 10 (trim_newline document))) files

  verify_payload_checksums-IsCovered : verify_payload_checksums c files ≡ ok tt → IsCovered
  unfolding verify_payload_checksums contains
  verify_payload_checksums-IsCovered h = elim (Option-cases (lookup sums files)) [
    | inl e ↦ ground arith
    | inr (document, e) ↦
        let lines = split 10 (trim_newline document) in
        let (listed, found, all) =
          >>=-eq-ok (check_lines c files [] lines) (λ l. for_each (covered c l) files)
            (rw e at h) in
        (
          document,
          e,
          All-map _ _ files
              (λ p q. elim q [
                | inl same ↦ inl same
                | inr k ↦ elim (check_lines_sound [] lines p.0 found k) [
                  | inl bad ↦ ground arith
                  | inr good ↦ inr good
                ]
              ])
              (covered_sound listed files all),
        )
  ]

-- What a verified bundle is.
pub record IsVerified (c : Codec) (b : Bundle) (m : Manifest) (members : List Member) : Type 0 where
  pub digest : c.sha256_hex b.bytes ≡ b.sha256
  pub archive : c.read_tar b.bytes ≡ some members
  pub safe : All IsSafe members
  pub distinct : Distinct (map entry members)
  pub is_covered : IsCovered c (map entry members)
  pub version : m.format_version ≡ 2
  pub id : m.bundle_id ≡ b.id
  pub identity : Text
  pub canonical : c.encode (record m { bundle_id = [] }) ≡ some identity
  pub content : bundle_id_of c identity ≡ b.id

module _ (c : Codec) where
  check_header_sound :
      (id : Text) (m : Manifest)
      → check_header c id m ≡ ok tt
      → (m.format_version ≡ 2) × (m.bundle_id ≡ id)
  unfolding check_header
  check_header_sound id m h = ground (arith, eq_iff m.bundle_id id)

  check_content_id_sound :
      (id : Text) (m : Manifest)
      → check_content_id c id m ≡ ok tt
      → (identity : Text) × (c.encode (record m { bundle_id = [] }) ≡ some identity)
        × (bundle_id_of c identity ≡ id)
  unfolding check_content_id
  check_content_id_sound id m h = elim (Option-cases (c.encode (record m { bundle_id = [] }))) [
    | inl e ↦ cc (rw e at h)
    | inr (identity, e) ↦ (identity, e, ground (arith, eq_iff (bundle_id_of c identity) id))
  ]

  -- What the parts behind the archive loop have established.
  abbrev pub HasContent : Text → Dict Text → Manifest → Type 0
  HasContent id files m =
      IsCovered c files
      × (m.format_version ≡ 2)
      × (m.bundle_id ≡ id)
      × ((identity : Text) × (c.encode (record m { bundle_id = [] }) ≡ some identity)
          × (bundle_id_of c identity ≡ id))

  verify_manifest_sound :
      (id : Text) (files : Dict Text) (m' : Manifest) {m : Manifest}
      → verify_manifest c id files m' ≡ ok m
      → (check_header c id m' ≡ ok tt)
        × (verify_payload_checksums c files ≡ ok tt)
        × (check_content_id c id m' ≡ ok tt)
        × (m' ≡ m)
  unfolding verify_manifest
  verify_manifest_sound id files m' h = ground arith

  verify_files_sound :
      (id : Text) (files : Dict Text) {m : Manifest}
      → verify_files c id files ≡ ok m
      → HasContent id files m
  unfolding verify_files
  verify_files_sound id files {m = m} h = elim (Result-cases (read_manifest c files)) [
    | inl (e, q) ↦ cc (rw q at h)
    | inr (m', q) ↦
        let h₁ : verify_manifest c id files m' ≡ ok m = rw q at h in
        let (header, sums_ok, content, same) = verify_manifest_sound id files m' h₁ in
        subst (HasContent id files) same (
          verify_payload_checksums-IsCovered c files sums_ok,
          (check_header_sound id m' header).0,
          (check_header_sound id m' header).1,
          check_content_id_sound id m' content,
        )
  ]

  -- If `Verify` returns a manifest without an error, the bundle's bytes have the bundle's digest,
  -- they are an archive of regular members with safe names of which none stands twice, every
  -- member but SHA256SUMS is listed there with its hash, the manifest has format version 2 and the
  -- bundle's id, and the id is the one that the manifest's content gives.
  pub verify-IsVerified :
      (b : Bundle) {m : Manifest}
      → verify c b ≡ ok m
      → (members : List Member) × IsVerified c b m members
  unfolding verify
  verify-IsVerified b {m = m} h = elim (Option-cases (c.read_tar b.bytes)) [
    | inl e ↦ ground arith
    | inr (members, e) ↦ elim (Result-cases (read_members [] members)) [
      | inl (x, q) ↦ ground arith
      | inr (files, q) ↦
          let (safe, whole, distinct) = read_members_sound [] members q tt in
          let done : verify_files c b.id files ≡ ok m = ground arith in
          let (is_covered, version, id, made) =
            verify_files_sound b.id (map entry members) (rw (← whole) done) in
          (
            members,
            record {
              digest = ground (arith, eq_iff (c.sha256_hex b.bytes) b.sha256);
              archive = e;
              safe = safe;
              distinct = rw (← whole) distinct;
              is_covered = is_covered;
              version = version;
              id = id;
              identity = made.0;
              canonical = made.1;
              content = made.2;
            },
          )
    ]
  ]
