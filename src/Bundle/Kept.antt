-- ===== src/Bundle/Kept.antt =====
-- What the directory of internal/executionbundle/assembler.go keeps, and what `Open` returns from it.
use vpsmith.Base.{◌≡◌, refl, sym, subst, arith, inl, inr, ◌⊎◌, none, some, List, if◌then◌else◌}
use vpsmith.Base.{Bool-cases, Option-cases}
use vpsmith.Base.Text.{Text, ◌==◌, eq_iff}
use vpsmith.Base.Result.{ok, Result-cases}
use vpsmith.Base.Dict.{Dict, lookup, insert, lookup-insert}
use vpsmith.Bundle.Types.{Bundle, Input}
use vpsmith.Bundle.Codec.{Codec, Member}
use vpsmith.Bundle.Assemble.{build}
use vpsmith.Bundle.Verify.{verify}
use vpsmith.Bundle.Sound.{IsVerified, verify-IsVerified}
use vpsmith.Bundle.Store.{Disk, file_of, store, assemble, found_bundle, no_manifest, open_bundle}

-- The second directory has the bundle's bytes under its name, and every file of the first one.
abbrev pub IsStored : Bundle → Dict Text → Dict Text → Type 0
IsStored b dir dir' =
    (name : Text)
    → lookup name dir' ≡ (if file_of b.id == name then some b.bytes else lookup name dir)

-- A file that was there is the same afterwards.
abbrev pub IsUntouched : Text → Dict Text → Dict Text → Type 0
IsUntouched name dir dir' = (lookup name dir ≡ none) ⊎ (lookup name dir' ≡ lookup name dir)

store-IsStored :
    (disk : Disk) (b : Bundle) (dir : Dict Text) {dir' : Dict Text}
    → store disk b dir ≡ ok dir'
    → IsStored b dir dir' × ((name : Text) → IsUntouched name dir dir')
unfolding store
store-IsStored disk b dir {dir' = dir'} h = elim (Option-cases (lookup (file_of b.id) dir)) [
  | inr (existing, there) ↦
      let same : dir' ≡ dir = ground arith in
      let own : existing ≡ b.bytes = ground (arith, eq_iff existing b.bytes) in
      (
        λ name. rw same (elim (Bool-cases (file_of b.id == name)) [
          | inl e ↦
              let f : file_of b.id ≡ name = ground (arith, eq_iff (file_of b.id) name) in
              rw e (subst (λ n. lookup n dir ≡ some b.bytes) f (rw (← own) there))
          | inr e ↦ rw e refl
        ]),
        λ name. inr (rw same refl),
      )
  | inl new ↦
      let made : dir' ≡ insert (file_of b.id) b.bytes dir = ground arith in
      (
        λ name. rw made (lookup-insert (file_of b.id) name b.bytes dir),
        λ name. elim (Bool-cases (file_of b.id == name)) [
          | inl e ↦
              let f : file_of b.id ≡ name = ground (arith, eq_iff (file_of b.id) name) in
              inl (subst (λ n. lookup n dir ≡ none) f new)
          | inr e ↦ inr (rw made (rw (lookup-insert (file_of b.id) name b.bytes dir, e) refl))
        ],
      )
]

module _ (c : Codec) where
  -- If `Assemble` returns a bundle without an error, it is the one that the input gives, the
  -- directory has the bundle's bytes under its name and is otherwise as before, and no file that
  -- was there has changed.
  pub assemble-IsStored :
      (disk : Disk) (input : Input) (dir : Dict Text) {b : Bundle} {dir' : Dict Text}
      → assemble c disk input dir ≡ ok (b, dir')
      → (build c input ≡ ok b) × IsStored b dir dir' × ((name : Text) → IsUntouched name dir dir')
  unfolding assemble
  assemble-IsStored disk input dir {b = b} {dir' = dir'} h = elim (Result-cases (build c input)) [
    | inl (e, bad) ↦ ground arith
    | inr (b', good) ↦ elim (Result-cases (store disk b' dir)) [
      | inl (e, bad) ↦ ground arith
      | inr (d, stored) ↦
          let own : b' ≡ b = ground arith in
          let same : d ≡ dir' = ground arith in
          let stored' : store disk b dir ≡ ok dir' = ground arith in
          let (kept, untouched) = store-IsStored disk b dir stored' in
          (subst (λ x. build c input ≡ ok x) own good, kept, untouched)
    ]
  ]

  -- A bundle that `Open` returns without an error has the id that was asked for and the bytes of
  -- the file of that id, and has passed the verification: digest, safe and distinct members,
  -- checksums of all members, version and content-derived id.
  pub open_bundle-IsVerified :
      (disk : Disk) (id : Text) (dir : Dict Text) {b : Bundle}
      → open_bundle c disk id dir ≡ ok b
      → (b.id ≡ id)
        × (lookup (file_of id) dir ≡ some b.bytes)
        × ((members : List Member) × IsVerified c b b.manifest members)
  unfolding open_bundle
  open_bundle-IsVerified disk id dir {b = b} h = elim (Option-cases (lookup (file_of id) dir)) [
    | inl gone ↦ ground arith
    | inr (bytes, there) ↦
        elim (Result-cases (verify c (found_bundle c id bytes (no_manifest c)))) [
          | inl (e, bad) ↦ ground arith
          | inr (m, good) ↦
              let same : b ≡ found_bundle c id bytes m = ground arith in
              let (members, v) =
                verify-IsVerified c (found_bundle c id bytes (no_manifest c)) good in
              subst
                (λ x.
                  (x.id ≡ id)
                  × (lookup (file_of id) dir ≡ some x.bytes)
                  × ((ms : List Member) × IsVerified c x x.manifest ms))
                (sym same)
                (
                  refl,
                  there,
                  (
                    members,
                    record {
                      digest = v.digest;
                      archive = v.archive;
                      safe = v.safe;
                      distinct = v.distinct;
                      is_covered = v.is_covered;
                      version = v.version;
                      id = v.id;
                      identity = v.identity;
                      canonical = v.canonical;
                      content = v.content;
                    },
                  ),
                )
        ]
  ]
