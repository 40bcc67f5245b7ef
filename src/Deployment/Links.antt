-- ===== src/Deployment/Links.antt =====
-- What `deriveLinks` of internal/deployment/graph.go guarantees of the subnets of the link networks.
use vpsmith.Base.{◌≡◌, refl, sym, ◌∙◌, subst, ap, arith, inl, inr, false, List, [], ◌∷◌, ◌++◌}
use vpsmith.Base.{is_empty, take, All, All-map, All-append, All-Any, Any}
use vpsmith.Base.Text.{Text, text}
use vpsmith.Base.Result.{ok, Result-cases}
use vpsmith.Base.Dict.{Dict, insert, text_at}
use vpsmith.Base.Sort.{sort_by, sort_by-All}
use vpsmith.Contract.Types.{Dependency}
use vpsmith.Deployment.Types.{ObservedNetwork, LinkNetwork, CompiledModule}
use vpsmith.Deployment.Graph.{
  Library, Used, nothing_used, hex, owner_key, note_networks, select_link_subnet, relationship_of,
  resolve_provider, derive_link, derive_dependencies, derive_modules, derive_links, link_before,
}
use vpsmith.Deployment.Owners.{
  IsOwned, LinkOwned, NetworkOwned, insert-IsOwned, inserted-IsOwned, note_networks-Owned,
  select-IsFree,
}

-- Owners that a step of the derivation keeps.
abbrev pub Keeps : Used → Used → Type 0
Keeps used used' =
    (v holder : Text) → IsOwned used.subnets v holder → IsOwned used'.subnets v holder

append-named : (id rest : Text) → is_empty (id ++ (text "/" ++ rest)) ≡ false
append-named [] rest = refl
append-named (b ∷ bs) rest = refl

relationship_of-named :
    (p : CompiledModule) (d : Dependency) (c : CompiledModule)
    → is_empty (relationship_of p d c) ≡ false
relationship_of-named p d c = append-named p.desired.instance_id _

module _ (lib : Library) (mods : List CompiledModule) where
  derive_link-Owned :
      (consumer : CompiledModule) (d : Dependency) (used : Used) {used' : Used} {link : LinkNetwork}
      → derive_link lib mods consumer d used ≡ ok (used', link)
      → LinkOwned used'.subnets link × Keeps used used'
  unfolding derive_link
  derive_link-Owned consumer d used {used' = used'} {link = link} h =
      elim (Result-cases (resolve_provider mods consumer d)) [
        | inl (e, bad) ↦ ground arith
        | inr ((p, i), good) ↦
            let rel = relationship_of p d consumer in
            let name = text "vpsmith-link-" ++ hex (take 6 (lib.sum rel)) in
            elim (Result-cases (select_link_subnet rel name (lib.sum rel) used)) [
              | inl (e, bad) ↦ ground arith
              | inr (subnet, chosen) ↦
                  let free = select-IsFree rel name (lib.sum rel) used chosen in
                  let made : used'.subnets ≡ insert subnet rel used.subnets = ground arith in
                  let own_subnet : link.subnet ≡ subnet = ground arith in
                  let own_rel : link.relationship ≡ rel = ground arith in
                  (
                    rw (made, own_subnet, own_rel)
                        (inserted-IsOwned used.subnets subnet rel
                          (relationship_of-named p d consumer)),
                    λ v holder owned.
                        rw made (insert-IsOwned used.subnets subnet rel free v holder owned),
                  )
            ]
      ]

  derive_dependencies-Owned :
      (consumer : CompiledModule) (ds : List Dependency) (used : Used) {used' : Used}
      {links : List LinkNetwork}
      → derive_dependencies lib mods consumer ds used ≡ ok (used', links)
      → All (LinkOwned used'.subnets) links × Keeps used used'
  unfolding derive_dependencies
  derive_dependencies-Owned consumer [] used {used' = used'} {links = links} h =
      let same : used' ≡ used = ground arith in
      let nothing : links ≡ [] = ground arith in (rw nothing tt, λ v holder owned. rw same owned)
  derive_dependencies-Owned consumer (d ∷ ds) used {used' = used'} {links = links} h =
      elim (Result-cases (derive_link lib mods consumer d used)) [
        | inl (e, bad) ↦ ground arith
        | inr ((mid, link), good) ↦
            elim (Result-cases (derive_dependencies lib mods consumer ds mid)) [
              | inl (e, bad) ↦ ground arith
              | inr ((last, more), fine) ↦
                  let same : used' ≡ last = ground arith in
                  let all : links ≡ link ∷ more = ground arith in
                  let (own, first) = derive_link-Owned consumer d used good in
                  let (owned, keep) = derive_dependencies-Owned consumer ds mid fine in
                  (
                    rw (same, all) (keep link.subnet link.relationship own, owned),
                    λ v holder o. rw same (keep v holder (first v holder o)),
                  )
            ]
      ]

  derive_modules-Owned :
      (ms : List CompiledModule) (used : Used) {used' : Used} {links : List LinkNetwork}
      → derive_modules lib mods ms used ≡ ok (used', links)
      → All (LinkOwned used'.subnets) links × Keeps used used'
  unfolding derive_modules
  derive_modules-Owned [] used {used' = used'} {links = links} h =
      let same : used' ≡ used = ground arith in
      let nothing : links ≡ [] = ground arith in (rw nothing tt, λ v holder owned. rw same owned)
  derive_modules-Owned (m ∷ ms) used {used' = used'} {links = links} h =
      elim (Result-cases (derive_dependencies lib mods m m.contract.dependencies used)) [
        | inl (e, bad) ↦ ground arith
        | inr ((mid, some_links), good) ↦ elim (Result-cases (derive_modules lib mods ms mid)) [
          | inl (e, bad) ↦ ground arith
          | inr ((last, more), fine) ↦
              let same : used' ≡ last = ground arith in
              let all : links ≡ some_links ++ more = ground arith in
              let (own, first) = derive_dependencies-Owned m m.contract.dependencies used good in
              let (owned, keep) = derive_modules-Owned ms mid fine in
              (
                rw (same, all)
                    (All-append (LinkOwned last.subnets) some_links more
                      (All-map (LinkOwned mid.subnets) (LinkOwned last.subnets) some_links
                        (λ l. keep l.subnet l.relationship) own)
                      owned),
                λ v holder o. rw same (keep v holder (first v holder o)),
              )
        ]
      ]

-- One map gives all subnets their owners.
Accounts : List ObservedNetwork → List LinkNetwork → Type 0
Accounts observed links =
    (used : Dict Text) × All (NetworkOwned used) observed × All (LinkOwned used) links

derive_links-Accounts :
    (lib : Library) (mods : List CompiledModule) (observed : List ObservedNetwork)
    {links : List LinkNetwork}
    → derive_links lib mods observed ≡ ok links
    → Accounts observed links
unfolding derive_links Accounts
derive_links-Accounts lib mods observed {links = links} h =
    elim (Result-cases (note_networks lib nothing_used observed)) [
      | inl (e, bad) ↦ ground arith
      | inr (used, good) ↦ elim (Result-cases (derive_modules lib mods mods used)) [
        | inl (e, bad) ↦ ground arith
        | inr ((last, all), fine) ↦
            let sorted : links ≡ sort_by link_before all = ground arith in
            let (noted, start) = note_networks-Owned lib observed nothing_used good in
            let (owned, keep) = derive_modules-Owned lib mods mods used fine in
            (
              last.subnets,
              All-map (NetworkOwned used.subnets) (NetworkOwned last.subnets) observed
                  (λ n o. elim o [
                    | inl unnamed ↦ inl unnamed
                    | inr there ↦ inr (keep n.subnet (owner_key n) there)
                  ])
                  noted,
              rw sorted (sort_by-All link_before (LinkOwned last.subnets) all owned),
            )
      ]
    ]

All-at : {A : Type 0} (P : A → Type 0) (xs : List A) (a : A) → All P xs → Any (λ x. x ≡ a) xs → P a
All-at P xs a h there = let (x, p, e) = All-Any P (λ x. x ≡ a) xs h there in subst P e p

-- Two of the link networks that `deriveLinks` returns without an error have the same subnet only
-- if they are of the same relationship.
pub derive_links-subnet :
    (lib : Library) (mods : List CompiledModule) (observed : List ObservedNetwork)
    {links : List LinkNetwork}
    → derive_links lib mods observed ≡ ok links
    → (l l' : LinkNetwork) → Any (λ x. x ≡ l) links
    → Any (λ x. x ≡ l') links
    → l.subnet ≡ l'.subnet
    → l.relationship ≡ l'.relationship
unfolding Accounts
derive_links-subnet lib mods observed {links = links} h l l' there there' same =
    let (used, noted, owned) = derive_links-Accounts lib mods observed h in
    let one = All-at (LinkOwned used) links l owned there in
    let two = All-at (LinkOwned used) links l' owned there' in
    sym one.0 ∙ (ap (text_at used) same ∙ two.0)

-- A link network that `deriveLinks` returns without an error has the subnet of an observed
-- network, one that has a subnet, only if the observed network is owned by the link's
-- relationship.
pub derive_links-observed :
    (lib : Library) (mods : List CompiledModule) (observed : List ObservedNetwork)
    {links : List LinkNetwork}
    → derive_links lib mods observed ≡ ok links
    → (l : LinkNetwork) (n : ObservedNetwork) → Any (λ x. x ≡ l) links
    → Any (λ x. x ≡ n) observed
    → is_empty n.subnet ≡ false
    → l.subnet ≡ n.subnet
    → owner_key n ≡ l.relationship
unfolding Accounts
derive_links-observed lib mods observed {links = links} h l n there seen named same =
    let (used, noted, owned) = derive_links-Accounts lib mods observed h in
    let one = All-at (LinkOwned used) links l owned there in
    elim (All-at (NetworkOwned used) observed n noted seen) [
      | inl unnamed ↦ absurd (ground arith)
      | inr two ↦ sym two.0 ∙ (ap (text_at used) (sym same) ∙ one.0)
    ]
