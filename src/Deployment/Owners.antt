-- ===== src/Deployment/Owners.antt =====
-- The maps of `deriveLinks` of internal/deployment/graph.go: an entry with an owner never changes hands.
use vpsmith.Base.{
  ℕ, ◌≡◌, refl, sym, ◌∙◌, subst, arith, inl, inr, ◌⊎◌, true, false, not, ◌&&◌, some, List, [], ◌∷◌,
}
use vpsmith.Base.{if◌then◌else◌, is_empty, All, Bool-cases, Option-cases}
use vpsmith.Base.Text.{Text, ◌==◌, eq_iff, eq_refl}
use vpsmith.Base.Result.{ok, Result-cases}
use vpsmith.Base.Dict.{Dict, lookup, insert, has_key, text_at, lookup-insert}
use vpsmith.Deployment.Types.{ObservedNetwork, LinkNetwork}
use vpsmith.Deployment.Graph.{
  GraphError, Library, Used, owner_key, note_owner, note_network, note_networks, select_link_subnet,
  choose_subnet, subnet_collision,
}
use vpsmith.Deployment.Subnets.{IsChoice, choose_subnet-IsChoice}

-- A value that the map gives to an owner.
abbrev pub IsOwned : Dict Text → Text → Text → Type 0
IsOwned used value owner = (text_at used value ≡ owner) × (is_empty owner ≡ false)

-- The value may be given to the owner: no one has it, or the owner itself.
abbrev pub IsFree : Dict Text → Text → Text → Type 0
IsFree used value owner = (is_empty (text_at used value) ≡ true) ⊎ (text_at used value ≡ owner)

pub text_at-insert :
    (k j v : Text) (m : Dict Text) → text_at (insert k v m) j ≡ (if k == j then v else text_at m j)
text_at-insert k j v m = ground (arith, lookup-insert k j v m)

-- Giving a free value away takes none from its owner.
pub insert-IsOwned :
    (used : Dict Text) (k owner : Text)
    → IsFree used k owner
    → (value holder : Text) → IsOwned used value holder
    → IsOwned (insert k owner used) value holder
insert-IsOwned used k owner free value holder owned = elim (Bool-cases (k == value)) [
  | inr other ↦ (rw (text_at-insert k value owner used, other) owned.0, owned.1)
  | inl same ↦
      let e : k ≡ value = ground (arith, eq_iff k value) in
      let there : text_at used k ≡ holder = rw e owned.0 in
      elim free [
        | inl unowned ↦
            let clash : is_empty holder ≡ true = rw (← there) unowned in absurd (ground arith)
        | inr own ↦ (rw (text_at-insert k value owner used, same) (sym own ∙ there), owned.1)
      ]
]

pub inserted-IsOwned :
    (used : Dict Text) (k owner : Text)
    → is_empty owner ≡ false
    → IsOwned (insert k owner used) k owner
inserted-IsOwned used k owner named = (rw (text_at-insert k k owner used, eq_refl k) refl, named)

-- The check of `deriveLinks` before an entry.
key-IsFree :
    (value owner : Text) (used : Dict Text)
    → (has_key value used && not (text_at used value == owner)) ≡ false
    → IsFree used value owner
unfolding has_key
key-IsFree value owner used h = elim (Option-cases (lookup value used)) [
  | inl gone ↦ inl (ground arith)
  | inr (o, there) ↦ inr (ground (arith, eq_iff (text_at used value) owner))
]

free_check :
    (owner rel : Text)
    → (not (is_empty owner) && not (owner == rel)) ≡ false
    → (is_empty owner ≡ true) ⊎ (owner ≡ rel)
free_check [] rel h = inl refl
free_check (b ∷ bs) rel h = inr (ground (arith, eq_iff (b ∷ bs) rel))

-- What a step of the loop does to the owners: none is lost, and the value that is noted has its own.
abbrev pub Notes : Dict Text → Dict Text → Text → Text → Type 0
Notes used used' value owner =
    ((is_empty value ≡ true) ⊎ IsOwned used' value owner)
    × ((v holder : Text) → IsOwned used v holder → IsOwned used' v holder)

pub note_owner-Notes :
    (e : GraphError) (value owner : Text) (used : Dict Text) {used' : Dict Text}
    → note_owner e value owner used ≡ ok used'
    → is_empty owner ≡ false
    → Notes used used' value owner
unfolding note_owner
note_owner-Notes e value owner used {used' = used'} h named = elim (Bool-cases (is_empty value)) [
  | inl unnamed ↦
      let same : used' ≡ used = ground arith in (inl unnamed, λ v holder owned. rw same owned)
  | inr valued ↦
      let check : (has_key value used && not (text_at used value == owner)) ≡ false =
        ground arith in
      let same : used' ≡ insert value owner used = ground arith in
      (
        inr (rw same (inserted-IsOwned used value owner named)),
        λ v holder owned.
            rw same
              (insert-IsOwned used value owner (key-IsFree value owner used check) v holder owned),
      )
]

pub owner_key-named : (n : ObservedNetwork) → is_empty (owner_key n) ≡ false
owner_key-named n = elim (Bool-cases (is_empty n.relationship)) [
  | inl e ↦ rw e refl
  | inr e ↦ rw (e, e) refl
]

-- The subnets of observed networks, and of derived links, with their owners.
abbrev pub NetworkOwned : Dict Text → ObservedNetwork → Type 0
NetworkOwned used n = (is_empty n.subnet ≡ true) ⊎ IsOwned used n.subnet (owner_key n)

abbrev pub LinkOwned : Dict Text → LinkNetwork → Type 0
LinkOwned used l = IsOwned used l.subnet l.relationship

module _ (lib : Library) where
  note_network-Notes :
      (used : Used) (n : ObservedNetwork) {used' : Used}
      → note_network lib used n ≡ ok used'
      → Notes used.subnets used'.subnets n.subnet (owner_key n)
  unfolding note_network
  note_network-Notes used n {used' = used'} h =
      let e : note_owner (subnet_collision n.subnet) n.subnet (owner_key n) used.subnets
          ≡ ok used'.subnets =
        ground arith in
      note_owner-Notes (subnet_collision n.subnet) n.subnet (owner_key n) used.subnets e
        (owner_key-named n)

  pub note_networks-Owned :
      (ns : List ObservedNetwork) (used : Used) {used' : Used}
      → note_networks lib used ns ≡ ok used'
      → All (NetworkOwned used'.subnets) ns
        × ((v holder : Text) → IsOwned used.subnets v holder → IsOwned used'.subnets v holder)
  unfolding note_networks
  note_networks-Owned [] used {used' = used'} h =
      let same : used' ≡ used = ground arith in (tt, λ v holder owned. rw same owned)
  note_networks-Owned (n ∷ ns) used {used' = used'} h =
      elim (Result-cases (note_network lib used n)) [
        | inl (e, bad) ↦ ground arith
        | inr (mid, good) ↦
            let rest : note_networks lib mid ns ≡ ok used' = ground arith in
            let (owned, keep) = note_networks-Owned ns mid rest in
            let (own, first) = note_network-Notes used n good in
            (
              (
                elim own [
                  | inl unnamed ↦ inl unnamed
                  | inr o ↦ inr (keep n.subnet (owner_key n) o)
                ],
                owned,
              ),
              λ v holder o. keep v holder (first v holder o),
            )
      ]

pub select-IsFree :
    (rel name : Text) (sum : List ℕ) (used : Used) {subnet : Text}
    → select_link_subnet rel name sum used ≡ ok subnet
    → IsFree used.subnets subnet rel
unfolding select_link_subnet
select-IsFree rel name sum used {subnet = subnet} h =
    elim (Option-cases (lookup rel used.by_relationship)) [
      | inr (existing, there) ↦
          let same : subnet ≡ existing.subnet = ground arith in
          let check : (not (is_empty (text_at used.subnets existing.subnet))
                && not (text_at used.subnets existing.subnet == rel))
              ≡ false =
            ground arith in
          rw same (free_check (text_at used.subnets existing.subnet) rel check)
      | inl new ↦
          let chosen : choose_subnet sum used.subnets ≡ some subnet = ground arith in
          let choice : IsChoice used.subnets (some subnet) =
            subst (IsChoice used.subnets) chosen (choose_subnet-IsChoice sum used.subnets) in
          inl choice.2
    ]
