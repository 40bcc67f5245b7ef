-- ===== src/Contract/Valid/Attached.antt =====
-- internal/modulecontract: what the maps of validateIntegration say of networks and their roles.
use vpsmith.Base.{
  ◌≡◌, ◌≢◌, sym, subst, inl, inr, ◌⊎◌, arith, true, some, List, [], ◌∷◌, Any, Any-map,
}
use vpsmith.Base.{Bool-cases, Option-cases}
use vpsmith.Base.Text.{Text, ◌==◌, eq_iff, contains}
use vpsmith.Base.Dict.{Dict, lookup, insert, lookup-insert, text_at}
use vpsmith.Contract.Types.{Container, Network, Module}
use vpsmith.Contract.Integration.{roles_onto, roles_of, attachments_onto, attachments, is_attached}
use vpsmith.Contract.Valid.Defs.{IsAttached}

-- An entry that an insertion leaves is the new one or one from before.
insert-cases :
    {V : Type 0} (key other : Text) (value v : V) (m : Dict V)
    → lookup other (insert key value m) ≡ some v
    → ((key ≡ other) × (value ≡ v)) ⊎ (lookup other m ≡ some v)
insert-cases key other value v m h = elim (Bool-cases (key == other)) [
  | inl e ↦ inl ((eq_iff key other).0 e, ground (arith, lookup-insert key other value m))
  | inr e ↦ inr (ground (arith, lookup-insert key other value m))
]

roles_onto-cases :
    (k v : Text) (roles : Dict Text) (ws : List Network)
    → lookup k (roles_onto roles ws) ≡ some v
    → (lookup k roles ≡ some v) ⊎ Any (λ w. (w.id ≡ k) × (w.role ≡ v)) ws
unfolding roles_onto
roles_onto-cases k v roles [] h = inl h
roles_onto-cases k v roles (w ∷ ws) h =
    elim (roles_onto-cases k v (insert w.id w.role roles) ws h) [
      | inr there ↦ inr (inr there)
      | inl here ↦ elim (insert-cases w.id k w.role v roles here) [
        | inl new ↦ inr (inl new)
        | inr old ↦ inl old
      ]
    ]

attachments_onto-cases :
    (k : Text) (v : List Text) (roles : Dict Text) (found : Dict (List Text)) (cs : List Container)
    → lookup k (attachments_onto roles found cs) ≡ some v
    → (lookup k found ≡ some v) ⊎ Any (λ c. (c.id ≡ k) × (roles_of roles c.networks ≡ v)) cs
unfolding attachments_onto
attachments_onto-cases k v roles found [] h = inl h
attachments_onto-cases k v roles found (c ∷ cs) h =
    elim (attachments_onto-cases k v roles (insert c.id (roles_of roles c.networks) found) cs h) [
      | inr there ↦ inr (inr there)
      | inl here ↦ elim (insert-cases c.id k (roles_of roles c.networks) v found here) [
        | inl new ↦ inr (inl new)
        | inr old ↦ inl old
      ]
    ]

role_there :
    (ws : List Network) (n role : Text)
    → role ≢ []
    → text_at (roles_onto [] ws) n ≡ role
    → Any (λ w. (w.id ≡ n) × (w.role ≡ role)) ws
unfolding lookup
role_there ws n role some_role h = elim (Option-cases (lookup n (roles_onto [] ws))) [
  | inl missing ↦ absurd (some_role (ground arith))
  | inr (v, there) ↦ elim (roles_onto-cases n v [] ws there) [
    | inl old ↦ cc
    | inr found ↦
        let same : v ≡ role = ground arith in
        subst (λ r. Any (λ w. (w.id ≡ n) × (w.role ≡ r)) ws) same found
  ]
]

roles_there :
    (ws : List Network) (role : Text) (ns : List Text)
    → role ≢ []
    → contains (roles_of (roles_onto [] ws) ns) role ≡ true
    → Any (λ w. (contains ns w.id ≡ true) × (w.role ≡ role)) ws
unfolding contains roles_of
roles_there ws role [] some_role h = cc
roles_there ws role (n ∷ ns) some_role h =
    elim (Bool-cases (text_at (roles_onto [] ws) n == role)) [
      | inl e ↦
          Any-map _ _ ws (λ w p. (ground (arith, eq_iff n w.id), p.1))
            (role_there ws n role some_role ((eq_iff (text_at (roles_onto [] ws) n) role).0 e))
      | inr e ↦
          Any-map _ _ ws (λ w p. (ground arith, p.1))
            (roles_there ws role ns some_role (ground arith))
    ]

pub is_attached-IsAttached :
    (m : Module) (c role : Text)
    → role ≢ []
    → is_attached (attachments m) c role ≡ true
    → IsAttached m c role
unfolding is_attached attachments lookup
is_attached-IsAttached m c role some_role h = elim (Option-cases (lookup c (attachments m))) [
  | inl missing ↦ ground arith
  | inr (roles, there) ↦
      elim (attachments_onto-cases c roles (roles_onto [] m.networks) [] m.containers there) [
        | inl old ↦ cc
        | inr found ↦
            let has : contains roles role ≡ true = ground arith in
            Any-map _ _ m.containers
              (λ x p. (
                p.0,
                roles_there m.networks role x.networks some_role
                    (subst (λ r. contains r role ≡ true) (sym p.1) has),
              ))
              found
      ]
]
