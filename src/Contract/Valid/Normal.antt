-- ===== src/Contract/Valid/Normal.antt =====
-- internal/modulecontract: normalize keeps what validate has found out.
use vpsmith.Base.{◌≡◌, refl, sym, ◌∙◌, arith, true, List, [], ◌∷◌, All, All-map, Any-map}
use vpsmith.Base.Text.{Text, contains, less}
use vpsmith.Base.Dict.{Dict}
use vpsmith.Base.Sort.{sort_by, sort_texts, sort_by-All, sort_by-Any}
use vpsmith.Base.Table.{has_row}
use vpsmith.Base.Keys.{has_row-sort_by, sort_by-Unique, has_row-map, map-Unique, map-All, map-Any}
use vpsmith.Contract.Types.{Container, Module}
use vpsmith.Contract.Compile.{
  by, egress_before, route_before, dependency_before, normal_container, normal_secret, normal_route,
  normalize,
}
use vpsmith.Contract.Valid.Defs.{HasContainer, IsContainer, IsAttached, IsContract}

contains-has_row : (ts : List Text) (t : Text) → contains ts t ≡ has_row (λ x. x) t ts
unfolding contains has_row
contains-has_row [] t = refl
contains-has_row (u ∷ ts) t = ground (arith, contains-has_row ts t)

contains-sort_texts : (ts : List Text) (t : Text) → contains (sort_texts ts) t ≡ contains ts t
unfolding sort_texts
contains-sort_texts ts t =
    contains-has_row (sort_by less ts) t
    ∙ (has_row-sort_by (λ x. x) less t ts ∙ sym (contains-has_row ts t))

sort_texts-All : (P : Text → Type 0) (ts : List Text) → All P ts → All P (sort_texts ts)
unfolding sort_texts
sort_texts-All P ts h = sort_by-All less P ts h

module _ (m : Module) (files : Dict Text) where
  abbrev normal : Module
  normal = normalize (record m { action_files = files })

  has_container : (c : Text) → HasContainer m c → HasContainer normal c
  unfolding normalize normal_container
  has_container c h =
      has_row-map (λ x. x.id) (λ x. x.id) normal_container (λ x. refl) c
        (sort_by (by (λ x. x.id)) m.containers)
      ∙ (has_row-sort_by (λ x. x.id) (by (λ x. x.id)) c m.containers ∙ h)

  has_network :
      (n : Text)
      → has_row (λ w. w.id) n m.networks ≡ true
      → has_row (λ w. w.id) n normal.networks ≡ true
  unfolding normalize
  has_network n h = has_row-sort_by (λ w. w.id) (by (λ w. w.id)) n m.networks ∙ h

  has_storage :
      (n : Text)
      → has_row (λ s. s.id) n m.persistent ≡ true
      → has_row (λ s. s.id) n normal.persistent ≡ true
  unfolding normalize
  has_storage n h = has_row-sort_by (λ s. s.id) (by (λ s. s.id)) n m.persistent ∙ h

  is_attached : (id role : Text) → IsAttached m id role → IsAttached normal id role
  unfolding normalize normal_container
  is_attached id role h =
      map-Any normal_container _ _ (sort_by (by (λ c. c.id)) m.containers)
        (λ c p. (
          p.0,
          Any-map _ _ (sort_by (by (λ n. n.id)) m.networks)
              (λ n q. (contains-sort_texts c.networks n.id ∙ q.0, q.1))
              (sort_by-Any (by (λ n. n.id)) _ m.networks p.1),
        ))
        (sort_by-Any (by (λ c. c.id)) _ m.containers h)

  is_container : (c : Container) → IsContainer m c → IsContainer normal (normal_container c)
  unfolding normalize normal_container
  is_container c h = record {
    image = h.image;
    networks = sort_texts-All _ c.networks (All-map _ _ c.networks has_network h.networks);
    storage =
        sort_by-All (by (λ t. t.target)) _ c.mounts
          (All-map _ _ c.mounts (λ t. has_storage t.storage_id) h.storage);
    closed = h.closed;
  }

  pub normalize-IsContract : IsContract m → IsContract normal
  unfolding normalize normal_secret normal_route normal_container
  normalize-IsContract v = record {
    containers_apart =
        map-Unique (λ c. c.id) (λ c. c.id) normal_container (λ c. refl)
          (sort_by (by (λ c. c.id)) m.containers)
          (sort_by-Unique (λ c. c.id) (by (λ c. c.id)) m.containers v.containers_apart);
    storage_apart = sort_by-Unique (λ s. s.id) (by (λ s. s.id)) m.persistent v.storage_apart;
    paths_apart = sort_by-Unique (λ s. s.path) (by (λ s. s.id)) m.persistent v.paths_apart;
    networks_apart = sort_by-Unique (λ n. n.id) (by (λ n. n.id)) m.networks v.networks_apart;
    secrets_apart =
        map-Unique (λ s. s.id) (λ s. s.id) normal_secret (λ s. refl)
          (sort_by (by (λ s. s.id)) m.secrets)
          (sort_by-Unique (λ s. s.id) (by (λ s. s.id)) m.secrets v.secrets_apart);
    checks_apart = sort_by-Unique (λ h. h.id) (by (λ h. h.id)) m.service_checks v.checks_apart;
    interfaces_apart = sort_by-Unique (λ i. i.id) (by (λ i. i.id)) m.interfaces v.interfaces_apart;
    containers =
        map-All normal_container _ _ (sort_by (by (λ c. c.id)) m.containers) is_container
          (sort_by-All (by (λ c. c.id)) _ m.containers v.containers);
    secrets =
        map-All normal_secret _ _ (sort_by (by (λ s. s.id)) m.secrets)
          (λ s p. sort_texts-All _ s.containers (All-map _ _ s.containers has_container p))
          (sort_by-All (by (λ s. s.id)) _ m.secrets v.secrets);
    egress = sort_by-All egress_before _ m.egress (
        All-map _ _ m.egress (λ e p. (has_container e.container p.0, is_attached e.container _ p.1))
          v.egress);
    routes =
        map-All normal_route _ _ (sort_by route_before m.public_routes)
          (λ r p. (has_container r.container p.0, p.1, is_attached r.container _ p.2))
          (sort_by-All route_before _ m.public_routes v.routes);
    health = has_container m.healthcheck.container v.health;
    checks =
        sort_by-All (by (λ h. h.id)) _ m.service_checks
          (All-map _ _ m.service_checks (λ h. has_container h.container) v.checks);
    interfaces =
        sort_by-All (by (λ i. i.id)) _ m.interfaces
          (All-map _ _ m.interfaces (λ i p. (has_container i.container p.0, p.1)) v.interfaces);
    dependencies =
        sort_by-All dependency_before _ m.dependencies
          (All-map _ _ m.dependencies (λ d p. (has_container d.consumer p.0, p.1)) v.dependencies);
    validation = v.validation;
    updates = v.updates;
  }
