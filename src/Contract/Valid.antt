-- ===== src/Contract/Valid.antt =====
-- internal/modulecontract: what every contract that Compile returns satisfies.
pub mod Defs
mod Declared
mod Lists
mod Attached
mod Links
mod Normal
use vpsmith.Base.{
  ◌≡◌, refl, sym, ◌∙◌, subst, inl, inr, arith, true, false, Option, none, some, List, [], ◌∷◌, All,
}
use vpsmith.Base.{if◌then◌else◌, Bool-cases, Option-cases}
use vpsmith.Base.Text.{Text, text, ◌==◌, eq_iff, eq_refl, has_byte}
use vpsmith.Base.Result.{Result, ok, err, reject, require, >>=-eq-ok, Result-cases}
use vpsmith.Base.Dict.{Dict, lookup, insert, has_key, lookup-insert, Distinct}
use vpsmith.Contract.Types.{Module}
use vpsmith.Contract.Errors.{
  ContractError, no_package_fs, unreadable_contract, nul_byte, undecodable,
}
use vpsmith.Contract.Compile.{Tools, check_trailer, validate, normalize, read_actions, compile}
use vpsmith.Contract.Valid.Defs.{IsContract}
use Links.{validate-IsContract}
use Normal.{normalize-IsContract}

-- What a successful compilation has done.
record Compiled (tools : Tools) (fs : Dict Text) (m : Module) : Type 0 where
  decoded : Module
  files : Dict Text
  valid : validate tools.parse_url decoded ≡ ok tt
  read : read_actions fs [] decoded.actions ≡ ok files
  made : normalize (record decoded { action_files = files }) ≡ m

compile-Compiled :
    (tools : Tools) (fs : Dict Text) {m : Module}
    → compile tools (some fs) ≡ ok m
    → Compiled tools fs m
unfolding compile
compile-Compiled tools fs h =
    let (raw, e1, h1) =
      >>=-eq-ok (require (lookup (text "module.yaml") fs) unreadable_contract) _ h in
    let (_, e2, h2) = >>=-eq-ok (reject (has_byte raw 0) nul_byte) _ h1 in
    let (decoded, e3, h3) = >>=-eq-ok (require (tools.decode raw) undecodable) _ h2 in
    let (_, e4, h4) = >>=-eq-ok (check_trailer (tools.trailer raw)) _ h3 in
    let (_, e5, h5) = >>=-eq-ok (validate tools.parse_url decoded) _ h4 in
    let (files, e6, h6) = >>=-eq-ok (read_actions fs [] decoded.actions) _ h5 in
    record { decoded = decoded; files = files; valid = e5; read = e6; made = ground arith }

-- A contract that `Compile` returns without an error, behind the sorting of its lists: no
-- container, storage, storage path, network, secret, service check or interface is declared twice;
-- every container has a declared image, declared networks and storage and no port of the host;
-- secrets, egress rules, routes, health checks, interfaces and dependencies name declared
-- containers; the container of a route is attached to a declared network with the role edge and
-- that of an egress rule to one with the role egress; routes and interfaces have a port from 1 to
-- 65535; no dependency is on the module itself; and the validation action and every action of an
-- update are registered.
pub compile-IsContract :
    (tools : Tools) (fs : Dict Text) {m : Module} → compile tools (some fs) ≡ ok m → IsContract m
compile-IsContract tools fs h =
    let c = compile-Compiled tools fs h in
    subst IsContract c.made (
      normalize-IsContract c.decoded c.files
        (validate-IsContract tools.parse_url c.decoded c.valid))

-- An action that is not read keeps its file.
read_actions-other :
    (fs files : Dict Text) (actions : Dict Text) (id : Text) {found : Dict Text}
    → read_actions fs files actions ≡ ok found
    → has_key id actions ≡ false
    → lookup id found ≡ lookup id files
unfolding read_actions has_key lookup
read_actions-other fs files [] id h other = ground arith
read_actions-other fs files ((k, path) ∷ actions) id {found} h other =
    elim (Option-cases (lookup path fs)) [
      | inl missing ↦ ground arith
      | inr (content, there) ↦
          let g : read_actions fs (insert k content files) actions ≡ ok found = ground arith in
          let rest = read_actions-other fs (insert k content files) actions id g (ground arith) in
          ground (arith, rest, lookup-insert k id content files)
    ]

-- The package has a file under the action's path, and that content stands under the action's id.
abbrev pub HasFile : Dict Text → Dict Text → Text × Text → Type 0
HasFile fs files (id, path) =
    (content : Text) × (lookup path fs ≡ some content) × (lookup id files ≡ some content)

read_actions_lem :
    (fs files : Dict Text) (actions : Dict Text) {found : Dict Text}
    → read_actions fs files actions ≡ ok found
    → Distinct actions
    → All (HasFile fs found) actions
unfolding read_actions
read_actions_lem fs files [] h d = tt
read_actions_lem fs files ((k, path) ∷ actions) {found} h d = elim (Option-cases (lookup path fs)) [
  | inl missing ↦ ground arith
  | inr (content, there) ↦
      let g : read_actions fs (insert k content files) actions ≡ ok found = ground arith in
      let own = read_actions-other fs (insert k content files) actions k g d.0 in
      (
        (content, there, ground (arith, lookup-insert k k content files, eq_refl k)),
        read_actions_lem fs (insert k content files) actions g d.1,
      )
]

-- A contract that `Compile` returns without an error and in which no action id stands twice, as in
-- a Go map: the package has a file under the path of every action, and the file of the action is
-- the content of it.
pub compile-action_files :
    (tools : Tools) (fs : Dict Text) {m : Module}
    → compile tools (some fs) ≡ ok m
    → Distinct m.actions
    → All (HasFile fs m.action_files) m.actions
unfolding normalize
compile-action_files tools fs {m} h d =
    let c = compile-Compiled tools fs h in
    let apart : Distinct c.decoded.actions = subst (λ x. Distinct x.actions) (sym c.made) d in
    subst (λ x. All (HasFile fs x.action_files) x.actions) c.made
      (read_actions_lem fs [] c.decoded.actions c.read apart)
