-- ===== src/Gateway/Bounds.antt =====
-- internal/targetgateway: the requests for logs that go out.
use vpsmith.Base.{ℕ, ◌≤◌, ◌≡◌, refl, inl, inr, ◌⊎◌, arith, Bool, true, false, not, [], ◌∷◌, All}
use vpsmith.Base.{length}
use vpsmith.Base.Int.{ℤ, pos, negsuc, in_range}
use vpsmith.Base.Text.{Text, text, has_prefix, trim_space}
use vpsmith.Base.Result.{Result, ok, err, reject-eq-ok, Result-cases}
use vpsmith.State.Db.{Db, Services}
use vpsmith.Gateway.Types.{
  GatewayError, LogRequest, Session, logs, use_session, Wire, Transport, unsupported_log_kind,
  invalid_log_name, invalid_log_lines,
}
use vpsmith.Gateway.Session.{strict_session, send}
use vpsmith.Gateway.Inspect.{
  object_byte, all_object, safe_object_name, max_log_lines, known_kind, check_logs, read_logs,
}

-- A request that may go out: as many lines as the gateway reads at most, and a name that no shell reads
-- as an option or as anything else than a name.
pub record IsBounded (q : LogRequest) : Type 0 where
  pub known : known_kind q.kind ≡ true
  pub lines : (n : ℕ) × (q.lines ≡ pos n) × (1 ≤ n) × (n ≤ max_log_lines)
  pub size : (1 ≤ length q.name) × (length q.name ≤ 255)
  pub option : has_prefix q.name (text "-") ≡ false
  pub bytes : All (λ c. object_byte c ≡ true) q.name

all_object_lem : (t : Text) → all_object t ≡ true → All (λ c. object_byte c ≡ true) t
unfolding all_object
all_object_lem [] h = tt
all_object_lem (c ∷ t) h = (ground arith, all_object_lem t (ground arith))

in_range_lem :
    (lo hi : ℕ) (z : ℤ) → in_range lo hi z ≡ true → (n : ℕ) × (z ≡ pos n) × (lo ≤ n) × (n ≤ hi)
in_range_lem lo hi (pos n) h = (n, refl, ground arith, ground arith)
in_range_lem lo hi (negsuc n) h = ground arith

named :
    (q : LogRequest) (t : Text)
    → q.name ≡ t
    → known_kind q.kind ≡ true
    → in_range 1 max_log_lines q.lines ≡ true
    → safe_object_name t ≡ true
    → IsBounded q
unfolding safe_object_name has_prefix
named q [] e k l h = ground arith
named q (c ∷ t) e k l h = rw e record {
  known = k;
  lines = in_range_lem 1 max_log_lines q.lines l;
  size = (ground arith, ground arith);
  option = ground arith;
  bytes = all_object_lem (c ∷ t) (ground arith);
}

check_logs-IsBounded : (r : LogRequest) {q : LogRequest} → check_logs r ≡ ok q → IsBounded q
unfolding check_logs
check_logs-IsBounded r {q} h =
    let (e1, h1) = reject-eq-ok (not (known_kind r.kind)) unsupported_log_kind _ h in
    let (e2, h2) =
      reject-eq-ok (not (safe_object_name (trim_space r.name))) invalid_log_name _ h1 in
    let (e3, h3) = reject-eq-ok (not (in_range 1 max_log_lines r.lines)) invalid_log_lines _ h2 in
    let e : q ≡ record r { name = trim_space r.name } = cc in
    rw e (
      named (record r { name = trim_space r.name }) (trim_space r.name) refl (ground arith)
        (ground arith) (ground arith))

-- What a session that was opened, or not, comes to.
send_lem :
    (w : Transport) (q : LogRequest) (opened : Result GatewayError Session × Wire)
    → ((send w (logs q) opened).1 ≡ opened.1)
      ⊎ ((sess : Session) × ((send w (logs q) opened).1 ≡ use_session sess (logs q) ∷ opened.1))
unfolding send
send_lem w q (err e, wire) = inl refl
send_lem w q (ok sess, wire) = inr (sess, refl)

-- `Logs` adds nothing to the calls before, or what `strictSession` does, or that and a request of
-- a known kind for 1 to 2000 lines of an object whose name has 1 to 255 bytes, all letters, digits
-- or one of ._@:-, of which the first is not a dash.
pub read_logs-IsBounded :
    (s : Services) (w : Transport) (reads : Bool) (db : Db) (wire : Wire) (id : Text)
    (r : LogRequest)
    → let calls = (read_logs s w reads db wire id r).1 in
      (calls ≡ wire)
      ⊎ ((calls ≡ (strict_session s w reads db wire id).1)
          ⊎ ((sess : Session) × (q : LogRequest) × (calls
                ≡ use_session sess (logs q) ∷ (strict_session s w reads db wire id).1)
              × IsBounded q))
unfolding read_logs
read_logs-IsBounded s w reads db wire id r = elim (Result-cases (check_logs r)) [
  | inl (e, h) ↦ rw (h, read_logs) (inl refl)
  | inr (q, h) ↦
      rw (h, read_logs)
        (elim (send_lem w q (strict_session s w reads db wire id)) [
          | inl k ↦ inr (inl k)
          | inr (sess, k) ↦ inr (inr (sess, q, k, check_logs-IsBounded r h))
        ])
]
