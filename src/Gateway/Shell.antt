-- ===== src/Gateway/Shell.antt =====
-- internal/targetgateway/ssh_transport.go: shellQuote and the command of Logs, and how a POSIX shell reads
-- a word. `itoa` is strconv.Itoa.
use vpsmith.Base.{
  ℕ, ◌≡◌, refl, ◌∙◌, inl, inr, ap, arith, Bool, true, false, ◌&&◌, ◌||◌, not, Option, none, some,
  [], ◌∷◌, ◌++◌, eqb, append_nil, append_assoc, subst, sym, if◌then◌else◌, Bool-cases,
}
use vpsmith.Base.Int.{ℤ}
use vpsmith.Base.Text.{Text, text, ◌==◌, has_byte}
use vpsmith.Base.Result.{Result, ok, err, reject, ◌>>◌}
use vpsmith.Gateway.Types.{LogKind, LogRequest}

-- `strings.ReplaceAll(value, "'", "'\\''")`.
unfoldable pub quote_bytes : Text → Text
quote_bytes [] = []
quote_bytes (c ∷ s) = if eqb c 39 then 39 ∷ 92 ∷ 39 ∷ 39 ∷ quote_bytes s else c ∷ quote_bytes s

-- `shellQuote`.
unfoldable pub shell_quote : Text → Text
unfolding quote_bytes
shell_quote value = 39 ∷ (quote_bytes value ++ (39 ∷ []))

pub data LogError : Type 0 where
  unknown_scope unknown_kind : LogError

abbrev pub scope_of : Text → Text
scope_of [] = text "user"
scope_of (c ∷ s) = c ∷ s

abbrev pub journal : Text → Text
journal scope = if scope == text "user" then text "journalctl --user" else text "journalctl"

-- The command that `Logs` runs on the target.
unfoldable pub log_command : (ℤ → Text) → LogRequest → Result LogError Text
log_command itoa r = elim r.kind [
  | LogKind.journal_unit ↦ do
    reject (not (scope_of r.scope == text "user") && not (scope_of r.scope == text "system"))
        unknown_scope
    ok (
        journal (scope_of r.scope)
        ++ (text " --no-pager -n "
            ++ (itoa r.lines ++ (text " -o short-iso-precise -u " ++ shell_quote r.name))))
  | LogKind.podman_container ↦
      ok (text "podman logs --tail " ++ (itoa r.lines ++ (text " " ++ shell_quote r.name)))
  | LogKind.log_other k ↦ err unknown_kind
]

-- A byte that ends a word of the shell, and one that means more than itself outside of quotes.
abbrev pub is_blank_byte : ℕ → Bool
is_blank_byte c = eqb c 32 || eqb c 9 || eqb c 10

abbrev pub is_special : ℕ → Bool
is_special c = has_byte (text "$`;&|<>()*?[]#~={}!" ++ (34 ∷ [])) c

abbrev pub in_front : ℕ → Option (Text × Text) → Option (Text × Text)
in_front c none = none
in_front c (some (word, rest)) = some (c ∷ word, rest)

-- The first word of a command line and what stands behind it, where the word has no expansion; `quoted`
-- says whether the reading starts inside single quotes.
unfoldable pub read_word : Bool → Text → Option (Text × Text)
read_word true [] = none
read_word false [] = some ([], [])
read_word true (c ∷ s) =
    let unquoted = read_word false s in
    let quoted = in_front c (read_word true s) in if eqb c 39 then unquoted else quoted
read_word false (c ∷ []) =
    if is_blank_byte c
    then some ([], c ∷ [])
    else if eqb c 39 || eqb c 92 || is_special c
    then none
    else some (c ∷ [], [])
read_word false (c ∷ d ∷ s) =
    let quoted = read_word true (d ∷ s) in
    let escaped = in_front d (read_word false s) in
    let plain = in_front c (read_word false (d ∷ s)) in
    if is_blank_byte c
    then some ([], c ∷ d ∷ s)
    else if eqb c 39
    then quoted
    else if eqb c 92
    then escaped
    else if is_special c
    then none
    else plain

-- A rest that ends the word before it.
abbrev pub Ends : Text → Type 0
Ends rest = read_word false rest ≡ some ([], rest)

read_word_closed : (rest : Text) → Ends rest → read_word true (39 ∷ rest) ≡ some ([], rest)
unfolding read_word
read_word_closed rest h = ground (arith, h)

read_word_opens : (s : Text) → read_word false (39 ∷ s) ≡ read_word true s
unfolding read_word
read_word_opens [] = refl
read_word_opens (c ∷ s) = refl

read_word_escaped :
    (s : Text) → read_word true (39 ∷ 92 ∷ 39 ∷ 39 ∷ s) ≡ in_front 39 (read_word true s)
unfolding read_word
read_word_escaped s = ap (in_front 39) (read_word_opens s)

read_word_inside :
    (c : ℕ) (s : Text) → eqb c 39 ≡ false → read_word true (c ∷ s) ≡ in_front c (read_word true s)
unfolding read_word
read_word_inside c s h = rw h refl

read_word-quote_bytes :
    (value rest : Text)
    → Ends rest
    → read_word true (quote_bytes value ++ (39 ∷ rest)) ≡ some (value, rest)
unfolding quote_bytes
read_word-quote_bytes [] rest h = read_word_closed rest h
read_word-quote_bytes (c ∷ value) rest h = elim (Bool-cases (eqb c 39)) [
  | inl e ↦
      let same : c ≡ 39 = ground arith in
      rw (e, quote_bytes)
        (rw
          (read_word_escaped (quote_bytes value ++ (39 ∷ rest)), read_word-quote_bytes value rest h)
          (rw same refl))
  | inr e ↦
      rw (e, quote_bytes) (rw (read_word_inside c _ e, read_word-quote_bytes value rest h) refl)
]

-- Whatever the value: a POSIX shell reads `shellQuote` of it, in front of the end of the line or
-- of a blank, as one word, which is the value, and goes on behind it; nothing of the value is read
-- as syntax. The reader takes a NUL byte, which no word of a real shell has, as any other byte.
pub read_word-shell_quote :
    (value rest : Text)
    → Ends rest
    → read_word false (shell_quote value ++ rest) ≡ some (value, rest)
unfolding shell_quote
read_word-shell_quote value rest h =
    read_word_opens ((quote_bytes value ++ (39 ∷ [])) ++ rest)
    ∙ ap (read_word true) (append_assoc (quote_bytes value) (39 ∷ []) rest)
    ∙ read_word-quote_bytes value rest h

abbrev EndsIn : Text → Text → Type 0
EndsIn end t = (front : Text) × (t ≡ front ++ end)

-- What a text ends in stays where more stands in front.
EndsIn-append : (end front t : Text) → EndsIn end t → EndsIn end (front ++ t)
EndsIn-append end front t (before, h) =
    (front ++ before, ap (λ x. front ++ x) h ∙ sym (append_assoc front before end))

log_command-EndsIn :
    (itoa : ℤ → Text) (r : LogRequest) (k : LogKind) {c : Text}
    → r.kind ≡ k
    → log_command itoa r ≡ ok c
    → EndsIn (32 ∷ shell_quote r.name) c
unfolding log_command
log_command-EndsIn itoa r LogKind.journal_unit {c} own h =
    let word = 32 ∷ shell_quote r.name in
    let tail = text " -o short-iso-precise -u " ++ shell_quote r.name in
    let command =
      journal (scope_of r.scope) ++ (text " --no-pager -n " ++ (itoa r.lines ++ tail)) in
    let same : command ≡ c = ground arith in
    subst (EndsIn word) same (
      EndsIn-append word (journal (scope_of r.scope)) _ (
        EndsIn-append word (text " --no-pager -n ") _
          (EndsIn-append word (itoa r.lines) _ (text " -o short-iso-precise -u", refl))))
log_command-EndsIn itoa r LogKind.podman_container {c} own h =
    let word = 32 ∷ shell_quote r.name in
    let same : text "podman logs --tail " ++ (itoa r.lines ++ word) ≡ c = ground arith in
    subst (EndsIn word) same (
      EndsIn-append word (text "podman logs --tail ") _
        (EndsIn-append word (itoa r.lines) _ ([], refl)))
log_command-EndsIn itoa r (LogKind.log_other k) {c} own h = ground arith

-- The command of `Logs` ends in a word, behind a blank, which the shell reads as the name.
log_command-read_word :
    (itoa : ℤ → Text) (r : LogRequest) {c : Text}
    → log_command itoa r ≡ ok c
    → (word : Text) × EndsIn (32 ∷ word) c × (read_word false word ≡ some (r.name, []))
unfolding read_word
log_command-read_word itoa r h = (
  shell_quote r.name,
  log_command-EndsIn itoa r r.kind refl h,
  subst (λ w. read_word false w ≡ some (r.name, [])) (append_nil (shell_quote r.name))
      (read_word-shell_quote r.name [] refl),
)
