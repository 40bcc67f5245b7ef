-- ===== src/Base/Text/Laws.antt =====
-- Equality and order of texts.
use mathlib.Core.Path.{◌≡◌, refl}
use mathlib.Core.Logic.{◌↔◌}
use mathlib.Core.Bool.{Bool, true, false, not}
use mathlib.Core.List.{[], ◌∷◌}
use native.Mathlib.Omega.{arith}
use vpsmith.Base.Tests.{if◌then◌else◌}
use vpsmith.Base.Text.Defs.{Text, ◌==◌, less}

pub eq_sound : (s t : Text) → (s == t) ≡ true → s ≡ t
unfolding ◌==◌
eq_sound [] [] h = refl
eq_sound [] (b ∷ t) h = ground arith
eq_sound (a ∷ s) [] h = ground arith
eq_sound (a ∷ s) (b ∷ t) h = ground (arith, eq_sound s t)

pub eq_refl : (s : Text) → (s == s) ≡ true
unfolding ◌==◌
eq_refl [] = refl
eq_refl (a ∷ s) = ground (arith, eq_refl s)

pub eq_iff : (s t : Text) → ((s == t) ≡ true) ↔ (s ≡ t)
eq_iff s t = (eq_sound s t, λ p. ground (arith, eq_refl s))

pub eq_comm : (s t : Text) → (s == t) ≡ (t == s)
eq_comm s t = ground (arith, eq_iff s t, eq_iff t s)

pub less_irrefl : (s : Text) → less s s ≡ false
unfolding less
less_irrefl [] = refl
less_irrefl (a ∷ s) = ground (arith, less_irrefl s)

pub less_trans : (s t u : Text) → less s t ≡ true → less t u ≡ true → less s u ≡ true
unfolding less
less_trans [] [] [] h k = ground arith
less_trans [] [] (c ∷ u) h k = ground arith
less_trans [] (b ∷ t) [] h k = ground arith
less_trans [] (b ∷ t) (c ∷ u) h k = refl
less_trans (a ∷ s) [] [] h k = ground arith
less_trans (a ∷ s) [] (c ∷ u) h k = ground arith
less_trans (a ∷ s) (b ∷ t) [] h k = ground arith
less_trans (a ∷ s) (b ∷ t) (c ∷ u) h k = ground (arith, less_trans s t u)

-- Two texts of which neither is less are one.
pub less_total : (s t : Text) → less s t ≡ false → less t s ≡ false → s ≡ t
unfolding less
less_total [] [] h k = refl
less_total [] (b ∷ t) h k = ground arith
less_total (a ∷ s) [] h k = ground arith
less_total (a ∷ s) (b ∷ t) h k = ground (arith, less_total s t)

pub less_asym : (s t : Text) → less s t ≡ true → less t s ≡ false
less_asym s t h = ground (arith, less_trans s t s, less_irrefl s)

-- What is not smaller than what is not smaller is not smaller.
pub less_antitrans : (s t u : Text) → less t s ≡ false → less u t ≡ false → less u s ≡ false
less_antitrans s t u h k = ground (arith, less_total t s, less_trans u s t, less_total s t)

-- An order by a first text, and then by `next`.
abbrev pub lex : Text → Text → Bool → Bool
lex a b next = if not (a == b) then less a b else next

pub lex_asym :
    (a b : Text) (next back : Bool)
    → (next ≡ true → back ≡ false)
    → lex a b next ≡ true
    → lex b a back ≡ false
lex_asym a b next back h k = ground (arith, eq_comm a b, less_asym a b)

pub lex_trans :
    (a b c : Text) (ba cb ca : Bool)
    → (ba ≡ false → cb ≡ false → ca ≡ false)
    → lex b a ba ≡ false
    → lex c b cb ≡ false
    → lex c a ca ≡ false
lex_trans a b c ba cb ca h k l = ground (
  arith,
  eq_iff b a,
  eq_iff c b,
  eq_iff c a,
  less_antitrans a b c,
  less_total b a,
  less_total c b,
  less_total c a,
  less_irrefl a,
)

-- Two texts that are in order both ways are the same, and are in order by what comes next.
pub lex_between :
    (a b : Text) (ba ab : Bool)
    → lex b a ba ≡ false
    → lex a b ab ≡ false
    → (a ≡ b) × (ba ≡ false) × (ab ≡ false)
lex_between a b ba ab h k =
    let e : a ≡ b = ground (arith, less_total a b, eq_iff a b, eq_iff b a) in
    let f : (a == b) ≡ true = ground (arith, eq_iff a b) in
    let g : (b == a) ≡ true = ground (arith, eq_comm a b) in (e, ground arith, ground arith)
