-- ===== src/Base/Result.antt =====
-- A call that may fail: its value, or its error.
use mathlib.Core.Path.{◌≡◌, refl}
use mathlib.Core.Logic.{◌⊎◌, inl, inr}
use mathlib.Core.Bool.{Bool, true, false}
use mathlib.Core.Option.{Option, none, some}
use mathlib.Core.List.{List, [], ◌∷◌}

pub data Result (E A : Type 0) : Type 0 where
  ok : A → Result E A
  err : E → Result E A

-- `if err != nil { return err }` behind a call, without and with a value of the call.
infixl 5 ◌>>◌ ◌>>=◌
abbrev pub ◌>>=◌ : {E A B : Type 0} → Result E A → (A → Result E B) → Result E B
err failure >>= rest = err failure
ok value >>= rest = rest value

abbrev pub ◌>>◌ : {E B : Type 0} → Result E (Unit {0}) → Result E B → Result E B
call >> rest = call >>= λ _. rest

-- `if bad { return e }`.
abbrev pub reject : {E : Type 0} → Bool → E → Result E (Unit {0})
reject true e = err e
reject false e = ok tt

-- The value that a map or a search gives, or the error of a missing one.
abbrev pub require : {E A : Type 0} → Option A → E → Result E A
require none e = err e
require (some a) e = ok a

-- `for _, x := range xs { if err := check(x) … }`.
unfoldable pub for_each : {E A : Type 0} → (A → Result E (Unit {0})) → List A → Result E (Unit {0})
for_each check [] = ok tt
for_each check (x ∷ xs) = do check x; for_each check xs

-- A chain that succeeds has a first call that succeeds, and a rest that does on its value.
pub >>=-eq-ok :
    {E A B : Type 0} (call : Result E A) (rest : A → Result E B) {b : B}
    → (call >>= rest) ≡ ok b
    → (a : A) × (call ≡ ok a) × (rest a ≡ ok b)
>>=-eq-ok (err failure) rest h = cc
>>=-eq-ok (ok value) rest h = (value, refl, h)

-- A guarded chain that succeeds passes the guard.
pub reject-eq-ok :
    {E B : Type 0} (bad : Bool) (e : E) (rest : Result E B) {b : B}
    → (reject bad e >> rest) ≡ ok b
    → (bad ≡ false) × (rest ≡ ok b)
reject-eq-ok true e rest h = cc
reject-eq-ok false e rest h = (refl, h)

-- A value that was required is there.
pub require-eq-ok : {E A : Type 0} (o : Option A) (e : E) {a : A} → require o e ≡ ok a → o ≡ some a
require-eq-ok none e h = cc
require-eq-ok (some b) e h = cc

pub Result-cases :
    {E A : Type 0} (r : Result E A) → ((e : E) × (r ≡ err e)) ⊎ ((a : A) × (r ≡ ok a))
Result-cases (ok a) = inr (a, refl)
Result-cases (err e) = inl (e, refl)
