-- ===== src/Base/Bytes.antt =====
-- `encoding/binary` and Python's `struct`: big-endian numbers, and texts cut at a length.
use Prim.Native.Nat.{ℕ, zero, suc, ◌+◌, ◌*◌, ◌/◌, ◌%◌, ◌<◌}
use mathlib.Core.Path.{◌≡◌, refl}
use mathlib.Core.List.{List, [], ◌∷◌, ◌++◌}
use native.Mathlib.Omega.{arith}
use vpsmith.Base.Lists.{length, take, drop, length-append}
use vpsmith.Base.Text.{Text}

-- The lowest `k` bytes of a number, the highest first.
unfoldable pub big_endian : ℕ → ℕ → Text
big_endian zero n = []
big_endian (suc k) n = big_endian k (n / 256) ++ ((n % 256) ∷ [])

-- The number that bytes stand for, behind the number of those before.
unfoldable pub number_from : ℕ → Text → ℕ
number_from before [] = before
number_from before (b ∷ bytes) = number_from (before * 256 + b) bytes

abbrev pub number_of : Text → ℕ
number_of = number_from 0

-- How many numbers fit in `k` bytes.
abbrev pub limit : ℕ → ℕ
limit zero = 1
limit (suc k) = limit k * 256

pub length-big_endian : (k n : ℕ) → length (big_endian k n) ≡ k
unfolding big_endian
length-big_endian zero n = refl
length-big_endian (suc k) n =
    omega (
      arith,
      length-big_endian k (n / 256),
      length-append (big_endian k (n / 256)) ((n % 256) ∷ []),
    )

number_from-snoc :
    (before : ℕ) (bytes : Text) (b : ℕ)
    → number_from before (bytes ++ (b ∷ [])) ≡ number_from before bytes * 256 + b
unfolding number_from
number_from-snoc before [] b = refl
number_from-snoc before (c ∷ bytes) b = number_from-snoc (before * 256 + c) bytes b

pub number_of-big_endian : (k n : ℕ) → n < limit k → number_of (big_endian k n) ≡ n
unfolding number_from big_endian
number_of-big_endian zero n h = omega arith
number_of-big_endian (suc k) n h = omega (
  arith,
  number_of-big_endian k (n / 256) (omega arith),
  number_from-snoc 0 (big_endian k (n / 256)) (n % 256),
)

module _ {A : Type 0} where
  pub take-append : (xs ys : List A) {n : ℕ} → length xs ≡ n → take n (xs ++ ys) ≡ xs
  take-append [] ys {n = zero} h = refl
  take-append [] ys {n = suc n} h = ground arith
  take-append (x ∷ xs) ys {n = zero} h = ground arith
  take-append (x ∷ xs) ys {n = suc n} h = ground (arith, take-append xs ys {n = n})

  pub drop-append : (xs ys : List A) {n : ℕ} → length xs ≡ n → drop n (xs ++ ys) ≡ ys
  drop-append [] ys {n = zero} h = refl
  drop-append [] ys {n = suc n} h = ground arith
  drop-append (x ∷ xs) ys {n = zero} h = ground arith
  drop-append (x ∷ xs) ys {n = suc n} h = ground (arith, drop-append xs ys {n = n})
