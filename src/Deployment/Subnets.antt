-- ===== src/Deployment/Subnets.antt =====
-- `chooseSubnet` of internal/deployment/graph.go finds a free subnet if there is one.
use vpsmith.Base.{
  ℕ, zero, suc, ◌+◌, ◌%◌, ◌<◌, ◌≡◌, subst, ◌*◌, arith, inl, inr, true, false, Option, none, some,
  List,
}
use vpsmith.Base.{is_empty, Bool-cases, Option-cases}
use vpsmith.Base.Text.{Text}
use vpsmith.Base.Dict.{Dict, text_at}
use vpsmith.Deployment.Graph.{candidate, probe_from, choose_subnet, seed_of}

abbrev pub IsTaken : Dict Text → ℕ → Type 0
IsTaken used v = is_empty (text_at used (candidate v)) ≡ false

-- What a choice says of the map: it is one of the 4096 subnets and no one has it, or all are taken.
abbrev pub IsChoice : Dict Text → Option Text → Type 0
IsChoice used (some c) = (v : ℕ) × (c ≡ candidate (v % 4096)) × (is_empty (text_at used c) ≡ true)
IsChoice used none = (v : ℕ) → IsTaken used (v % 4096)

probe_zero : (seed probe : ℕ) → (seed + (probe + 0)) % 4096 ≡ (seed + probe) % 4096
probe_zero seed probe = omega arith

probe_suc : (seed probe k : ℕ) → (seed + (probe + suc k)) % 4096 ≡ (seed + (probe + 1 + k)) % 4096
probe_suc seed probe k = omega arith

-- The probe that hits a number.
probe_of : (seed v : ℕ) → (seed + (0 + (v + 4095 * seed) % 4096)) % 4096 ≡ v % 4096
probe_of seed v = omega arith

probe_from-none :
    (used : Dict Text) (seed probe left : ℕ)
    → probe_from used seed probe (suc left) ≡ none
    → IsTaken used ((seed + probe) % 4096) × (probe_from used seed (probe + 1) left ≡ none)
unfolding probe_from
probe_from-none used seed probe left h =
    elim (Bool-cases (is_empty (text_at used (candidate ((seed + probe) % 4096))))) [
      | inl free ↦ ground arith
      | inr taken ↦ (taken, ground arith)
    ]

probe_from-IsTaken :
    (used : Dict Text) (seed probe left : ℕ)
    → probe_from used seed probe left ≡ none
    → (k : ℕ) → k < left
    → IsTaken used ((seed + (probe + k)) % 4096)
probe_from-IsTaken used seed probe zero h k below = absurd (omega arith)
probe_from-IsTaken used seed probe (suc left) h zero below =
    rw (probe_zero seed probe) (probe_from-none used seed probe left h).0
probe_from-IsTaken used seed probe (suc left) h (suc k) below = rw (probe_suc seed probe k) (
    probe_from-IsTaken used seed (probe + 1) left (probe_from-none used seed probe left h).1 k
      (omega arith))

probe_from-some :
    (used : Dict Text) (seed probe left : ℕ) {c : Text}
    → probe_from used seed probe left ≡ some c
    → IsChoice used (some c)
unfolding probe_from
probe_from-some used seed probe zero h = cc
probe_from-some used seed probe (suc left) {c = c} h =
    elim (Bool-cases (is_empty (text_at used (candidate ((seed + probe) % 4096))))) [
      | inl free ↦
          let e : c ≡ candidate ((seed + probe) % 4096) = ground arith in
          (seed + probe, e, rw e free)
      | inr taken ↦
          let rest : probe_from used seed (probe + 1) left ≡ some c = ground arith in
          probe_from-some used seed (probe + 1) left rest
    ]

all-IsTaken :
    (used : Dict Text) (seed v : ℕ) → probe_from used seed 0 4096 ≡ none → IsTaken used (v % 4096)
all-IsTaken used seed v h =
    subst (IsTaken used) (probe_of seed v)
      (probe_from-IsTaken used seed 0 4096 h ((v + 4095 * seed) % 4096) (omega arith))

-- Whatever the digest and the map: the subnet that `chooseSubnet` returns is one of the 4096
-- subnets from 10.240.0.0/24 to 10.255.255.0/24 and has no owner in the map, and if it returns an
-- error, each of the 4096 has one.
pub choose_subnet-IsChoice :
    (sum : List ℕ) (used : Dict Text) → IsChoice used (choose_subnet sum used)
unfolding choose_subnet
choose_subnet-IsChoice sum used = elim (Option-cases (probe_from used (seed_of sum) 0 4096)) [
  | inl none_left ↦ rw none_left (λ v. all-IsTaken used (seed_of sum) v none_left)
  | inr (c, found) ↦ rw found (probe_from-some used (seed_of sum) 0 4096 found)
]
