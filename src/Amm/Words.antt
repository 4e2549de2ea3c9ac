-- ===== src/Amm/Words.antt =====
-- The `u128` arithmetic that programs/amm/src uses. The plain operators wrap, as in a release build;
-- a division by zero is a panic.
use native.Mathlib.Nat.{pow-suc}
use lp_0002_private_multisig.Prelude.{
  ◌⊎◌, inl, inr, Bool-cases, ℕ, zero, suc, ◌+◌, ◌-◌, ◌*◌, ◌/◌, ◌%◌, ◌^◌, ◌≤◌, ◌<◌, ◌≡◌, ◌==◌,
  Option, none, some, arith, ltb, leb, if◌then◌else◌,
}
use lp_0002_private_multisig.Core.Balance.{u128_mod}

unfoldable pub add_u128 : ℕ → ℕ → ℕ
add_u128 a b = (a + b) % u128_mod

unfoldable pub sub_u128 : ℕ → ℕ → ℕ
sub_u128 a b = (a + u128_mod - b) % u128_mod

unfoldable pub mul_u128 : ℕ → ℕ → ℕ
mul_u128 a b = (a * b) % u128_mod

unfoldable pub checked_mul : ℕ → ℕ → Option ℕ
checked_mul a b = if ltb (a * b) u128_mod then some (a * b) else none

unfoldable pub quotient : ℕ → ℕ → Option ℕ
quotient a b = if b == 0 then none else some (a / b)

unfoldable pub div_ceil : ℕ → ℕ → Option ℕ
div_ceil a b = if b == 0 then none else some (if a % b == 0 then a / b else a / b + 1)

-- `isqrt`, two binary digits of the number for one of its root.
unfoldable pub isqrt_digits : ℕ → ℕ → ℕ
isqrt_digits zero n = 0
isqrt_digits (suc digits) n =
    let r : ℕ = 2 * isqrt_digits digits (n / 4) in if leb ((r + 1) * (r + 1)) n then r + 1 else r

unfoldable pub isqrt : ℕ → ℕ
isqrt n = isqrt_digits 64 n

pub add_u128-small : (a b : ℕ) → a + b < u128_mod → add_u128 a b ≡ a + b
unfolding add_u128
add_u128-small a b h = omega arith

pub sub_u128-small : (a b : ℕ) → b ≤ a → a < u128_mod → sub_u128 a b ≡ a - b
unfolding sub_u128
sub_u128-small a b h small = omega arith

pub mul_u128-small : (a b : ℕ) → a * b < u128_mod → mul_u128 a b ≡ a * b
unfolding mul_u128
mul_u128-small a b h = grind arith

pub checked_mul-some :
    (a b : ℕ) {c : ℕ} → checked_mul a b ≡ some c → (c ≡ a * b) × (a * b < u128_mod)
unfolding checked_mul
checked_mul-some a b h = ground arith

div_bounds : (a b : ℕ) → 0 < b → (a / b * b ≤ a) × (a < a / b * b + b)
div_bounds a b h = grind arith

quotient_parts : (a b : ℕ) {q : ℕ} → quotient a b ≡ some q → (q ≡ a / b) × (0 < b)
unfolding quotient
quotient_parts a b h = ground arith

pub quotient-some :
    (a b : ℕ) {q : ℕ} → quotient a b ≡ some q → (q * b ≤ a) × (a < q * b + b) × (0 < b)
quotient-some a b h =
    let (e, pos) = quotient_parts a b h in
    let (low, high) = div_bounds a b pos in rw e (low, high, pos)

div_ceil_parts :
    (a b : ℕ) {q : ℕ}
    → div_ceil a b ≡ some q
    → (((q ≡ a / b) × (a % b ≡ 0)) ⊎ ((q ≡ a / b + 1) × (0 < a % b))) × (0 < b)
unfolding div_ceil
div_ceil_parts a b h = elim (Bool-cases (b == 0)) [
  | inl z ↦ (let clash = rw (z, div_ceil) at h in cc)
  | inr pos ↦ elim (Bool-cases (a % b == 0)) [
    | inl z ↦ (inl (ground arith, ground arith), ground arith)
    | inr more ↦ (inr (ground arith, ground arith), ground arith)
  ]
]

exact_quotient : (a b q : ℕ) → q ≡ a / b → a % b ≡ 0 → 0 < b → q * b ≡ a
exact_quotient a b q e z pos = rw e (grind arith)

next_quotient : (a b q : ℕ) → q ≡ a / b + 1 → 0 < a % b → 0 < b → (a ≤ q * b) × (q * b < a + b)
next_quotient a b q e more pos = rw e (grind arith)

pub div_ceil-some :
    (a b : ℕ) {q : ℕ} → div_ceil a b ≡ some q → (a ≤ q * b) × (q * b < a + b) × (0 < b)
div_ceil-some a b {q} h =
    let (cases, pos) = div_ceil_parts a b h in
    elim cases [
      | inl (e, z) ↦ (let exact = exact_quotient a b q e z pos in (omega arith, omega arith, pos))
      | inr (e, more) ↦ (let (low, high) = next_quotient a b q e more pos in (low, high, pos))
    ]

isqrt_step :
    (n r : ℕ)
    → r * r ≤ n / 4
    → n / 4 < (r + 1) * (r + 1)
    → (2 * r * (2 * r) ≤ n) × (n < (2 * r + 2) * (2 * r + 2))
isqrt_step n r low high = grind arith

isqrt_digits_lem :
    (digits n : ℕ)
    → n < 4 ^ digits
    → (isqrt_digits digits n * isqrt_digits digits n ≤ n)
      × (n < (isqrt_digits digits n + 1) * (isqrt_digits digits n + 1))
unfolding isqrt_digits
isqrt_digits_lem zero n h = omega arith
isqrt_digits_lem (suc digits) n h =
    let r : ℕ = isqrt_digits digits (n / 4) in
    let (low, high) = isqrt_digits_lem digits (n / 4) (omega (arith, rw pow-suc at h)) in
    let (under, over) = isqrt_step n r low high in
    elim (Bool-cases (leb ((2 * r + 1) * (2 * r + 1)) n)) [
      | inl up ↦ rw up (ground arith, omega arith)
      | inr down ↦ rw down (under, ground arith)
    ]

-- The root of a `u128` is the greatest number whose square does not exceed it.
pub isqrt_lem :
    (n : ℕ) → n < u128_mod → (isqrt n * isqrt n ≤ n) × (n < (isqrt n + 1) * (isqrt n + 1))
unfolding isqrt
isqrt_lem n h = isqrt_digits_lem 64 n h
