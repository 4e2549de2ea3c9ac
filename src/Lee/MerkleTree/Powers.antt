-- ===== src/Lee/MerkleTree/Powers.antt =====
-- lee/state_machine/src/merkle_tree/mod.rs: the powers of two that it computes.
use native.Mathlib.Nat.{pow-suc}
use lp_0002_private_multisig.Prelude.{
  ℕ, zero, suc, ◌+◌, ◌*◌, ◌/◌, ◌%◌, ◌^◌, ◌≤◌, ◌<◌, ◌==◌, ◌≡◌, inl, inr, Bool-cases, refl, ap, ◌∙◌,
  true, leb, arith,
}
use lp_0002_private_multisig.Lee.MerkleTree.{
  doubled_to, next_power_of_two, zeros_of, trailing_zeros, doubled_below, prev_power_of_two,
}

pub power_double : (a : ℕ) → 2 ^ suc a ≡ 2 * 2 ^ a
power_double a = pow-suc 2 a ∙ omega arith

pub power-positive : (a : ℕ) → 0 < 2 ^ a
power-positive zero = omega arith
power-positive (suc a) = rw (power_double a) (omega (arith, power-positive a))

pub power_mono : (a b : ℕ) → a ≤ b → 2 ^ a ≤ 2 ^ b
power_mono zero b h = omega (arith, power-positive b)
power_mono (suc a) zero h = absurd (omega arith)
power_mono (suc a) (suc b) h =
    rw (power_double a, power_double b) (omega (arith, power_mono a b (omega arith)))

pub power-reflects : (a b : ℕ) → 2 ^ a < 2 ^ b → a < b
power-reflects a b h = elim (Bool-cases (leb b a)) [
  | inl le ↦ absurd (omega (arith, power_mono b a (ground arith)))
  | inr gt ↦ ground arith
]

doubled_to_lem :
    (rounds a n d : ℕ)
    → a ≤ d
    → n ≤ 2 ^ d
    → d ≤ a + rounds
    → (b : ℕ) × (doubled_to rounds (2 ^ a) n ≡ 2 ^ b) × (b ≤ d) × (n ≤ 2 ^ b)
unfolding doubled_to
doubled_to_lem zero a n d le h fuel = let same : a ≡ d = omega arith in (a, refl, le, rw same h)
doubled_to_lem (suc rounds) a n d le h fuel = elim (Bool-cases (leb n (2 ^ a))) [
  | inl y ↦ (a, rw y refl, le, ground arith)
  | inr y ↦
      (let more : a < d = power-reflects a d (ground arith) in
        let (b, e, low, high) = doubled_to_lem rounds (suc a) n d (omega arith) h (omega arith) in
        let twice : 2 ^ suc a ≡ 2 * 2 ^ a = power_double a in (b, rw y (rw twice at e), low, high))
]

-- The next power of two of a number that is not above `2 ^ d`.
pub next_power_of_two_lem :
    (n d : ℕ) → n ≤ 2 ^ d → d ≤ 63 → (b : ℕ) × (next_power_of_two n ≡ 2 ^ b) × (b ≤ d) × (n ≤ 2 ^ b)
unfolding next_power_of_two
next_power_of_two_lem n d h fuel = doubled_to_lem 63 0 n d (omega arith) h fuel

zeros_of_lem : (rounds b : ℕ) → b < rounds → zeros_of rounds (2 ^ b) ≡ b
unfolding zeros_of
zeros_of_lem zero b h = absurd (omega arith)
zeros_of_lem (suc rounds) zero h = refl
zeros_of_lem (suc rounds) (suc b) h =
    let twice : 2 ^ suc b ≡ 2 * 2 ^ b = power_double b in
    let half : 2 * 2 ^ b / 2 ≡ 2 ^ b = omega arith in
    let even : (2 * 2 ^ b % 2 == 0) ≡ true = ground arith in
    rw (twice, half, even) (ap suc (zeros_of_lem rounds b (omega arith)))

pub trailing_zeros_lem : (b : ℕ) → b < 63 → trailing_zeros (2 ^ b) ≡ b
unfolding trailing_zeros
trailing_zeros_lem b h = zeros_of_lem 63 b h

doubled_below-le : (rounds p x : ℕ) → p ≤ x → doubled_below rounds p x ≤ x
unfolding doubled_below
doubled_below-le zero p x h = h
doubled_below-le (suc rounds) p x h = elim (Bool-cases (leb (2 * p) x)) [
  | inl y ↦ rw y (doubled_below-le rounds (2 * p) x (ground arith))
  | inr y ↦ rw y h
]

pub prev_power_of_two-le : (x : ℕ) → prev_power_of_two x ≤ x
unfolding prev_power_of_two
prev_power_of_two-le x = elim (Bool-cases (x == 0)) [
  | inl y ↦ rw y (omega arith)
  | inr y ↦ rw y (doubled_below-le 63 1 x (ground arith))
]
