-- ===== src/Amm/Swap/Trade.antt =====
-- The amounts of a swap: what the formulas of programs/amm/src/swap.rs guarantee.
use lp_0002_private_multisig.Prelude.{
  ℕ, ◌+◌, ◌-◌, ◌*◌, ◌≤◌, ◌<◌, ◌≡◌, not, ◌==◌, arith, ltb, leb, ok, >>=-eq-ok, ok-injective, or_err,
  or_err-eq-some, ensure,
}
use lp_0002_private_multisig.Core.Balance.{u128_mod}
use lp_0002_private_multisig.Amm.Types.{
  product_overflow, division_by_zero, slippage, zero_amount, exceeds_reserve,
}
use lp_0002_private_multisig.Amm.Words.{
  add_u128, checked_mul, quotient, div_ceil, add_u128-small, checked_mul-some, quotient-some,
  div_ceil-some,
}
use lp_0002_private_multisig.Amm.Swap.{swap_amount_out, swap_amount_in}

-- A trade against two reserves: something goes out, never more than there is, and the product of the
-- reserves does not fall.
pub record IsFairTrade (reserve_in reserve_out deposit withdraw : ℕ) : Type 0 where
  pub some_out : 0 < withdraw
  pub within : withdraw ≤ reserve_out
  pub product : reserve_in * reserve_out ≤ (reserve_in + deposit) * (reserve_out - withdraw)

product_kept : (x y a w : ℕ) → w ≤ y → w * x ≤ (y - w) * a → x * y ≤ (x + a) * (y - w)
product_kept x y a w h k = grind arith

out_bound : (x y a w : ℕ) → w * (x + a) ≤ y * a → 0 < x + a → w ≤ y
out_bound x y a w h pos = grind arith

out_kept : (x y a w : ℕ) → w * (x + a) ≤ y * a → w ≤ y → w * x ≤ (y - w) * a
out_kept x y a w h k = grind arith

in_kept : (x y a w : ℕ) → x * w ≤ a * (y - w) → w * x ≤ (y - w) * a
in_kept x y a w h = grind arith

-- What `swap_logic` withdraws for a deposit that the reserve can take is a fair trade, and at least
-- the minimum asked for.
pub swap_amount_out-IsFairTrade :
    (amount_in min_out reserve_in reserve_out : ℕ) {withdraw : ℕ}
    → reserve_in + amount_in < u128_mod
    → swap_amount_out amount_in min_out reserve_in reserve_out ≡ ok withdraw
    → IsFairTrade reserve_in reserve_out amount_in withdraw × (min_out ≤ withdraw)
unfolding swap_amount_out
swap_amount_out-IsFairTrade a min_out x y {withdraw = w} room h =
    let (p, ep, h₁) = >>=-eq-ok (or_err (checked_mul y a) product_overflow) _ h in
    let (q, eq, h₂) = >>=-eq-ok (or_err (quotient p (add_u128 x a)) division_by_zero) _ h₁ in
    let (u, es, h₃) = >>=-eq-ok (ensure (leb min_out q) slippage) _ h₂ in
    let (v, ez, h₄) = >>=-eq-ok (ensure (not (q == 0)) zero_amount) _ h₃ in
    let same : q ≡ w = ok-injective h₄ in
    let product = (checked_mul-some y a (or_err-eq-some (checked_mul y a) product_overflow ep)).0 in
    let sum = add_u128-small x a room in
    let (low, high, pos) =
      quotient-some p (add_u128 x a)
        (or_err-eq-some (quotient p (add_u128 x a)) division_by_zero eq) in
    let low' : w * (x + a) ≤ y * a = rw (← same, ← product, ← sum) low in
    let within = out_bound x y a w low' (omega (arith, sum)) in
    (
      record {
        some_out = ground arith;
        within = within;
        product = product_kept x y a w within (out_kept x y a w low' within);
      },
      ground arith,
    )

-- And so is what `exact_output_swap_logic` asks for a withdrawal, which is at most the maximum given.
pub swap_amount_in-IsFairTrade :
    (amount_out max_in reserve_in reserve_out : ℕ) {deposit : ℕ}
    → swap_amount_in amount_out max_in reserve_in reserve_out ≡ ok deposit
    → IsFairTrade reserve_in reserve_out deposit amount_out
      × (deposit ≤ max_in)
      × (amount_out < reserve_out)
unfolding swap_amount_in
swap_amount_in-IsFairTrade w max_in x y {deposit = a} h =
    let (u, ez, h₁) = >>=-eq-ok (ensure (not (w == 0)) zero_amount) _ h in
    let (v, es, h₂) = >>=-eq-ok (ensure (ltb w y) exceeds_reserve) _ h₁ in
    let (p, ep, h₃) = >>=-eq-ok (or_err (checked_mul x w) product_overflow) _ h₂ in
    let (q, eq, h₄) = >>=-eq-ok (or_err (div_ceil p (y - w)) division_by_zero) _ h₃ in
    let (t, em, h₅) = >>=-eq-ok (ensure (leb q max_in) slippage) _ h₄ in
    let same : q ≡ a = ok-injective h₅ in
    let product = (checked_mul-some x w (or_err-eq-some (checked_mul x w) product_overflow ep)).0 in
    let (low, high, pos) =
      div_ceil-some p (y - w) (or_err-eq-some (div_ceil p (y - w)) division_by_zero eq) in
    let low' : x * w ≤ a * (y - w) = rw (← same, ← product) low in
    let within : w < y = ground arith in
    (
      record {
        some_out = ground arith;
        within = omega arith;
        product = product_kept x y a w (omega arith) (in_kept x y a w low');
      },
      ground arith,
      within,
    )
