-- ===== src/Amm/Liquidity/Shares.antt =====
-- The amounts of programs/amm/src/add.rs and programs/amm/src/remove.rs against the reserves.
use lp_0002_private_multisig.Prelude.{
  ℕ, ◌+◌, ◌-◌, ◌*◌, ◌≤◌, ◌<◌, ◌≡◌, ◌==◌, ◌%◌, ◌⊎◌, inl, inr, Bool-cases, refl, not, leb, ltb,
  if◌then◌else◌, arith, ok, >>=-eq-ok, or_err, or_err-eq-some, ◌>>◌, ensure,
}
use lp_0002_private_multisig.Core.Balance.{u128_mod}
use lp_0002_private_multisig.Amm.Types.{PoolDefinition, division_by_zero, zero_amount, slippage}
use lp_0002_private_multisig.Amm.Words.{
  mul_u128, quotient, add_u128-small, sub_u128-small, mul_u128-small, quotient-some,
}
use lp_0002_private_multisig.Amm.Liquidity.{
  actual_amounts, minted_shares, enlarged_pool, withdrawn, reduced_pool,
}

-- The share of `y` that `x` shares of `s` come to, rounded down.
pub share-some :
    (y x s : ℕ) {q : ℕ}
    → y * x < u128_mod
    → or_err (quotient (mul_u128 y x) s) division_by_zero ≡ ok q
    → (q * s ≤ y * x) × (y * x < q * s + s) × (0 < s)
share-some y x s small h =
    rw (← mul_u128-small y x small) (
      quotient-some (mul_u128 y x) s
        (or_err-eq-some (quotient (mul_u128 y x) s) division_by_zero h))

checked_deposits :
    (x y max_a max_b : ℕ) {amounts : ℕ × ℕ}
    → (do
      ensure (leb x max_a) slippage
      ensure (leb y max_b) slippage
      ensure (not (x == 0)) zero_amount
      ensure (not (y == 0)) zero_amount
      ok (x, y))
      ≡ ok amounts
    → (x, y) ≡ amounts
checked_deposits x y max_a max_b h = ground arith

checked_mint :
    (x y min_shares : ℕ) {d : ℕ}
    → (do
      ensure (not ((if leb x y then x else y) == 0)) zero_amount
      ensure (leb min_shares (if leb x y then x else y)) slippage
      ok (if leb x y then x else y))
      ≡ ok d
    → (d ≤ x) × (d ≤ y) × ((d ≡ x) ⊎ (d ≡ y)) × (0 < d) × (min_shares ≤ d)
checked_mint x y min_shares {d} h = elim (Bool-cases (leb x y)) [
  | inl less ↦
      (let (e, pos, most) : (d ≡ x) × (0 < d) × (min_shares ≤ d) = ground arith in
        (ground arith, ground arith, inl e, pos, most))
  | inr more ↦
      (let (e, pos, most) : (d ≡ y) × (0 < d) × (min_shares ≤ d) = ground arith in
        (ground arith, ground arith, inr e, pos, most))
]

less_times : (x y s : ℕ) {z : ℕ} → x ≤ y → y * s ≤ z → x * s ≤ z
less_times x y s h low = grind arith

-- The deposit of one token: the greatest allowed, or what the greatest deposit of the other token is worth at the
-- reserves, the product wrapping, rounded down; whichever is less.
pub record IsDepositOf (max reserve max_other reserve_other amount : ℕ) : Type 0 where
  pub within : amount ≤ max
  pub worth : amount * reserve_other ≤ reserve * max_other % u128_mod
  pub exact :
      (amount ≡ max) ⊎ (reserve * max_other % u128_mod < amount * reserve_other + reserve_other)

lesser-IsDepositOf :
    (max reserve max_other reserve_other : ℕ) {ideal : ℕ}
    → or_err (quotient (mul_u128 reserve max_other) reserve_other) division_by_zero ≡ ok ideal
    → IsDepositOf max reserve max_other reserve_other (if ltb max ideal then max else ideal)
unfolding mul_u128
lesser-IsDepositOf max reserve max_other reserve_other {ideal} h =
    let (low, high, pos) = quotient-some (reserve * max_other % u128_mod) reserve_other (
      or_err-eq-some (quotient (reserve * max_other % u128_mod) reserve_other) division_by_zero
        h) in
    elim (Bool-cases (ltb max ideal)) [
      | inl less ↦
          (let under : max ≤ ideal = ground arith in
            rw less (record {
              within = omega arith;
              worth = less_times max ideal reserve_other under low;
              exact = inl refl;
            }))
      | inr more ↦ rw more (record { within = ground arith; worth = low; exact = inr high })
    ]

-- The two deposits.
pub actual_amounts-bounds :
    (p : PoolDefinition) (max_a max_b : ℕ) {amounts : ℕ × ℕ}
    → actual_amounts p max_a max_b ≡ ok amounts
    → IsDepositOf max_a p.reserve_a max_b p.reserve_b amounts.0
      × IsDepositOf max_b p.reserve_b max_a p.reserve_a amounts.1
unfolding actual_amounts
actual_amounts-bounds p max_a max_b h =
    let (ia, ea, h₁) =
      >>=-eq-ok (or_err (quotient (mul_u128 p.reserve_a max_b) p.reserve_b) division_by_zero) _ h in
    let (ib, eb, h₂) =
      >>=-eq-ok (or_err (quotient (mul_u128 p.reserve_b max_a) p.reserve_a) division_by_zero) _
        h₁ in
    let e =
      checked_deposits (if ltb max_a ia then max_a else ia) (if ltb max_b ib then max_b else ib)
        max_a max_b h₂ in
    rw (← e) (
      lesser-IsDepositOf max_a p.reserve_a max_b p.reserve_b ea,
      lesser-IsDepositOf max_b p.reserve_b max_a p.reserve_a eb,
    )

pub record IsFairMint (p : PoolDefinition) (amount_a amount_b delta_lp : ℕ) : Type 0 where
  pub some_minted : 0 < delta_lp
  pub within_a : delta_lp * p.reserve_a ≤ p.liquidity_pool_supply * amount_a
  pub within_b : delta_lp * p.reserve_b ≤ p.liquidity_pool_supply * amount_b
  pub whole :
      (p.liquidity_pool_supply * amount_a < delta_lp * p.reserve_a + p.reserve_a)
      ⊎ (p.liquidity_pool_supply * amount_b < delta_lp * p.reserve_b + p.reserve_b)
  pub most : delta_lp ≤ p.liquidity_pool_supply * amount_a

mint_bound : (s a d r : ℕ) → 0 < r → d * r ≤ s * a → d ≤ s * a
mint_bound s a d r pos h = grind arith

pub minted_shares-IsFairMint :
    (p : PoolDefinition) (min_shares a b : ℕ) {d : ℕ}
    → p.liquidity_pool_supply * a < u128_mod
    → p.liquidity_pool_supply * b < u128_mod
    → minted_shares p min_shares a b ≡ ok d
    → IsFairMint p a b d × (min_shares ≤ d)
unfolding minted_shares
minted_shares-IsFairMint p min_shares a b {d} sa sb h =
    let (qa, ea, h₁) =
      >>=-eq-ok
        (or_err (quotient (mul_u128 p.liquidity_pool_supply a) p.reserve_a) division_by_zero) _ h in
    let (qb, eb, h₂) =
      >>=-eq-ok
        (or_err (quotient (mul_u128 p.liquidity_pool_supply b) p.reserve_b) division_by_zero) _
        h₁ in
    let (la, ua, pa) = share-some p.liquidity_pool_supply a p.reserve_a sa ea in
    let (lb, ub, pb) = share-some p.liquidity_pool_supply b p.reserve_b sb eb in
    let (da, db, which, pos, most) : (d ≤ qa)
        × (d ≤ qb)
        × ((d ≡ qa) ⊎ (d ≡ qb))
        × (0 < d)
        × (min_shares ≤ d) =
      checked_mint qa qb min_shares h₂ in
    let within_a : d * p.reserve_a ≤ p.liquidity_pool_supply * a = grind arith in
    (
      record {
        some_minted = pos;
        within_a = within_a;
        within_b = grind arith;
        whole = elim which [ inl e ↦ inl (rw e ua) | inr e ↦ inr (rw e ub) ];
        most = mint_bound p.liquidity_pool_supply a d p.reserve_a pa within_a;
      },
      most,
    )

-- The pool after a deposit of both tokens for new shares.
pub record IsAddition (p : PoolDefinition) (amount_a amount_b delta_lp : ℕ) (p' : PoolDefinition)
    : Type 0 where
  pub fair : IsFairMint p amount_a amount_b delta_lp
  pub after : p' ≡ record p {
    liquidity_pool_supply = p.liquidity_pool_supply + delta_lp;
    reserve_a = p.reserve_a + amount_a;
    reserve_b = p.reserve_b + amount_b;
  }

-- No share is worth less of either reserve than before.
pub record IsUndiluted (p p' : PoolDefinition) : Type 0 where
  pub backed_a : p.reserve_a * p'.liquidity_pool_supply ≤ p'.reserve_a * p.liquidity_pool_supply
  pub backed_b : p.reserve_b * p'.liquidity_pool_supply ≤ p'.reserve_b * p.liquidity_pool_supply

backed_by_mint : (r s a d : ℕ) → d * r ≤ s * a → r * (s + d) ≤ (r + a) * s
backed_by_mint r s a d h = grind arith

pub IsAddition-IsUndiluted :
    {p p' : PoolDefinition} {amount_a amount_b delta_lp : ℕ}
    → IsAddition p amount_a amount_b delta_lp p'
    → IsUndiluted p p'
IsAddition-IsUndiluted {p} {p'} {amount_a} {amount_b} {delta_lp} added = rw added.after (record {
  backed_a =
      backed_by_mint p.reserve_a p.liquidity_pool_supply amount_a delta_lp added.fair.within_a;
  backed_b =
      backed_by_mint p.reserve_b p.liquidity_pool_supply amount_b delta_lp added.fair.within_b;
})

pub enlarged_pool-IsAddition :
    (p : PoolDefinition) (a b d : ℕ)
    → IsFairMint p a b d
    → p.liquidity_pool_supply + d < u128_mod
    → p.reserve_a + a < u128_mod
    → p.reserve_b + b < u128_mod
    → IsAddition p a b d (enlarged_pool p a b d)
unfolding enlarged_pool
enlarged_pool-IsAddition p a b d fair s ra rb = record {
  fair = fair;
  after =
      rw
        (
          add_u128-small p.liquidity_pool_supply d s,
          add_u128-small p.reserve_a a ra,
          add_u128-small p.reserve_b b rb,
        )
        refl;
}

-- The pool after shares are given back for their part of both reserves.
pub record IsRemoval (p : PoolDefinition) (shares amount_a amount_b : ℕ) (p' : PoolDefinition)
    : Type 0 where
  pub part_a : amount_a * p.liquidity_pool_supply ≤ p.reserve_a * shares
  pub part_b : amount_b * p.liquidity_pool_supply ≤ p.reserve_b * shares
  pub whole_a : p.reserve_a * shares < amount_a * p.liquidity_pool_supply + p.liquidity_pool_supply
  pub whole_b : p.reserve_b * shares < amount_b * p.liquidity_pool_supply + p.liquidity_pool_supply
  pub within_a : amount_a ≤ p.reserve_a
  pub within_b : amount_b ≤ p.reserve_b
  pub after : p' ≡ record p {
    liquidity_pool_supply = p.liquidity_pool_supply - shares;
    reserve_a = p.reserve_a - amount_a;
    reserve_b = p.reserve_b - amount_b;
    active = not (p.liquidity_pool_supply - shares == 0);
  }

part_within : (r x s w : ℕ) → x ≤ s → 0 < s → w * s ≤ r * x → w ≤ r
part_within r x s w xs pos h = grind arith

backed_in_parts : (w m x k : ℕ) → w * (x + k) ≤ (w + m) * x → (w + m) * k ≤ m * (x + k)
backed_in_parts w m x k h = grind arith

backed_after_removal : (r s w x : ℕ) → x ≤ s → w ≤ r → w * s ≤ r * x → r * (s - x) ≤ (r - w) * s
backed_after_removal r s w x xs wr h =
    let whole : x + (s - x) ≡ s = omega arith in
    let kept : w + (r - w) ≡ r = omega arith in
    let low : w * (x + (s - x)) ≤ (w + (r - w)) * x = rw (whole, kept) h in
    let parts = backed_in_parts w (r - w) x (s - x) low in rw (whole, kept) at parts

whole_share : (s x d : ℕ) → 0 < s → d * s ≤ s * x → s * x < d * s + s → d ≡ x
whole_share s x d pos low high = grind arith

pub IsRemoval-IsUndiluted :
    {p p' : PoolDefinition} {shares amount_a amount_b : ℕ}
    → shares ≤ p.liquidity_pool_supply
    → IsRemoval p shares amount_a amount_b p'
    → IsUndiluted p p'
IsRemoval-IsUndiluted {p} {p'} {shares} {amount_a} {amount_b} h removed = rw removed.after (record {
  backed_a =
      backed_after_removal p.reserve_a p.liquidity_pool_supply amount_a shares h removed.within_a
        removed.part_a;
  backed_b =
      backed_after_removal p.reserve_b p.liquidity_pool_supply amount_b shares h removed.within_b
        removed.part_b;
})

factor_small : (x y : ℕ) → 0 < y → x * y < u128_mod → x < u128_mod
factor_small x y pos h = grind arith

-- The pool that `remove_liquidity` computes.
pub reduced_pool-IsRemoval :
    (p : PoolDefinition) (shares : ℕ) {a b d : ℕ}
    → shares ≤ p.liquidity_pool_supply
    → 0 < shares
    → p.liquidity_pool_supply * shares < u128_mod
    → p.reserve_a * shares < u128_mod
    → p.reserve_b * shares < u128_mod
    → withdrawn p shares p.reserve_a ≡ ok a
    → withdrawn p shares p.reserve_b ≡ ok b
    → withdrawn p shares p.liquidity_pool_supply ≡ ok d
    → (d ≡ shares) × IsRemoval p shares a b (reduced_pool p a b d)
unfolding withdrawn reduced_pool
reduced_pool-IsRemoval p shares {a} {b} {d} h some_shares ss sa sb ea eb ed =
    let s : ℕ = p.liquidity_pool_supply in
    let (la, ua, pos) = share-some p.reserve_a shares s sa ea in
    let (lb, ub, pb) = share-some p.reserve_b shares s sb eb in
    let (ld, ud, pd) = share-some s shares s ss ed in
    let whole : d ≡ shares = whole_share s shares d pos ld ud in
    let wa : a ≤ p.reserve_a = part_within p.reserve_a shares s a h pos la in
    let wb : b ≤ p.reserve_b = part_within p.reserve_b shares s b h pos lb in
    let small : s < u128_mod = factor_small s shares some_shares ss in
    (
      whole,
      record {
        part_a = la;
        part_b = lb;
        whole_a = ua;
        whole_b = ub;
        within_a = wa;
        within_b = wb;
        after =
            rw
              (
                whole,
                sub_u128-small s shares h small,
                sub_u128-small p.reserve_a a wa (factor_small p.reserve_a shares some_shares sa),
                sub_u128-small p.reserve_b b wb (factor_small p.reserve_b shares some_shares sb),
              )
              refl;
      },
    )
