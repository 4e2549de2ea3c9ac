-- ===== src/Amm/Swap/Exact.antt =====
-- programs/amm/src/swap.rs: the amounts, the direction and the calls of a swap, each by itself.
use mathlib.Core.Option.{some-injective}
use lp_0002_private_multisig.Prelude.{
  ℕ, ◌+◌, ◌-◌, ◌*◌, ◌≤◌, ◌<◌, ◌≡◌, ◌⊎◌, inl, inr, not, ◌==◌, refl, sym, ap, ◌∙◌, some, true, List,
  [], ◌∷◌, leb, ltb, arith, ok, >>=-eq-ok, ok-injective, or_err, or_err-eq-some, ensure,
}
use lp_0002_private_multisig.Core.Account.{AccountId, AccountWithMetadata}
use lp_0002_private_multisig.Core.Balance.{u128_mod}
use lp_0002_private_multisig.Core.Hash.{Sha256}
use lp_0002_private_multisig.Core.Program.{InstructionData, AccountPostState, ChainedCall, new_post}
use lp_0002_private_multisig.Token.Types as Token
use lp_0002_private_multisig.Token.Types.{TokenHolding, Borsh}
use lp_0002_private_multisig.Amm.Types.{
  PoolDefinition, PoolBorsh, compute_vault_pda_seed, invalid_vault, product_overflow,
  division_by_zero, slippage, zero_amount, exceeds_reserve,
}
use lp_0002_private_multisig.Amm.Words.{
  add_u128, checked_mul, quotient, div_ceil, add_u128-small, checked_mul-some, quotient-some,
  div_ceil-some,
}
use lp_0002_private_multisig.Amm.Swap.{
  Swapped, SwapLogic, swap_amount_out, swap_amount_in, validate_swap_setup, store_pool,
  swapped_pool, create_swap_post_states, transfer_calls, swap_a_in, swap_b_in, swap_logic,
  exact_output_swap_logic, route_swap, swap_by, swap_exact_input, swap_exact_output,
}
use lp_0002_private_multisig.Amm.Swap.Trade.{
  IsFairTrade, swap_amount_out-IsFairTrade, swap_amount_in-IsFairTrade,
}
use lp_0002_private_multisig.Amm.Swap.Product.{after_deposit, after_withdrawal}
use lp_0002_private_multisig.Amm.Swap.Effect.{validate_swap_setup-pool, store_pool-stored}

-- What an exact deposit buys: the other reserve's part for it, rounded down, and at least the minimum.
pub record IsBought (amount_in min_amount_out reserve_in reserve_out deposit withdraw : ℕ)
    : Type 0 where
  pub whole_deposit : deposit ≡ amount_in
  pub low : withdraw * (reserve_in + amount_in) ≤ reserve_out * amount_in
  pub high :
      reserve_out * amount_in < withdraw * (reserve_in + amount_in) + (reserve_in + amount_in)
  pub enough : min_amount_out ≤ withdraw

-- What an exact withdrawal costs: the least deposit that pays for it, and at most the maximum.
pub record IsPaid (exact_amount_out max_amount_in reserve_in reserve_out deposit withdraw : ℕ)
    : Type 0 where
  pub whole_withdrawal : withdraw ≡ exact_amount_out
  pub low : reserve_in * exact_amount_out ≤ deposit * (reserve_out - exact_amount_out)
  pub high :
      deposit * (reserve_out - exact_amount_out)
      < reserve_in * exact_amount_out + (reserve_out - exact_amount_out)
  pub affordable : deposit ≤ max_amount_in

swap_amount_out-IsBought :
    (amount_in min_out x y : ℕ) {w : ℕ}
    → x + amount_in < u128_mod
    → swap_amount_out amount_in min_out x y ≡ ok w
    → IsBought amount_in min_out x y amount_in w
unfolding swap_amount_out
swap_amount_out-IsBought a min_out x y {w} room h =
    let (p, ep, h₁) = >>=-eq-ok (or_err (checked_mul y a) product_overflow) _ h in
    let (q, eq, h₂) = >>=-eq-ok (or_err (quotient p (add_u128 x a)) division_by_zero) _ h₁ in
    let (u, es, h₃) = >>=-eq-ok (ensure (leb min_out q) slippage) _ h₂ in
    let (v, ez, h₄) = >>=-eq-ok (ensure (not (q == 0)) zero_amount) _ h₃ in
    let same : q ≡ w = ok-injective h₄ in
    let product = (checked_mul-some y a (or_err-eq-some (checked_mul y a) product_overflow ep)).0 in
    let sum = add_u128-small x a room in
    let (low, high, pos) =
      quotient-some p (add_u128 x a)
        (or_err-eq-some (quotient p (add_u128 x a)) division_by_zero eq) in
    record {
      whole_deposit = refl;
      low = rw (← same, ← product, ← sum) low;
      high = rw (← same, ← product, ← sum) high;
      enough = ground arith;
    }

swap_amount_in-IsPaid :
    (amount_out max_in x y : ℕ) {d : ℕ}
    → swap_amount_in amount_out max_in x y ≡ ok d
    → IsPaid amount_out max_in x y d amount_out
unfolding swap_amount_in
swap_amount_in-IsPaid w max_in x y {d} h =
    let (u, ez, h₁) = >>=-eq-ok (ensure (not (w == 0)) zero_amount) _ h in
    let (v, es, h₂) = >>=-eq-ok (ensure (ltb w y) exceeds_reserve) _ h₁ in
    let (p, ep, h₃) = >>=-eq-ok (or_err (checked_mul x w) product_overflow) _ h₂ in
    let (q, eq, h₄) = >>=-eq-ok (or_err (div_ceil p (y - w)) division_by_zero) _ h₃ in
    let (t, em, h₅) = >>=-eq-ok (ensure (leb q max_in) slippage) _ h₄ in
    let same : q ≡ d = ok-injective h₅ in
    let product = (checked_mul-some x w (or_err-eq-some (checked_mul x w) product_overflow ep)).0 in
    let (low, high, pos) =
      div_ceil-some p (y - w) (or_err-eq-some (div_ceil p (y - w)) division_by_zero eq) in
    record {
      whole_withdrawal = refl;
      low = rw (← same, ← product) low;
      high = rw (← same, ← product) high;
      affordable = ground arith;
    }

module _ (to_vec : Token.Instruction → InstructionData) (borsh : Borsh)
    (pool_borsh : PoolBorsh) where
  open pool_borsh use {encode_pool, decode_pool}

  module _ (sha : Sha256)
      (pool vault_a vault_b user_holding_a user_holding_b : AccountWithMetadata) where
    -- The two transfers, by the program of the user's deposit holding: the deposit into its vault, and the withdrawal
    -- out of the other vault, authorized by the seed of that vault's token.
    pub record IsMoved
        (user_deposit vault_deposit vault_withdraw user_withdraw : AccountWithMetadata)
        (deposit withdraw : ℕ) (calls : List ChainedCall) : Type 0 where
      pub holding : TokenHolding
      pub read : borsh.decode_holding vault_withdraw.account.content ≡ some holding
      pub moved :
          calls
          ≡ record {
            program_id = user_deposit.account.program_owner;
            pre_states = user_deposit ∷ vault_deposit ∷ [];
            instruction_data = to_vec (Token.transfer deposit);
            pda_seeds = [];
          }
            ∷ record {
              program_id = user_deposit.account.program_owner;
              pre_states = record vault_withdraw { is_authorized = true } ∷ user_withdraw ∷ [];
              instruction_data = to_vec (Token.transfer withdraw);
              pda_seeds =
                  compute_vault_pda_seed sha pool.account_id (Token.definition_id holding) ∷ [];
            }
            ∷ []

    transfer_calls-IsMoved :
        (ud vd vw uw : AccountWithMetadata) (deposit withdraw : ℕ) {calls : List ChainedCall}
        → transfer_calls borsh pool_borsh sha to_vec pool vault_a vault_b user_holding_a
            user_holding_b ud vd vw uw deposit withdraw
          ≡ ok calls
        → IsMoved ud vd vw uw deposit withdraw calls
    unfolding transfer_calls
    transfer_calls-IsMoved ud vd vw uw deposit withdraw h =
        let (holding, e, h₁) =
          >>=-eq-ok (or_err (borsh.decode_holding vw.account.content) invalid_vault) _ h in
        record {
          holding = holding;
          read = or_err-eq-some (borsh.decode_holding vw.account.content) invalid_vault e;
          moved = sym (ok-injective h₁);
        }

    -- A logic whose trades are at a price, up to a deposit.
    abbrev IsPricedLogic : (ℕ → ℕ → ℕ → ℕ → Type 0) → ℕ → SwapLogic → Type 0
    IsPricedLogic Price room logic =
        (ud vd vw uw : AccountWithMetadata) (x y : ℕ) (r : List ChainedCall × ℕ × ℕ)
        → x + room < u128_mod
        → logic ud vd vw uw x y ≡ ok r
        → Price x y r.1 r.2
          × IsFairTrade x y r.1 r.2
          × (r.1 ≤ room)
          × IsMoved ud vd vw uw r.1 r.2 r.0

    swap_logic-IsPricedLogic :
        (amount_in min_out : ℕ)
        → IsPricedLogic (IsBought amount_in min_out) amount_in (
            swap_logic borsh pool_borsh sha to_vec pool vault_a vault_b user_holding_a
              user_holding_b amount_in min_out)
    unfolding swap_logic
    swap_logic-IsPricedLogic amount_in min_out ud vd vw uw x y r room h =
        let (w, ew, h₁) = >>=-eq-ok (swap_amount_out amount_in min_out x y) _ h in
        let (calls, ec, h₂) =
          >>=-eq-ok
            (transfer_calls borsh pool_borsh sha to_vec pool vault_a vault_b user_holding_a
              user_holding_b ud vd vw uw amount_in w)
            _ h₁ in
        let e : (calls, amount_in, w) ≡ r = ok-injective h₂ in
        rw (← e) (
          swap_amount_out-IsBought amount_in min_out x y room ew,
          (swap_amount_out-IsFairTrade amount_in min_out x y room ew).0,
          omega arith,
          transfer_calls-IsMoved ud vd vw uw amount_in w ec,
        )

    exact_output_swap_logic-IsPricedLogic :
        (amount_out max_in : ℕ)
        → IsPricedLogic (IsPaid amount_out max_in) max_in (
            exact_output_swap_logic borsh pool_borsh sha to_vec pool vault_a vault_b user_holding_a
              user_holding_b amount_out max_in)
    unfolding exact_output_swap_logic
    exact_output_swap_logic-IsPricedLogic amount_out max_in ud vd vw uw x y r room h =
        let (d, ed, h₁) = >>=-eq-ok (swap_amount_in amount_out max_in x y) _ h in
        let (calls, ec, h₂) =
          >>=-eq-ok
            (transfer_calls borsh pool_borsh sha to_vec pool vault_a vault_b user_holding_a
              user_holding_b ud vd vw uw d amount_out)
            _ h₁ in
        let e : (calls, d, amount_out) ≡ r = ok-injective h₂ in
        let (fair, most, less) = swap_amount_in-IsFairTrade amount_out max_in x y ed in
        rw (← e) (
          swap_amount_in-IsPaid amount_out max_in x y ed,
          fair,
          most,
          transfer_calls-IsMoved ud vd vw uw d amount_out ec,
        )

    -- The pool account holds `p'`, and no other account changes.
    abbrev pub IsKept : PoolDefinition → List AccountPostState → Type 0
    IsKept p' posts =
        posts
        ≡ new_post (record pool.account { content = encode_pool p' })
          ∷ new_post vault_a.account
          ∷ new_post vault_b.account
          ∷ new_post user_holding_a.account
          ∷ new_post user_holding_b.account
          ∷ []

    -- A swap in the direction of the token that comes in, at a price in the reserve of that token, the other
    -- reserve, the deposit and the withdrawal. The product of the reserves does not fall.
    pub data IsExact (Price : ℕ → ℕ → ℕ → ℕ → Type 0) (p : PoolDefinition) (token_in_id : AccountId)
        (posts : List AccountPostState) (calls : List ChainedCall) : Type 0 where
      a_in :
          (deposit withdraw : ℕ)
          → token_in_id ≡ p.definition_token_a_id
          → Price p.reserve_a p.reserve_b deposit withdraw
          → IsFairTrade p.reserve_a p.reserve_b deposit withdraw
          → IsKept
              (record p { reserve_a = p.reserve_a + deposit; reserve_b = p.reserve_b - withdraw })
              posts
          → IsMoved user_holding_a vault_a vault_b user_holding_b deposit withdraw calls
          → IsExact Price p token_in_id posts calls
      b_in :
          (deposit withdraw : ℕ)
          → token_in_id ≡ p.definition_token_b_id
          → Price p.reserve_b p.reserve_a deposit withdraw
          → IsFairTrade p.reserve_b p.reserve_a deposit withdraw
          → IsKept
              (record p { reserve_a = p.reserve_a - withdraw; reserve_b = p.reserve_b + deposit })
              posts
          → IsMoved user_holding_b vault_b vault_a user_holding_a deposit withdraw calls
          → IsExact Price p token_in_id posts calls

    create_swap_post_states-IsKept :
        (p : PoolDefinition) (s : Swapped) {posts : List AccountPostState}
        → create_swap_post_states borsh pool_borsh sha to_vec pool vault_a vault_b user_holding_a
            user_holding_b p s
          ≡ ok posts
        → IsKept (swapped_pool borsh pool_borsh p s) posts
    unfolding create_swap_post_states
    create_swap_post_states-IsKept p s h =
        let (post, ep, h₁) =
          >>=-eq-ok (store_pool borsh pool_borsh pool.account (swapped_pool borsh pool_borsh p s)) _
            h in
        let (whole, stored) =
          store_pool-stored to_vec borsh pool_borsh sha pool vault_a vault_b user_holding_a
            user_holding_b pool.account (swapped_pool borsh pool_borsh p s) ep in
        rw (← whole) (sym (ok-injective h₁))

    route_swap-tokens :
        (p : PoolDefinition) (token_in_id : AccountId) (logic : SwapLogic) {s : Swapped}
        → route_swap borsh pool_borsh sha to_vec pool vault_a vault_b user_holding_a user_holding_b
            p token_in_id logic
          ≡ ok s
        → ((token_in_id ≡ p.definition_token_a_id)
            × (swap_a_in borsh pool_borsh sha to_vec pool vault_a vault_b user_holding_a
                  user_holding_b p logic
                ≡ ok s))
          ⊎ ((token_in_id ≡ p.definition_token_b_id)
              × (swap_b_in borsh pool_borsh sha to_vec pool vault_a vault_b user_holding_a
                    user_holding_b p logic
                  ≡ ok s))
    unfolding route_swap
    route_swap-tokens p token_in_id logic h = ground arith

    a_in-IsExact :
        (Price : ℕ → ℕ → ℕ → ℕ → Type 0) (token_in_id : AccountId) (room : ℕ) (logic : SwapLogic)
        (p : PoolDefinition) (s : Swapped) {posts : List AccountPostState}
        {calls : List ChainedCall}
        → IsPricedLogic Price room logic
        → p.reserve_a + room < u128_mod
        → p.reserve_b + room < u128_mod
        → token_in_id ≡ p.definition_token_a_id
        → swap_a_in borsh pool_borsh sha to_vec pool vault_a vault_b user_holding_a user_holding_b p
            logic
          ≡ ok s
        → IsKept (swapped_pool borsh pool_borsh p s) posts
        → s.calls ≡ calls
        → IsExact Price p token_in_id posts calls
    unfolding swap_a_in swapped_pool
    a_in-IsExact Price token_in_id room logic p s priced ra rb token h kept calls_e =
        let (r, e, h₁) =
          >>=-eq-ok (logic user_holding_a vault_a vault_b user_holding_b p.reserve_a p.reserve_b) _
            h in
        let (price, fair, most, moved) =
          priced user_holding_a vault_a vault_b user_holding_b p.reserve_a p.reserve_b r ra e in
        let shape = ok-injective h₁ in
        a_in r.1 r.2 token price fair
          (rw
            (
              ← after_deposit p.reserve_a r.1 (omega arith),
              ← after_withdrawal p.reserve_b r.2 fair.within (omega arith),
            )
            (rw (← shape) at kept))
          (rw (← calls_e, ← shape) moved)

    b_in-IsExact :
        (Price : ℕ → ℕ → ℕ → ℕ → Type 0) (token_in_id : AccountId) (room : ℕ) (logic : SwapLogic)
        (p : PoolDefinition) (s : Swapped) {posts : List AccountPostState}
        {calls : List ChainedCall}
        → IsPricedLogic Price room logic
        → p.reserve_a + room < u128_mod
        → p.reserve_b + room < u128_mod
        → token_in_id ≡ p.definition_token_b_id
        → swap_b_in borsh pool_borsh sha to_vec pool vault_a vault_b user_holding_a user_holding_b p
            logic
          ≡ ok s
        → IsKept (swapped_pool borsh pool_borsh p s) posts
        → s.calls ≡ calls
        → IsExact Price p token_in_id posts calls
    unfolding swap_b_in swapped_pool
    b_in-IsExact Price token_in_id room logic p s priced ra rb token h kept calls_e =
        let (r, e, h₁) =
          >>=-eq-ok (logic user_holding_b vault_b vault_a user_holding_a p.reserve_b p.reserve_a) _
            h in
        let (price, fair, most, moved) =
          priced user_holding_b vault_b vault_a user_holding_a p.reserve_b p.reserve_a r rb e in
        let shape = ok-injective h₁ in
        b_in r.1 r.2 token price fair
          (rw
            (
              ← after_deposit p.reserve_b r.1 (omega arith),
              ← after_withdrawal p.reserve_a r.2 fair.within (omega arith),
            )
            (rw (← shape) at kept))
          (rw (← calls_e, ← shape) moved)

    swap_by-IsExact :
        (Price : ℕ → ℕ → ℕ → ℕ → Type 0) (token_in_id : AccountId) (room : ℕ) (logic : SwapLogic)
        {p : PoolDefinition} {posts : List AccountPostState} {calls : List ChainedCall}
        → IsPricedLogic Price room logic
        → decode_pool pool.account.content ≡ some p
        → p.reserve_a + room < u128_mod
        → p.reserve_b + room < u128_mod
        → swap_by borsh pool_borsh sha to_vec pool vault_a vault_b user_holding_a user_holding_b
            token_in_id logic
          ≡ ok (posts, calls)
        → IsExact Price p token_in_id posts calls
    unfolding swap_by
    swap_by-IsExact Price token_in_id room logic {p} {posts} {calls} priced known ra rb h =
        let (q, eq, h₁) =
          >>=-eq-ok (validate_swap_setup borsh pool_borsh pool vault_a vault_b) _ h in
        let same : q ≡ p = some-injective q p (
          sym (
            validate_swap_setup-pool to_vec borsh pool_borsh sha pool vault_a vault_b user_holding_a
              user_holding_b eq)
          ∙ known) in
        let (s, es, h₂) =
          >>=-eq-ok
            (route_swap borsh pool_borsh sha to_vec pool vault_a vault_b user_holding_a
              user_holding_b q token_in_id logic)
            _ h₁ in
        let (made, em, h₃) =
          >>=-eq-ok
            (create_swap_post_states borsh pool_borsh sha to_vec pool vault_a vault_b user_holding_a
              user_holding_b q s)
            _ h₂ in
        let kept = create_swap_post_states-IsKept q s em in
        let e : (made, s.calls) ≡ (posts, calls) = ok-injective h₃ in
        let posts_e : made ≡ posts = ap (λ r. r.0) e in
        let calls_e : s.calls ≡ calls = ap (λ r. r.1) e in
        rw (← posts_e, ← same)
          (elim (route_swap-tokens q token_in_id logic es) [
            | inl (token, ha) ↦
                a_in-IsExact Price token_in_id room logic q s priced (rw same ra) (rw same rb) token
                  ha kept calls_e
            | inr (token, hb) ↦
                b_in-IsExact Price token_in_id room logic q s priced (rw same ra) (rw same rb) token
                  hb kept calls_e
          ])

    -- A swap for an exact deposit, of a pool whose reserves have room for it, adds exactly that deposit to the reserve
    -- of the token that comes in and takes from the other its part for it, rounded down and at least the minimum, so
    -- that the product of the reserves does not fall. The pool account alone changes, and the two calls are the
    -- transfers of exactly those amounts, from the user's holding of the token that comes in into its vault and from the
    -- other vault, authorized by its own seed, to the user's other holding.
    pub swap_exact_input-IsExact :
        (amount_in min_amount_out : ℕ) (token_in_id : AccountId) {p : PoolDefinition}
        {posts : List AccountPostState} {calls : List ChainedCall}
        → decode_pool pool.account.content ≡ some p
        → p.reserve_a + amount_in < u128_mod
        → p.reserve_b + amount_in < u128_mod
        → swap_exact_input borsh pool_borsh sha to_vec pool vault_a vault_b user_holding_a
            user_holding_b amount_in min_amount_out token_in_id
          ≡ ok (posts, calls)
        → IsExact (IsBought amount_in min_amount_out) p token_in_id posts calls
    unfolding swap_exact_input
    swap_exact_input-IsExact amount_in min_amount_out token_in_id known ra rb h =
        swap_by-IsExact (IsBought amount_in min_amount_out) token_in_id amount_in
          (swap_logic borsh pool_borsh sha to_vec pool vault_a vault_b user_holding_a user_holding_b
            amount_in min_amount_out)
          (swap_logic-IsPricedLogic amount_in min_amount_out) known ra rb h

    -- A swap for an exact withdrawal, of a pool whose reserves have room for the greatest deposit allowed, takes
    -- exactly that withdrawal from the reserve of the token that goes out and adds to the other the least deposit that
    -- pays for it, within the maximum, so that the product of the reserves does not fall. The pool account alone
    -- changes, and the two calls are the transfers of exactly those amounts, as for an exact deposit.
    pub swap_exact_output-IsExact :
        (exact_amount_out max_amount_in : ℕ) (token_in_id : AccountId) {p : PoolDefinition}
        {posts : List AccountPostState} {calls : List ChainedCall}
        → decode_pool pool.account.content ≡ some p
        → p.reserve_a + max_amount_in < u128_mod
        → p.reserve_b + max_amount_in < u128_mod
        → swap_exact_output borsh pool_borsh sha to_vec pool vault_a vault_b user_holding_a
            user_holding_b exact_amount_out max_amount_in token_in_id
          ≡ ok (posts, calls)
        → IsExact (IsPaid exact_amount_out max_amount_in) p token_in_id posts calls
    unfolding swap_exact_output
    swap_exact_output-IsExact exact_amount_out max_amount_in token_in_id known ra rb h =
        swap_by-IsExact (IsPaid exact_amount_out max_amount_in) token_in_id max_amount_in
          (exact_output_swap_logic borsh pool_borsh sha to_vec pool vault_a vault_b user_holding_a
            user_holding_b exact_amount_out max_amount_in)
          (exact_output_swap_logic-IsPricedLogic exact_amount_out max_amount_in) known ra rb h
