-- ===== src/Amm/Liquidity.antt =====
-- programs/amm/src/add.rs and programs/amm/src/remove.rs. A panic is an `err`.
pub mod Shares
pub mod Effect
use lp_0002_private_multisig.Prelude.{
  ℕ, ◌==◌, Bool, true, false, not, ◌&&◌, List, [], ◌∷◌, ltb, leb, if◌then◌else◌, Result, ok, err,
  ◌>>=◌, ◌>>◌, ensure, require, or_err,
}
use lp_0002_private_multisig.Core.Bytes.{Bytes-discrete}
use lp_0002_private_multisig.Core.Account.{Account, AccountWithMetadata}
use lp_0002_private_multisig.Core.Hash.{Sha256}
use lp_0002_private_multisig.Core.Program.{
  InstructionData, AccountPostState, ChainedCall, PdaSeed, new_post,
}
use lp_0002_private_multisig.Token.Types as Token
use lp_0002_private_multisig.Token.Types.{TokenHolding, Borsh}
use lp_0002_private_multisig.Amm.Types.{
  PoolDefinition, PoolBorsh, AmmFault, compute_vault_pda_seed, compute_liquidity_token_pda_seed,
  invalid_pool, pool_inactive, wrong_vault_a, wrong_vault_b, lp_mismatch, zero_amount, zero_reserve,
  reserve_exceeds_vault, division_by_zero, slippage, invalid_lp_account,
}
use lp_0002_private_multisig.Amm.Words.{add_u128, sub_u128, mul_u128, quotient}
use lp_0002_private_multisig.Amm.Swap.{fungible_balance, store_pool}

-- The deposits of `add_liquidity`: each what the other's greatest deposit is worth, or its own greatest.
unfoldable pub actual_amounts : PoolDefinition → ℕ → ℕ → Result AmmFault (ℕ × ℕ)
actual_amounts p max_a max_b = do
  ideal_a ← or_err (quotient (mul_u128 p.reserve_a max_b) p.reserve_b) division_by_zero
  ideal_b ← or_err (quotient (mul_u128 p.reserve_b max_a) p.reserve_a) division_by_zero
  let actual_a : ℕ = if ltb max_a ideal_a then max_a else ideal_a
  let actual_b : ℕ = if ltb max_b ideal_b then max_b else ideal_b
  ensure (leb actual_a max_a) slippage
  ensure (leb actual_b max_b) slippage
  ensure (not (actual_a == 0)) zero_amount
  ensure (not (actual_b == 0)) zero_amount
  ok (actual_a, actual_b)

-- The liquidity tokens that `add_liquidity` mints.
unfoldable pub minted_shares : PoolDefinition → ℕ → ℕ → ℕ → Result AmmFault ℕ
minted_shares p min_shares amount_a amount_b = do
  by_a ← or_err (quotient (mul_u128 p.liquidity_pool_supply amount_a) p.reserve_a) division_by_zero
  by_b ← or_err (quotient (mul_u128 p.liquidity_pool_supply amount_b) p.reserve_b) division_by_zero
  let delta_lp : ℕ = if leb by_a by_b then by_a else by_b
  ensure (not (delta_lp == 0)) zero_amount
  ensure (leb min_shares delta_lp) slippage
  ok delta_lp

-- The pool after `add_liquidity`.
unfoldable pub enlarged_pool : PoolDefinition → ℕ → ℕ → ℕ → PoolDefinition
enlarged_pool p amount_a amount_b delta_lp = record p {
  liquidity_pool_supply = add_u128 p.liquidity_pool_supply delta_lp;
  reserve_a = add_u128 p.reserve_a amount_a;
  reserve_b = add_u128 p.reserve_b amount_b;
}

-- What `remove_liquidity` pays out of a reserve.
unfoldable pub withdrawn : PoolDefinition → ℕ → ℕ → Result AmmFault ℕ
withdrawn p shares reserve =
    or_err (quotient (mul_u128 reserve shares) p.liquidity_pool_supply) division_by_zero

-- The pool after `remove_liquidity`.
unfoldable pub reduced_pool : PoolDefinition → ℕ → ℕ → ℕ → PoolDefinition
reduced_pool p amount_a amount_b delta_lp =
    let supply : ℕ = sub_u128 p.liquidity_pool_supply delta_lp in
    record p {
      liquidity_pool_supply = supply;
      reserve_a = sub_u128 p.reserve_a amount_a;
      reserve_b = sub_u128 p.reserve_b amount_b;
      active = not (supply == 0);
    }

module _ (borsh : Borsh) (pool_borsh : PoolBorsh) where
  open borsh use {decode_holding}
  open pool_borsh use {decode_pool}

  -- The first part of `add_liquidity`: the pool, its accounts and its vaults' balances.
  unfoldable pub checked_for_add :
      AccountWithMetadata
      → AccountWithMetadata
      → AccountWithMetadata
      → AccountWithMetadata
      → ℕ
      → ℕ
      → Result AmmFault PoolDefinition
  checked_for_add pool vault_a vault_b pool_definition_lp max_a max_b = do
    p ← or_err (decode_pool pool.account.content) invalid_pool
    require (Bytes-discrete vault_a.account_id p.vault_a_id) wrong_vault_a
    require (Bytes-discrete p.liquidity_pool_id pool_definition_lp.account_id) lp_mismatch
    require (Bytes-discrete vault_b.account_id p.vault_b_id) wrong_vault_b
    ensure (not (max_a == 0) && not (max_b == 0)) zero_amount
    balance_b ← fungible_balance borsh pool_borsh vault_b.account
    balance_a ← fungible_balance borsh pool_borsh vault_a.account
    ensure (not (p.reserve_a == 0)) zero_reserve
    ensure (not (p.reserve_b == 0)) zero_reserve
    ensure (leb p.reserve_a balance_a) reserve_exceeds_vault
    ensure (leb p.reserve_b balance_b) reserve_exceeds_vault
    ok p

  -- The first part of `remove_liquidity`: the pool, its accounts and the user's liquidity tokens.
  unfoldable pub checked_for_remove :
      AccountWithMetadata
      → AccountWithMetadata
      → AccountWithMetadata
      → AccountWithMetadata
      → AccountWithMetadata
      → ℕ
      → ℕ
      → Result AmmFault PoolDefinition
  checked_for_remove pool vault_a vault_b pool_definition_lp user_holding_lp min_a min_b = do
    p ← or_err (decode_pool pool.account.content) invalid_pool
    ensure p.active pool_inactive
    require (Bytes-discrete p.liquidity_pool_id pool_definition_lp.account_id) lp_mismatch
    require (Bytes-discrete vault_a.account_id p.vault_a_id) wrong_vault_a
    require (Bytes-discrete vault_b.account_id p.vault_b_id) wrong_vault_b
    ensure (not (min_a == 0)) zero_amount
    ensure (not (min_b == 0)) zero_amount
    holding ← or_err (decode_holding user_holding_lp.account.content) invalid_lp_account
    user_lp_balance ← fungible_balance borsh pool_borsh user_holding_lp.account
    ensure (leb user_lp_balance p.liquidity_pool_supply) invalid_lp_account
    require (Bytes-discrete (Token.definition_id holding) p.liquidity_pool_id) invalid_lp_account
    ok p

  module _ (sha : Sha256) (to_vec : Token.Instruction → InstructionData)
      (pool vault_a vault_b pool_definition_lp user_holding_a user_holding_b
        user_holding_lp : AccountWithMetadata) where
    -- The post states of both: the pool's alone differs.
    unfoldable pub liquidity_post_states : PoolDefinition → Result AmmFault (List AccountPostState)
    liquidity_post_states p' = do
      pool_post ← store_pool borsh pool_borsh pool.account p'
      ok (
          new_post pool_post
          ∷ new_post vault_a.account
          ∷ new_post vault_b.account
          ∷ new_post pool_definition_lp.account
          ∷ new_post user_holding_a.account
          ∷ new_post user_holding_b.account
          ∷ new_post user_holding_lp.account
          ∷ [])

    -- A call of the token program that owns the user's first holding.
    unfoldable pub token_call :
        List AccountWithMetadata → Token.Instruction → List PdaSeed → ChainedCall
    token_call pre_states instruction seeds = record {
      program_id = user_holding_a.account.program_owner;
      pre_states = pre_states;
      instruction_data = to_vec instruction;
      pda_seeds = seeds;
    }

    unfoldable pub lp_call : Token.Instruction → ChainedCall
    lp_call instruction =
        token_call (record pool_definition_lp { is_authorized = true } ∷ user_holding_lp ∷ [])
          instruction (compute_liquidity_token_pda_seed sha pool.account_id ∷ [])

    unfoldable pub add_calls : ℕ → ℕ → ℕ → List ChainedCall
    add_calls amount_a amount_b delta_lp =
        lp_call (Token.mint delta_lp)
        ∷ token_call (user_holding_b ∷ vault_b ∷ []) (Token.transfer amount_b) []
        ∷ token_call (user_holding_a ∷ vault_a ∷ []) (Token.transfer amount_a) []
        ∷ []

    unfoldable pub remove_calls : PoolDefinition → ℕ → ℕ → ℕ → List ChainedCall
    remove_calls p amount_a amount_b delta_lp =
        lp_call (Token.burn delta_lp)
        ∷ token_call (record vault_b { is_authorized = true } ∷ user_holding_b ∷ [])
            (Token.transfer amount_b)
            (compute_vault_pda_seed sha pool.account_id p.definition_token_b_id ∷ [])
        ∷ token_call (record vault_a { is_authorized = true } ∷ user_holding_a ∷ [])
            (Token.transfer amount_a)
            (compute_vault_pda_seed sha pool.account_id p.definition_token_a_id ∷ [])
        ∷ []

    -- `add_liquidity` and `remove_liquidity` from the amounts on.
    unfoldable pub add_to_pool :
        PoolDefinition → ℕ → ℕ → ℕ → Result AmmFault (List AccountPostState × List ChainedCall)
    add_to_pool p min_shares max_a max_b = do
      amounts ← actual_amounts p max_a max_b
      delta_lp ← minted_shares p min_shares amounts.0 amounts.1
      posts ← liquidity_post_states (enlarged_pool p amounts.0 amounts.1 delta_lp)
      ok (posts, add_calls amounts.0 amounts.1 delta_lp)

    unfoldable pub remove_from_pool :
        PoolDefinition → ℕ → ℕ → ℕ → Result AmmFault (List AccountPostState × List ChainedCall)
    remove_from_pool p shares min_a min_b = do
      amount_a ← withdrawn p shares p.reserve_a
      amount_b ← withdrawn p shares p.reserve_b
      ensure (leb min_a amount_a) slippage
      ensure (leb min_b amount_b) slippage
      delta_lp ← withdrawn p shares p.liquidity_pool_supply
      posts ← liquidity_post_states (reduced_pool p amount_a amount_b delta_lp)
      ok (posts, remove_calls p amount_a amount_b delta_lp)

    unfoldable pub add_liquidity :
        ℕ → ℕ → ℕ → Result AmmFault (List AccountPostState × List ChainedCall)
    add_liquidity min_shares max_a max_b = do
      p ← checked_for_add pool vault_a vault_b pool_definition_lp max_a max_b
      add_to_pool p min_shares max_a max_b

    unfoldable pub remove_liquidity :
        ℕ → ℕ → ℕ → Result AmmFault (List AccountPostState × List ChainedCall)
    remove_liquidity shares min_a min_b = do
      p ← checked_for_remove pool vault_a vault_b pool_definition_lp user_holding_lp min_a min_b
      remove_from_pool p shares min_a min_b
