-- ===== src/Amm/Swap.antt =====
-- programs/amm/src/swap.rs. A panic is an `err`.
pub mod Trade
pub mod Product
pub mod Effect
pub mod Exact
use lp_0002_private_multisig.Prelude.{
  ℕ, ◌+◌, ◌-◌, ◌==◌, Bool, true, not, Option, none, some, List, [], ◌∷◌, ltb, leb, Result, ok, err,
  ◌>>=◌, ◌>>◌, ensure, require, or_err,
}
use lp_0002_private_multisig.Core.Bytes.{Bytes-discrete}
use lp_0002_private_multisig.Core.Account.{AccountId, Account, AccountWithMetadata, to_data}
use lp_0002_private_multisig.Core.Hash.{Sha256}
use lp_0002_private_multisig.Core.Program.{InstructionData, AccountPostState, ChainedCall, new_post}
use lp_0002_private_multisig.Token.Types as Token
use lp_0002_private_multisig.Token.Types.{TokenHolding, Borsh}
use lp_0002_private_multisig.Amm.Types.{
  PoolDefinition, PoolBorsh, AmmFault, compute_vault_pda_seed, invalid_pool, pool_inactive,
  wrong_vault_a, wrong_vault_b, invalid_vault, not_fungible, reserve_exceeds_vault, unknown_token,
  product_overflow, division_by_zero, slippage, zero_amount, exceeds_reserve, data_too_big,
}
use lp_0002_private_multisig.Amm.Words.{add_u128, sub_u128, checked_mul, quotient, div_ceil}

-- `swap_logic`, the amount: what is withdrawn for an exact deposit.
unfoldable pub swap_amount_out : ℕ → ℕ → ℕ → ℕ → Result AmmFault ℕ
swap_amount_out swap_amount_in min_amount_out reserve_deposit reserve_withdraw = do
  product ← or_err (checked_mul reserve_withdraw swap_amount_in) product_overflow
  withdraw_amount ←
      or_err (quotient product (add_u128 reserve_deposit swap_amount_in)) division_by_zero
  ensure (leb min_amount_out withdraw_amount) slippage
  ensure (not (withdraw_amount == 0)) zero_amount
  ok withdraw_amount

-- `exact_output_swap_logic`, the amount: what is deposited for an exact withdrawal.
unfoldable pub swap_amount_in : ℕ → ℕ → ℕ → ℕ → Result AmmFault ℕ
swap_amount_in exact_amount_out max_amount_in reserve_deposit reserve_withdraw = do
  ensure (not (exact_amount_out == 0)) zero_amount
  ensure (ltb exact_amount_out reserve_withdraw) exceeds_reserve
  product ← or_err (checked_mul reserve_deposit exact_amount_out) product_overflow
  deposit_amount ← or_err (div_ceil product (reserve_withdraw - exact_amount_out)) division_by_zero
  ensure (leb deposit_amount max_amount_in) slippage
  ok deposit_amount

-- The calls of a swap and its four amounts.
pub record Swapped : Type 0 where
  pub calls : List ChainedCall
  pub deposit_a : ℕ
  pub withdraw_a : ℕ
  pub deposit_b : ℕ
  pub withdraw_b : ℕ

-- What `swap_logic` and `exact_output_swap_logic` return: the calls, the deposit and the withdrawal.
abbrev pub SwapLogic : Type 0
SwapLogic =
    AccountWithMetadata
    → AccountWithMetadata
    → AccountWithMetadata
    → AccountWithMetadata
    → ℕ
    → ℕ
    → Result AmmFault (List ChainedCall × ℕ × ℕ)

module _ (borsh : Borsh) (pool_borsh : PoolBorsh) where
  open borsh use {decode_holding}
  open pool_borsh use {encode_pool, decode_pool}

  -- The balance of an account that holds a fungible token.
  unfoldable pub fungible_balance : Account → Result AmmFault ℕ
  fungible_balance a = do
    holding ← or_err (decode_holding a.content) invalid_vault
    elim holding [
      | TokenHolding.fungible id balance ↦ ok balance
      | TokenHolding.nft_master id prints ↦ err not_fungible
      | TokenHolding.nft_printed_copy id owned ↦ err not_fungible
    ]

  unfoldable pub validate_swap_setup :
      AccountWithMetadata
      → AccountWithMetadata
      → AccountWithMetadata
      → Result AmmFault PoolDefinition
  validate_swap_setup pool vault_a vault_b = do
    p ← or_err (decode_pool pool.account.content) invalid_pool
    ensure p.active pool_inactive
    require (Bytes-discrete vault_a.account_id p.vault_a_id) wrong_vault_a
    require (Bytes-discrete vault_b.account_id p.vault_b_id) wrong_vault_b
    balance_a ← fungible_balance vault_a.account
    ensure (leb p.reserve_a balance_a) reserve_exceeds_vault
    balance_b ← fungible_balance vault_b.account
    ensure (leb p.reserve_b balance_b) reserve_exceeds_vault
    ok p

  -- `pool_post.data = Data::from(&pool_post_definition)`
  unfoldable pub store_pool : Account → PoolDefinition → Result AmmFault Account
  store_pool a p = do
    content ← or_err (to_data (encode_pool p)) data_too_big
    ok (record a { content = content })

  -- The pool after a swap.
  unfoldable pub swapped_pool : PoolDefinition → Swapped → PoolDefinition
  swapped_pool p s = record p {
    reserve_a = sub_u128 (add_u128 p.reserve_a s.deposit_a) s.withdraw_a;
    reserve_b = sub_u128 (add_u128 p.reserve_b s.deposit_b) s.withdraw_b;
  }

  module _ (sha : Sha256) (to_vec : Token.Instruction → InstructionData)
      (pool vault_a vault_b user_holding_a user_holding_b : AccountWithMetadata) where
    unfoldable pub create_swap_post_states :
        PoolDefinition → Swapped → Result AmmFault (List AccountPostState)
    create_swap_post_states p s = do
      pool_post ← store_pool pool.account (swapped_pool p s)
      ok (
          new_post pool_post
          ∷ new_post vault_a.account
          ∷ new_post vault_b.account
          ∷ new_post user_holding_a.account
          ∷ new_post user_holding_b.account
          ∷ [])

    -- The two transfers, into the one vault and out of the other.
    unfoldable pub transfer_calls :
        AccountWithMetadata
        → AccountWithMetadata
        → AccountWithMetadata
        → AccountWithMetadata
        → ℕ
        → ℕ
        → Result AmmFault (List ChainedCall)
    transfer_calls user_deposit vault_deposit vault_withdraw user_withdraw deposit withdraw = do
      holding ← or_err (decode_holding vault_withdraw.account.content) invalid_vault
      let deposit_call : ChainedCall = record {
        program_id = user_deposit.account.program_owner;
        pre_states = user_deposit ∷ vault_deposit ∷ [];
        instruction_data = to_vec (Token.transfer deposit);
        pda_seeds = [];
      }
      let withdraw_call : ChainedCall = record {
        program_id = user_deposit.account.program_owner;
        pre_states = record vault_withdraw { is_authorized = true } ∷ user_withdraw ∷ [];
        instruction_data = to_vec (Token.transfer withdraw);
        pda_seeds = compute_vault_pda_seed sha pool.account_id (Token.definition_id holding) ∷ [];
      }
      ok (deposit_call ∷ withdraw_call ∷ [])

    unfoldable pub swap_logic : ℕ → ℕ → SwapLogic
    swap_logic amount_in min_amount_out user_deposit vault_deposit vault_withdraw user_withdraw
          reserve_deposit reserve_withdraw =
        do
          withdraw ← swap_amount_out amount_in min_amount_out reserve_deposit reserve_withdraw
          calls ←
              transfer_calls user_deposit vault_deposit vault_withdraw user_withdraw amount_in
                withdraw
          ok (calls, amount_in, withdraw)

    unfoldable pub exact_output_swap_logic : ℕ → ℕ → SwapLogic
    exact_output_swap_logic amount_out max_amount_in user_deposit vault_deposit vault_withdraw
          user_withdraw reserve_deposit reserve_withdraw =
        do
          deposit ← swap_amount_in amount_out max_amount_in reserve_deposit reserve_withdraw
          calls ←
              transfer_calls user_deposit vault_deposit vault_withdraw user_withdraw deposit
                amount_out
          ok (calls, deposit, amount_out)

    -- The two branches on the token that comes in, which both swaps share.
    unfoldable pub swap_a_in : PoolDefinition → SwapLogic → Result AmmFault Swapped
    swap_a_in p logic = do
      r ← logic user_holding_a vault_a vault_b user_holding_b p.reserve_a p.reserve_b
      ok (record { calls = r.0; deposit_a = r.1; withdraw_a = 0; deposit_b = 0; withdraw_b = r.2 })

    unfoldable pub swap_b_in : PoolDefinition → SwapLogic → Result AmmFault Swapped
    swap_b_in p logic = do
      r ← logic user_holding_b vault_b vault_a user_holding_a p.reserve_b p.reserve_a
      ok (record { calls = r.0; deposit_a = 0; withdraw_a = r.2; deposit_b = r.1; withdraw_b = 0 })

    unfoldable pub route_swap : PoolDefinition → AccountId → SwapLogic → Result AmmFault Swapped
    route_swap p token_in_id logic = elim (Bytes-discrete token_in_id p.definition_token_a_id) [
      | yes a ↦ swap_a_in p logic
      | no na ↦ elim (Bytes-discrete token_in_id p.definition_token_b_id) [
        | yes b ↦ swap_b_in p logic
        | no nb ↦ err unknown_token
      ]
    ]

    unfoldable pub swap_by :
        AccountId → SwapLogic → Result AmmFault (List AccountPostState × List ChainedCall)
    swap_by token_in_id logic = do
      p ← validate_swap_setup pool vault_a vault_b
      s ← route_swap p token_in_id logic
      posts ← create_swap_post_states p s
      ok (posts, s.calls)

    unfoldable pub swap_exact_input :
        ℕ → ℕ → AccountId → Result AmmFault (List AccountPostState × List ChainedCall)
    swap_exact_input amount_in min_amount_out token_in_id =
        swap_by token_in_id (swap_logic amount_in min_amount_out)

    unfoldable pub swap_exact_output :
        ℕ → ℕ → AccountId → Result AmmFault (List AccountPostState × List ChainedCall)
    swap_exact_output exact_amount_out max_amount_in token_in_id =
        swap_by token_in_id (exact_output_swap_logic exact_amount_out max_amount_in)
