-- ===== src/Amm/Create.antt =====
-- programs/amm/src/new_definition.rs. A panic is an `err`.
pub mod Effect
pub mod Pair
use mathlib.Core.Option.{some-injective}
use lp_0002_private_multisig.Prelude.{
  ℕ, ◌+◌, ◌*◌, ◌≤◌, ◌<◌, ◌==◌, ◌≡◌, ◌∙◌, refl, sym, ap, Bool, true, false, not, some, List, [], ◌∷◌,
  if◌then◌else◌, Result, ok, err, ◌>>=◌, ◌>>◌, >>=-eq-ok, ok-injective, ensure, require, refuse,
  or_err, arith,
}
use lp_0002_private_multisig.Core.Bytes.{Bytes-discrete, codes}
use lp_0002_private_multisig.Core.Account.{
  ProgramId, AccountId, Account, Account-discrete, AccountWithMetadata, default_account,
}
use lp_0002_private_multisig.Core.Balance.{u128_mod}
use lp_0002_private_multisig.Core.Hash.{Sha256}
use lp_0002_private_multisig.Core.Program.{
  InstructionData, AccountPostState, ChainedCall, Claim, PdaSeed, pda, new_post,
  new_claimed_if_default,
}
use lp_0002_private_multisig.Token.Types as Token
use lp_0002_private_multisig.Token.Types.{TokenHolding, Borsh}
use lp_0002_private_multisig.Amm.Types.{
  PoolDefinition, PoolBorsh, AmmFault, default_pool, compute_pool_pda_seed, compute_pool_pda,
  compute_vault_pda_seed, compute_vault_pda, compute_liquidity_token_pda, invalid_pool,
  invalid_holding, token_program_mismatch, same_token, wrong_pool_id, wrong_vault_id, wrong_lp_id,
  pool_active,
}
use lp_0002_private_multisig.Amm.Words.{mul_u128, isqrt, mul_u128-small, isqrt_lem}
use lp_0002_private_multisig.Amm.Swap.{store_pool}
use lp_0002_private_multisig.Amm.Swap.Effect.{store_pool-stored}
use lp_0002_private_multisig.Amm.Liquidity.{token_call, lp_call}

-- Whether the account is `Account::default()`.
unfoldable pub is_default : Account → Bool
is_default a = elim (Account-discrete a default_account) [ yes e ↦ true | no ne ↦ false ]

-- The shares that the first deposits are worth.
unfoldable pub initial_shares : ℕ → ℕ → ℕ
initial_shares amount_a amount_b = isqrt (mul_u128 amount_a amount_b)

module _ (borsh : Borsh) (pool_borsh : PoolBorsh) where
  open borsh use {decode_holding}
  open pool_borsh use {encode_pool, decode_pool}

  -- `pool_account_data`
  unfoldable pub existing_pool : Account → Result AmmFault PoolDefinition
  existing_pool a =
      if is_default a then ok default_pool else or_err (decode_pool a.content) invalid_pool

  module _ (sha : Sha256) (to_vec : Token.Instruction → InstructionData)
      (pool vault_a vault_b pool_definition_lp user_holding_a user_holding_b
        user_holding_lp : AccountWithMetadata) where
    -- The checks: the two tokens differ, every derived account is the right one, and the pool is not active.
    unfoldable pub checked_for_new : ProgramId → Result AmmFault (AccountId × AccountId)
    checked_for_new amm_program_id = do
      holding_a ← or_err (decode_holding user_holding_a.account.content) invalid_holding
      holding_b ← or_err (decode_holding user_holding_b.account.content) invalid_holding
      require
          (Bytes-discrete user_holding_b.account.program_owner user_holding_a.account.program_owner)
          token_program_mismatch
      refuse (Bytes-discrete (Token.definition_id holding_a) (Token.definition_id holding_b))
          same_token
      pool_id ←
          compute_pool_pda sha amm_program_id (Token.definition_id holding_a)
            (Token.definition_id holding_b)
      require (Bytes-discrete pool.account_id pool_id) wrong_pool_id
      require
          (Bytes-discrete vault_a.account_id
            (compute_vault_pda sha amm_program_id pool.account_id (Token.definition_id holding_a)))
          wrong_vault_id
      require
          (Bytes-discrete vault_b.account_id
            (compute_vault_pda sha amm_program_id pool.account_id (Token.definition_id holding_b)))
          wrong_vault_id
      require
          (Bytes-discrete pool_definition_lp.account_id
            (compute_liquidity_token_pda sha amm_program_id pool.account_id))
          wrong_lp_id
      old ← existing_pool pool.account
      ensure (not old.active) pool_active
      ok (Token.definition_id holding_a, Token.definition_id holding_b)

    unfoldable pub created_pool : AccountId → AccountId → ℕ → ℕ → PoolDefinition
    created_pool token_a_id token_b_id amount_a amount_b = record {
      definition_token_a_id = token_a_id;
      definition_token_b_id = token_b_id;
      vault_a_id = vault_a.account_id;
      vault_b_id = vault_b.account_id;
      liquidity_pool_id = pool_definition_lp.account_id;
      liquidity_pool_supply = initial_shares amount_a amount_b;
      reserve_a = amount_a;
      reserve_b = amount_b;
      fees = 0;
      active = true;
    }

    -- The first mint of the liquidity token, or another.
    unfoldable pub share_instruction : ℕ → Token.Instruction
    share_instruction shares =
        if is_default pool.account
        then Token.new_fungible_definition (codes "LP Token") shares
        else Token.mint shares

    unfoldable pub deposit_call :
        AccountWithMetadata → AccountWithMetadata → AccountId → ℕ → ChainedCall
    deposit_call user_holding vault token_id amount =
        token_call borsh pool_borsh sha to_vec pool vault_a vault_b pool_definition_lp
          user_holding_a user_holding_b user_holding_lp
          (user_holding ∷ record vault { is_authorized = true } ∷ []) (Token.transfer amount)
          (compute_vault_pda_seed sha pool.account_id token_id ∷ [])

    unfoldable pub create_calls : AccountId → AccountId → ℕ → ℕ → List ChainedCall
    create_calls token_a_id token_b_id amount_a amount_b =
        lp_call borsh pool_borsh sha to_vec pool vault_a vault_b pool_definition_lp user_holding_a
          user_holding_b user_holding_lp (share_instruction (initial_shares amount_a amount_b))
        ∷ deposit_call user_holding_b vault_b token_b_id amount_b
        ∷ deposit_call user_holding_a vault_a token_a_id amount_a
        ∷ []

    unfoldable pub created_posts : Account → PdaSeed → List AccountPostState
    created_posts pool_post seed =
        new_claimed_if_default pool_post (pda seed)
        ∷ new_post vault_a.account
        ∷ new_post vault_b.account
        ∷ new_post pool_definition_lp.account
        ∷ new_post user_holding_a.account
        ∷ new_post user_holding_b.account
        ∷ new_post user_holding_lp.account
        ∷ []

    unfoldable pub create_pool :
        AccountId → AccountId → ℕ → ℕ → Result AmmFault (List AccountPostState × List ChainedCall)
    create_pool token_a_id token_b_id amount_a amount_b = do
      pool_post ←
          store_pool borsh pool_borsh pool.account
            (created_pool token_a_id token_b_id amount_a amount_b)
      seed ← compute_pool_pda_seed sha token_a_id token_b_id
      ok (created_posts pool_post seed, create_calls token_a_id token_b_id amount_a amount_b)

    unfoldable pub new_definition :
        ℕ → ℕ → ProgramId → Result AmmFault (List AccountPostState × List ChainedCall)
    new_definition amount_a amount_b amm_program_id = do
      tokens ← checked_for_new amm_program_id
      create_pool tokens.0 tokens.1 amount_a amount_b
