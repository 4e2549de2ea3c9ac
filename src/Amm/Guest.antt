-- ===== src/Amm/Guest.antt =====
-- program_methods/guest/src/bin/amm.rs. A panic is an `err`.
use lp_0002_private_multisig.Prelude.{
  ◌≡◌, refl, ok-injective, ◌==◌, not, Option, List, [], ◌∷◌, Result, ok, err, ◌>>=◌, ◌>>◌, ensure,
}
use lp_0002_private_multisig.Core.Account.{ProgramId, AccountWithMetadata}
use lp_0002_private_multisig.Core.Hash.{Sha256}
use lp_0002_private_multisig.Core.Program.{
  InstructionData, AccountPostState, ChainedCall, ProgramOutput, new_output, with_chained_calls,
}
use lp_0002_private_multisig.Token.Types as Token
use lp_0002_private_multisig.Token.Types.{Borsh}
use lp_0002_private_multisig.Amm.Types.{
  AmmInstruction, PoolBorsh, AmmFault, new_definition_call, add_liquidity_call,
  remove_liquidity_call, swap_exact_input_call, swap_exact_output_call, wrong_account_count,
  zero_amount,
}
use lp_0002_private_multisig.Amm.Swap.{swap_exact_input, swap_exact_output}
use lp_0002_private_multisig.Amm.Liquidity.{add_liquidity, remove_liquidity}
use lp_0002_private_multisig.Amm.Create.{new_definition}

-- `pre_states.try_into()` for the account counts of the instructions.
unfoldable pub seven :
    List AccountWithMetadata
    → Result AmmFault (
        AccountWithMetadata × AccountWithMetadata × AccountWithMetadata × AccountWithMetadata
        × AccountWithMetadata × AccountWithMetadata × AccountWithMetadata)
seven (a ∷ b ∷ c ∷ d ∷ e ∷ f ∷ g ∷ []) = ok (a, b, c, d, e, f, g)
seven _ = err wrong_account_count

unfoldable pub five :
    List AccountWithMetadata
    → Result AmmFault (
        AccountWithMetadata × AccountWithMetadata × AccountWithMetadata × AccountWithMetadata
        × AccountWithMetadata)
five (a ∷ b ∷ c ∷ d ∷ e ∷ []) = ok (a, b, c, d, e)
five _ = err wrong_account_count

pub seven-eq-ok :
    (xs : List AccountWithMetadata)
    {t : AccountWithMetadata × AccountWithMetadata × AccountWithMetadata × AccountWithMetadata
      × AccountWithMetadata × AccountWithMetadata × AccountWithMetadata}
    → seven xs ≡ ok t
    → xs ≡ t.0 ∷ t.1 ∷ t.2 ∷ t.3 ∷ t.4 ∷ t.5 ∷ t.6 ∷ []
unfolding seven
seven-eq-ok [] h = cc
seven-eq-ok (a ∷ []) h = cc
seven-eq-ok (a ∷ b ∷ []) h = cc
seven-eq-ok (a ∷ b ∷ c ∷ []) h = cc
seven-eq-ok (a ∷ b ∷ c ∷ d ∷ []) h = cc
seven-eq-ok (a ∷ b ∷ c ∷ d ∷ e ∷ []) h = cc
seven-eq-ok (a ∷ b ∷ c ∷ d ∷ e ∷ f ∷ []) h = cc
seven-eq-ok (a ∷ b ∷ c ∷ d ∷ e ∷ f ∷ g ∷ []) h = rw (← ok-injective h) refl
seven-eq-ok (a ∷ b ∷ c ∷ d ∷ e ∷ f ∷ g ∷ i ∷ rest) h = cc

pub five-eq-ok :
    (xs : List AccountWithMetadata)
    {t : AccountWithMetadata × AccountWithMetadata × AccountWithMetadata × AccountWithMetadata
      × AccountWithMetadata}
    → five xs ≡ ok t
    → xs ≡ t.0 ∷ t.1 ∷ t.2 ∷ t.3 ∷ t.4 ∷ []
unfolding five
five-eq-ok [] h = cc
five-eq-ok (a ∷ []) h = cc
five-eq-ok (a ∷ b ∷ []) h = cc
five-eq-ok (a ∷ b ∷ c ∷ []) h = cc
five-eq-ok (a ∷ b ∷ c ∷ d ∷ []) h = cc
five-eq-ok (a ∷ b ∷ c ∷ d ∷ e ∷ []) h = rw (← ok-injective h) refl
five-eq-ok (a ∷ b ∷ c ∷ d ∷ e ∷ f ∷ rest) h = cc

module _ (borsh : Borsh) (pool_borsh : PoolBorsh) (sha : Sha256)
    (to_vec : Token.Instruction → InstructionData) where
  -- The `match instruction` of `main`; `NonZero::new` refuses zero.
  unfoldable pub amm_run :
      AmmInstruction
      → List AccountWithMetadata
      → Result AmmFault (List AccountPostState × List ChainedCall)
  amm_run (new_definition_call amount_a amount_b amm_program_id) pre_states = do
    (pool, vault_a, vault_b, pool_definition_lp, user_holding_a, user_holding_b, user_holding_lp) ←
        seven pre_states
    ensure (not (amount_a == 0)) zero_amount
    ensure (not (amount_b == 0)) zero_amount
    new_definition borsh pool_borsh sha to_vec pool vault_a vault_b pool_definition_lp
        user_holding_a user_holding_b user_holding_lp amount_a amount_b amm_program_id
  amm_run (add_liquidity_call min_shares max_a max_b) pre_states = do
    (pool, vault_a, vault_b, pool_definition_lp, user_holding_a, user_holding_b, user_holding_lp) ←
        seven pre_states
    ensure (not (min_shares == 0)) zero_amount
    add_liquidity borsh pool_borsh sha to_vec pool vault_a vault_b pool_definition_lp user_holding_a
        user_holding_b user_holding_lp min_shares max_a max_b
  amm_run (remove_liquidity_call shares min_a min_b) pre_states = do
    (pool, vault_a, vault_b, pool_definition_lp, user_holding_a, user_holding_b, user_holding_lp) ←
        seven pre_states
    ensure (not (shares == 0)) zero_amount
    remove_liquidity borsh pool_borsh sha to_vec pool vault_a vault_b pool_definition_lp
        user_holding_a user_holding_b user_holding_lp shares min_a min_b
  amm_run (swap_exact_input_call amount_in min_out token_in_id) pre_states = do
    (pool, vault_a, vault_b, user_holding_a, user_holding_b) ← five pre_states
    swap_exact_input borsh pool_borsh sha to_vec pool vault_a vault_b user_holding_a user_holding_b
        amount_in min_out token_in_id
  amm_run (swap_exact_output_call amount_out max_in token_in_id) pre_states = do
    (pool, vault_a, vault_b, user_holding_a, user_holding_b) ← five pre_states
    swap_exact_output borsh pool_borsh sha to_vec pool vault_a vault_b user_holding_a user_holding_b
        amount_out max_in token_in_id

  unfoldable pub amm_main :
      ProgramId
      → Option ProgramId
      → InstructionData
      → List AccountWithMetadata
      → AmmInstruction
      → Result AmmFault ProgramOutput
  amm_main self caller words pre_states instruction = do
    r ← amm_run instruction pre_states
    ok (with_chained_calls (new_output self caller words pre_states r.0) r.1)
