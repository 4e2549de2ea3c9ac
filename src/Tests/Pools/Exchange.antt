-- ===== src/Tests/Pools/Exchange.antt =====
-- Swaps of a pool, by the deposit and by the withdrawal.
use lp_0002_private_multisig.Prelude.{◌≡◌, refl, ok, arith, ℕ_discrete}
use lp_0002_private_multisig.Core.Bytes.{Bytes-discrete}
use lp_0002_private_multisig.Core.Account.{to_data}
use lp_0002_private_multisig.Token.Types as Token
use lp_0002_private_multisig.Amm.Types.{compute_vault_pda_seed}
use lp_0002_private_multisig.Amm.Words.{add_u128, sub_u128, checked_mul, div_ceil}
use lp_0002_private_multisig.Amm.Swap.{
  swap_amount_in, fungible_balance, validate_swap_setup, store_pool, swapped_pool,
  create_swap_post_states, transfer_calls, exact_output_swap_logic, swap_a_in, route_swap, swap_by,
  swap_exact_output,
}
use lp_0002_private_multisig.Amm.Swap.Exact.{
  IsExact, IsBought, IsPaid, swap_exact_input-IsExact, swap_exact_output-IsExact,
}
use lp_0002_private_multisig.Tests.Token.{codec}
use lp_0002_private_multisig.Tests.Vault.{short_sha}
use lp_0002_private_multisig.Tests.Pools.{
  pool_codec, token_words, token_a, vault_a, vault_b, user_a, user_b, pool_with, old_pool,
  swapped_posts, swap_calls, accepted_swap,
}

swap_exact_input-IsExact_example :
    IsExact token_words codec pool_codec short_sha
      (pool_with old_pool)
      vault_a
      vault_b
      user_a
      user_b
      (IsBought 250 90)
      old_pool
      token_a
      swapped_posts
      swap_calls
swap_exact_input-IsExact_example =
    swap_exact_input-IsExact token_words codec pool_codec short_sha (pool_with old_pool) vault_a
      vault_b user_a user_b 250 90 token_a refl (omega arith) (omega arith) accepted_swap

-- The same amounts for the withdrawal: 1000 · 100 / 400.
accepted_payout :
    swap_exact_output codec pool_codec short_sha token_words
      (pool_with old_pool)
      vault_a
      vault_b
      user_a
      user_b
      100
      260
      token_a
    ≡ ok (swapped_posts, swap_calls)
unfolding swap_exact_output swap_by validate_swap_setup fungible_balance route_swap swap_a_in
    exact_output_swap_logic swap_amount_in transfer_calls create_swap_post_states swapped_pool
    store_pool to_data add_u128 sub_u128 checked_mul div_ceil compute_vault_pda_seed
    Token.definition_id Bytes-discrete ℕ_discrete
accepted_payout = refl

swap_exact_output-IsExact_example :
    IsExact token_words codec pool_codec short_sha
      (pool_with old_pool)
      vault_a
      vault_b
      user_a
      user_b
      (IsPaid 100 260)
      old_pool
      token_a
      swapped_posts
      swap_calls
swap_exact_output-IsExact_example =
    swap_exact_output-IsExact token_words codec pool_codec short_sha (pool_with old_pool) vault_a
      vault_b user_a user_b 100 260 token_a refl (omega arith) (omega arith) accepted_payout
