-- ===== src/Tests/Pools/Life.antt =====
-- The life of a pool: its creation, a deposit and a withdrawal after each other, and its end.
use lp_0002_private_multisig.Prelude.{
  ◌≡◌, ◌↔◌, refl, true, false, List, [], ◌∷◌, ◌++◌, replicate, ok, ℕ_discrete, arith,
}
use lp_0002_private_multisig.Core.Bytes.{Bytes, Bytes-discrete}
use lp_0002_private_multisig.Core.Account.{
  Account, Account-discrete, AccountWithMetadata, default_account, to_data,
}
use lp_0002_private_multisig.Core.Hash.{for_public_pda}
use lp_0002_private_multisig.Core.Program.{AccountPostState, ChainedCall}
use lp_0002_private_multisig.Token.Types as Token
use lp_0002_private_multisig.Amm.Types.{
  PoolDefinition, remove_liquidity_call, add_liquidity_call, swap_exact_input_call,
  compute_pool_pda_seed, compute_pool_pda, compute_vault_pda, compute_liquidity_token_pda,
  compute_vault_pda_seed, compute_liquidity_token_pda_seed, compare_bytes,
}
use lp_0002_private_multisig.Amm.Words.{add_u128, sub_u128, mul_u128, quotient, isqrt, isqrt_digits}
use lp_0002_private_multisig.Amm.Swap.{fungible_balance, store_pool}
use lp_0002_private_multisig.Amm.Liquidity.{
  actual_amounts, minted_shares, enlarged_pool, withdrawn, reduced_pool, checked_for_add,
  checked_for_remove, liquidity_post_states, add_calls, remove_calls, add_to_pool, remove_from_pool,
  add_liquidity, remove_liquidity,
}
use lp_0002_private_multisig.Amm.Create.{
  is_default, existing_pool, checked_for_new, created_pool, created_posts, create_calls,
  create_pool, new_definition, initial_shares,
}
use lp_0002_private_multisig.Amm.Create.Effect.{IsCreated, new_definition-IsCreated}
use lp_0002_private_multisig.Amm.Create.Pair.{IsSamePair, compute_pool_pda_seed-IsSamePair}
use lp_0002_private_multisig.Amm.Guest.{amm_run, seven}
use lp_0002_private_multisig.Amm.Lifecycle.{start, then_step, runs}
use lp_0002_private_multisig.Amm.Lifecycle.Backing.{IsBacked, PoolSteps-IsBacked}
use lp_0002_private_multisig.Amm.Lifecycle.Closing.{last_withdrawal-closes}
use lp_0002_private_multisig.Tests.Packing.{packed, packed-IsCollisionFree}
use lp_0002_private_multisig.Tests.Token.{codec}
use lp_0002_private_multisig.Tests.Vault.{short_sha}
use lp_0002_private_multisig.Tests.Pools.{
  pool_codec, token_words, token_a, token_b, vault_a, vault_b, user_a, user_b, user_lp,
  lp_definition, pool_at, pool_account, pool_with, old_pool, liquidity_posts,
}

abbrev seven_with : PoolDefinition → List AccountWithMetadata
seven_with p = pool_with p ∷ vault_a ∷ vault_b ∷ lp_definition ∷ user_a ∷ user_b ∷ user_lp ∷ []

abbrev added_pool : PoolDefinition
added_pool = pool_at 770 1100 550 true

run_deposit :
    amm_run codec pool_codec short_sha token_words
      (add_liquidity_call 60 100 60)
      (seven_with old_pool)
    ≡ ok (
      liquidity_posts added_pool,
      add_calls codec pool_codec short_sha token_words
          (pool_with old_pool)
          vault_a
          vault_b
          lp_definition
          user_a
          user_b
          user_lp
          100
          50
          70,
    )
unfolding amm_run seven add_liquidity add_to_pool checked_for_add fungible_balance actual_amounts
    minted_shares enlarged_pool liquidity_post_states store_pool to_data add_u128 sub_u128 mul_u128
    quotient Bytes-discrete ℕ_discrete
run_deposit = refl

run_withdrawal :
    amm_run codec pool_codec short_sha token_words
      (remove_liquidity_call 70 90 40)
      (seven_with added_pool)
    ≡ ok (
      liquidity_posts old_pool,
      remove_calls codec pool_codec short_sha token_words
          (pool_with added_pool)
          vault_a
          vault_b
          lp_definition
          user_a
          user_b
          user_lp
          added_pool
          100
          50
          70,
    )
unfolding amm_run seven remove_liquidity remove_from_pool checked_for_remove fungible_balance
    withdrawn reduced_pool liquidity_post_states store_pool to_data sub_u128 mul_u128 quotient
    Token.definition_id Bytes-discrete ℕ_discrete
run_withdrawal = refl

PoolSteps-IsBacked_example : IsBacked old_pool old_pool
PoolSteps-IsBacked_example =
    PoolSteps-IsBacked codec pool_codec short_sha token_words (omega arith) (
      then_step
        (then_step start (
          runs (add_liquidity_call 60 100 60) (seven_with old_pool)
            (omega arith, omega arith, omega arith, omega arith) refl run_deposit refl))
        (runs (remove_liquidity_call 70 90 40) (seven_with added_pool)
          (omega arith, omega arith, omega arith, omega arith) refl run_withdrawal refl))

abbrev empty_pool : PoolDefinition
empty_pool = pool_at 0 0 0 false

run_last :
    amm_run codec pool_codec short_sha token_words
      (remove_liquidity_call 700 900 400)
      (seven_with old_pool)
    ≡ ok (
      liquidity_posts empty_pool,
      remove_calls codec pool_codec short_sha token_words
          (pool_with old_pool)
          vault_a
          vault_b
          lp_definition
          user_a
          user_b
          user_lp
          old_pool
          1000
          500
          700,
    )
unfolding amm_run seven remove_liquidity remove_from_pool checked_for_remove fungible_balance
    withdrawn reduced_pool liquidity_post_states store_pool to_data sub_u128 mul_u128 quotient
    Token.definition_id Bytes-discrete ℕ_discrete
run_last = refl

abbrev five_with : PoolDefinition → List AccountWithMetadata
five_with p = pool_with p ∷ vault_a ∷ vault_b ∷ user_a ∷ user_b ∷ []

not_fresh : is_default (pool_account empty_pool) ≡ false
unfolding is_default Account-discrete ℕ_discrete
not_fresh = refl

last_withdrawal-closes_example : ¬ (
    (r : List AccountPostState × List ChainedCall) × (amm_run codec pool_codec short_sha token_words
        (swap_exact_input_call 250 90 token_a)
        (five_with empty_pool)
      ≡ ok r))
last_withdrawal-closes_example =
    last_withdrawal-closes codec pool_codec short_sha token_words 700 900 400 (seven_with old_pool)
      (five_with empty_pool) (swap_exact_input_call 250 90 token_a) refl refl (omega arith)
      (omega arith) (omega arith) run_last refl refl not_fresh refl refl

-- Every account that the program derives stands at one place with this hash.
abbrev derived : Bytes
derived = for_public_pda short_sha (replicate 8 4) []

abbrev fresh_at : Bytes → AccountWithMetadata
fresh_at id = record { account = default_account; is_authorized = false; account_id = id }

abbrev fresh : AccountWithMetadata
fresh = fresh_at derived

abbrev new_pool : PoolDefinition
new_pool =
    created_pool codec pool_codec short_sha token_words fresh fresh fresh fresh user_a user_b
      user_lp token_a token_b 400 900

abbrev new_account : Account
new_account = record default_account { content = pool_codec.encode_pool new_pool }

abbrev first_posts : List AccountPostState
first_posts =
    created_posts codec pool_codec short_sha token_words fresh fresh fresh fresh user_a user_b
      user_lp new_account (short_sha.hash_bytes (token_b ++ token_a))

abbrev first_calls : List ChainedCall
first_calls =
    create_calls codec pool_codec short_sha token_words fresh fresh fresh fresh user_a user_b
      user_lp token_a token_b 400 900

accepted_creation :
    new_definition codec pool_codec short_sha token_words fresh fresh fresh fresh user_a user_b
      user_lp 400 900
      (replicate 8 4)
    ≡ ok (first_posts, first_calls)
unfolding new_definition checked_for_new create_pool created_pool existing_pool is_default
    store_pool to_data compute_pool_pda compute_pool_pda_seed compute_vault_pda
    compute_vault_pda_seed compute_liquidity_token_pda compute_liquidity_token_pda_seed
    for_public_pda compare_bytes initial_shares mul_u128 isqrt isqrt_digits Token.definition_id
    Account-discrete Bytes-discrete ℕ_discrete
accepted_creation = refl

new_definition-IsCreated_example :
    IsCreated codec pool_codec short_sha token_words fresh fresh fresh fresh user_a user_b user_lp
      (replicate 8 4)
      400
      900
      first_posts
      first_calls
new_definition-IsCreated_example =
    new_definition-IsCreated codec pool_codec short_sha token_words fresh fresh fresh fresh user_a
      user_b user_lp 400 900 (replicate 8 4) (omega arith) accepted_creation

seeded_pair :
    compute_pool_pda_seed packed token_a token_b ≡ ok (packed.hash_bytes (token_b ++ token_a))
unfolding compute_pool_pda_seed compare_bytes
seeded_pair = refl

compute_pool_pda_seed-IsSamePair_example :
    (compute_pool_pda_seed packed token_b token_a ≡ ok (packed.hash_bytes (token_b ++ token_a)))
    ↔ IsSamePair token_a token_b token_b token_a
compute_pool_pda_seed-IsSamePair_example =
    compute_pool_pda_seed-IsSamePair packed token_a token_b token_b token_a packed-IsCollisionFree
      refl refl refl refl seeded_pair
