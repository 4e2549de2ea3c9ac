-- ===== src/Tests/Pools.antt =====
-- A pool of two tokens: a swap, a deposit, withdrawals and its creation, with a stand-in for Borsh.
mod Life
mod Exchange
use lp_0002_private_multisig.Prelude.{
  ℕ, Bool, if◌then◌else◌, zero, suc, ◌+◌, ◌≡◌, refl, ap, true, false, none, some, Option, List, [],
  ◌∷◌, ◌++◌, replicate, ok, ℕ_discrete, arith,
}
use lp_0002_private_multisig.Core.Bytes.{Bytes, Bytes-discrete}
use lp_0002_private_multisig.Core.Account.{
  Account, Account-discrete, AccountWithMetadata, default_account, to_data,
}
use lp_0002_private_multisig.Core.Hash.{Sha256, for_public_pda}
use lp_0002_private_multisig.Core.Program.{AccountPostState, ChainedCall, InstructionData, new_post}
use lp_0002_private_multisig.Token.Types as Token
use lp_0002_private_multisig.Token.Types.{TokenHolding}
use lp_0002_private_multisig.Amm.Types.{
  PoolDefinition, PoolBorsh, compute_vault_pda_seed, compute_liquidity_token_pda_seed,
}
use lp_0002_private_multisig.Amm.Words.{add_u128, sub_u128, mul_u128, checked_mul, quotient}
use lp_0002_private_multisig.Amm.Swap.{
  swap_amount_out, fungible_balance, validate_swap_setup, store_pool, swapped_pool,
  create_swap_post_states, transfer_calls, swap_logic, swap_a_in, route_swap, swap_by,
  swap_exact_input,
}
use lp_0002_private_multisig.Amm.Liquidity.{
  actual_amounts, minted_shares, enlarged_pool, withdrawn, reduced_pool, checked_for_add,
  checked_for_remove, liquidity_post_states, token_call, lp_call, add_calls, remove_calls,
  add_to_pool, remove_from_pool, add_liquidity, remove_liquidity,
}
use lp_0002_private_multisig.Amm.Liquidity.Effect.{
  IsDeposit, IsWithdrawal, add_liquidity-IsDeposit, remove_liquidity-IsWithdrawal,
}
use lp_0002_private_multisig.Tests.Token.{put, get, get-put, codec, owned_by_token}
use lp_0002_private_multisig.Tests.Vault.{short_sha}

abbrev pub put_ids : PoolDefinition → Bytes
put_ids p =
    put p.definition_token_a_id (
      put p.definition_token_b_id
        (put p.vault_a_id (put p.vault_b_id (put p.liquidity_pool_id []))))

abbrev pub put_pool : PoolDefinition → Bytes
put_pool p =
    (if p.active then 1 else 0)
    ∷ p.liquidity_pool_supply
    ∷ p.reserve_a
    ∷ p.reserve_b
    ∷ p.fees
    ∷ put_ids p

abbrev pub flag : ℕ → Bool
flag zero = false
flag (suc n) = true

abbrev pub get_pool : Bytes → Option PoolDefinition
get_pool (active ∷ supply ∷ ra ∷ rb ∷ fees ∷ rest) = some (record {
  definition_token_a_id = (get rest).0;
  definition_token_b_id = (get (get rest).1).0;
  vault_a_id = (get (get (get rest).1).1).0;
  vault_b_id = (get (get (get (get rest).1).1).1).0;
  liquidity_pool_id = (get (get (get (get (get rest).1).1).1).1).0;
  liquidity_pool_supply = supply;
  reserve_a = ra;
  reserve_b = rb;
  fees = fees;
  active = flag active;
})
get_pool _ = none

flag_if : (b : Bool) → flag (if b then 1 else 0) ≡ b
flag_if true = refl
flag_if false = refl

pub get-put_pool : (p : PoolDefinition) → get_pool (put_pool p) ≡ some p
get-put_pool p =
    rw
      (
        get-put p.definition_token_a_id (
            put p.definition_token_b_id
              (put p.vault_a_id (put p.vault_b_id (put p.liquidity_pool_id [])))),
        get-put p.definition_token_b_id
            (put p.vault_a_id (put p.vault_b_id (put p.liquidity_pool_id []))),
        get-put p.vault_a_id (put p.vault_b_id (put p.liquidity_pool_id [])),
        get-put p.vault_b_id (put p.liquidity_pool_id []),
        get-put p.liquidity_pool_id [],
        flag_if p.active,
      )
      refl

abbrev pub pool_codec : PoolBorsh
pool_codec = record {
  encode_pool = put_pool;
  decode_pool = get_pool;
  decode-encode_pool = get-put_pool;
}

abbrev pub token_words : Token.Instruction → InstructionData
token_words (Token.transfer amount) = 0 ∷ amount ∷ []
token_words (Token.mint amount) = 1 ∷ amount ∷ []
token_words (Token.burn amount) = 2 ∷ amount ∷ []
token_words _ = 3 ∷ []

abbrev pub token_a : Bytes
token_a = replicate 32 10

abbrev pub token_b : Bytes
token_b = replicate 32 11

abbrev pub lp_token : Bytes
lp_token = replicate 32 12

abbrev pub holding_of : Bytes → Bytes → ℕ → AccountWithMetadata
holding_of id token balance = record {
  account = owned_by_token (codec.encode_holding (TokenHolding.fungible token balance));
  is_authorized = true;
  account_id = id;
}

abbrev pub vault_a : AccountWithMetadata
vault_a = record (holding_of (replicate 32 21) token_a 1000) { is_authorized = false }

abbrev pub vault_b : AccountWithMetadata
vault_b = record (holding_of (replicate 32 22) token_b 500) { is_authorized = false }

abbrev pub user_a : AccountWithMetadata
user_a = holding_of (replicate 32 23) token_a 300

abbrev pub user_b : AccountWithMetadata
user_b = holding_of (replicate 32 24) token_b 300

abbrev pub user_lp : AccountWithMetadata
user_lp = holding_of (replicate 32 25) lp_token 700

abbrev pub lp_definition : AccountWithMetadata
lp_definition = record { account = owned_by_token []; is_authorized = false; account_id = lp_token }

abbrev pub pool_at : ℕ → ℕ → ℕ → Bool → PoolDefinition
pool_at supply ra rb active = record {
  definition_token_a_id = token_a;
  definition_token_b_id = token_b;
  vault_a_id = vault_a.account_id;
  vault_b_id = vault_b.account_id;
  liquidity_pool_id = lp_token;
  liquidity_pool_supply = supply;
  reserve_a = ra;
  reserve_b = rb;
  fees = 0;
  active = active;
}

abbrev pub pool_account : PoolDefinition → Account
pool_account p = record default_account { program_owner = replicate 8 4; content = put_pool p }

abbrev pub pool_with : PoolDefinition → AccountWithMetadata
pool_with p = record {
  account = pool_account p;
  is_authorized = false;
  account_id = replicate 32 20;
}

abbrev pub old_pool : PoolDefinition
old_pool = pool_at 700 1000 500 true

abbrev pub transfer_call_of :
    AccountWithMetadata → AccountWithMetadata → ℕ → List Bytes → ChainedCall
transfer_call_of from to amount seeds = record {
  program_id = replicate 8 1;
  pre_states = from ∷ to ∷ [];
  instruction_data = 0 ∷ amount ∷ [];
  pda_seeds = seeds;
}

abbrev pub authorize : AccountWithMetadata → AccountWithMetadata
authorize a = record a { is_authorized = true }

abbrev pub seed_of : Bytes → Bytes
seed_of token = short_sha.hash_bytes (replicate 32 20 ++ token)

-- 250 of the first token for 100 of the second: 500 · 250 / 1250.
abbrev pub swapped_posts : List AccountPostState
swapped_posts =
    new_post (pool_account (pool_at 700 1250 400 true))
    ∷ new_post vault_a.account
    ∷ new_post vault_b.account
    ∷ new_post user_a.account
    ∷ new_post user_b.account
    ∷ []

abbrev pub swap_calls : List ChainedCall
swap_calls =
    transfer_call_of user_a vault_a 250 []
    ∷ transfer_call_of (authorize vault_b) user_b 100 (seed_of token_b ∷ [])
    ∷ []

pub accepted_swap :
    swap_exact_input codec pool_codec short_sha token_words
      (pool_with old_pool)
      vault_a
      vault_b
      user_a
      user_b
      250
      90
      token_a
    ≡ ok (swapped_posts, swap_calls)
unfolding swap_exact_input swap_by validate_swap_setup fungible_balance route_swap swap_a_in
    swap_logic swap_amount_out transfer_calls create_swap_post_states swapped_pool store_pool
    to_data add_u128 sub_u128 checked_mul quotient compute_vault_pda_seed Token.definition_id
    Bytes-discrete ℕ_discrete
accepted_swap = refl

-- At most 100 and 60: 100 of the first and 50 of the second, for 70 shares.
abbrev pub liquidity_posts : PoolDefinition → List AccountPostState
liquidity_posts p =
    new_post (pool_account p)
    ∷ new_post vault_a.account
    ∷ new_post vault_b.account
    ∷ new_post lp_definition.account
    ∷ new_post user_a.account
    ∷ new_post user_b.account
    ∷ new_post user_lp.account
    ∷ []

abbrev pub share_call : ℕ → ℕ → ChainedCall
share_call word amount = record {
  program_id = replicate 8 1;
  pre_states = authorize lp_definition ∷ user_lp ∷ [];
  instruction_data = word ∷ amount ∷ [];
  pda_seeds = seed_of (replicate 32 0) ∷ [];
}

abbrev deposit_calls : List ChainedCall
deposit_calls =
    share_call 1 70
    ∷ transfer_call_of user_b vault_b 50 []
    ∷ transfer_call_of user_a vault_a 100 []
    ∷ []

accepted_deposit :
    add_liquidity codec pool_codec short_sha token_words
      (pool_with old_pool)
      vault_a
      vault_b
      lp_definition
      user_a
      user_b
      user_lp
      60
      100
      60
    ≡ ok (liquidity_posts (pool_at 770 1100 550 true), deposit_calls)
unfolding add_liquidity add_to_pool checked_for_add fungible_balance actual_amounts minted_shares
    enlarged_pool liquidity_post_states add_calls token_call lp_call store_pool to_data add_u128
    sub_u128 mul_u128 quotient compute_liquidity_token_pda_seed Bytes-discrete ℕ_discrete
accepted_deposit = refl

add_liquidity-IsDeposit_example :
    IsDeposit codec pool_codec short_sha token_words
      (pool_with old_pool)
      vault_a
      vault_b
      lp_definition
      user_a
      user_b
      user_lp
      old_pool
      60
      100
      60
      (liquidity_posts (pool_at 770 1100 550 true))
      deposit_calls
add_liquidity-IsDeposit_example =
    add_liquidity-IsDeposit codec pool_codec short_sha token_words (pool_with old_pool) vault_a
      vault_b lp_definition user_a user_b user_lp 60 100 60 refl (omega arith) (omega arith)
      (omega arith) (omega arith) accepted_deposit

-- A tenth of the shares.
abbrev withdrawal_calls : ℕ → ℕ → ℕ → List ChainedCall
withdrawal_calls shares a b =
    share_call 2 shares
    ∷ transfer_call_of (authorize vault_b) user_b b (seed_of token_b ∷ [])
    ∷ transfer_call_of (authorize vault_a) user_a a (seed_of token_a ∷ [])
    ∷ []

accepted_withdrawal :
    remove_liquidity codec pool_codec short_sha token_words
      (pool_with old_pool)
      vault_a
      vault_b
      lp_definition
      user_a
      user_b
      user_lp
      70
      90
      40
    ≡ ok (liquidity_posts (pool_at 630 900 450 true), withdrawal_calls 70 100 50)
unfolding remove_liquidity remove_from_pool checked_for_remove fungible_balance withdrawn
    reduced_pool liquidity_post_states remove_calls token_call lp_call store_pool to_data sub_u128
    mul_u128 quotient compute_liquidity_token_pda_seed compute_vault_pda_seed Token.definition_id
    Bytes-discrete ℕ_discrete
accepted_withdrawal = refl

remove_liquidity-IsWithdrawal_example :
    IsWithdrawal codec pool_codec short_sha token_words
      (pool_with old_pool)
      vault_a
      vault_b
      lp_definition
      user_a
      user_b
      user_lp
      old_pool
      70
      90
      40
      (liquidity_posts (pool_at 630 900 450 true))
      (withdrawal_calls 70 100 50)
remove_liquidity-IsWithdrawal_example =
    remove_liquidity-IsWithdrawal codec pool_codec short_sha token_words (pool_with old_pool)
      vault_a vault_b lp_definition user_a user_b user_lp 70 90 40 refl (omega arith) (omega arith)
      (omega arith) (omega arith) (omega arith) accepted_withdrawal
