-- ===== src/Amm/Types.antt =====
-- programs/amm/core/src/lib.rs: the pool, the instructions and the derived accounts.
use Prim.Native.Nat.{compare, Ordering}
use lp_0002_private_multisig.Prelude.{
  ℕ, Bool, false, ◌≡◌, Option, some, [], ◌∷◌, ◌++◌, replicate, Result, ok, err, ◌>>=◌,
}
use lp_0002_private_multisig.Core.Bytes.{Bytes}
use lp_0002_private_multisig.Core.Account.{ProgramId, AccountId}
use lp_0002_private_multisig.Core.Hash.{Sha256, for_public_pda}
use lp_0002_private_multisig.Core.Program.{PdaSeed}

pub data AmmInstruction : Type 0 where
  new_definition_call : ℕ → ℕ → ProgramId → AmmInstruction
  add_liquidity_call : ℕ → ℕ → ℕ → AmmInstruction
  remove_liquidity_call : ℕ → ℕ → ℕ → AmmInstruction
  swap_exact_input_call : ℕ → ℕ → AccountId → AmmInstruction
  swap_exact_output_call : ℕ → ℕ → AccountId → AmmInstruction

pub record PoolDefinition : Type 0 where
  pub definition_token_a_id : AccountId
  pub definition_token_b_id : AccountId
  pub vault_a_id : AccountId
  pub vault_b_id : AccountId
  pub liquidity_pool_id : AccountId
  pub liquidity_pool_supply : ℕ
  pub reserve_a : ℕ
  pub reserve_b : ℕ
  pub fees : ℕ
  pub active : Bool

-- `PoolDefinition::default()`
abbrev pub default_pool : PoolDefinition
default_pool = record {
  definition_token_a_id = replicate 32 0;
  definition_token_b_id = replicate 32 0;
  vault_a_id = replicate 32 0;
  vault_b_id = replicate 32 0;
  liquidity_pool_id = replicate 32 0;
  liquidity_pool_supply = 0;
  reserve_a = 0;
  reserve_b = 0;
  fees = 0;
  active = false;
}

-- Borsh on pools, which reads back what it has written.
pub record PoolBorsh : Type 0 where
  pub encode_pool : PoolDefinition → Bytes
  pub decode_pool : Bytes → Option PoolDefinition
  pub decode-encode_pool : (p : PoolDefinition) → decode_pool (encode_pool p) ≡ some p

pub data AmmFault : Type 0 where
  invalid_pool pool_inactive wrong_vault_a wrong_vault_b invalid_vault not_fungible : AmmFault
  reserve_exceeds_vault unknown_token product_overflow division_by_zero slippage zero_amount :
      AmmFault
  exceeds_reserve lp_mismatch zero_reserve invalid_lp_account data_too_big : AmmFault
  invalid_holding token_program_mismatch same_token wrong_pool_id wrong_vault_id wrong_lp_id :
      AmmFault
  pool_active definitions_match wrong_account_count : AmmFault

-- An order's first part, unless the two are equal there.
abbrev pub first_of : Ordering → Ordering → Ordering
first_of Ordering.lt rest = Ordering.lt
first_of Ordering.eq rest = rest
first_of Ordering.gt rest = Ordering.gt

-- The order of byte arrays.
unfoldable pub compare_bytes : Bytes → Bytes → Ordering
compare_bytes [] [] = Ordering.eq
compare_bytes [] (y ∷ ys) = Ordering.lt
compare_bytes (x ∷ xs) [] = Ordering.gt
compare_bytes (x ∷ xs) (y ∷ ys) = first_of (compare x y) (compare_bytes xs ys)

module _ (sha : Sha256) where
  open sha use {hash_bytes}

  -- The greater identifier comes first.
  abbrev pub seed_for : Ordering → AccountId → AccountId → Result AmmFault PdaSeed
  seed_for Ordering.lt a b = ok (hash_bytes (b ++ a))
  seed_for Ordering.gt a b = ok (hash_bytes (a ++ b))
  seed_for Ordering.eq a b = err definitions_match

  unfoldable pub compute_pool_pda_seed : AccountId → AccountId → Result AmmFault PdaSeed
  compute_pool_pda_seed a b = seed_for (compare_bytes a b) a b

  unfoldable pub compute_pool_pda : ProgramId → AccountId → AccountId → Result AmmFault AccountId
  compute_pool_pda amm_program_id a b = do
    seed ← compute_pool_pda_seed a b
    ok (for_public_pda sha amm_program_id seed)

  unfoldable pub compute_vault_pda_seed : AccountId → AccountId → PdaSeed
  compute_vault_pda_seed pool_id definition_token_id = hash_bytes (pool_id ++ definition_token_id)

  unfoldable pub compute_vault_pda : ProgramId → AccountId → AccountId → AccountId
  compute_vault_pda amm_program_id pool_id definition_token_id =
      for_public_pda sha amm_program_id (compute_vault_pda_seed pool_id definition_token_id)

  unfoldable pub compute_liquidity_token_pda_seed : AccountId → PdaSeed
  compute_liquidity_token_pda_seed pool_id = hash_bytes (pool_id ++ replicate 32 0)

  unfoldable pub compute_liquidity_token_pda : ProgramId → AccountId → AccountId
  compute_liquidity_token_pda amm_program_id pool_id =
      for_public_pda sha amm_program_id (compute_liquidity_token_pda_seed pool_id)
