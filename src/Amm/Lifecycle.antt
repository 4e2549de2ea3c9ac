-- ===== src/Amm/Lifecycle.antt =====
-- programs/amm/src: the operations that an inactive pool refuses, and the life of a pool through all of them.
pub mod Backing
pub mod Closing
use lp_0002_private_multisig.Prelude.{
  ℕ, ◌+◌, ◌*◌, ◌≤◌, ◌<◌, ◌≡◌, ◌==◌, not, Option, none, some, List, [], ◌∷◌, Result, ok, ◌>>=◌,
}
use lp_0002_private_multisig.Core.Account.{AccountId, AccountWithMetadata}
use lp_0002_private_multisig.Core.Balance.{u128_mod}
use lp_0002_private_multisig.Core.Hash.{Sha256}
use lp_0002_private_multisig.Core.Program.{InstructionData, AccountPostState, ChainedCall}
use lp_0002_private_multisig.Token.Types as Token
use lp_0002_private_multisig.Token.Types.{Borsh}
use lp_0002_private_multisig.Amm.Types.{
  AmmInstruction, PoolDefinition, PoolBorsh, new_definition_call, add_liquidity_call,
  remove_liquidity_call, swap_exact_input_call, swap_exact_output_call,
}
use lp_0002_private_multisig.Amm.Guest.{amm_run}

-- Whether the amounts of an instruction leave the arithmetic on a pool without a wrap, and some shares.
abbrev pub HasRoom : PoolDefinition → AmmInstruction → Type 0
HasRoom p (new_definition_call a b id) = ⊥
HasRoom p (add_liquidity_call min_shares max_a max_b) =
    (p.reserve_a + max_a < u128_mod)
    × (p.reserve_b + max_b < u128_mod)
    × (p.liquidity_pool_supply * (max_a + 1) < u128_mod)
    × (p.liquidity_pool_supply * (max_b + 1) < u128_mod)
HasRoom p (remove_liquidity_call shares min_a min_b) =
    (shares < p.liquidity_pool_supply)
    × (p.liquidity_pool_supply * shares < u128_mod)
    × (p.reserve_a * shares < u128_mod)
    × (p.reserve_b * shares < u128_mod)
HasRoom p (swap_exact_input_call amount_in min_out id) =
    (p.reserve_a + amount_in < u128_mod) × (p.reserve_b + amount_in < u128_mod)
HasRoom p (swap_exact_output_call amount_out max_in id) =
    (p.reserve_a + max_in < u128_mod) × (p.reserve_b + max_in < u128_mod)

module _ (borsh : Borsh) (pool_borsh : PoolBorsh) (sha : Sha256)
    (to_vec : Token.Instruction → InstructionData) where
  open pool_borsh use {decode_pool}

  -- The pool in the first account.
  abbrev pub pool_before : List AccountWithMetadata → Option PoolDefinition
  pool_before [] = none
  pool_before (pool ∷ others) = decode_pool pool.account.content

  abbrev pub pool_after : List AccountPostState → Option PoolDefinition
  pool_after [] = none
  pool_after (post ∷ others) = decode_pool post.account.content

  -- A run of the program that trades, adds or removes, from one pool to the next.
  pub data PoolStep (p p' : PoolDefinition) : Type 0 where
    runs :
        (instruction : AmmInstruction) (pre_states : List AccountWithMetadata)
        {posts : List AccountPostState} {calls : List ChainedCall}
        → HasRoom p instruction
        → pool_before pre_states ≡ some p
        → amm_run borsh pool_borsh sha to_vec instruction pre_states ≡ ok (posts, calls)
        → pool_after posts ≡ some p'
        → PoolStep p p'

  -- Any number of runs.
  pub data PoolSteps (p : PoolDefinition) : PoolDefinition → Type 0 where
    start : PoolSteps p p
    then_step : {q r : PoolDefinition} → PoolSteps p q → PoolStep q r → PoolSteps p r
