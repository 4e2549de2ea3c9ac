-- ===== src/Amm/Lifecycle/Closing.antt =====
-- programs/amm/src: the pools that an instruction refuses for being active or not, and the closing of a pool.
use mathlib.Core.Option.{some-injective}
use lp_0002_private_multisig.Prelude.{
  not-true, ℕ, ◌-◌, ◌*◌, ◌<◌, ◌≡◌, ◌==◌, ◌∙◌, sym, ap, Bool, true, false, not, Option, none, some,
  List, [], ◌∷◌, ok, >>=-eq-ok, ensure-eq-ok, or_err-eq-ok, arith,
}
use lp_0002_private_multisig.Core.Account.{AccountId, Account, AccountWithMetadata, ProgramId}
use lp_0002_private_multisig.Core.Balance.{u128_mod}
use lp_0002_private_multisig.Core.Hash.{Sha256}
use lp_0002_private_multisig.Core.Program.{InstructionData, AccountPostState, ChainedCall}
use lp_0002_private_multisig.Token.Types as Token
use lp_0002_private_multisig.Token.Types.{Borsh}
use lp_0002_private_multisig.Amm.Types.{
  AmmInstruction, PoolDefinition, PoolBorsh, new_definition_call, add_liquidity_call,
  remove_liquidity_call, swap_exact_input_call, swap_exact_output_call, zero_amount, invalid_pool,
  pool_inactive,
}
use lp_0002_private_multisig.Amm.Guest.{amm_run, seven, five, seven-eq-ok, five-eq-ok}
use lp_0002_private_multisig.Amm.Swap.{
  SwapLogic, validate_swap_setup, swap_logic, exact_output_swap_logic, swap_by, swap_exact_input,
  swap_exact_output,
}
use lp_0002_private_multisig.Amm.Liquidity.{checked_for_remove, remove_liquidity}
use lp_0002_private_multisig.Amm.Liquidity.Effect.{remove_liquidity-IsWithdrawal}
use lp_0002_private_multisig.Amm.Create.{is_default, existing_pool, checked_for_new, new_definition}
use lp_0002_private_multisig.Amm.Create.Effect.{checked_for_new-IsPlaced}
use lp_0002_private_multisig.Amm.Lifecycle.{pool_before, pool_after}
use lp_0002_private_multisig.Amm.Lifecycle.Backing.{stored_after, known_first}

-- Whether the pool that an instruction works on must be active, or must not be.
abbrev pub activity : AmmInstruction → Option Bool
activity (new_definition_call a b id) = some false
activity (add_liquidity_call m a b) = none
activity (remove_liquidity_call s a b) = some true
activity (swap_exact_input_call a m id) = some true
activity (swap_exact_output_call a m id) = some true

abbrev pub first_account : List AccountWithMetadata → Option Account
first_account [] = none
first_account (first ∷ others) = some first.account

named_first :
    (pre_states : List AccountWithMetadata) {x : AccountWithMetadata}
    {xs : List AccountWithMetadata} {first : Account}
    → pre_states ≡ x ∷ xs
    → first_account pre_states ≡ some first
    → x.account ≡ first
named_first pre_states {x} {first = first} e h = some-injective x.account first (rw e at h)

module _ (borsh : Borsh) (pool_borsh : PoolBorsh) (sha : Sha256)
    (to_vec : Token.Instruction → InstructionData) where
  open pool_borsh use {decode_pool}

  -- The pool of the first account is what every instruction but a new pool's reads and checks.
  swap_by-active :
      (pool vault_a vault_b user_holding_a user_holding_b : AccountWithMetadata) (id : AccountId)
      (logic : SwapLogic) {p : PoolDefinition} {r : List AccountPostState × List ChainedCall}
      → decode_pool pool.account.content ≡ some p
      → swap_by borsh pool_borsh sha to_vec pool vault_a vault_b user_holding_a user_holding_b id
          logic
        ≡ ok r
      → p.active ≡ true
  unfolding swap_by validate_swap_setup
  swap_by-active pool vault_a vault_b user_holding_a user_holding_b id logic {p} known h =
      let (q, eq, h₁) = >>=-eq-ok (validate_swap_setup borsh pool_borsh pool vault_a vault_b) _ h in
      let (p', ep, h₂) = or_err-eq-ok (decode_pool pool.account.content) invalid_pool _ eq in
      let (active, h₃) = ensure-eq-ok p'.active pool_inactive _ h₂ in
      ap (λ o. o.active) (some-injective p p' (sym known ∙ ep)) ∙ active

  remove_liquidity-active :
      (pool vault_a vault_b pool_definition_lp user_holding_a user_holding_b
        user_holding_lp : AccountWithMetadata)
      (shares min_a min_b : ℕ) {p : PoolDefinition} {r : List AccountPostState × List ChainedCall}
      → decode_pool pool.account.content ≡ some p
      → remove_liquidity borsh pool_borsh sha to_vec pool vault_a vault_b pool_definition_lp
          user_holding_a user_holding_b user_holding_lp shares min_a min_b
        ≡ ok r
      → p.active ≡ true
  unfolding remove_liquidity checked_for_remove
  remove_liquidity-active pool vault_a vault_b pool_definition_lp user_holding_a user_holding_b
        user_holding_lp shares min_a min_b {p} known h =
      let (q, eq, h₁) =
        >>=-eq-ok
          (checked_for_remove borsh pool_borsh pool vault_a vault_b pool_definition_lp
            user_holding_lp min_a min_b)
          _ h in
      let (p', ep, h₂) = or_err-eq-ok (decode_pool pool.account.content) invalid_pool _ eq in
      let (active, h₃) = ensure-eq-ok p'.active pool_inactive _ h₂ in
      ap (λ o. o.active) (some-injective p p' (sym known ∙ ep)) ∙ active

  existing_pool-stored :
      (a : Account) {p q : PoolDefinition}
      → is_default a ≡ false
      → decode_pool a.content ≡ some p
      → existing_pool borsh pool_borsh a ≡ ok q
      → q ≡ p
  unfolding existing_pool
  existing_pool-stored a other known h = ground arith

  new_definition-inactive :
      (pool vault_a vault_b pool_definition_lp user_holding_a user_holding_b
        user_holding_lp : AccountWithMetadata)
      (a b : ℕ) (id : ProgramId) {p : PoolDefinition} {r : List AccountPostState × List ChainedCall}
      → is_default pool.account ≡ false
      → decode_pool pool.account.content ≡ some p
      → new_definition borsh pool_borsh sha to_vec pool vault_a vault_b pool_definition_lp
          user_holding_a user_holding_b user_holding_lp a b id
        ≡ ok r
      → not p.active ≡ true
  unfolding new_definition
  new_definition-inactive pool vault_a vault_b pool_definition_lp user_holding_a user_holding_b
        user_holding_lp a b id {p} other known h =
      let (tokens, et, h₁) =
        >>=-eq-ok
          (checked_for_new borsh pool_borsh sha to_vec pool vault_a vault_b pool_definition_lp
            user_holding_a user_holding_b user_holding_lp id)
          _ h in
      let placed =
        checked_for_new-IsPlaced borsh pool_borsh sha to_vec pool vault_a vault_b pool_definition_lp
          user_holding_a user_holding_b user_holding_lp id et in
      rw (← existing_pool-stored pool.account other known placed.old_read) placed.old_inactive

  -- Of an account that holds a pool and is not a fresh one, a successful swap or withdrawal requires that the
  -- pool is active, and a successful new pool that it is not.
  pub amm_run-activity :
      (instruction : AmmInstruction) (pre_states : List AccountWithMetadata) {first : Account}
      {p : PoolDefinition} {r : List AccountPostState × List ChainedCall} {needed : Bool}
      → activity instruction ≡ some needed
      → first_account pre_states ≡ some first
      → is_default first ≡ false
      → decode_pool first.content ≡ some p
      → amm_run borsh pool_borsh sha to_vec instruction pre_states ≡ ok r
      → p.active ≡ needed
  unfolding amm_run swap_exact_input swap_exact_output
  amm_run-activity (new_definition_call a b id) pre_states {p = p} act first other known ran =
      let (
        (
          pool, vault_a, vault_b, pool_definition_lp, user_holding_a, user_holding_b,
          user_holding_lp,
        ),
        es,
        h,
      ) =
        >>=-eq-ok (seven pre_states) _ ran in
      let at = named_first pre_states (seven-eq-ok pre_states es) first in
      let read : decode_pool pool.account.content ≡ some p = rw at known in
      let (some_a, h₁) = ensure-eq-ok (not (a == 0)) zero_amount _ h in
      let (some_b, h₂) = ensure-eq-ok (not (b == 0)) zero_amount _ h₁ in
      not-true p.active (
        new_definition-inactive pool vault_a vault_b pool_definition_lp user_holding_a
          user_holding_b user_holding_lp a b id (rw at other) read h₂)
      ∙ some-injective false _ act
  amm_run-activity (add_liquidity_call m a b) pre_states act first other known ran = cc
  amm_run-activity (remove_liquidity_call s a b) pre_states {p = p} act first other known ran =
      let (
        (
          pool, vault_a, vault_b, pool_definition_lp, user_holding_a, user_holding_b,
          user_holding_lp,
        ),
        es,
        h,
      ) =
        >>=-eq-ok (seven pre_states) _ ran in
      let at = named_first pre_states (seven-eq-ok pre_states es) first in
      let read : decode_pool pool.account.content ≡ some p = rw at known in
      let (some_shares, h₁) = ensure-eq-ok (not (s == 0)) zero_amount _ h in
      remove_liquidity-active pool vault_a vault_b pool_definition_lp user_holding_a user_holding_b
        user_holding_lp s a b read h₁
      ∙ some-injective true _ act
  amm_run-activity (swap_exact_input_call a m id) pre_states {p = p} act first other known ran =
      let ((pool, vault_a, vault_b, user_holding_a, user_holding_b), es, h) =
        >>=-eq-ok (five pre_states) _ ran in
      let at = named_first pre_states (five-eq-ok pre_states es) first in
      let read : decode_pool pool.account.content ≡ some p = rw at known in
      swap_by-active pool vault_a vault_b user_holding_a user_holding_b id
        (swap_logic borsh pool_borsh sha to_vec pool vault_a vault_b user_holding_a user_holding_b a
          m)
        read h
      ∙ some-injective true _ act
  amm_run-activity (swap_exact_output_call a m id) pre_states {p = p} act first other known ran =
      let ((pool, vault_a, vault_b, user_holding_a, user_holding_b), es, h) =
        >>=-eq-ok (five pre_states) _ ran in
      let at = named_first pre_states (five-eq-ok pre_states es) first in
      let read : decode_pool pool.account.content ≡ some p = rw at known in
      swap_by-active pool vault_a vault_b user_holding_a user_holding_b id
        (exact_output_swap_logic borsh pool_borsh sha to_vec pool vault_a vault_b user_holding_a
          user_holding_b a m)
        read h
      ∙ some-injective true _ act

  -- A withdrawal of all the shares, where no product overflows, closes the pool: whatever swap or withdrawal is
  -- run next on an account that holds what it left, it fails.
  pub last_withdrawal-closes :
      (shares min_a min_b : ℕ) (pre_states later : List AccountWithMetadata) (next : AmmInstruction)
      {posts : List AccountPostState} {calls : List ChainedCall} {first : Account}
      {p p' : PoolDefinition}
      → pool_before borsh pool_borsh sha to_vec pre_states ≡ some p
      → shares ≡ p.liquidity_pool_supply
      → p.liquidity_pool_supply * shares < u128_mod
      → p.reserve_a * shares < u128_mod
      → p.reserve_b * shares < u128_mod
      → amm_run borsh pool_borsh sha to_vec (remove_liquidity_call shares min_a min_b) pre_states
        ≡ ok (posts, calls)
      → pool_after borsh pool_borsh sha to_vec posts ≡ some p'
      → first_account later ≡ some first
      → is_default first ≡ false
      → decode_pool first.content ≡ some p'
      → activity next ≡ some true
      → ¬ (
          (r : List AccountPostState × List ChainedCall) × (amm_run borsh pool_borsh sha to_vec next
              later
            ≡ ok r))
  unfolding amm_run
  last_withdrawal-closes shares min_a min_b pre_states later next {posts} {p = p} known all ss sa sb
        ran after first other read act (r, again) =
      let (
        (
          pool, vault_a, vault_b, pool_definition_lp, user_holding_a, user_holding_b,
          user_holding_lp,
        ),
        es,
        h,
      ) =
        >>=-eq-ok (seven pre_states) _ ran in
      let before =
        known_first borsh pool_borsh sha to_vec pre_states (seven-eq-ok pre_states es) known in
      let (some_shares, h₁) = ensure-eq-ok (not (shares == 0)) zero_amount _ h in
      let closed =
        remove_liquidity-IsWithdrawal borsh pool_borsh sha to_vec pool vault_a vault_b
          pool_definition_lp user_holding_a user_holding_b user_holding_lp shares min_a min_b before
          (omega (arith, all)) (ground arith) ss sa sb h₁ in
      let same =
        stored_after borsh pool_borsh sha to_vec posts closed.stored.shape closed.stored.stored
          after in
      let active =
        ap (λ o. o.active) same ∙ amm_run-activity next later act first other read again in
      let none_left : not (p.liquidity_pool_supply - shares == 0) ≡ true =
        sym (ap (λ o. o.active) closed.removed.after) ∙ active in
      ground arith
