-- ===== src/Amm/Liquidity/Effect.antt =====
-- programs/amm/src/add.rs and programs/amm/src/remove.rs: what they leave in the pool account and what they call.
use mathlib.Core.Option.{some-injective}
use lp_0002_private_multisig.Prelude.{
  ℕ, ◌+◌, ◌*◌, ◌≤◌, ◌<◌, ◌≡◌, ◌∙◌, sym, true, ap, some, List, [], ◌∷◌, leb, arith, Result, ok, ◌>>◌,
  >>=-eq-ok, ok-injective, ensure,
}
use lp_0002_private_multisig.Core.Account.{Account, AccountWithMetadata}
use lp_0002_private_multisig.Core.Balance.{u128_mod}
use lp_0002_private_multisig.Core.Hash.{Sha256}
use lp_0002_private_multisig.Core.Program.{
  InstructionData, PdaSeed, AccountPostState, ChainedCall, new_post,
}
use lp_0002_private_multisig.Token.Types as Token
use lp_0002_private_multisig.Token.Types.{Borsh}
use lp_0002_private_multisig.Amm.Types.{
  PoolDefinition, PoolBorsh, AmmFault, compute_vault_pda_seed, compute_liquidity_token_pda_seed,
  slippage,
}
use lp_0002_private_multisig.Amm.Swap.{store_pool}
use lp_0002_private_multisig.Amm.Swap.Effect.{store_pool-stored}
use lp_0002_private_multisig.Amm.Liquidity.{
  actual_amounts, minted_shares, enlarged_pool, withdrawn, reduced_pool, checked_for_add,
  checked_for_remove, liquidity_post_states, token_call, lp_call, add_calls, remove_calls,
  add_liquidity, remove_liquidity, add_to_pool, remove_from_pool,
}
use lp_0002_private_multisig.Amm.Liquidity.Shares.{
  IsDepositOf, actual_amounts-bounds, minted_shares-IsFairMint, IsAddition,
  enlarged_pool-IsAddition, IsRemoval, reduced_pool-IsRemoval,
}

module _ (borsh : Borsh) (pool_borsh : PoolBorsh) where
  open pool_borsh use {encode_pool, decode_pool}

  checked_for_add-pool :
      (pool vault_a vault_b pool_definition_lp : AccountWithMetadata) (max_a max_b : ℕ)
      {p : PoolDefinition}
      → checked_for_add borsh pool_borsh pool vault_a vault_b pool_definition_lp max_a max_b ≡ ok p
      → decode_pool pool.account.content ≡ some p
  unfolding checked_for_add
  checked_for_add-pool pool vault_a vault_b pool_definition_lp max_a max_b h = ground arith

  checked_for_remove-pool :
      (pool vault_a vault_b pool_definition_lp user_holding_lp : AccountWithMetadata)
      (min_a min_b : ℕ) {p : PoolDefinition}
      → checked_for_remove borsh pool_borsh pool vault_a vault_b pool_definition_lp user_holding_lp
          min_a min_b
        ≡ ok p
      → decode_pool pool.account.content ≡ some p
  unfolding checked_for_remove
  checked_for_remove-pool pool vault_a vault_b pool_definition_lp user_holding_lp min_a min_b h =
      ground arith

  module _ (sha : Sha256) (to_vec : Token.Instruction → InstructionData)
      (pool vault_a vault_b pool_definition_lp user_holding_a user_holding_b
        user_holding_lp : AccountWithMetadata) where
    -- The pool account holds `p'`, and no other account changes.
    pub record IsStored (p' : PoolDefinition) (posts : List AccountPostState) : Type 0 where
      pub pool_post : Account
      pub shape :
          posts
          ≡ new_post pool_post
            ∷ new_post vault_a.account
            ∷ new_post vault_b.account
            ∷ new_post pool_definition_lp.account
            ∷ new_post user_holding_a.account
            ∷ new_post user_holding_b.account
            ∷ new_post user_holding_lp.account
            ∷ []
      pub kept : pool_post ≡ record pool.account { content = encode_pool p' }
      pub stored : decode_pool pool_post.content ≡ some p'

    liquidity_post_states-IsStored :
        (p' : PoolDefinition) {posts : List AccountPostState}
        → liquidity_post_states borsh pool_borsh sha to_vec pool vault_a vault_b pool_definition_lp
            user_holding_a user_holding_b user_holding_lp p'
          ≡ ok posts
        → IsStored p' posts
    unfolding liquidity_post_states
    liquidity_post_states-IsStored p' h =
        let (post, e, h₁) = >>=-eq-ok (store_pool borsh pool_borsh pool.account p') _ h in
        let (kept, stored) =
          store_pool-stored to_vec borsh pool_borsh sha pool vault_a vault_b user_holding_a
            user_holding_b pool.account p' e in
        record { pool_post = post; shape = sym (ok-injective h₁); kept = kept; stored = stored }

    settled_posts :
        (p' : PoolDefinition) (made posts : List AccountPostState) (out calls : List ChainedCall)
        → liquidity_post_states borsh pool_borsh sha to_vec pool vault_a vault_b pool_definition_lp
            user_holding_a user_holding_b user_holding_lp p'
          ≡ ok made
        → ◌≡◌ {A = Result AmmFault (List AccountPostState × List ChainedCall)}
            (ok (made, out))
            (ok (posts, calls))
        → IsStored p' posts × (calls ≡ out)
    settled_posts p' made posts out calls em h =
        let e : (made, out) ≡ (posts, calls) = ok-injective h in
        (liquidity_post_states-IsStored p' (em ∙ ap ok (ap (λ r. r.0) e)), sym (ap (λ r. r.1) e))

    -- A call of the program that owns the user's first holding.
    abbrev pub call_of : List AccountWithMetadata → Token.Instruction → List PdaSeed → ChainedCall
    call_of pre_states instruction seeds = record {
      program_id = user_holding_a.account.program_owner;
      pre_states = pre_states;
      instruction_data = to_vec instruction;
      pda_seeds = seeds;
    }

    -- What `add_liquidity` comes to.
    pub record IsDeposit (p : PoolDefinition) (min_shares max_a max_b : ℕ)
        (posts : List AccountPostState) (calls : List ChainedCall) : Type 0 where
      pub p' : PoolDefinition
      pub amount_a : ℕ
      pub amount_b : ℕ
      pub delta_lp : ℕ
      pub deposit_a : IsDepositOf max_a p.reserve_a max_b p.reserve_b amount_a
      pub deposit_b : IsDepositOf max_b p.reserve_b max_a p.reserve_a amount_b
      pub enough : min_shares ≤ delta_lp
      pub added : IsAddition p amount_a amount_b delta_lp p'
      pub stored : IsStored p' posts
      pub moved :
          calls
          ≡ call_of
              (record pool_definition_lp { is_authorized = true } ∷ user_holding_lp ∷ [])
              (Token.mint delta_lp)
              (compute_liquidity_token_pda_seed sha pool.account_id ∷ [])
            ∷ call_of (user_holding_b ∷ vault_b ∷ []) (Token.transfer amount_b) []
            ∷ call_of (user_holding_a ∷ vault_a ∷ []) (Token.transfer amount_a) []
            ∷ []

    added_room :
        (s x d max : ℕ)
        → x ≤ max
        → d ≤ s * x
        → s * (max + 1) < u128_mod
        → (s * x < u128_mod) × (s + d < u128_mod)
    added_room s x d max within most room = grind arith

    add_to_pool-IsDeposit :
        (p : PoolDefinition) (min_shares max_a max_b : ℕ) {posts : List AccountPostState}
        {calls : List ChainedCall}
        → p.reserve_a + max_a < u128_mod
        → p.reserve_b + max_b < u128_mod
        → p.liquidity_pool_supply * (max_a + 1) < u128_mod
        → p.liquidity_pool_supply * (max_b + 1) < u128_mod
        → add_to_pool borsh pool_borsh sha to_vec pool vault_a vault_b pool_definition_lp
            user_holding_a user_holding_b user_holding_lp p min_shares max_a max_b
          ≡ ok (posts, calls)
        → IsDeposit p min_shares max_a max_b posts calls
    unfolding add_to_pool add_calls lp_call token_call
    add_to_pool-IsDeposit p min_shares max_a max_b {posts} {calls} ra rb sa sb h =
        let ((a, b), ea, h₂) = >>=-eq-ok (actual_amounts p max_a max_b) _ h in
        let (delta_lp, ed, h₃) = >>=-eq-ok (minted_shares p min_shares a b) _ h₂ in
        let (made, em, h₄) =
          >>=-eq-ok
            (liquidity_post_states borsh pool_borsh sha to_vec pool vault_a vault_b
              pool_definition_lp user_holding_a user_holding_b user_holding_lp
              (enlarged_pool p a b delta_lp))
            _ h₃ in
        let (deposit_a, deposit_b) = actual_amounts-bounds p max_a max_b ea in
        let within_a = deposit_a.within in
        let within_b = deposit_b.within in
        let small_a = (added_room p.liquidity_pool_supply a 0 max_a within_a (omega arith) sa).0 in
        let small_b = (added_room p.liquidity_pool_supply b 0 max_b within_b (omega arith) sb).0 in
        let (fair, enough) = minted_shares-IsFairMint p min_shares a b small_a small_b ed in
        let room = (added_room p.liquidity_pool_supply a delta_lp max_a within_a fair.most sa).1 in
        let (stored, moved) =
          settled_posts (enlarged_pool p a b delta_lp) made posts
            (add_calls borsh pool_borsh sha to_vec pool vault_a vault_b pool_definition_lp
              user_holding_a user_holding_b user_holding_lp a b delta_lp)
            calls em h₄ in
        record {
          p' = enlarged_pool p a b delta_lp;
          amount_a = a;
          amount_b = b;
          delta_lp = delta_lp;
          deposit_a = deposit_a;
          deposit_b = deposit_b;
          enough = enough;
          added = enlarged_pool-IsAddition p a b delta_lp fair room (omega arith) (omega arith);
          stored = stored;
          moved = moved;
        }

    -- A deposit into a pool that has room for it moves of each token the greatest amount allowed or what the other's
    -- greatest amount is worth at the reserves, the product wrapping, whichever is less. It leaves in the pool
    -- account, which alone changes, the pool with both deposits and the minted shares: the lesser of the two
    -- deposits' parts of the supply, rounded down, and at least as many as the user asks for. It calls the token
    -- program of the first holding to mint exactly those shares to the user's liquidity holding and to move exactly
    -- those deposits into the vaults.
    pub add_liquidity-IsDeposit :
        (min_shares max_a max_b : ℕ) {p : PoolDefinition} {posts : List AccountPostState}
        {calls : List ChainedCall}
        → decode_pool pool.account.content ≡ some p
        → p.reserve_a + max_a < u128_mod
        → p.reserve_b + max_b < u128_mod
        → p.liquidity_pool_supply * (max_a + 1) < u128_mod
        → p.liquidity_pool_supply * (max_b + 1) < u128_mod
        → add_liquidity borsh pool_borsh sha to_vec pool vault_a vault_b pool_definition_lp
            user_holding_a user_holding_b user_holding_lp min_shares max_a max_b
          ≡ ok (posts, calls)
        → IsDeposit p min_shares max_a max_b posts calls
    unfolding add_liquidity
    add_liquidity-IsDeposit min_shares max_a max_b {p} known ra rb sa sb h =
        let (q, eq, h₁) =
          >>=-eq-ok
            (checked_for_add borsh pool_borsh pool vault_a vault_b pool_definition_lp max_a max_b) _
            h in
        let same : q ≡ p = some-injective q p (
          sym (checked_for_add-pool pool vault_a vault_b pool_definition_lp max_a max_b eq)
          ∙ known) in
        add_to_pool-IsDeposit p min_shares max_a max_b ra rb sa sb (rw (← same) h₁)

    -- What `remove_liquidity` comes to.
    pub record IsWithdrawal (p : PoolDefinition) (shares min_a min_b : ℕ)
        (posts : List AccountPostState) (calls : List ChainedCall) : Type 0 where
      pub p' : PoolDefinition
      pub amount_a : ℕ
      pub amount_b : ℕ
      pub enough_a : min_a ≤ amount_a
      pub enough_b : min_b ≤ amount_b
      pub removed : IsRemoval p shares amount_a amount_b p'
      pub stored : IsStored p' posts
      pub moved :
          calls
          ≡ call_of
              (record pool_definition_lp { is_authorized = true } ∷ user_holding_lp ∷ [])
              (Token.burn shares)
              (compute_liquidity_token_pda_seed sha pool.account_id ∷ [])
            ∷ call_of
                (record vault_b { is_authorized = true } ∷ user_holding_b ∷ [])
                (Token.transfer amount_b)
                (compute_vault_pda_seed sha pool.account_id p.definition_token_b_id ∷ [])
            ∷ call_of
                (record vault_a { is_authorized = true } ∷ user_holding_a ∷ [])
                (Token.transfer amount_a)
                (compute_vault_pda_seed sha pool.account_id p.definition_token_a_id ∷ [])
            ∷ []

    checked_slippage :
        (min_a min_b a b : ℕ) {R : Type 0} (rest : Result AmmFault R) {r : R}
        → (do ensure (leb min_a a) slippage; ensure (leb min_b b) slippage; rest) ≡ ok r
        → (min_a ≤ a) × (min_b ≤ b) × (rest ≡ ok r)
    checked_slippage min_a min_b a b rest h = ground arith

    remove_from_pool-IsWithdrawal :
        (p : PoolDefinition) (shares min_a min_b : ℕ) {posts : List AccountPostState}
        {calls : List ChainedCall}
        → shares ≤ p.liquidity_pool_supply
        → 0 < shares
        → p.liquidity_pool_supply * shares < u128_mod
        → p.reserve_a * shares < u128_mod
        → p.reserve_b * shares < u128_mod
        → remove_from_pool borsh pool_borsh sha to_vec pool vault_a vault_b pool_definition_lp
            user_holding_a user_holding_b user_holding_lp p shares min_a min_b
          ≡ ok (posts, calls)
        → IsWithdrawal p shares min_a min_b posts calls
    unfolding remove_from_pool remove_calls lp_call token_call
    remove_from_pool-IsWithdrawal p shares min_a min_b {posts} {calls} within some_shares ss sa sb
          h =
        let (a, ea, h₁) = >>=-eq-ok (withdrawn p shares p.reserve_a) _ h in
        let (b, eb, h₂) = >>=-eq-ok (withdrawn p shares p.reserve_b) _ h₁ in
        let (enough_a, enough_b, h₃) = checked_slippage min_a min_b a b _ h₂ in
        let (d, ed, h₄) = >>=-eq-ok (withdrawn p shares p.liquidity_pool_supply) _ h₃ in
        let (made, em, h₅) =
          >>=-eq-ok
            (liquidity_post_states borsh pool_borsh sha to_vec pool vault_a vault_b
              pool_definition_lp user_holding_a user_holding_b user_holding_lp
              (reduced_pool p a b d))
            _ h₄ in
        let (whole, removed) =
          reduced_pool-IsRemoval p shares within some_shares ss sa sb ea eb ed in
        let (stored, moved) =
          settled_posts (reduced_pool p a b d) made posts
            (remove_calls borsh pool_borsh sha to_vec pool vault_a vault_b pool_definition_lp
              user_holding_a user_holding_b user_holding_lp p a b d)
            calls em h₅ in
        record {
          p' = reduced_pool p a b d;
          amount_a = a;
          amount_b = b;
          enough_a = enough_a;
          enough_b = enough_b;
          removed = removed;
          stored = stored;
          moved =
              moved
              ∙ ap
                  (remove_calls borsh pool_borsh sha to_vec pool vault_a vault_b pool_definition_lp
                    user_holding_a user_holding_b user_holding_lp p a b)
                  whole;
        }

    -- A withdrawal for some shares, no more than there are, where no product of shares with the supply or a reserve
    -- overflows, leaves in the pool account, which alone changes, the pool without those shares and without exactly
    -- what they are worth of both reserves, rounded down and no less than the user asks for, inactive when no share
    -- is left. It calls the token program of the first holding to burn exactly those shares of the user's liquidity
    -- holding and to pay exactly those amounts out of the vaults to the user's holdings.
    pub remove_liquidity-IsWithdrawal :
        (shares min_a min_b : ℕ) {p : PoolDefinition} {posts : List AccountPostState}
        {calls : List ChainedCall}
        → decode_pool pool.account.content ≡ some p
        → shares ≤ p.liquidity_pool_supply
        → 0 < shares
        → p.liquidity_pool_supply * shares < u128_mod
        → p.reserve_a * shares < u128_mod
        → p.reserve_b * shares < u128_mod
        → remove_liquidity borsh pool_borsh sha to_vec pool vault_a vault_b pool_definition_lp
            user_holding_a user_holding_b user_holding_lp shares min_a min_b
          ≡ ok (posts, calls)
        → IsWithdrawal p shares min_a min_b posts calls
    unfolding remove_liquidity
    remove_liquidity-IsWithdrawal shares min_a min_b {p} known within some_shares ss sa sb h =
        let (q, eq, h₁) =
          >>=-eq-ok
            (checked_for_remove borsh pool_borsh pool vault_a vault_b pool_definition_lp
              user_holding_lp min_a min_b)
            _ h in
        let same : q ≡ p = some-injective q p (
          sym (
            checked_for_remove-pool pool vault_a vault_b pool_definition_lp user_holding_lp min_a
              min_b eq)
          ∙ known) in
        remove_from_pool-IsWithdrawal p shares min_a min_b within some_shares ss sa sb
          (rw (← same) h₁)
