-- ===== src/Amm/Swap/Effect.antt =====
-- programs/amm/src/swap.rs: what a whole swap leaves in the pool account and what it calls.
use mathlib.Core.Option.{some-injective}
use lp_0002_private_multisig.Prelude.{
  ℕ, ◌+◌, ◌<◌, ◌≡◌, sym, ap, ◌∙◌, some, List, [], ◌∷◌, arith, ok, >>=-eq-ok, ok-injective, or_err,
  or_err-eq-some,
}
use lp_0002_private_multisig.Core.Account.{
  AccountId, Account, AccountWithMetadata, to_data, to_data-some,
}
use lp_0002_private_multisig.Core.Balance.{u128_mod}
use lp_0002_private_multisig.Core.Hash.{Sha256}
use lp_0002_private_multisig.Core.Program.{InstructionData, AccountPostState, ChainedCall, new_post}
use lp_0002_private_multisig.Token.Types as Token
use lp_0002_private_multisig.Token.Types.{Borsh}
use lp_0002_private_multisig.Amm.Types.{PoolDefinition, PoolBorsh, data_too_big}
use lp_0002_private_multisig.Amm.Swap.{
  Swapped, SwapLogic, validate_swap_setup, store_pool, swapped_pool, create_swap_post_states,
  swap_logic, exact_output_swap_logic, route_swap, swap_by, swap_exact_input, swap_exact_output,
}
use lp_0002_private_multisig.Amm.Swap.Product.{
  Trades, IsExchange, IsFairLogic, swap_logic-IsFairLogic, exact_output_swap_logic-IsFairLogic,
  IsRouted, route_swap-IsRouted,
}

module _ (to_vec : Token.Instruction → InstructionData) (borsh : Borsh)
    (pool_borsh : PoolBorsh) where
  open pool_borsh use {encode_pool, decode_pool, decode-encode_pool}

  module _ (sha : Sha256)
      (pool vault_a vault_b user_holding_a user_holding_b : AccountWithMetadata) where
    pub validate_swap_setup-pool :
        {p : PoolDefinition}
        → validate_swap_setup borsh pool_borsh pool vault_a vault_b ≡ ok p
        → decode_pool pool.account.content ≡ some p
    unfolding validate_swap_setup
    validate_swap_setup-pool h = ground arith

    -- A swap of a pool: the pool account after it, which alone changes, and what the calls move.
    pub record IsSwap (p : PoolDefinition) (posts : List AccountPostState)
        (calls : List ChainedCall) : Type 0 where
      pub p' : PoolDefinition
      pub pool_post : Account
      pub deposit : ℕ
      pub withdraw : ℕ
      pub shape :
          posts
          ≡ new_post pool_post
            ∷ new_post vault_a.account
            ∷ new_post vault_b.account
            ∷ new_post user_holding_a.account
            ∷ new_post user_holding_b.account
            ∷ []
      pub kept : pool_post ≡ record pool.account { content = encode_pool p' }
      pub stored : decode_pool pool_post.content ≡ some p'
      pub trades : Trades p deposit withdraw p'
      pub exchange : IsExchange to_vec calls deposit withdraw

    pub store_pool-stored :
        (a : Account) (p : PoolDefinition) {post : Account}
        → store_pool borsh pool_borsh a p ≡ ok post
        → (post ≡ record a { content = encode_pool p }) × (decode_pool post.content ≡ some p)
    unfolding store_pool
    store_pool-stored a p h =
        let (content, e, h₁) = >>=-eq-ok (or_err (to_data (encode_pool p)) data_too_big) _ h in
        let whole =
          (to_data-some (encode_pool p)
            (or_err-eq-some (to_data (encode_pool p)) data_too_big e)).0 in
        let made : record a { content = encode_pool p } ≡ _ = rw (← whole) (ok-injective h₁) in
        (sym made, rw (← made) (decode-encode_pool p))

    -- A routed swap whose pool account is stored.
    effect :
        (q p : PoolDefinition) (s : Swapped) {made posts : List AccountPostState}
        {calls : List ChainedCall} {post : Account}
        → q ≡ p
        → IsRouted to_vec borsh pool_borsh sha pool vault_a vault_b user_holding_a user_holding_b q
            s
        → post ≡ record pool.account { content = encode_pool (swapped_pool borsh pool_borsh q s) }
        → decode_pool post.content ≡ some (swapped_pool borsh pool_borsh q s)
        → made
          ≡ new_post post
            ∷ new_post vault_a.account
            ∷ new_post vault_b.account
            ∷ new_post user_holding_a.account
            ∷ new_post user_holding_b.account
            ∷ []
        → made ≡ posts
        → s.calls ≡ calls
        → IsSwap p posts calls
    effect q p s {post = post} same routed whole stored shaped posts calls =
        rw (← same, ← posts, ← calls)
          (record {
            p' = swapped_pool borsh pool_borsh q s;
            pool_post = post;
            deposit = routed.deposit;
            withdraw = routed.withdraw;
            shape = shaped;
            kept = whole;
            stored = stored;
            trades = routed.trades;
            exchange = routed.exchange;
          })

    swap_by-IsSwap :
        (token_in_id : AccountId) (room : ℕ) (logic : SwapLogic) {p : PoolDefinition}
        {posts : List AccountPostState} {calls : List ChainedCall}
        → IsFairLogic to_vec room logic
        → decode_pool pool.account.content ≡ some p
        → p.reserve_a + room < u128_mod
        → p.reserve_b + room < u128_mod
        → swap_by borsh pool_borsh sha to_vec pool vault_a vault_b user_holding_a user_holding_b
            token_in_id logic
          ≡ ok (posts, calls)
        → IsSwap p posts calls
    unfolding swap_by create_swap_post_states
    swap_by-IsSwap token_in_id room logic {p} {posts} {calls} fair known ra rb h =
        let (q, eq, h₁) =
          >>=-eq-ok (validate_swap_setup borsh pool_borsh pool vault_a vault_b) _ h in
        let same : q ≡ p = some-injective q p (sym (validate_swap_setup-pool eq) ∙ known) in
        let (s, es, h₂) =
          >>=-eq-ok
            (route_swap borsh pool_borsh sha to_vec pool vault_a vault_b user_holding_a
              user_holding_b q token_in_id logic)
            _ h₁ in
        let (made, em, h₃) =
          >>=-eq-ok
            (create_swap_post_states borsh pool_borsh sha to_vec pool vault_a vault_b user_holding_a
              user_holding_b q s)
            _ h₂ in
        let (post, ep, h₄) =
          >>=-eq-ok (store_pool borsh pool_borsh pool.account (swapped_pool borsh pool_borsh q s)) _
            em in
        let (whole, stored) =
          store_pool-stored pool.account (swapped_pool borsh pool_borsh q s) ep in
        let routed =
          route_swap-IsRouted to_vec borsh pool_borsh sha pool vault_a vault_b user_holding_a
            user_holding_b q token_in_id room logic fair (rw same ra) (rw same rb) es in
        let e : (made, s.calls) ≡ (posts, calls) = ok-injective h₃ in
        effect q p s same routed whole stored (sym (ok-injective h₄)) (ap (λ r. r.0) e)
          (ap (λ r. r.1) e)

    -- A swap for an exact deposit of a pool whose reserves have room for it leaves in the pool account, which
    -- alone changes, the pool with the deposit added to one reserve and the withdrawal taken from the other, so
    -- that the product of the reserves does not fall, and calls the token program for exactly those transfers.
    pub swap_exact_input-IsSwap :
        (amount_in min_amount_out : ℕ) (token_in_id : AccountId) {p : PoolDefinition}
        {posts : List AccountPostState} {calls : List ChainedCall}
        → decode_pool pool.account.content ≡ some p
        → p.reserve_a + amount_in < u128_mod
        → p.reserve_b + amount_in < u128_mod
        → swap_exact_input borsh pool_borsh sha to_vec pool vault_a vault_b user_holding_a
            user_holding_b amount_in min_amount_out token_in_id
          ≡ ok (posts, calls)
        → IsSwap p posts calls
    unfolding swap_exact_input
    swap_exact_input-IsSwap amount_in min_amount_out token_in_id known ra rb h =
        swap_by-IsSwap token_in_id amount_in
          (swap_logic borsh pool_borsh sha to_vec pool vault_a vault_b user_holding_a user_holding_b
            amount_in min_amount_out)
          (swap_logic-IsFairLogic to_vec borsh pool_borsh sha pool vault_a vault_b user_holding_a
            user_holding_b amount_in min_amount_out)
          known ra rb h

    -- A swap for an exact withdrawal of a pool whose reserves have room for the greatest deposit allowed does
    -- the same: the product of the reserves does not fall, and the calls move what the reserves change by.
    pub swap_exact_output-IsSwap :
        (exact_amount_out max_amount_in : ℕ) (token_in_id : AccountId) {p : PoolDefinition}
        {posts : List AccountPostState} {calls : List ChainedCall}
        → decode_pool pool.account.content ≡ some p
        → p.reserve_a + max_amount_in < u128_mod
        → p.reserve_b + max_amount_in < u128_mod
        → swap_exact_output borsh pool_borsh sha to_vec pool vault_a vault_b user_holding_a
            user_holding_b exact_amount_out max_amount_in token_in_id
          ≡ ok (posts, calls)
        → IsSwap p posts calls
    unfolding swap_exact_output
    swap_exact_output-IsSwap exact_amount_out max_amount_in token_in_id known ra rb h =
        swap_by-IsSwap token_in_id max_amount_in
          (exact_output_swap_logic borsh pool_borsh sha to_vec pool vault_a vault_b user_holding_a
            user_holding_b exact_amount_out max_amount_in)
          (exact_output_swap_logic-IsFairLogic to_vec borsh pool_borsh sha pool vault_a vault_b
            user_holding_a user_holding_b exact_amount_out max_amount_in)
          known ra rb h
