-- ===== src/Amm/Lifecycle/Backing.antt =====
-- programs/amm/src: what a pool's shares are worth through all of its operations.
use mathlib.Core.Option.{some-injective}
use lp_0002_private_multisig.Prelude.{
  ℕ, ◌*◌, ◌≤◌, ◌<◌, ◌≡◌, ◌==◌, ◌∙◌, refl, sym, not, some, List, ◌∷◌, ok, >>=-eq-ok, ensure-eq-ok,
  arith,
}
use lp_0002_private_multisig.Core.Account.{AccountId, Account, AccountWithMetadata}
use lp_0002_private_multisig.Core.Hash.{Sha256}
use lp_0002_private_multisig.Core.Program.{InstructionData, AccountPostState, ChainedCall, new_post}
use lp_0002_private_multisig.Token.Types as Token
use lp_0002_private_multisig.Token.Types.{Borsh}
use lp_0002_private_multisig.Amm.Types.{
  PoolDefinition, PoolBorsh, new_definition_call, add_liquidity_call, remove_liquidity_call,
  swap_exact_input_call, swap_exact_output_call, zero_amount,
}
use lp_0002_private_multisig.Amm.Guest.{amm_run, seven, five, seven-eq-ok, five-eq-ok}
use lp_0002_private_multisig.Amm.Swap.Product.{Trades, Trades-product, a_to_b, b_to_a}
use lp_0002_private_multisig.Amm.Swap.Effect.{swap_exact_input-IsSwap, swap_exact_output-IsSwap}
use lp_0002_private_multisig.Amm.Liquidity.Shares.{
  IsUndiluted, IsAddition-IsUndiluted, IsRemoval-IsUndiluted,
}
use lp_0002_private_multisig.Amm.Liquidity.Effect.{
  add_liquidity-IsDeposit, remove_liquidity-IsWithdrawal,
}
use lp_0002_private_multisig.Amm.Lifecycle.{
  HasRoom, pool_before, pool_after, PoolStep, PoolSteps, runs, start, then_step,
}

-- There are shares, and the product of the reserves for each square of the supply is no less than before.
pub record IsBacked (p p' : PoolDefinition) : Type 0 where
  pub shared : 0 < p'.liquidity_pool_supply
  pub worth :
      p.reserve_a * p.reserve_b * (p'.liquidity_pool_supply * p'.liquidity_pool_supply)
      ≤ p'.reserve_a * p'.reserve_b * (p.liquidity_pool_supply * p.liquidity_pool_supply)

mul_mono : (x y z w : ℕ) → x ≤ y → z ≤ w → x * z ≤ y * w
mul_mono x y z w h k = grind arith

regroup : (a b c : ℕ) → a * c * (b * c) ≡ a * b * (c * c)
regroup a b c = grind arith

product_worth :
    (a b c d s t : ℕ) → a * t ≤ c * s → b * t ≤ d * s → a * b * (t * t) ≤ c * d * (s * s)
product_worth a b c d s t h k =
    rw (← regroup a b t, ← regroup c d s) (mul_mono (a * t) (c * s) (b * t) (d * s) h k)

cancel : (x y c : ℕ) → 0 < c → x * c ≤ y * c → x ≤ y
cancel x y c pos h = grind arith

positive_square : (c : ℕ) → 0 < c → 0 < c * c
positive_square c h = grind arith

swap_factors : (x y z : ℕ) → x * y * z ≡ x * z * y
swap_factors x y z = grind arith

worth_chain : (x y z s t u : ℕ) → 0 < t → x * t ≤ y * s → y * u ≤ z * t → x * u ≤ z * s
worth_chain x y z s t u pos h k =
    let first : x * t * u ≤ y * s * u = mul_mono (x * t) (y * s) u u h (omega arith) in
    let second : y * u * s ≤ z * t * s = mul_mono (y * u) (z * t) s s k (omega arith) in
    let e : x * t * u ≡ x * u * t = swap_factors x t u in
    let f : y * s * u ≡ y * u * s = swap_factors y s u in
    let g : z * t * s ≡ z * s * t = swap_factors z t s in cancel (x * u) (z * s) t pos (omega arith)

IsBacked-trans : {p q r : PoolDefinition} → IsBacked p q → IsBacked q r → IsBacked p r
IsBacked-trans {p} {q} {r} b c = record {
  shared = c.shared;
  worth =
      worth_chain (p.reserve_a * p.reserve_b) (q.reserve_a * q.reserve_b)
        (r.reserve_a * r.reserve_b) (p.liquidity_pool_supply * p.liquidity_pool_supply)
        (q.liquidity_pool_supply * q.liquidity_pool_supply)
        (r.liquidity_pool_supply * r.liquidity_pool_supply)
        (positive_square q.liquidity_pool_supply b.shared) b.worth c.worth;
}

Trades-supply :
    {p p' : PoolDefinition} {d w : ℕ}
    → Trades p d w p'
    → p'.liquidity_pool_supply ≡ p.liquidity_pool_supply
Trades-supply (a_to_b fair e) = rw e refl
Trades-supply (b_to_a fair e) = rw e refl

Trades-IsBacked :
    {p p' : PoolDefinition} {d w : ℕ}
    → 0 < p.liquidity_pool_supply
    → Trades p d w p'
    → IsBacked p p'
Trades-IsBacked {p} {p'} pos t =
    let s : ℕ = p.liquidity_pool_supply in
    let e = Trades-supply t in
    record {
      shared = rw e pos;
      worth = rw e (
          mul_mono (p.reserve_a * p.reserve_b) (p'.reserve_a * p'.reserve_b) (s * s) (s * s)
            (Trades-product t) (omega arith));
    }

IsUndiluted-IsBacked :
    {p p' : PoolDefinition} → 0 < p'.liquidity_pool_supply → IsUndiluted p p' → IsBacked p p'
IsUndiluted-IsBacked {p} {p'} pos u = record {
  shared = pos;
  worth =
      product_worth p.reserve_a p.reserve_b p'.reserve_a p'.reserve_b p.liquidity_pool_supply
        p'.liquidity_pool_supply u.backed_a u.backed_b;
}

module _ (borsh : Borsh) (pool_borsh : PoolBorsh) (sha : Sha256)
    (to_vec : Token.Instruction → InstructionData) where
  open pool_borsh use {decode_pool}

  pub stored_after :
      (posts : List AccountPostState) {rest : List AccountPostState} {post : Account}
      {p' q : PoolDefinition}
      → posts ≡ new_post post ∷ rest
      → decode_pool post.content ≡ some p'
      → pool_after borsh pool_borsh sha to_vec posts ≡ some q
      → p' ≡ q
  stored_after posts {rest} {post} {p'} {q} e stored after =
      some-injective p' q (sym stored ∙ rw e at after)

  pub known_first :
      (pre_states : List AccountWithMetadata) {first : AccountWithMetadata}
      {others : List AccountWithMetadata} {p : PoolDefinition}
      → pre_states ≡ first ∷ others
      → pool_before borsh pool_borsh sha to_vec pre_states ≡ some p
      → decode_pool first.account.content ≡ some p
  known_first pre_states e known = rw e at known

  swap_exact_input-IsBacked :
      (amount_in min_out : ℕ) (token_in_id : AccountId) (pre_states : List AccountWithMetadata)
      {posts : List AccountPostState} {calls : List ChainedCall} {p p' : PoolDefinition}
      → 0 < p.liquidity_pool_supply
      → HasRoom p (swap_exact_input_call amount_in min_out token_in_id)
      → pool_before borsh pool_borsh sha to_vec pre_states ≡ some p
      → amm_run borsh pool_borsh sha to_vec
          (swap_exact_input_call amount_in min_out token_in_id)
          pre_states
        ≡ ok (posts, calls)
      → pool_after borsh pool_borsh sha to_vec posts ≡ some p'
      → IsBacked p p'
  unfolding amm_run
  swap_exact_input-IsBacked amount_in min_out token_in_id pre_states {posts} pos room known ran
        after =
      let ((pool, vault_a, vault_b, user_holding_a, user_holding_b), es, h) =
        >>=-eq-ok (five pre_states) _ ran in
      let read = known_first pre_states (five-eq-ok pre_states es) known in
      let swap =
        swap_exact_input-IsSwap to_vec borsh pool_borsh sha pool vault_a vault_b user_holding_a
          user_holding_b amount_in min_out token_in_id read room.0 room.1 h in
      rw (← stored_after posts swap.shape swap.stored after) (Trades-IsBacked pos swap.trades)

  swap_exact_output-IsBacked :
      (amount_out max_in : ℕ) (token_in_id : AccountId) (pre_states : List AccountWithMetadata)
      {posts : List AccountPostState} {calls : List ChainedCall} {p p' : PoolDefinition}
      → 0 < p.liquidity_pool_supply
      → HasRoom p (swap_exact_output_call amount_out max_in token_in_id)
      → pool_before borsh pool_borsh sha to_vec pre_states ≡ some p
      → amm_run borsh pool_borsh sha to_vec
          (swap_exact_output_call amount_out max_in token_in_id)
          pre_states
        ≡ ok (posts, calls)
      → pool_after borsh pool_borsh sha to_vec posts ≡ some p'
      → IsBacked p p'
  unfolding amm_run
  swap_exact_output-IsBacked amount_out max_in token_in_id pre_states {posts} pos room known ran
        after =
      let ((pool, vault_a, vault_b, user_holding_a, user_holding_b), es, h) =
        >>=-eq-ok (five pre_states) _ ran in
      let read = known_first pre_states (five-eq-ok pre_states es) known in
      let swap =
        swap_exact_output-IsSwap to_vec borsh pool_borsh sha pool vault_a vault_b user_holding_a
          user_holding_b amount_out max_in token_in_id read room.0 room.1 h in
      rw (← stored_after posts swap.shape swap.stored after) (Trades-IsBacked pos swap.trades)

  add_liquidity-IsBacked :
      (min_shares max_a max_b : ℕ) (pre_states : List AccountWithMetadata)
      {posts : List AccountPostState} {calls : List ChainedCall} {p p' : PoolDefinition}
      → 0 < p.liquidity_pool_supply
      → HasRoom p (add_liquidity_call min_shares max_a max_b)
      → pool_before borsh pool_borsh sha to_vec pre_states ≡ some p
      → amm_run borsh pool_borsh sha to_vec (add_liquidity_call min_shares max_a max_b) pre_states
        ≡ ok (posts, calls)
      → pool_after borsh pool_borsh sha to_vec posts ≡ some p'
      → IsBacked p p'
  unfolding amm_run
  add_liquidity-IsBacked min_shares max_a max_b pre_states {posts} {p = p} pos room known ran
        after =
      let (
        (
          pool, vault_a, vault_b, pool_definition_lp, user_holding_a, user_holding_b,
          user_holding_lp,
        ),
        es,
        h,
      ) =
        >>=-eq-ok (seven pre_states) _ ran in
      let read = known_first pre_states (seven-eq-ok pre_states es) known in
      let (some_shares, h₁) = ensure-eq-ok (not (min_shares == 0)) zero_amount _ h in
      let (ra, rb, sa, sb) = room in
      let deposit =
        add_liquidity-IsDeposit borsh pool_borsh sha to_vec pool vault_a vault_b pool_definition_lp
          user_holding_a user_holding_b user_holding_lp min_shares max_a max_b read ra rb sa sb
          h₁ in
      let more : 0 < deposit.p'.liquidity_pool_supply =
        rw deposit.added.after (omega (arith, pos)) in
      rw (← stored_after posts deposit.stored.shape deposit.stored.stored after)
        (IsUndiluted-IsBacked more (IsAddition-IsUndiluted deposit.added))

  remove_liquidity-IsBacked :
      (shares min_a min_b : ℕ) (pre_states : List AccountWithMetadata)
      {posts : List AccountPostState} {calls : List ChainedCall} {p p' : PoolDefinition}
      → 0 < p.liquidity_pool_supply
      → HasRoom p (remove_liquidity_call shares min_a min_b)
      → pool_before borsh pool_borsh sha to_vec pre_states ≡ some p
      → amm_run borsh pool_borsh sha to_vec (remove_liquidity_call shares min_a min_b) pre_states
        ≡ ok (posts, calls)
      → pool_after borsh pool_borsh sha to_vec posts ≡ some p'
      → IsBacked p p'
  unfolding amm_run
  remove_liquidity-IsBacked shares min_a min_b pre_states {posts} {p = p} pos room known ran after =
      let (
        (
          pool, vault_a, vault_b, pool_definition_lp, user_holding_a, user_holding_b,
          user_holding_lp,
        ),
        es,
        h,
      ) =
        >>=-eq-ok (seven pre_states) _ ran in
      let read = known_first pre_states (seven-eq-ok pre_states es) known in
      let (some_shares, h₁) = ensure-eq-ok (not (shares == 0)) zero_amount _ h in
      let (fewer, ss, sa, sb) = room in
      let withdrawal =
        remove_liquidity-IsWithdrawal borsh pool_borsh sha to_vec pool vault_a vault_b
          pool_definition_lp user_holding_a user_holding_b user_holding_lp shares min_a min_b read
          (omega (arith, fewer)) (ground arith) ss sa sb h₁ in
      let rest : 0 < withdrawal.p'.liquidity_pool_supply =
        rw withdrawal.removed.after (omega (arith, fewer)) in
      rw (← stored_after posts withdrawal.stored.shape withdrawal.stored.stored after) (
        IsUndiluted-IsBacked rest (IsRemoval-IsUndiluted (omega (arith, fewer)) withdrawal.removed))

  PoolStep-IsBacked :
      {p p' : PoolDefinition}
      → 0 < p.liquidity_pool_supply
      → PoolStep borsh pool_borsh sha to_vec p p'
      → IsBacked p p'
  PoolStep-IsBacked pos (runs (new_definition_call a b id) pre_states room known ran after) =
      absurd room
  PoolStep-IsBacked pos (runs (add_liquidity_call m a b) pre_states room known ran after) =
      add_liquidity-IsBacked m a b pre_states pos room known ran after
  PoolStep-IsBacked pos (runs (remove_liquidity_call s a b) pre_states room known ran after) =
      remove_liquidity-IsBacked s a b pre_states pos room known ran after
  PoolStep-IsBacked pos (runs (swap_exact_input_call a m id) pre_states room known ran after) =
      swap_exact_input-IsBacked a m id pre_states pos room known ran after
  PoolStep-IsBacked pos (runs (swap_exact_output_call a m id) pre_states room known ran after) =
      swap_exact_output-IsBacked a m id pre_states pos room known ran after

  -- Through any sequence of swaps, deposits and withdrawals by the program, each with room for its amounts and
  -- none of them taking the last share, a pool that has shares keeps some, and the product of its reserves for
  -- each square of its supply never falls: no share is ever worth less.
  pub PoolSteps-IsBacked :
      {p p' : PoolDefinition}
      → 0 < p.liquidity_pool_supply
      → PoolSteps borsh pool_borsh sha to_vec p p'
      → IsBacked p p'
  PoolSteps-IsBacked pos start = record { shared = pos; worth = omega arith }
  PoolSteps-IsBacked pos (then_step before last) =
      let b = PoolSteps-IsBacked pos before in IsBacked-trans b (PoolStep-IsBacked b.shared last)
