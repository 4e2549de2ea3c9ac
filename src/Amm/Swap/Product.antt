-- ===== src/Amm/Swap/Product.antt =====
-- The pool across a swap: the product of the reserves, and the transfers that match their change.
use lp_0002_private_multisig.Prelude.{
  ℕ, ◌+◌, ◌-◌, ◌*◌, ◌≤◌, ◌<◌, ◌≡◌, ◌⊎◌, inl, inr, refl, sym, ◌∙◌, List, [], ◌∷◌, arith, ok,
  >>=-eq-ok, ok-injective, or_err,
}
use lp_0002_private_multisig.Core.Account.{AccountId, AccountWithMetadata}
use lp_0002_private_multisig.Core.Balance.{u128_mod}
use lp_0002_private_multisig.Core.Hash.{Sha256}
use lp_0002_private_multisig.Core.Program.{InstructionData, ChainedCall}
use lp_0002_private_multisig.Token.Types as Token
use lp_0002_private_multisig.Token.Types.{Borsh}
use lp_0002_private_multisig.Amm.Types.{PoolDefinition, PoolBorsh, invalid_vault}
use lp_0002_private_multisig.Amm.Words.{add_u128, sub_u128, add_u128-small, sub_u128-small}
use lp_0002_private_multisig.Amm.Swap.{
  Swapped, SwapLogic, swap_amount_out, swap_amount_in, swapped_pool, transfer_calls, swap_a_in,
  swap_b_in, swap_logic, exact_output_swap_logic, route_swap,
}
use lp_0002_private_multisig.Amm.Swap.Trade.{
  IsFairTrade, swap_amount_out-IsFairTrade, swap_amount_in-IsFairTrade,
}

-- The reserves after a trade in the one or the other direction.
pub data Trades (p : PoolDefinition) (deposit withdraw : ℕ) (p' : PoolDefinition) : Type 0 where
  a_to_b :
      IsFairTrade p.reserve_a p.reserve_b deposit withdraw
      → p' ≡ record p { reserve_a = p.reserve_a + deposit; reserve_b = p.reserve_b - withdraw }
      → Trades p deposit withdraw p'
  b_to_a :
      IsFairTrade p.reserve_b p.reserve_a deposit withdraw
      → p' ≡ record p { reserve_a = p.reserve_a - withdraw; reserve_b = p.reserve_b + deposit }
      → Trades p deposit withdraw p'

pub Trades-product :
    {p p' : PoolDefinition} {deposit withdraw : ℕ}
    → Trades p deposit withdraw p'
    → p.reserve_a * p.reserve_b ≤ p'.reserve_a * p'.reserve_b
Trades-product (a_to_b fair e) = rw e fair.product
Trades-product (b_to_a fair e) = rw e (grind (arith, fair.product))

pub after_deposit : (x d : ℕ) → x + d < u128_mod → sub_u128 (add_u128 x d) 0 ≡ x + d
after_deposit x d h =
    rw (add_u128-small x d h) (sub_u128-small (x + d) 0 (omega arith) h ∙ omega arith)

pub after_withdrawal : (y w : ℕ) → w ≤ y → y < u128_mod → sub_u128 (add_u128 y 0) w ≡ y - w
after_withdrawal y w h small =
    let e : add_u128 y 0 ≡ y = add_u128-small y 0 (omega arith) ∙ omega arith in
    rw e (sub_u128-small y w h small)

module _ (to_vec : Token.Instruction → InstructionData) where
  -- Two calls, which move the deposit in and the withdrawal out.
  pub record IsExchange (calls : List ChainedCall) (deposit withdraw : ℕ) : Type 0 where
    pub deposit_call : ChainedCall
    pub withdraw_call : ChainedCall
    pub both : calls ≡ deposit_call ∷ withdraw_call ∷ []
    pub deposit_moved : deposit_call.instruction_data ≡ to_vec (Token.transfer deposit)
    pub withdraw_moved : withdraw_call.instruction_data ≡ to_vec (Token.transfer withdraw)

  -- A logic whose trades are fair, up to a deposit.
  abbrev pub IsFairLogic : ℕ → SwapLogic → Type 0
  IsFairLogic room logic =
      (ud vd vw uw : AccountWithMetadata) (x y : ℕ) (r : List ChainedCall × ℕ × ℕ)
      → x + room < u128_mod
      → logic ud vd vw uw x y ≡ ok r
      → IsFairTrade x y r.1 r.2 × (r.1 ≤ room) × IsExchange r.0 r.1 r.2

  module _ (borsh : Borsh) (pool_borsh : PoolBorsh) where
    open pool_borsh use {encode_pool, decode_pool, decode-encode_pool}

    module _ (sha : Sha256)
        (pool vault_a vault_b user_holding_a user_holding_b : AccountWithMetadata) where
      transfer_calls-IsExchange :
          (ud vd vw uw : AccountWithMetadata) (deposit withdraw : ℕ) {calls : List ChainedCall}
          → transfer_calls borsh pool_borsh sha to_vec pool vault_a vault_b user_holding_a
              user_holding_b ud vd vw uw deposit withdraw
            ≡ ok calls
          → IsExchange calls deposit withdraw
      unfolding transfer_calls
      transfer_calls-IsExchange ud vd vw uw deposit withdraw h =
          let (holding, e, h₁) =
            >>=-eq-ok (or_err (borsh.decode_holding vw.account.content) invalid_vault) _ h in
          record {
            deposit_call = _;
            withdraw_call = _;
            both = sym (ok-injective h₁);
            deposit_moved = refl;
            withdraw_moved = refl;
          }

      pub swap_logic-IsFairLogic :
          (amount_in min_out : ℕ)
          → IsFairLogic amount_in (
              swap_logic borsh pool_borsh sha to_vec pool vault_a vault_b user_holding_a
                user_holding_b amount_in min_out)
      unfolding swap_logic
      swap_logic-IsFairLogic amount_in min_out ud vd vw uw x y r room h =
          let (w, ew, h₁) = >>=-eq-ok (swap_amount_out amount_in min_out x y) _ h in
          let (calls, ec, h₂) =
            >>=-eq-ok
              (transfer_calls borsh pool_borsh sha to_vec pool vault_a vault_b user_holding_a
                user_holding_b ud vd vw uw amount_in w)
              _ h₁ in
          let e : (calls, amount_in, w) ≡ r = ok-injective h₂ in
          rw (← e) (
            (swap_amount_out-IsFairTrade amount_in min_out x y room ew).0,
            omega arith,
            transfer_calls-IsExchange ud vd vw uw amount_in w ec,
          )

      pub exact_output_swap_logic-IsFairLogic :
          (amount_out max_in : ℕ)
          → IsFairLogic max_in (
              exact_output_swap_logic borsh pool_borsh sha to_vec pool vault_a vault_b
                user_holding_a user_holding_b amount_out max_in)
      unfolding exact_output_swap_logic
      exact_output_swap_logic-IsFairLogic amount_out max_in ud vd vw uw x y r room h =
          let (d, ed, h₁) = >>=-eq-ok (swap_amount_in amount_out max_in x y) _ h in
          let (calls, ec, h₂) =
            >>=-eq-ok
              (transfer_calls borsh pool_borsh sha to_vec pool vault_a vault_b user_holding_a
                user_holding_b ud vd vw uw d amount_out)
              _ h₁ in
          let e : (calls, d, amount_out) ≡ r = ok-injective h₂ in
          let (fair, most, less) = swap_amount_in-IsFairTrade amount_out max_in x y ed in
          rw (← e) (fair, most, transfer_calls-IsExchange ud vd vw uw d amount_out ec)

      -- What both branches of a swap come to.
      pub record IsRouted (p : PoolDefinition) (s : Swapped) : Type 0 where
        pub deposit : ℕ
        pub withdraw : ℕ
        pub trades : Trades p deposit withdraw (swapped_pool borsh pool_borsh p s)
        pub exchange : IsExchange s.calls deposit withdraw

      swapped_a :
          (p : PoolDefinition) (calls : List ChainedCall) (d w : ℕ)
          → IsFairTrade p.reserve_a p.reserve_b d w
          → p.reserve_a + d < u128_mod
          → p.reserve_b < u128_mod
          → Trades p d w (
              swapped_pool borsh pool_borsh p (record {
                calls = calls;
                deposit_a = d;
                withdraw_a = 0;
                deposit_b = 0;
                withdraw_b = w;
              }))
      unfolding swapped_pool
      swapped_a p calls d w fair ra rb =
          a_to_b fair (
            rw (after_deposit p.reserve_a d ra, after_withdrawal p.reserve_b w fair.within rb) refl)

      swapped_b :
          (p : PoolDefinition) (calls : List ChainedCall) (d w : ℕ)
          → IsFairTrade p.reserve_b p.reserve_a d w
          → p.reserve_b + d < u128_mod
          → p.reserve_a < u128_mod
          → Trades p d w (
              swapped_pool borsh pool_borsh p (record {
                calls = calls;
                deposit_a = 0;
                withdraw_a = w;
                deposit_b = d;
                withdraw_b = 0;
              }))
      unfolding swapped_pool
      swapped_b p calls d w fair rb ra =
          b_to_a fair (
            rw (after_deposit p.reserve_b d rb, after_withdrawal p.reserve_a w fair.within ra) refl)

      swap_a_in-IsRouted :
          (p : PoolDefinition) (room : ℕ) (logic : SwapLogic) {s : Swapped}
          → IsFairLogic room logic
          → p.reserve_a + room < u128_mod
          → p.reserve_b < u128_mod
          → swap_a_in borsh pool_borsh sha to_vec pool vault_a vault_b user_holding_a user_holding_b
              p logic
            ≡ ok s
          → IsRouted p s
      unfolding swap_a_in
      swap_a_in-IsRouted p room logic fair ra rb h =
          let (r, e, h₁) =
            >>=-eq-ok (logic user_holding_a vault_a vault_b user_holding_b p.reserve_a p.reserve_b)
              _ h in
          let (trade, most, exchange) =
            fair user_holding_a vault_a vault_b user_holding_b p.reserve_a p.reserve_b r ra e in
          rw (← ok-injective h₁) (record {
            deposit = r.1;
            withdraw = r.2;
            trades = swapped_a p r.0 r.1 r.2 trade (omega arith) rb;
            exchange = exchange;
          })

      swap_b_in-IsRouted :
          (p : PoolDefinition) (room : ℕ) (logic : SwapLogic) {s : Swapped}
          → IsFairLogic room logic
          → p.reserve_b + room < u128_mod
          → p.reserve_a < u128_mod
          → swap_b_in borsh pool_borsh sha to_vec pool vault_a vault_b user_holding_a user_holding_b
              p logic
            ≡ ok s
          → IsRouted p s
      unfolding swap_b_in
      swap_b_in-IsRouted p room logic fair rb ra h =
          let (r, e, h₁) =
            >>=-eq-ok (logic user_holding_b vault_b vault_a user_holding_a p.reserve_b p.reserve_a)
              _ h in
          let (trade, most, exchange) =
            fair user_holding_b vault_b vault_a user_holding_a p.reserve_b p.reserve_a r rb e in
          rw (← ok-injective h₁) (record {
            deposit = r.1;
            withdraw = r.2;
            trades = swapped_b p r.0 r.1 r.2 trade (omega arith) ra;
            exchange = exchange;
          })

      route_swap-cases :
          (p : PoolDefinition) (token_in_id : AccountId) (logic : SwapLogic) {s : Swapped}
          → route_swap borsh pool_borsh sha to_vec pool vault_a vault_b user_holding_a
              user_holding_b p token_in_id logic
            ≡ ok s
          → (swap_a_in borsh pool_borsh sha to_vec pool vault_a vault_b user_holding_a
                user_holding_b p logic
              ≡ ok s)
            ⊎ (swap_b_in borsh pool_borsh sha to_vec pool vault_a vault_b user_holding_a
                  user_holding_b p logic
                ≡ ok s)
      unfolding route_swap
      route_swap-cases p token_in_id logic h = ground arith

      pub route_swap-IsRouted :
          (p : PoolDefinition) (token_in_id : AccountId) (room : ℕ) (logic : SwapLogic)
          {s : Swapped}
          → IsFairLogic room logic
          → p.reserve_a + room < u128_mod
          → p.reserve_b + room < u128_mod
          → route_swap borsh pool_borsh sha to_vec pool vault_a vault_b user_holding_a
              user_holding_b p token_in_id logic
            ≡ ok s
          → IsRouted p s
      route_swap-IsRouted p token_in_id room logic fair ra rb h =
          elim (route_swap-cases p token_in_id logic h) [
            | inl a ↦ swap_a_in-IsRouted p room logic fair ra (omega arith) a
            | inr b ↦ swap_b_in-IsRouted p room logic fair rb (omega arith) b
          ]
