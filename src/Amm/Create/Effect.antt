-- ===== src/Amm/Create/Effect.antt =====
-- programs/amm/src/new_definition.rs: the pool that it sets up, and the pools it refuses.
use lp_0002_private_multisig.Prelude.{
  ℕ, ◌+◌, ◌*◌, ◌≤◌, ◌<◌, ◌≡◌, ◌≢◌, ◌⊎◌, inl, inr, refl, arith, ◌∙◌, sym, ap, true, not, some, List,
  [], ◌∷◌, ok, >>=-eq-ok, ok-injective, ensure-eq-ok, require-eq-ok, refuse-eq-ok, or_err-eq-ok,
}
use lp_0002_private_multisig.Core.Bytes.{Bytes-discrete, codes}
use lp_0002_private_multisig.Core.Account.{
  ProgramId, AccountId, Account, Account-discrete, AccountWithMetadata, default_account,
}
use lp_0002_private_multisig.Core.Balance.{u128_mod}
use lp_0002_private_multisig.Core.Hash.{Sha256}
use lp_0002_private_multisig.Core.Program.{
  InstructionData, AccountPostState, ChainedCall, PdaSeed, pda, new_post, new_claimed_if_default,
}
use lp_0002_private_multisig.Token.Types as Token
use lp_0002_private_multisig.Token.Types.{Borsh}
use lp_0002_private_multisig.Amm.Types.{
  PoolDefinition, PoolBorsh, compute_pool_pda_seed, compute_pool_pda, compute_vault_pda,
  compute_vault_pda_seed, compute_liquidity_token_pda_seed, compute_liquidity_token_pda,
  invalid_holding, token_program_mismatch, same_token, wrong_pool_id, wrong_vault_id, wrong_lp_id,
  pool_active,
}
use lp_0002_private_multisig.Amm.Words.{mul_u128-small, isqrt_lem}
use lp_0002_private_multisig.Amm.Swap.{store_pool}
use lp_0002_private_multisig.Amm.Liquidity.{token_call, lp_call}
use lp_0002_private_multisig.Amm.Swap.Effect.{store_pool-stored}
use lp_0002_private_multisig.Amm.Create.{
  initial_shares, existing_pool, is_default, share_instruction, deposit_call, checked_for_new,
  created_pool, create_calls, created_posts, create_pool, new_definition,
}

-- The shares of the first deposits: the root of their product, rounded down.
initial_shares_lem :
    (a b : ℕ)
    → a * b < u128_mod
    → (initial_shares a b * initial_shares a b ≤ a * b)
      × (a * b < (initial_shares a b + 1) * (initial_shares a b + 1))
unfolding initial_shares
initial_shares_lem a b small = rw (mul_u128-small a b small) (isqrt_lem (a * b) small)

module _ (borsh : Borsh) (pool_borsh : PoolBorsh) where
  open borsh use {decode_holding}
  open pool_borsh use {encode_pool, decode_pool}

  module _ (sha : Sha256) (to_vec : Token.Instruction → InstructionData)
      (pool vault_a vault_b pool_definition_lp user_holding_a user_holding_b
        user_holding_lp : AccountWithMetadata) where
    -- What the checks establish of the accounts.
    pub record IsPlaced (amm_program_id : ProgramId) (token_a_id token_b_id : AccountId)
        : Type 0 where
      pub distinct : ¬ (token_a_id ≡ token_b_id)
      pub pool_at : compute_pool_pda sha amm_program_id token_a_id token_b_id ≡ ok pool.account_id
      pub vault_a_at :
          vault_a.account_id ≡ compute_vault_pda sha amm_program_id pool.account_id token_a_id
      pub vault_b_at :
          vault_b.account_id ≡ compute_vault_pda sha amm_program_id pool.account_id token_b_id
      pub old : PoolDefinition
      pub old_read : existing_pool borsh pool_borsh pool.account ≡ ok old
      pub old_inactive : not old.active ≡ true
      pub lp_at :
          pool_definition_lp.account_id
          ≡ compute_liquidity_token_pda sha amm_program_id pool.account_id

    pub checked_for_new-IsPlaced :
        (amm_program_id : ProgramId) {tokens : AccountId × AccountId}
        → checked_for_new borsh pool_borsh sha to_vec pool vault_a vault_b pool_definition_lp
            user_holding_a user_holding_b user_holding_lp amm_program_id
          ≡ ok tokens
        → IsPlaced amm_program_id tokens.0 tokens.1
    unfolding checked_for_new
    checked_for_new-IsPlaced amm_program_id h =
        let (ha, ea, h₁) =
          or_err-eq-ok (decode_holding user_holding_a.account.content) invalid_holding _ h in
        let (hb, eb, h₂) =
          or_err-eq-ok (decode_holding user_holding_b.account.content) invalid_holding _ h₁ in
        let (same, h₃) =
          require-eq-ok
            (Bytes-discrete user_holding_b.account.program_owner
              user_holding_a.account.program_owner)
            token_program_mismatch _ h₂ in
        let a = Token.definition_id ha in
        let b = Token.definition_id hb in
        let (distinct, h₄) = refuse-eq-ok (Bytes-discrete a b) same_token _ h₃ in
        let (pool_id, ep, h₅) = >>=-eq-ok (compute_pool_pda sha amm_program_id a b) _ h₄ in
        let (at, h₆) = require-eq-ok (Bytes-discrete pool.account_id pool_id) wrong_pool_id _ h₅ in
        let (at_a, h₇) =
          require-eq-ok
            (Bytes-discrete vault_a.account_id
              (compute_vault_pda sha amm_program_id pool.account_id a))
            wrong_vault_id _ h₆ in
        let (at_b, h₈) =
          require-eq-ok
            (Bytes-discrete vault_b.account_id
              (compute_vault_pda sha amm_program_id pool.account_id b))
            wrong_vault_id _ h₇ in
        let (at_lp, h₉) =
          require-eq-ok
            (Bytes-discrete pool_definition_lp.account_id
              (compute_liquidity_token_pda sha amm_program_id pool.account_id))
            wrong_lp_id _ h₈ in
        let (old, eo, h₁₀) = >>=-eq-ok (existing_pool borsh pool_borsh pool.account) _ h₉ in
        let (idle, h₁₁) = ensure-eq-ok (not old.active) pool_active _ h₁₀ in
        rw (← ok-injective h₁₁) (record {
          distinct = distinct;
          pool_at = ep ∙ ap ok (sym at);
          vault_a_at = at_a;
          vault_b_at = at_b;
          old = old;
          old_read = eo;
          old_inactive = idle;
          lp_at = at_lp;
        })

    -- A call of the program that owns the user's first holding.
    abbrev pub call_of : List AccountWithMetadata → Token.Instruction → List PdaSeed → ChainedCall
    call_of pre_states instruction seeds = record {
      program_id = user_holding_a.account.program_owner;
      pre_states = pre_states;
      instruction_data = to_vec instruction;
      pda_seeds = seeds;
    }

    -- The first shares of a pool account that was never used come with a new token, those of another are minted.
    abbrev pub IsFirstMint : ℕ → Token.Instruction → Type 0
    IsFirstMint shares instruction =
        ((pool.account ≡ default_account)
          × (instruction ≡ Token.new_fungible_definition (codes "LP Token") shares))
        ⊎ ((pool.account ≢ default_account) × (instruction ≡ Token.mint shares))

    -- What `new_definition` comes to.
    pub record IsCreated (amm_program_id : ProgramId) (amount_a amount_b : ℕ)
        (posts : List AccountPostState) (calls : List ChainedCall) : Type 0 where
      pub token_a_id : AccountId
      pub token_b_id : AccountId
      pub seed : PdaSeed
      pub shares : ℕ
      pub pool_post : Account
      pub first_mint : Token.Instruction
      pub placed : IsPlaced amm_program_id token_a_id token_b_id
      pub seeded : compute_pool_pda_seed sha token_a_id token_b_id ≡ ok seed
      pub root_low : shares * shares ≤ amount_a * amount_b
      pub root_high : amount_a * amount_b < (shares + 1) * (shares + 1)
      pub kept : pool_post ≡ record pool.account { content = pool_post.content }
      pub stored :
          decode_pool pool_post.content
          ≡ some (record {
            definition_token_a_id = token_a_id;
            definition_token_b_id = token_b_id;
            vault_a_id = vault_a.account_id;
            vault_b_id = vault_b.account_id;
            liquidity_pool_id = pool_definition_lp.account_id;
            liquidity_pool_supply = shares;
            reserve_a = amount_a;
            reserve_b = amount_b;
            fees = 0;
            active = true;
          })
      pub shape :
          posts
          ≡ new_claimed_if_default pool_post (pda seed)
            ∷ new_post vault_a.account
            ∷ new_post vault_b.account
            ∷ new_post pool_definition_lp.account
            ∷ new_post user_holding_a.account
            ∷ new_post user_holding_b.account
            ∷ new_post user_holding_lp.account
            ∷ []
      pub mints : IsFirstMint shares first_mint
      pub moved :
          calls
          ≡ call_of
              (record pool_definition_lp { is_authorized = true } ∷ user_holding_lp ∷ [])
              first_mint
              (compute_liquidity_token_pda_seed sha pool.account_id ∷ [])
            ∷ call_of
                (user_holding_b ∷ record vault_b { is_authorized = true } ∷ [])
                (Token.transfer amount_b)
                (compute_vault_pda_seed sha pool.account_id token_b_id ∷ [])
            ∷ call_of
                (user_holding_a ∷ record vault_a { is_authorized = true } ∷ [])
                (Token.transfer amount_a)
                (compute_vault_pda_seed sha pool.account_id token_a_id ∷ [])
            ∷ []

    share_instruction-IsFirstMint :
        (shares : ℕ)
        → IsFirstMint shares (
            share_instruction borsh pool_borsh sha to_vec pool vault_a vault_b pool_definition_lp
              user_holding_a user_holding_b user_holding_lp shares)
    unfolding share_instruction is_default
    share_instruction-IsFirstMint shares = elim (Account-discrete pool.account default_account) [
      | yes e ↦ inl (e, ground arith)
      | no ne ↦ inr (ne, ground arith)
    ]

    -- A new pool of two amounts whose product does not overflow is of two different tokens, stands with its vaults
    -- and its liquidity token at the accounts derived from them, where no active pool stood, and is active with the
    -- deposits as its reserves and with the root of their product, rounded down, as its supply. The pool's account
    -- alone changes, claimed by its seed when it is new, and the calls issue that supply to the user's liquidity
    -- holding, with a new token for an account never used, and move those deposits into the vaults.
    pub new_definition-IsCreated :
        (amount_a amount_b : ℕ) (amm_program_id : ProgramId) {posts : List AccountPostState}
        {calls : List ChainedCall}
        → amount_a * amount_b < u128_mod
        → new_definition borsh pool_borsh sha to_vec pool vault_a vault_b pool_definition_lp
            user_holding_a user_holding_b user_holding_lp amount_a amount_b amm_program_id
          ≡ ok (posts, calls)
        → IsCreated amm_program_id amount_a amount_b posts calls
    unfolding new_definition create_pool created_pool created_posts create_calls deposit_call
        lp_call token_call
    new_definition-IsCreated amount_a amount_b amm_program_id {posts} {calls} small h =
        let ((a, b), et, h₁) =
          >>=-eq-ok
            (checked_for_new borsh pool_borsh sha to_vec pool vault_a vault_b pool_definition_lp
              user_holding_a user_holding_b user_holding_lp amm_program_id)
            _ h in
        let (post, ep, h₂) =
          >>=-eq-ok
            (store_pool borsh pool_borsh pool.account (
              created_pool borsh pool_borsh sha to_vec pool vault_a vault_b pool_definition_lp
                user_holding_a user_holding_b user_holding_lp a b amount_a amount_b))
            _ h₁ in
        let (seed, es, h₃) = >>=-eq-ok (compute_pool_pda_seed sha a b) _ h₂ in
        let e : (
          created_posts borsh pool_borsh sha to_vec pool vault_a vault_b pool_definition_lp
              user_holding_a user_holding_b user_holding_lp post seed,
          create_calls borsh pool_borsh sha to_vec pool vault_a vault_b pool_definition_lp
              user_holding_a user_holding_b user_holding_lp a b amount_a amount_b,
        )
            ≡ (posts, calls) =
          ok-injective h₃ in
        let (low, high) = initial_shares_lem amount_a amount_b small in
        let (kept, stored) =
          store_pool-stored to_vec borsh pool_borsh sha pool vault_a vault_b user_holding_a
            user_holding_b pool.account
            (created_pool borsh pool_borsh sha to_vec pool vault_a vault_b pool_definition_lp
              user_holding_a user_holding_b user_holding_lp a b amount_a amount_b)
            ep in
        record {
          token_a_id = a;
          token_b_id = b;
          seed = seed;
          shares = initial_shares amount_a amount_b;
          pool_post = post;
          first_mint =
              share_instruction borsh pool_borsh sha to_vec pool vault_a vault_b pool_definition_lp
                user_holding_a user_holding_b user_holding_lp (initial_shares amount_a amount_b);
          placed = checked_for_new-IsPlaced amm_program_id et;
          seeded = es;
          root_low = low;
          root_high = high;
          kept = rw kept refl;
          stored = stored;
          shape = sym (ap (λ r. r.0) e);
          mints = share_instruction-IsFirstMint (initial_shares amount_a amount_b);
          moved = sym (ap (λ r. r.1) e);
        }
