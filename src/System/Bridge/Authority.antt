-- ===== src/System/Bridge/Authority.antt =====
-- program_methods/guest/src/bin/bridge.rs and faucet.rs: whose authority their calls carry.
use lp_0002_private_multisig.Prelude.{
  ◌≡◌, ◌⊎◌, inl, inr, refl, true, Option, none, some, List, [], ◌∷◌, All, ok, >>=-eq-ok,
  ok-injective, require-eq-ok,
}
use lp_0002_private_multisig.Core.Bytes.{Bytes-discrete}
use lp_0002_private_multisig.Core.Account.{ProgramId, AccountId, AccountWithMetadata}
use lp_0002_private_multisig.Core.Hash.{Sha256}
use lp_0002_private_multisig.Core.Program.{InstructionData, PdaSeed, ChainedCall, ProgramOutput}
use lp_0002_private_multisig.AuthTransfer.Types as Transfer
use lp_0002_private_multisig.Vault.Guest.{
  VaultInstruction, unchanged_post_states, compute_vault_account_id,
}
use lp_0002_private_multisig.System.Faucet.{
  FaucetInstruction, genesis_transfer_vault, genesis_transfer_direct, no_caller, wrong_pda,
  wrong_vault, foreign_sender, compute_faucet_account_id, faucet_seed_domain_separator,
  faucet_calls, faucet_main,
}
use lp_0002_private_multisig.System.Bridge.{
  BridgeInstruction, bridge_deposit, bridge_withdraw, compute_bridge_account_id,
  bridge_seed_domain_separator, bridge_calls, bridge_main,
}

-- The account is one of the accounts as it came, or one of them that is the program's own, authorized.
abbrev pub IsPassedOn : AccountId → List AccountWithMetadata → AccountWithMetadata → Type 0
IsPassedOn own [] x = ⊥
IsPassedOn own (y ∷ ys) x =
    ((x ≡ y) ⊎ ((y.account_id ≡ own) × (x ≡ record y { is_authorized = true })))
    ⊎ IsPassedOn own ys x

-- The call hands the accounts on in this way, and lends no seed but one.
pub record IsLent (own : AccountId) (seed : PdaSeed) (pres : List AccountWithMetadata)
    (call : ChainedCall) : Type 0 where
  pub passed_on : All (IsPassedOn own pres) call.pre_states
  pub seeded : All (λ s. s ≡ seed) call.pda_seeds

-- A run at the top of a transaction that changes no account itself, and whose calls lend no authority but that of
-- the program's own account.
pub record IsOwnAuthority (own : AccountId) (seed : PdaSeed) (caller : Option ProgramId)
    (pres : List AccountWithMetadata) (out : ProgramOutput) : Type 0 where
  pub top_level : caller ≡ none
  pub unchanged : out.post_states ≡ unchanged_post_states pres
  pub lent : All (IsLent own seed pres) out.chained_calls

no_caller-none :
    (caller : Option ProgramId) {u : Unit {0}} → no_caller caller ≡ ok u → caller ≡ none
unfolding no_caller
no_caller-none none h = refl
no_caller-none (some c) h = cc

module _ (sha : Sha256) (to_vec : Transfer.Instruction → InstructionData)
    (vault_to_vec : VaultInstruction → InstructionData) where
  bridge_calls-IsLent :
      (self : ProgramId) (i : BridgeInstruction) (pres : List AccountWithMetadata)
      {calls : List ChainedCall}
      → bridge_calls sha to_vec vault_to_vec self i pres ≡ ok calls
      → All (IsLent (compute_bridge_account_id sha self) bridge_seed_domain_separator pres) calls
  unfolding bridge_calls
  bridge_calls-IsLent self (bridge_deposit op v r n) [] h = cc
  bridge_calls-IsLent self (bridge_deposit op v r n) (b ∷ []) h = cc
  bridge_calls-IsLent self (bridge_deposit op v r n) (b ∷ w ∷ []) h =
      let (own, h₁) =
        require-eq-ok (Bytes-discrete b.account_id (compute_bridge_account_id sha self)) wrong_pda _
          h in
      let (vault, h₂) =
        require-eq-ok (Bytes-discrete w.account_id (compute_vault_account_id sha v r)) wrong_vault _
          h₁ in
      rw (← ok-injective h₂) (
        record {
          passed_on = (inl (inr (own, refl)), (inr (inl (inl refl)), tt));
          seeded = (refl, tt);
        },
        tt,
      )
  bridge_calls-IsLent self (bridge_deposit op v r n) (b ∷ w ∷ x ∷ xs) h = cc
  bridge_calls-IsLent self (bridge_withdraw n pk) [] h = cc
  bridge_calls-IsLent self (bridge_withdraw n pk) (s ∷ []) h = cc
  bridge_calls-IsLent self (bridge_withdraw n pk) (s ∷ b ∷ []) h =
      let (own, h₁) =
        require-eq-ok (Bytes-discrete b.account_id (compute_bridge_account_id sha self)) wrong_pda _
          h in
      let (sender, h₂) =
        require-eq-ok (Bytes-discrete s.account.program_owner b.account.program_owner)
          foreign_sender _ h₁ in
      rw (← ok-injective h₂)
        (record { passed_on = (inl (inl refl), (inr (inl (inl refl)), tt)); seeded = tt }, tt)
  bridge_calls-IsLent self (bridge_withdraw n pk) (s ∷ b ∷ x ∷ xs) h = cc

  faucet_calls-IsLent :
      (self : ProgramId) (i : FaucetInstruction) (pres : List AccountWithMetadata)
      {calls : List ChainedCall}
      → faucet_calls sha to_vec vault_to_vec self i pres ≡ ok calls
      → All (IsLent (compute_faucet_account_id sha self) faucet_seed_domain_separator pres) calls
  unfolding faucet_calls
  faucet_calls-IsLent self (genesis_transfer_vault v r n) [] h = cc
  faucet_calls-IsLent self (genesis_transfer_vault v r n) (f ∷ []) h = cc
  faucet_calls-IsLent self (genesis_transfer_vault v r n) (f ∷ w ∷ []) h =
      let (own, h₁) =
        require-eq-ok (Bytes-discrete f.account_id (compute_faucet_account_id sha self)) wrong_pda _
          h in
      rw (← ok-injective h₁) (
        record {
          passed_on = (inl (inr (own, refl)), (inr (inl (inl refl)), tt));
          seeded = (refl, tt);
        },
        tt,
      )
  faucet_calls-IsLent self (genesis_transfer_vault v r n) (f ∷ w ∷ x ∷ xs) h = cc
  faucet_calls-IsLent self (genesis_transfer_direct n) [] h = cc
  faucet_calls-IsLent self (genesis_transfer_direct n) (f ∷ []) h = cc
  faucet_calls-IsLent self (genesis_transfer_direct n) (f ∷ w ∷ []) h =
      let (own, h₁) =
        require-eq-ok (Bytes-discrete f.account_id (compute_faucet_account_id sha self)) wrong_pda _
          h in
      rw (← ok-injective h₁) (
        record {
          passed_on = (inl (inr (own, refl)), (inr (inl (inl refl)), tt));
          seeded = (refl, tt);
        },
        tt,
      )
  faucet_calls-IsLent self (genesis_transfer_direct n) (f ∷ w ∷ x ∷ xs) h = cc

  -- A run of the bridge is at the top of its transaction and changes no account itself; its calls hand the accounts
  -- on as they came, the bridge's own perhaps authorized, and lend no seed but that of the bridge's own account.
  pub bridge_main-IsOwnAuthority :
      (self : ProgramId) (caller : Option ProgramId) (words : InstructionData)
      (pres : List AccountWithMetadata) (instruction : BridgeInstruction) {out : ProgramOutput}
      → bridge_main sha to_vec vault_to_vec self caller words pres instruction ≡ ok out
      → IsOwnAuthority
          (compute_bridge_account_id sha self)
          bridge_seed_domain_separator
          caller
          pres
          out
  unfolding bridge_main
  bridge_main-IsOwnAuthority self caller words pres instruction h =
      let (u, eu, h₁) = >>=-eq-ok (no_caller caller) _ h in
      let (calls, ec, h₂) =
        >>=-eq-ok (bridge_calls sha to_vec vault_to_vec self instruction pres) _ h₁ in
      rw (← ok-injective h₂) (record {
        top_level = no_caller-none caller eu;
        unchanged = refl;
        lent = bridge_calls-IsLent self instruction pres ec;
      })

  -- The same of the faucet and its own account.
  pub faucet_main-IsOwnAuthority :
      (self : ProgramId) (caller : Option ProgramId) (words : InstructionData)
      (pres : List AccountWithMetadata) (instruction : FaucetInstruction) {out : ProgramOutput}
      → faucet_main sha to_vec vault_to_vec self caller words pres instruction ≡ ok out
      → IsOwnAuthority
          (compute_faucet_account_id sha self)
          faucet_seed_domain_separator
          caller
          pres
          out
  unfolding faucet_main
  faucet_main-IsOwnAuthority self caller words pres instruction h =
      let (u, eu, h₁) = >>=-eq-ok (no_caller caller) _ h in
      let (calls, ec, h₂) =
        >>=-eq-ok (faucet_calls sha to_vec vault_to_vec self instruction pres) _ h₁ in
      rw (← ok-injective h₂) (record {
        top_level = no_caller-none caller eu;
        unchanged = refl;
        lent = faucet_calls-IsLent self instruction pres ec;
      })
