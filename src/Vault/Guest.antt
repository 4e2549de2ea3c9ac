-- ===== src/Vault/Guest.antt =====
-- programs/vault/core/src/lib.rs and program_methods/guest/src/bin/vault.rs. A panic is an `err`.
pub mod Rules
pub mod Moves
use lp_0002_private_multisig.Prelude.{
  ℕ, true, Option, List, [], ◌∷◌, ◌++◌, map, Result, ok, err, ◌>>=◌, ◌>>◌, ensure,
}
use lp_0002_private_multisig.Core.Bytes.{Bytes, codes}
use lp_0002_private_multisig.Core.Account.{ProgramId, AccountId, AccountWithMetadata}
use lp_0002_private_multisig.Core.Hash.{Sha256, for_public_pda}
use lp_0002_private_multisig.Core.Program.{
  PdaSeed, InstructionData, AccountPostState, ChainedCall, ProgramOutput, new_post, new_output,
  with_chained_calls,
}
use lp_0002_private_multisig.AuthTransfer.Types as Transfer

pub data VaultInstruction : Type 0 where
  deposit : AccountId → ℕ → VaultInstruction  -- `Transfer`
  claim : ℕ → VaultInstruction

pub data VaultFault : Type 0 where
  wrong_account_count owner_unauthorized : VaultFault

abbrev pub vault_seed_domain_separator : Bytes
vault_seed_domain_separator = codes "/LEZ/v0.3/VaultSeed/00000000000/"

abbrev pub unchanged_post_states : List AccountWithMetadata → List AccountPostState
unchanged_post_states [] = []
unchanged_post_states (p ∷ ps) = new_post p.account ∷ unchanged_post_states ps

module _ (sha : Sha256) where
  open sha use {hash_bytes}

  unfoldable pub compute_vault_seed : AccountId → PdaSeed
  compute_vault_seed owner_id = hash_bytes (vault_seed_domain_separator ++ owner_id)

  unfoldable pub compute_vault_account_id : ProgramId → AccountId → AccountId
  compute_vault_account_id vault_program_id owner_id =
      for_public_pda sha vault_program_id (compute_vault_seed owner_id)

  module _ (to_vec : Transfer.Instruction → InstructionData) where
    -- The call that moves the amount from the first account to the second.
    abbrev pub move_call :
        AccountWithMetadata → AccountWithMetadata → ProgramId → ℕ → AccountId → ChainedCall
    move_call from to program amount owner_id = record {
      program_id = program;
      pre_states = from ∷ to ∷ [];
      instruction_data = to_vec (Transfer.transfer amount);
      pda_seeds = compute_vault_seed owner_id ∷ [];
    }

    -- The `match instruction` of `main`.
    unfoldable pub vault_calls :
        VaultInstruction → List AccountWithMetadata → Result VaultFault (List ChainedCall)
    vault_calls (deposit recipient_id amount) (sender ∷ recipient_vault ∷ []) = ok (
        move_call sender (record recipient_vault { is_authorized = true })
          sender.account.program_owner amount recipient_id
        ∷ [])
    vault_calls (claim amount) (owner ∷ owner_vault ∷ []) = do
      ensure owner.is_authorized owner_unauthorized
      ok (
          move_call (record owner_vault { is_authorized = true }) owner
            owner_vault.account.program_owner amount owner.account_id
          ∷ [])
    vault_calls _ _ = err wrong_account_count

    unfoldable pub vault_main :
        ProgramId
        → Option ProgramId
        → InstructionData
        → List AccountWithMetadata
        → VaultInstruction
        → Result VaultFault ProgramOutput
    vault_main self caller words pre_states instruction = do
      calls ← vault_calls instruction pre_states
      ok (
          with_chained_calls
            (new_output self caller words pre_states (unchanged_post_states pre_states)) calls)
