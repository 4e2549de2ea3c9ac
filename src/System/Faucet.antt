-- ===== src/System/Faucet.antt =====
-- programs/faucet/core/src/lib.rs and program_methods/guest/src/bin/faucet.rs. A panic is an `err`.
use lp_0002_private_multisig.Prelude.{
  ℕ, true, Option, none, some, List, [], ◌∷◌, Result, ok, err, ◌>>=◌, ◌>>◌, require,
}
use lp_0002_private_multisig.Core.Bytes.{Bytes, Bytes-discrete, codes}
use lp_0002_private_multisig.Core.Account.{ProgramId, AccountId, AccountWithMetadata}
use lp_0002_private_multisig.Core.Hash.{Sha256, for_public_pda}
use lp_0002_private_multisig.Core.Program.{
  InstructionData, ChainedCall, ProgramOutput, new_output, with_chained_calls,
}
use lp_0002_private_multisig.AuthTransfer.Types as Transfer
use lp_0002_private_multisig.Vault.Guest as Vault
use lp_0002_private_multisig.Vault.Guest.{VaultInstruction, unchanged_post_states}

pub data FaucetInstruction : Type 0 where
  genesis_transfer_vault : ProgramId → AccountId → ℕ → FaucetInstruction
  genesis_transfer_direct : ℕ → FaucetInstruction

-- The panics of the faucet and of the bridge.
pub data SystemFault : Type 0 where
  called_by_program wrong_account_count wrong_pda wrong_vault foreign_sender : SystemFault

abbrev pub faucet_seed_domain_separator : Bytes
faucet_seed_domain_separator = codes "/LEZ/v0.3/FaucetSeed/0000000000/"

-- `assert!(caller_program_id.is_none())`
unfoldable pub no_caller : Option ProgramId → Result SystemFault (Unit {0})
no_caller none = ok tt
no_caller (some caller) = err called_by_program

module _ (sha : Sha256) where
  unfoldable pub compute_faucet_account_id : ProgramId → AccountId
  compute_faucet_account_id faucet_program_id =
      for_public_pda sha faucet_program_id faucet_seed_domain_separator

  module _ (to_vec : Transfer.Instruction → InstructionData)
      (vault_to_vec : VaultInstruction → InstructionData) where
    unfoldable pub faucet_calls :
        ProgramId
        → FaucetInstruction
        → List AccountWithMetadata
        → Result SystemFault (List ChainedCall)
    faucet_calls self (genesis_transfer_vault vault_program_id recipient_id amount)
          (faucet ∷ recipient_vault ∷ []) =
        do
          require (Bytes-discrete faucet.account_id (compute_faucet_account_id self)) wrong_pda
          ok (
              record {
                program_id = vault_program_id;
                pre_states = record faucet { is_authorized = true } ∷ recipient_vault ∷ [];
                instruction_data = vault_to_vec (Vault.deposit recipient_id amount);
                pda_seeds = faucet_seed_domain_separator ∷ [];
              }
              ∷ [])
    faucet_calls self (genesis_transfer_direct amount) (faucet ∷ recipient ∷ []) = do
      require (Bytes-discrete faucet.account_id (compute_faucet_account_id self)) wrong_pda
      ok (
          record {
            program_id = faucet.account.program_owner;
            pre_states = record faucet { is_authorized = true } ∷ recipient ∷ [];
            instruction_data = to_vec (Transfer.transfer amount);
            pda_seeds = faucet_seed_domain_separator ∷ [];
          }
          ∷ [])
    faucet_calls _ _ _ = err wrong_account_count

    unfoldable pub faucet_main :
        ProgramId
        → Option ProgramId
        → InstructionData
        → List AccountWithMetadata
        → FaucetInstruction
        → Result SystemFault ProgramOutput
    faucet_main self caller words pre_states instruction = do
      no_caller caller
      calls ← faucet_calls self instruction pre_states
      ok (
          with_chained_calls
            (new_output self caller words pre_states (unchanged_post_states pre_states)) calls)
