-- ===== src/System/Bridge.antt =====
-- programs/bridge/core/src/lib.rs and program_methods/guest/src/bin/bridge.rs. A panic is an `err`.
pub mod Authority
use lp_0002_private_multisig.Prelude.{
  ℕ, true, Option, none, some, List, [], ◌∷◌, Result, ok, err, ◌>>=◌, ◌>>◌, require,
}
use lp_0002_private_multisig.Core.Bytes.{Bytes, Bytes-discrete, codes}
use lp_0002_private_multisig.Core.Account.{ProgramId, AccountId, AccountWithMetadata}
use lp_0002_private_multisig.Core.Hash.{Sha256, for_public_pda}
use lp_0002_private_multisig.Core.Program.{
  InstructionData, ChainedCall, ProgramOutput, new_output, with_chained_calls,
}
use lp_0002_private_multisig.AuthTransfer.Types as Transfer
use lp_0002_private_multisig.Vault.Guest as Vault
use lp_0002_private_multisig.Vault.Guest.{
  VaultInstruction, unchanged_post_states, compute_vault_account_id,
}
use lp_0002_private_multisig.System.Faucet.{
  SystemFault, no_caller, wrong_pda, wrong_vault, foreign_sender, wrong_account_count,
}

-- The deposit operation's id and the withdrawal's key are not read by the program.
pub data BridgeInstruction : Type 0 where
  bridge_deposit : Bytes → ProgramId → AccountId → ℕ → BridgeInstruction
  bridge_withdraw : ℕ → Bytes → BridgeInstruction

abbrev pub bridge_seed_domain_separator : Bytes
bridge_seed_domain_separator = codes "/LEZ/v0.3/BridgeSeed/0000000000/"

module _ (sha : Sha256) where
  unfoldable pub compute_bridge_account_id : ProgramId → AccountId
  compute_bridge_account_id bridge_program_id =
      for_public_pda sha bridge_program_id bridge_seed_domain_separator

  module _ (to_vec : Transfer.Instruction → InstructionData)
      (vault_to_vec : VaultInstruction → InstructionData) where
    unfoldable pub bridge_calls :
        ProgramId
        → BridgeInstruction
        → List AccountWithMetadata
        → Result SystemFault (List ChainedCall)
    bridge_calls self (bridge_deposit op vault_program_id recipient_id amount)
          (bridge ∷ recipient_vault ∷ []) =
        do
          require (Bytes-discrete bridge.account_id (compute_bridge_account_id self)) wrong_pda
          require
              (Bytes-discrete recipient_vault.account_id
                (compute_vault_account_id sha vault_program_id recipient_id))
              wrong_vault
          ok (
              record {
                program_id = vault_program_id;
                pre_states = record bridge { is_authorized = true } ∷ recipient_vault ∷ [];
                instruction_data = vault_to_vec (Vault.deposit recipient_id amount);
                pda_seeds = bridge_seed_domain_separator ∷ [];
              }
              ∷ [])
    bridge_calls self (bridge_withdraw amount bedrock_account_pk) (sender ∷ bridge ∷ []) = do
      require (Bytes-discrete bridge.account_id (compute_bridge_account_id self)) wrong_pda
      require (Bytes-discrete sender.account.program_owner bridge.account.program_owner)
          foreign_sender
      ok (
          record {
            program_id = bridge.account.program_owner;
            pre_states = sender ∷ bridge ∷ [];
            instruction_data = to_vec (Transfer.transfer amount);
            pda_seeds = [];
          }
          ∷ [])
    bridge_calls _ _ _ = err wrong_account_count

    unfoldable pub bridge_main :
        ProgramId
        → Option ProgramId
        → InstructionData
        → List AccountWithMetadata
        → BridgeInstruction
        → Result SystemFault ProgramOutput
    bridge_main self caller words pre_states instruction = do
      no_caller caller
      calls ← bridge_calls self instruction pre_states
      ok (
          with_chained_calls
            (new_output self caller words pre_states (unchanged_post_states pre_states)) calls)
