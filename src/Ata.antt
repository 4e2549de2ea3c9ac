-- ===== src/Ata.antt =====
-- programs/associated_token_account: the accounts that hold a token for an owner. A panic is an `err`.
pub mod Ownership
use lp_0002_private_multisig.Prelude.{
  ℕ, true, Option, List, [], ◌∷◌, ◌++◌, Result, ok, err, ◌>>=◌, ◌>>◌, require, ensure, or_err,
}
use lp_0002_private_multisig.Core.Bytes.{Bytes-discrete}
use lp_0002_private_multisig.Core.Account.{
  ProgramId, AccountId, AccountWithMetadata, Account-discrete, default_account,
}
use lp_0002_private_multisig.Core.Hash.{Sha256, for_public_pda}
use lp_0002_private_multisig.Core.Program.{
  PdaSeed, InstructionData, AccountPostState, ChainedCall, ProgramOutput, authorized, new_post,
  new_claimed_if_default, new_output, with_chained_calls,
}
use lp_0002_private_multisig.Token.Types as Token
use lp_0002_private_multisig.Token.Types.{Borsh}

pub data AtaInstruction : Type 0 where
  create_call : ProgramId → AtaInstruction
  transfer_call : ProgramId → ℕ → AtaInstruction
  burn_call : ProgramId → ℕ → AtaInstruction

pub data AtaFault : Type 0 where
  wrong_account_count wrong_ata owner_unauthorized invalid_holding : AtaFault

module _ (sha : Sha256) where
  open sha use {hash_bytes}

  unfoldable pub compute_ata_seed : AccountId → AccountId → PdaSeed
  compute_ata_seed owner_id definition_id = hash_bytes (owner_id ++ definition_id)

  unfoldable pub get_associated_token_account_id : ProgramId → PdaSeed → AccountId
  get_associated_token_account_id ata_program_id seed = for_public_pda sha ata_program_id seed

  unfoldable pub verify_ata_and_get_seed :
      AccountWithMetadata → AccountWithMetadata → AccountId → ProgramId → Result AtaFault PdaSeed
  verify_ata_and_get_seed ata_account owner definition_id ata_program_id = do
    let seed : PdaSeed = compute_ata_seed owner.account_id definition_id
    require
        (Bytes-discrete ata_account.account_id
          (get_associated_token_account_id ata_program_id seed))
        wrong_ata
    ok seed

  module _ (borsh : Borsh) (to_vec : Token.Instruction → InstructionData) where
    open borsh use {decode_holding}

    unfoldable pub create_associated_token_account :
        AccountWithMetadata
        → AccountWithMetadata
        → AccountWithMetadata
        → ProgramId
        → Result AtaFault (List AccountPostState × List ChainedCall)
    create_associated_token_account owner token_definition ata_account ata_program_id = do
      ata_seed ←
          verify_ata_and_get_seed ata_account owner token_definition.account_id ata_program_id
      let posts : List AccountPostState =
          new_claimed_if_default owner.account authorized
          ∷ new_post token_definition.account
          ∷ new_post ata_account.account
          ∷ []
      let call : ChainedCall = record {
        program_id = token_definition.account.program_owner;
        pre_states = token_definition ∷ record ata_account { is_authorized = true } ∷ [];
        instruction_data = to_vec Token.initialize_account;
        pda_seeds = ata_seed ∷ [];
      }
      elim (Account-discrete ata_account.account default_account) [
        | no existing ↦ ok (posts, [])
        | yes fresh ↦ ok (posts, call ∷ [])
      ]

    -- What transfers and burns share: the owner's authorization and the seed of the account it holds.
    unfoldable pub owned_seed :
        AccountWithMetadata → AccountWithMetadata → ProgramId → Result AtaFault PdaSeed
    owned_seed owner ata ata_program_id = do
      ensure owner.is_authorized owner_unauthorized
      holding ← or_err (decode_holding ata.account.content) invalid_holding
      verify_ata_and_get_seed ata owner (Token.definition_id holding) ata_program_id

    unfoldable pub transfer_from_associated_token_account :
        AccountWithMetadata
        → AccountWithMetadata
        → AccountWithMetadata
        → ProgramId
        → ℕ
        → Result AtaFault (List AccountPostState × List ChainedCall)
    transfer_from_associated_token_account owner sender_ata recipient ata_program_id amount = do
      seed ← owned_seed owner sender_ata ata_program_id
      let call : ChainedCall = record {
        program_id = sender_ata.account.program_owner;
        pre_states = record sender_ata { is_authorized = true } ∷ recipient ∷ [];
        instruction_data = to_vec (Token.transfer amount);
        pda_seeds = seed ∷ [];
      }
      ok (
        new_post owner.account ∷ new_post sender_ata.account ∷ new_post recipient.account ∷ [],
        call ∷ [],
      )

    unfoldable pub burn_from_associated_token_account :
        AccountWithMetadata
        → AccountWithMetadata
        → AccountWithMetadata
        → ProgramId
        → ℕ
        → Result AtaFault (List AccountPostState × List ChainedCall)
    burn_from_associated_token_account owner holder_ata token_definition ata_program_id amount = do
      seed ← owned_seed owner holder_ata ata_program_id
      let call : ChainedCall = record {
        program_id = holder_ata.account.program_owner;
        pre_states = token_definition ∷ record holder_ata { is_authorized = true } ∷ [];
        instruction_data = to_vec (Token.burn amount);
        pda_seeds = seed ∷ [];
      }
      ok (
        new_post owner.account
            ∷ new_post holder_ata.account
            ∷ new_post token_definition.account
            ∷ [],
        call ∷ [],
      )

    -- The `match instruction` of `main`.
    unfoldable pub ata_run :
        AtaInstruction
        → List AccountWithMetadata
        → Result AtaFault (List AccountPostState × List ChainedCall)
    ata_run (create_call ata_program_id) (owner ∷ token_definition ∷ ata_account ∷ []) =
        create_associated_token_account owner token_definition ata_account ata_program_id
    ata_run (transfer_call ata_program_id amount) (owner ∷ sender_ata ∷ recipient ∷ []) =
        transfer_from_associated_token_account owner sender_ata recipient ata_program_id amount
    ata_run (burn_call ata_program_id amount) (owner ∷ holder_ata ∷ token_definition ∷ []) =
        burn_from_associated_token_account owner holder_ata token_definition ata_program_id amount
    ata_run _ _ = err wrong_account_count

    unfoldable pub ata_main :
        ProgramId
        → Option ProgramId
        → InstructionData
        → List AccountWithMetadata
        → AtaInstruction
        → Result AtaFault ProgramOutput
    ata_main self caller words pre_states instruction = do
      r ← ata_run instruction pre_states
      ok (with_chained_calls (new_output self caller words pre_states r.0) r.1)
