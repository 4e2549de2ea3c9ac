-- ===== src/Tests/Vault.antt =====
-- A claim from a vault, and a deposit into it.
use lp_0002_private_multisig.Prelude.{
  ◌≡◌, refl, arith, true, false, zero, suc, Option, none, some, [], ◌∷◌, replicate, ok, resize,
  length-resize,
}
use lp_0002_private_multisig.Core.Bytes.{Bytes}
use lp_0002_private_multisig.Core.Account.{AccountWithMetadata, default_account}
use lp_0002_private_multisig.Core.Hash.{Sha256}
use lp_0002_private_multisig.Core.Program.{
  InstructionData, ProgramOutput, new_output, with_chained_calls,
}
use lp_0002_private_multisig.Vault.Guest.Moves.{IsMove, vault_main-claim, vault_main-deposit}
use lp_0002_private_multisig.AuthTransfer.Types as Transfer
use lp_0002_private_multisig.Vault.Guest.{
  claim, deposit, move_call, unchanged_post_states, vault_calls, vault_main,
}
use lp_0002_private_multisig.Vault.Guest.Rules.{compute_vault_account_id-injective}
use lp_0002_private_multisig.Tests.Packing.{packed, packed-IsCollisionFree}

abbrev pub short_sha : Sha256
short_sha = record { hash_bytes = resize 32 0; length-hash_bytes = length-resize 32 0 }

abbrev pub words_of : Transfer.Instruction → InstructionData
words_of (Transfer.transfer amount) = 0 ∷ amount ∷ []
words_of Transfer.initialize = 1 ∷ []

abbrev owner : AccountWithMetadata
owner = record { account = default_account; is_authorized = true; account_id = replicate 32 1 }

abbrev owner_vault : AccountWithMetadata
owner_vault = record {
  account = record default_account { program_owner = replicate 8 3; balance = 20 };
  is_authorized = false;
  account_id = replicate 32 2;
}

abbrev claimed : ProgramOutput
claimed =
    with_chained_calls
      (new_output (replicate 8 9) none (7 ∷ []) (owner ∷ owner_vault ∷ [])
        (unchanged_post_states (owner ∷ owner_vault ∷ [])))
      (move_call short_sha words_of (record owner_vault { is_authorized = true }) owner
          (replicate 8 3) 20 owner.account_id
        ∷ [])

accepted_claim :
    vault_main short_sha words_of
      (replicate 8 9)
      none
      (7 ∷ [])
      (owner ∷ owner_vault ∷ [])
      (claim 20)
    ≡ ok claimed
unfolding vault_main vault_calls
accepted_claim = refl

abbrev read_words : InstructionData → Option Transfer.Instruction
read_words (zero ∷ amount ∷ []) = some (Transfer.transfer amount)
read_words (suc zero ∷ []) = some Transfer.initialize
read_words _ = none

pub read-words : (i : Transfer.Instruction) → read_words (words_of i) ≡ some i
read-words (Transfer.transfer amount) = refl
read-words Transfer.initialize = refl

abbrev pub serde : Transfer.TransferSerde
serde = record { to_vec = words_of; from_vec = read_words; from_vec-to_vec = read-words }

vault_main-claim_example :
    (true ≡ true)
    × IsMove short_sha serde
        (replicate 8 9)
        owner.account_id
        (owner ∷ owner_vault ∷ [])
        owner_vault
        owner
        20
        claimed
vault_main-claim_example =
    vault_main-claim short_sha serde (replicate 8 9) none (7 ∷ []) owner owner_vault 20
      (omega arith) (omega arith) accepted_claim

abbrev saver : AccountWithMetadata
saver = record {
  account = record default_account { program_owner = replicate 8 3; balance = 50 };
  is_authorized = true;
  account_id = replicate 32 4;
}

abbrev deposited : ProgramOutput
deposited =
    with_chained_calls
      (new_output (replicate 8 9) none (7 ∷ []) (saver ∷ owner_vault ∷ [])
        (unchanged_post_states (saver ∷ owner_vault ∷ [])))
      (move_call short_sha words_of saver (record owner_vault { is_authorized = true })
          (replicate 8 3) 30 owner.account_id
        ∷ [])

accepted_deposit :
    vault_main short_sha words_of
      (replicate 8 9)
      none
      (7 ∷ [])
      (saver ∷ owner_vault ∷ [])
      (deposit owner.account_id 30)
    ≡ ok deposited
unfolding vault_main vault_calls
accepted_deposit = refl

vault_main-deposit_example :
    IsMove short_sha serde
      (replicate 8 9)
      owner.account_id
      (saver ∷ owner_vault ∷ [])
      saver
      owner_vault
      30
      deposited
vault_main-deposit_example =
    vault_main-deposit short_sha serde (replicate 8 9) none (7 ∷ []) saver owner_vault
      owner.account_id 30 refl (omega arith) (omega arith) accepted_deposit

abbrev some_owner : Bytes
some_owner = replicate 32 5

compute_vault_account_id-injective_example : some_owner ≡ some_owner
compute_vault_account_id-injective_example =
    compute_vault_account_id-injective packed packed-IsCollisionFree (replicate 8 9) some_owner
      some_owner refl
