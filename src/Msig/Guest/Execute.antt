-- ===== src/Msig/Guest/Execute.antt =====
-- `execute`: when it releases the treasury, and what the release is.
use lp_0002_private_multisig.Prelude.{ℕ, ◌≤◌, ◌≡◌, true, [], ◌∷◌, arith, ok}
use lp_0002_private_multisig.Core.Bytes.{Bytes}
use lp_0002_private_multisig.Core.Account.{AccountWithMetadata}
use lp_0002_private_multisig.Core.Program.{InstructionData, new_post}
use lp_0002_private_multisig.AuthTransfer.Types as Transfer
use lp_0002_private_multisig.Msig.State.{has_header, header_count}
use lp_0002_private_multisig.Msig.Guest.{Posts, authorize, execute}

module _ (to_vec : Transfer.Instruction → InstructionData)
    (proposal treasury recipient : AccountWithMetadata) (threshold : ℕ) (seed : Bytes) where
  -- All three accounts as they were, and one call that moves the whole balance of the treasury, which
  -- it marks as authorized by the seed.
  abbrev pub release : Posts
  release = (
    new_post proposal.account ∷ new_post treasury.account ∷ new_post recipient.account ∷ [],
    record {
      program_id = treasury.account.program_owner;
      pre_states = authorize treasury ∷ recipient ∷ [];
      instruction_data = to_vec (Transfer.transfer treasury.account.balance);
      pda_seeds = seed ∷ [];
    }
        ∷ [],
  )

  pub execute_sound :
      {out : Posts}
      → execute to_vec proposal treasury recipient threshold seed ≡ ok out
      → (has_header 68 proposal.account.content ≡ true)
        × (threshold ≤ header_count proposal.account.content 64 68)
        × (out ≡ release)
  unfolding execute
  execute_sound h = ground arith

  -- `execute` releases the whole balance of any treasury against any account of 68 bytes or more whose
  -- header counts at least the threshold, which is an argument of the call: with threshold 0 always.
  pub execute_complete :
      has_header 68 proposal.account.content ≡ true
      → threshold ≤ header_count proposal.account.content 64 68
      → execute to_vec proposal treasury recipient threshold seed ≡ ok release
  unfolding execute
  execute_complete long enough = ground arith
