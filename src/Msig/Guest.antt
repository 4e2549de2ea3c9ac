-- ===== src/Msig/Guest.antt =====
-- test_program_methods/guest/src/bin/msig.rs: the on-chain program. A panic is an `err`; an early
-- `return` of `main`, which commits no output, is `ok none`.
pub mod Approve
pub mod Execute
pub mod Payout
pub mod Enroll
use lp_0002_private_multisig.Prelude.{
  ℕ, ◌+◌, ◌-◌, ◌%◌, ◌^◌, Bool, true, not, Option, none, some, List, [], ◌∷◌, ◌++◌, map, leb,
  if◌then◌else◌, holds, length, take, drop, Result, ok, err, ◌>>=◌, ◌>>◌, ensure, require, refuse,
  or_err,
}
use lp_0002_private_multisig.Core.Bytes.{Bytes, Bytes-discrete}
use lp_0002_private_multisig.Core.Account.{
  ProgramId, Account, Account-discrete, AccountWithMetadata, default_account, default_program_id,
  to_data,
}
use lp_0002_private_multisig.Core.Sets.{contains}
use lp_0002_private_multisig.Core.Hash.{Sha256, nullifier_public_key, for_regular_private_account}
use lp_0002_private_multisig.Core.Program.{
  InstructionData, AccountPostState, authorized, new_post, new_claimed, ChainedCall, ProgramOutput,
  new_output, with_chained_calls,
}
use lp_0002_private_multisig.AuthTransfer.Types as Transfer
use lp_0002_private_multisig.Msig.Scheme.{
  MerkleProof, member_leaf, vote_nullifier, merkle_root, root_from_path,
}
use lp_0002_private_multisig.Msig.State.{
  proposal_header_len, registry_header_len, field, has_header, read_entries, header_count,
  encode_proposal, encode_registry,
}

pub data MsigInstruction : Type 0 where
  create_proposal_call : Bytes → Bytes → MsigInstruction
  approve_call : Bytes → MerkleProof → Bytes → MsigInstruction
  enroll_call : Bytes → MsigInstruction
  init_treasury_call : Bytes → ProgramId → MsigInstruction
  execute_call : ℕ → Bytes → MsigInstruction

-- The panics of the guest, by their messages.
pub data Fault : Type 0 where
  data_too_big header_too_short id_mismatch wrong_rider dead_rider not_a_member truncated : Fault
  double_vote below_threshold : Fault

abbrev pub vote_identifier : ℕ
vote_identifier = 0

unfoldable pub create_proposal :
    AccountWithMetadata → Bytes → Bytes → Result Fault (List AccountPostState)
create_proposal proposal member_root proposal_id = do
  content ← or_err (to_data (encode_proposal member_root proposal_id 0 [])) data_too_big
  ok (new_claimed (record proposal.account { content = content }) authorized ∷ [])

-- The leaves that `enroll` reads: none from data shorter than a header.
unfoldable pub registry_leaves : Bytes → Result Fault (List Bytes)
registry_leaves content =
    if has_header registry_header_len content
    then or_err
        (read_entries content registry_header_len (header_count content 32 registry_header_len))
        truncated
    else ok []

-- The registry with its new content, claimed if nobody owns it.
abbrev pub enrolled : AccountWithMetadata → Bytes → List AccountPostState
enrolled registry content =
    let account : Account = record registry.account { content = content } in
    elim (Bytes-discrete registry.account.program_owner default_program_id) [
      | yes p ↦ new_claimed account authorized ∷ []
      | no p ↦ new_post account ∷ []
    ]

-- `leaves.len() as u32` and `count + 1` are taken modulo 2 ^ 32, as a release build computes them.
module _ (sha : Sha256) where
  unfoldable pub enroll : AccountWithMetadata → Bytes → Result Fault (List AccountPostState)
  enroll registry leaf = do
    old ← registry_leaves registry.account.content
    let leaves : List Bytes = old ++ leaf ∷ []
    content ←
        or_err (to_data (encode_registry (merkle_root sha leaves) (length leaves % 2 ^ 32) leaves))
          data_too_big
    ok (enrolled registry content)

  unfoldable pub voting_account : Bytes → Bytes
  voting_account secret =
      for_regular_private_account sha (nullifier_public_key sha secret) vote_identifier

  -- The asserts of `approve` on the rider, and the membership proof.
  unfoldable pub check_voter :
      AccountWithMetadata → Bytes → MerkleProof → Bytes → Result Fault (Unit {0})
  check_voter rider secret merkle_path member_root = do
    require (Bytes-discrete rider.account_id (voting_account secret)) wrong_rider
    refuse (Account-discrete rider.account default_account) dead_rider
    require (Bytes-discrete (root_from_path sha (member_leaf sha secret) merkle_path) member_root)
        not_a_member

  -- The end of `approve`: the nullifiers so far, without a repetition, and the new content.
  unfoldable pub record_vote : Bytes → Bytes → Bytes → ℕ → Bytes → Result Fault Bytes
  record_vote content member_root proposal_id count nullifier = do
    nullifiers ← or_err (read_entries content proposal_header_len count) truncated
    ensure (not (contains nullifiers nullifier)) double_vote
    or_err
        (to_data (
          encode_proposal member_root proposal_id ((count + 1) % 2 ^ 32)
            (nullifiers ++ nullifier ∷ [])))
        data_too_big

  unfoldable pub approve :
      AccountWithMetadata
      → AccountWithMetadata
      → Bytes
      → MerkleProof
      → Bytes
      → Result Fault (List AccountPostState)
  approve proposal rider secret merkle_path proposal_id = do
    let content : Bytes = proposal.account.content
    ensure (has_header proposal_header_len content) header_too_short
    let member_root : Bytes = field content 0 32
    let proposal_id_state : Bytes = field content 32 64
    let count : ℕ = header_count content 64 proposal_header_len
    require (Bytes-discrete proposal_id proposal_id_state) id_mismatch
    check_voter rider secret merkle_path member_root
    new_data ←
        record_vote content member_root proposal_id_state count
          (vote_nullifier sha secret proposal_id)
    ok (new_post (record proposal.account { content = new_data }) ∷ new_post rider.account ∷ [])

abbrev pub authorize : AccountWithMetadata → AccountWithMetadata
authorize a = record a { is_authorized = true }

-- `to_vec` is the serialiser of risc0.
module _ (to_vec : Transfer.Instruction → InstructionData) where
  unfoldable pub execute :
      AccountWithMetadata
      → AccountWithMetadata
      → AccountWithMetadata
      → ℕ
      → Bytes
      → Result Fault (List AccountPostState × List ChainedCall)
  execute proposal treasury recipient threshold seed = do
    let content : Bytes = proposal.account.content
    ensure (has_header proposal_header_len content) header_too_short
    let count : ℕ = header_count content 64 proposal_header_len
    ensure (leb threshold count) below_threshold
    let chained_call : ChainedCall = record {
      program_id = treasury.account.program_owner;
      pre_states = authorize treasury ∷ recipient ∷ [];
      instruction_data = to_vec (Transfer.transfer treasury.account.balance);
      pda_seeds = seed ∷ [];
    }
    ok (
      new_post proposal.account ∷ new_post treasury.account ∷ new_post recipient.account ∷ [],
      chained_call ∷ [],
    )

  unfoldable pub init_treasury :
      AccountWithMetadata → Bytes → ProgramId → List AccountPostState × List ChainedCall
  init_treasury treasury seed transfer_program_id =
      let chained_call : ChainedCall = record {
        program_id = transfer_program_id;
        pre_states = authorize treasury ∷ [];
        instruction_data = to_vec Transfer.initialize;
        pda_seeds = seed ∷ [];
      } in
      (new_post treasury.account ∷ [], chained_call ∷ [])

-- What `read_lee_inputs` yields, with the words of the instruction.
pub record Input (I : Type 0) : Type 0 where
  pub self_program_id : ProgramId
  pub caller_program_id : Option ProgramId
  pub pre_states : List AccountWithMetadata
  pub instruction : I
  pub instruction_words : InstructionData

abbrev pub Posts : Type 0
Posts = List AccountPostState × List ChainedCall

-- An output with no chained calls.
abbrev alone : Result Fault (List AccountPostState) → Result Fault (Option Posts)
alone r = do posts ← r; ok (some (posts, []))

-- The output of `main` from the states that its branch has computed.
abbrev output_of : Input MsigInstruction → Option Posts → Option ProgramOutput
output_of i none = none
output_of i (some (posts, calls)) = some (
    with_chained_calls
      (new_output i.self_program_id i.caller_program_id i.instruction_words i.pre_states posts)
      calls)

module _ (sha : Sha256) (to_vec : Transfer.Instruction → InstructionData) where
  -- The `match` of `main`, with the number of accounts that each branch asks for.
  unfoldable pub dispatch : MsigInstruction → List AccountWithMetadata → Result Fault (Option Posts)
  dispatch (create_proposal_call root pid) (proposal ∷ []) =
      alone (create_proposal proposal root pid)
  dispatch (approve_call secret path pid) (proposal ∷ rider ∷ []) =
      alone (approve sha proposal rider secret path pid)
  dispatch (enroll_call leaf) (registry ∷ []) = alone (enroll sha registry leaf)
  dispatch (init_treasury_call seed id) (treasury ∷ []) =
      ok (some (init_treasury to_vec treasury seed id))
  dispatch (execute_call threshold seed) (proposal ∷ treasury ∷ recipient ∷ []) = do
    posts ← execute to_vec proposal treasury recipient threshold seed
    ok (some posts)
  dispatch _ _ = ok none

  unfoldable pub main : Input MsigInstruction → Result Fault (Option ProgramOutput)
  main i = do posts ← dispatch i.instruction i.pre_states; ok (output_of i posts)
