-- ===== src/Lee/Public.antt =====
-- lee/state_machine/src/validated_state_diff.rs: `from_public_transaction`. The virtual machine that
-- runs a program, the signatures and the public keys are parameters.
pub mod Diff
pub mod Conserve
use lp_0002_private_multisig.Prelude.{
  ℕ, zero, suc, ◌+◌, ◌≡◌, Bool, true, false, not, ◌&&◌, ◌||◌, Option, none, some, List, [], ◌∷◌,
  ◌++◌, map, ◌==◌, if◌then◌else◌, holds, length, All, Result, ok, err, ◌>>=◌, ◌>>◌, ensure, require,
  ℕ_discrete,
}
use lp_0002_private_multisig.Core.Bytes.{Bytes, Bytes-discrete}
use lp_0002_private_multisig.Core.Account.{
  ProgramId, AccountId, Account, Account-discrete, AccountWithMetadata, default_account,
  default_program_id,
}
use lp_0002_private_multisig.Core.Sets.{contains, n_unique}
use lp_0002_private_multisig.Core.Hash.{Sha256, for_public_pda}
use lp_0002_private_multisig.Core.Window.{is_valid_for}
use lp_0002_private_multisig.Core.Balance.{IsU128}
use lp_0002_private_multisig.Core.Program.{
  Claim, authorized, pda, PdaSeed, InstructionData, AccountPostState, ChainedCall, ProgramOutput,
}
use lp_0002_private_multisig.Core.Validate.{
  ValidationError, validate_execution, pre_balances, post_balances,
}
use lp_0002_private_multisig.Lee.Accounts.{Accounts, lookup, insert, get_account_by_id}

-- The deployed programs and what running one yields: `none` is an execution that fails. The output
-- is deserialised, so its balances are `u128`s.
pub record Vm : Type 0 where
  pub deployed : ProgramId → Bool
  pub execute :
      ProgramId
      → Option ProgramId
      → List AccountWithMetadata
      → InstructionData
      → Option ProgramOutput
  pub execute_u128 :
      (p : ProgramId) (c : Option ProgramId) (pres : List AccountWithMetadata) (i : InstructionData)
      {out : ProgramOutput}
      → execute p c pres i ≡ some out
      → All IsU128 (pre_balances out.pre_states) × All IsU128 (post_balances out.post_states)

-- A `PublicTransaction`: the message, the accounts of the public keys in the witness set, one for each
-- signature, and whether the signatures verify.
pub record Transaction : Type 0 where
  pub program_id : ProgramId
  pub account_ids : List AccountId
  pub nonces : List ℕ
  pub instruction_data : InstructionData
  pub signer_account_ids : List AccountId
  pub signatures_valid : Bool

pub data LeeError : Type 0 where
  duplicate_account_ids nonce_count_mismatch invalid_signature nonce_mismatch : LeeError
  unknown_program execution_failed max_chained_calls_depth_exceeded : LeeError
  out_of_validity_window mismatched_program_id mismatched_caller_program_id : LeeError
  inconsistent_account_pre_state invalid_account_authorization : AccountId → LeeError
  authorized_account_marked_as_not_authorized claimed_non_default_account : AccountId → LeeError
  claimed_unauthorized_account mismatched_pda_claim : AccountId → LeeError
  default_account_modified_without_claim : AccountId → LeeError
  execution_validation_failed : ValidationError → LeeError
  empty_message duplicate_nullifiers duplicate_commitments invalid_privacy_preserving_proof :
      LeeError
  commitment_already_seen nullifier_already_seen unrecognized_digest : LeeError
  invalid_program_bytecode program_already_exists : LeeError

pub record CallerData : Type 0 where
  pub program_id : Option ProgramId
  pub authorized_accounts : List AccountId

abbrev pub max_number_chained_calls : ℕ
max_number_chained_calls = 10

unfoldable pub Caller-discrete : Discrete (Option ProgramId)
unfolding ℕ_discrete
Caller-discrete = hlevel ℕ_discrete

-- `map_err(ExecutionValidationFailed)`
abbrev pub validated : Result ValidationError (Unit {0}) → Result LeeError (Unit {0})
validated (ok u) = ok u
validated (err e) = err (execution_validation_failed e)

abbrev pub run_or_err : Option ProgramOutput → Result LeeError ProgramOutput
run_or_err none = err execution_failed
run_or_err (some out) = ok out

module _ (sha : Sha256) (state : Accounts) where
  -- The account as the diff so far shows it.
  unfoldable pub view : Accounts → AccountId → Account
  view diff id = elim (lookup id diff) [ none ↦ get_account_by_id state id | some a ↦ a ]

  -- `compute_public_authorized_pdas`
  unfoldable pub authorized_pdas : Option ProgramId → List PdaSeed → List AccountId
  authorized_pdas none seeds = []
  authorized_pdas (some caller) seeds = map (for_public_pda sha caller) seeds

  -- The closure `is_authorized`.
  unfoldable pub is_indeed_authorized : CallerData → List PdaSeed → AccountId → Bool
  is_indeed_authorized caller seeds id =
      contains (authorized_pdas caller.program_id seeds) id
      || contains caller.authorized_accounts id

  -- The first loop, over the pre-states of the output.
  unfoldable pub check_pres :
      Accounts → CallerData → List PdaSeed → List AccountWithMetadata → Result LeeError (Unit {0})
  check_pres diff caller seeds [] = ok tt
  check_pres diff caller seeds (pre ∷ pres) = do
    require (Account-discrete pre.account (view diff pre.account_id))
        (inconsistent_account_pre_state pre.account_id)
    let indeed : Bool = is_indeed_authorized caller seeds pre.account_id
    ensure (not pre.is_authorized || indeed) (invalid_account_authorization pre.account_id)
    ensure (pre.is_authorized || not indeed)
        (authorized_account_marked_as_not_authorized pre.account_id)
    check_pres diff caller seeds pres

  -- The `match claim`.
  check_claim : ProgramId → AccountWithMetadata → Claim → Result LeeError (Unit {0})
  check_claim program pre authorized =
      ensure pre.is_authorized (claimed_unauthorized_account pre.account_id)
  check_claim program pre (pda seed) =
      require (Bytes-discrete pre.account_id (for_public_pda sha program seed))
        (mismatched_pda_claim pre.account_id)

  -- One round of the claim loop: the account, with its new owner if it is claimed.
  claim_post : ProgramId → AccountWithMetadata → Account → Option Claim → Result LeeError Account
  claim_post program pre post none = ok post
  claim_post program pre post (some claim) = do
    require (Bytes-discrete post.program_owner default_program_id)
        (claimed_non_default_account pre.account_id)
    check_claim program pre claim
    ok (record post { program_owner = program })

  -- The claim loop. The two lists are of one length, as `validate_execution` has found.
  unfoldable pub claim_posts :
      ProgramId → List AccountWithMetadata → List AccountPostState → Result LeeError (List Account)
  unfolding claim_post check_claim
  claim_posts program [] posts = ok []
  claim_posts program (pre ∷ pres) [] = ok []
  claim_posts program (pre ∷ pres) (post ∷ posts) = do
    a ← claim_post program pre post.account post.claim
    rest ← claim_posts program pres posts
    ok (a ∷ rest)

  -- The loop that updates the diff.
  unfoldable pub update_diff : Accounts → List AccountWithMetadata → List Account → Accounts
  update_diff diff [] posts = diff
  update_diff diff (pre ∷ pres) [] = diff
  update_diff diff (pre ∷ pres) (post ∷ posts) =
      update_diff (insert pre.account_id post diff) pres posts

  abbrev pub marked : List AccountWithMetadata → List AccountId
  marked [] = []
  marked (pre ∷ pres) = if pre.is_authorized then pre.account_id ∷ marked pres else marked pres

  module _ (vm : Vm) (block_id timestamp : ℕ) where
    -- The checks and effects of one call, behind the execution: the new diff and the calls it adds.
    unfoldable pub settle_output :
        ChainedCall
        → CallerData
        → Accounts
        → ProgramOutput
        → Result LeeError (Accounts × List (ChainedCall × CallerData))
    settle_output call caller diff out = do
      check_pres diff caller call.pda_seeds out.pre_states
      require (Bytes-discrete out.self_program_id call.program_id) mismatched_program_id
      require (Caller-discrete out.caller_program_id caller.program_id) mismatched_caller_program_id
      validated (validate_execution call.program_id out.pre_states out.post_states)
      ensure
          (is_valid_for out.block_validity_window block_id
            && is_valid_for out.timestamp_validity_window timestamp)
          out_of_validity_window
      posts ← claim_posts call.program_id out.pre_states out.post_states
      let inherited : CallerData = record {
        program_id = some call.program_id;
        authorized_accounts = caller.authorized_accounts ++ marked out.pre_states;
      }
      ok (update_diff diff out.pre_states posts, map (λ c. (c, inherited)) out.chained_calls)

    -- The `while` loop over the queue of calls, by the rounds that `chain_calls_counter` leaves: the
    -- code stops when the counter has passed 10, so there are 11 rounds.
    unfoldable pub run_calls :
        ℕ → List (ChainedCall × CallerData) → Accounts → Result LeeError Accounts
    run_calls rounds [] diff = ok diff
    run_calls zero (job ∷ queue) diff = err max_chained_calls_depth_exceeded
    run_calls (suc rounds) ((call, caller) ∷ queue) diff = do
      ensure (vm.deployed call.program_id) unknown_program
      out ←
          run_or_err
            (vm.execute call.program_id caller.program_id call.pre_states call.instruction_data)
      settled ← settle_output call caller diff out
      run_calls rounds (settled.1 ++ queue) settled.0

    -- The last loop: an account that nobody owned is unchanged or has an owner now.
    unfoldable pub check_claimed : Accounts → Result LeeError (Unit {0})
    check_claimed [] = ok tt
    check_claimed ((id, post) ∷ diff) = do
      elim (Bytes-discrete (get_account_by_id state id).program_owner default_program_id) [
        | no p ↦ ok tt
        | yes p ↦ elim (Account-discrete (get_account_by_id state id) post) [
          | yes q ↦ ok tt
          | no q ↦ elim (Bytes-discrete post.program_owner default_program_id) [
            | yes r ↦ err (default_account_modified_without_claim id)
            | no r ↦ ok tt
          ]
        ]
      ]
      check_claimed diff

    -- The loop that compares the nonces; `zip` stops with the shorter list.
    unfoldable pub check_nonces : List AccountId → List ℕ → Result LeeError (Unit {0})
    check_nonces [] nonces = ok tt
    check_nonces (s ∷ signers) [] = ok tt
    check_nonces (s ∷ signers) (n ∷ nonces) = do
      require (ℕ_discrete (get_account_by_id state s).nonce n) nonce_mismatch
      check_nonces signers nonces

    abbrev pub input_pre_states : List AccountId → List AccountId → List AccountWithMetadata
    input_pre_states signers [] = []
    input_pre_states signers (id ∷ rest) =
        record {
          account = get_account_by_id state id;
          is_authorized = contains signers id;
          account_id = id;
        }
        ∷ input_pre_states signers rest

    unfoldable pub check_message : Transaction → Result LeeError (Unit {0})
    unfolding check_nonces
    check_message tx = do
      require (ℕ_discrete (n_unique tx.account_ids) (length tx.account_ids)) duplicate_account_ids
      require (ℕ_discrete (length tx.nonces) (length tx.signer_account_ids)) nonce_count_mismatch
      ensure tx.signatures_valid invalid_signature
      check_nonces tx.signer_account_ids tx.nonces

    abbrev pub first_job : Transaction → ChainedCall × CallerData
    first_job tx = (
      record {
        program_id = tx.program_id;
        pre_states = input_pre_states tx.signer_account_ids tx.account_ids;
        instruction_data = tx.instruction_data;
        pda_seeds = [];
      },
      record { program_id = none; authorized_accounts = tx.signer_account_ids },
    )

    -- The public diff that `from_public_transaction` returns.
    unfoldable pub from_public_transaction : Transaction → Result LeeError Accounts
    unfolding check_claimed
    from_public_transaction tx = do
      check_message tx
      diff ← run_calls (max_number_chained_calls + 1) (first_job tx ∷ []) []
      check_claimed diff
      ok diff
