-- ===== src/Lee/Private.antt =====
-- lee/state_machine/src/validated_state_diff.rs and state.rs: privacy-preserving transactions and program
-- deployments. Whether a proof verifies and the image id of a bytecode are parameters.
pub mod Sets
pub mod Spent
pub mod Messages
pub mod Refines
pub mod Total
pub mod Replay
use lp_0002_private_multisig.Prelude.{
  ℕ, Bool, true, false, ◌&&◌, ◌||◌, not, Option, none, some, List, [], ◌∷◌, map, length, ℕ_discrete,
  Result, ok, err, ◌>>=◌, ◌>>◌, or_err, ensure, require, refuse,
}
use lp_0002_private_multisig.Core.Bytes.{Bytes}
use lp_0002_private_multisig.Core.Account.{ProgramId, AccountId, Account, AccountWithMetadata}
use lp_0002_private_multisig.Core.Hash.{Sha256}
use lp_0002_private_multisig.Core.Sets.{contains, n_unique}
use lp_0002_private_multisig.Core.Maps.{members}
use lp_0002_private_multisig.Core.Window.{ValidityWindow, is_valid_for}
use lp_0002_private_multisig.Lee.Accounts.{Accounts}
use lp_0002_private_multisig.Lee.Public.{
  Vm, Transaction, LeeError, check_nonces, input_pre_states, from_public_transaction, empty_message,
  duplicate_account_ids, duplicate_nullifiers, duplicate_commitments, nonce_count_mismatch,
  invalid_signature, out_of_validity_window, invalid_privacy_preserving_proof,
  invalid_program_bytecode, program_already_exists,
}
use lp_0002_private_multisig.Lee.State.{
  Program, V03State, StateDiff, StateError, or_refused, check_commitments_are_new,
  check_nullifiers_are_valid, apply_state_diff,
}

-- `Message` of a privacy-preserving transaction.
pub record Message : Type 0 where
  pub public_account_ids : List AccountId
  pub nonces : List ℕ
  pub public_post_states : List Account
  pub encrypted_private_post_states : List Bytes
  pub new_commitments : List Bytes
  pub new_nullifiers : List (Bytes × Bytes)
  pub block_validity_window : ValidityWindow
  pub timestamp_validity_window : ValidityWindow

-- A `PrivacyPreservingTransaction`, with the accounts of the public keys in its witness set, one for each
-- signature, and whether the signatures verify.
pub record PrivateTransaction : Type 0 where
  pub message : Message
  pub signer_account_ids : List AccountId
  pub signatures_valid : Bool
  pub proof : Bytes

pub record PrivacyPreservingCircuitOutput : Type 0 where
  pub public_pre_states : List AccountWithMetadata
  pub public_post_states : List Account
  pub encrypted_private_post_states : List Bytes
  pub new_commitments : List Bytes
  pub new_nullifiers : List (Bytes × Bytes)
  pub block_validity_window : ValidityWindow
  pub timestamp_validity_window : ValidityWindow

-- The verifier of proofs, and the image id of a program's bytecode, where it has one.
pub record Zkvm : Type 0 where
  pub is_proof_valid_for : Bytes → PrivacyPreservingCircuitOutput → Bool
  pub image_id : Bytes → Option ProgramId

-- The nullifiers of a message, without the digests.
abbrev pub nullifiers_of : List (Bytes × Bytes) → List Bytes
nullifiers_of [] = []
nullifiers_of ((n, d) ∷ ns) = n ∷ nullifiers_of ns

-- `zip` of the public accounts with their post-states.
abbrev pub zipped : List AccountId → List Account → Accounts
zipped [] posts = []
zipped (id ∷ ids) [] = []
zipped (id ∷ ids) (post ∷ posts) = (id, post) ∷ zipped ids posts

-- The output that the proof must be of.
abbrev pub circuit_output : List AccountWithMetadata → Message → PrivacyPreservingCircuitOutput
circuit_output pres m = record {
  public_pre_states = pres;
  public_post_states = m.public_post_states;
  encrypted_private_post_states = m.encrypted_private_post_states;
  new_commitments = m.new_commitments;
  new_nullifiers = m.new_nullifiers;
  block_validity_window = m.block_validity_window;
  timestamp_validity_window = m.timestamp_validity_window;
}

abbrev pub is_empty : {A : Type 0} → List A → Bool
is_empty [] = true
is_empty (x ∷ xs) = false

-- The checks 1 to 2 of the message alone.
unfoldable pub check_sets : Message → Result LeeError (Unit {0})
check_sets m = do
  ensure (not (is_empty m.new_commitments) || not (is_empty m.new_nullifiers)) empty_message
  require (ℕ_discrete (n_unique m.public_account_ids) (length m.public_account_ids))
      duplicate_account_ids
  require (ℕ_discrete (n_unique (nullifiers_of m.new_nullifiers)) (length m.new_nullifiers))
      duplicate_nullifiers
  require (ℕ_discrete (n_unique m.new_commitments) (length m.new_commitments)) duplicate_commitments

module _ (sha : Sha256) (vm : Vm) (zkvm : Zkvm) (state : V03State) (block_id timestamp : ℕ) where
  -- The checks 3: signatures, nonces and the validity windows.
  unfoldable pub check_signers : PrivateTransaction → Result LeeError (Unit {0})
  check_signers tx = do
    require (ℕ_discrete (length tx.message.nonces) (length tx.signer_account_ids))
        nonce_count_mismatch
    ensure tx.signatures_valid invalid_signature
    check_nonces sha state.public_state vm block_id timestamp tx.signer_account_ids
        tx.message.nonces
    ensure
        (is_valid_for tx.message.block_validity_window block_id
          && is_valid_for tx.message.timestamp_validity_window timestamp)
        out_of_validity_window

  unfoldable pub check_privacy_preserving_circuit_proof_is_valid :
      PrivateTransaction → Result LeeError (Unit {0})
  check_privacy_preserving_circuit_proof_is_valid tx =
      let pres : List AccountWithMetadata =
        input_pre_states sha state.public_state vm block_id timestamp tx.signer_account_ids
          tx.message.public_account_ids in
      ensure (zkvm.is_proof_valid_for tx.proof (circuit_output pres tx.message))
        invalid_privacy_preserving_proof

  unfoldable pub from_privacy_preserving_transaction :
      PrivateTransaction → Result LeeError StateDiff
  from_privacy_preserving_transaction tx = do
    check_sets tx.message
    check_signers tx
    check_privacy_preserving_circuit_proof_is_valid tx
    check_commitments_are_new state tx.message.new_commitments
    check_nullifiers_are_valid state tx.message.new_nullifiers
    ok (record {
      signer_account_ids = tx.signer_account_ids;
      public_diff = zipped tx.message.public_account_ids tx.message.public_post_states;
      new_commitments = tx.message.new_commitments;
      new_nullifiers = nullifiers_of tx.message.new_nullifiers;
      program = none;
    })

  -- `Program::new` and `from_program_deployment_transaction`
  unfoldable pub from_program_deployment_transaction : Bytes → Result LeeError StateDiff
  from_program_deployment_transaction bytecode = do
    id ← or_err (zkvm.image_id bytecode) invalid_program_bytecode
    ensure (not (contains (members state.programs) id)) program_already_exists
    ok (record {
      signer_account_ids = [];
      public_diff = [];
      new_commitments = [];
      new_nullifiers = [];
      program = some (record { id = id; elf = bytecode });
    })

  -- The diff of a public transaction, as a whole.
  unfoldable pub public_state_diff : Transaction → Result LeeError StateDiff
  public_state_diff tx = do
    diff ← from_public_transaction sha state.public_state vm block_id timestamp tx
    ok (record {
      signer_account_ids = tx.signer_account_ids;
      public_diff = diff;
      new_commitments = [];
      new_nullifiers = [];
      program = none;
    })

  unfoldable pub transition_from_public_transaction : Transaction → Result StateError V03State
  transition_from_public_transaction tx = do
    diff ← or_refused (public_state_diff tx)
    apply_state_diff sha state diff

  unfoldable pub transition_from_privacy_preserving_transaction :
      PrivateTransaction → Result StateError V03State
  transition_from_privacy_preserving_transaction tx = do
    diff ← or_refused (from_privacy_preserving_transaction tx)
    apply_state_diff sha state diff

  unfoldable pub transition_from_program_deployment_transaction : Bytes → Result StateError V03State
  transition_from_program_deployment_transaction bytecode = do
    diff ← or_refused (from_program_deployment_transaction bytecode)
    apply_state_diff sha state diff
