-- ===== src/Tests/Private.antt =====
-- A privacy-preserving transaction on a small state, with a verifier that accepts every proof.
use lp_0002_private_multisig.Prelude.{
  ◌+◌, ◌≡◌, ◌↔◌, refl, true, false, none, some, [], ◌∷◌, ok, replicate, ℕ_discrete, arith,
}
use lp_0002_private_multisig.Core.Bytes.{Bytes, Bytes-discrete}
use lp_0002_private_multisig.Core.Sets.{contains, n_unique}
use lp_0002_private_multisig.Core.Maps.{put}
use lp_0002_private_multisig.Core.Window.{new_unbounded, is_valid_for}
use lp_0002_private_multisig.Lee.Accounts.{apply_diff, bump_nonces}
use lp_0002_private_multisig.Lee.Public.{Vm, check_nonces}
use lp_0002_private_multisig.Lee.MerkleTree.{
  MerkleTree, doubled_to, next_power_of_two, zeros_of, trailing_zeros, get_node, set_node, depth,
  root_index, root, hash_value, rise, insert_leaf, insert,
}
use lp_0002_private_multisig.Lee.Commitments.{
  has_commitment, insert_all, extend, digest, extend_nullifiers,
}
use lp_0002_private_multisig.Lee.State.{
  V03State, StateDiff, check_commitments_are_new, check_nullifiers_are_valid, insert_program,
  apply_state_diff,
}
use lp_0002_private_multisig.Lee.Private.{
  Message, PrivateTransaction, Zkvm, check_sets, check_signers,
  check_privacy_preserving_circuit_proof_is_valid, from_privacy_preserving_transaction,
  transition_from_privacy_preserving_transaction,
}
use lp_0002_private_multisig.Lee.Private.Spent.{here, nullifier-no_reuse}
use lp_0002_private_multisig.Lee.Private.Messages.{IsOrderly, check_sets-IsOrderly}
use lp_0002_private_multisig.Lee.Private.Total.{HasRoom, apply_state_diff-Returns}
use lp_0002_private_multisig.Tests.Vault.{short_sha}

abbrev no_vm : Vm
no_vm = record {
  deployed = λ p. false;
  execute = λ p c pres i. none;
  execute_u128 = λ p c pres i h. cc;
}

abbrev trusting : Zkvm
trusting = record { is_proof_valid_for = λ p out. true; image_id = λ code. some code }

abbrev leaf : Bytes
leaf = replicate 32 0

abbrev small_tree : MerkleTree
small_tree = record { nodes = leaf ∷ leaf ∷ leaf ∷ []; capacity = 2; size = 0 }

abbrev known_digest : Bytes
known_digest = replicate 32 7

abbrev first_state : V03State
first_state = record {
  public_state = [];
  commitment_set = record {
    merkle_tree = small_tree;
    commitments = [];
    root_history = known_digest ∷ [];
  };
  nullifier_set = [];
  programs = [];
}

abbrev spent_nullifier : Bytes
spent_nullifier = replicate 32 8

abbrev new_commitment : Bytes
new_commitment = replicate 32 9

abbrev spending : Message
spending = record {
  public_account_ids = [];
  nonces = [];
  public_post_states = [];
  encrypted_private_post_states = [];
  new_commitments = new_commitment ∷ [];
  new_nullifiers = (spent_nullifier, known_digest) ∷ [];
  block_validity_window = new_unbounded;
  timestamp_validity_window = new_unbounded;
}

abbrev spend : PrivateTransaction
spend = record { message = spending; signer_account_ids = []; signatures_valid = true; proof = [] }

-- The leaf is the root of a tree of one leaf.
abbrev second_state : V03State
second_state = record {
  public_state = [];
  commitment_set = record {
    merkle_tree = record { nodes = leaf ∷ new_commitment ∷ leaf ∷ []; capacity = 2; size = 1 };
    commitments = (new_commitment, 0) ∷ [];
    root_history = new_commitment ∷ known_digest ∷ [];
  };
  nullifier_set = spent_nullifier ∷ [];
  programs = [];
}

accepted_spend :
    transition_from_privacy_preserving_transaction short_sha no_vm trusting first_state 5 6 spend
    ≡ ok second_state
unfolding transition_from_privacy_preserving_transaction from_privacy_preserving_transaction
    check_sets check_signers check_nonces check_privacy_preserving_circuit_proof_is_valid
    check_commitments_are_new has_commitment check_nullifiers_are_valid apply_state_diff apply_diff
    bump_nonces extend insert_all digest extend_nullifiers insert_program insert insert_leaf rise
    root root_index depth next_power_of_two doubled_to trailing_zeros zeros_of get_node set_node
    hash_value put contains n_unique is_valid_for Bytes-discrete ℕ_discrete
accepted_spend = refl

listed_nullifier : contains (spent_nullifier ∷ []) spent_nullifier ≡ true
unfolding contains Bytes-discrete ℕ_discrete
listed_nullifier = refl

nullifier-no_reuse_example : ¬ (
    (diff : StateDiff) × (from_privacy_preserving_transaction short_sha no_vm trusting second_state
        7 8 spend
      ≡ ok diff))
nullifier-no_reuse_example =
    nullifier-no_reuse short_sha no_vm no_vm trusting trusting 5 6 7 8 spend spend spent_nullifier
      first_state second_state second_state accepted_spend here listed_nullifier listed_nullifier

abbrev creating : StateDiff
creating = record {
  signer_account_ids = [];
  public_diff = [];
  new_commitments = new_commitment ∷ [];
  new_nullifiers = spent_nullifier ∷ [];
  program = none;
}

no_signers : bump_nonces (apply_diff [] []) [] ≡ some []
unfolding apply_diff bump_nonces
no_signers = refl

apply_state_diff-Returns_example :
    (state' : V03State) × (apply_state_diff short_sha first_state creating ≡ ok state')
    × HasRoom state'.commitment_set 0
    × (state'.commitment_set.merkle_tree.size ≡ 0 + 1)
apply_state_diff-Returns_example =
    apply_state_diff-Returns short_sha first_state creating [] no_signers (record {
      d = 1;
      formed = record { shallow = omega arith; full = refl; nodes_of = refl; room = omega arith };
      room = omega arith;
    })

check_sets-IsOrderly_example : (check_sets spending ≡ ok tt) ↔ IsOrderly spending
check_sets-IsOrderly_example = check_sets-IsOrderly spending
