-- ===== src/Tests/Replay.antt =====
-- A payment in the whole state, and its refusal afterwards.
use lp_0002_private_multisig.Prelude.{
  ◌≡◌, refl, true, List, [], ◌∷◌, ok, some, replicate, ℕ_discrete,
}
use lp_0002_private_multisig.Core.Bytes.{Bytes, Bytes-discrete}
use lp_0002_private_multisig.Core.Account.{Account, AccountWithMetadata}
use lp_0002_private_multisig.Lee.Accounts.{
  Accounts, lookup, insert, get_account_by_id, nonce_increment, apply_diff, bump_nonces,
}
use lp_0002_private_multisig.Lee.Public.{from_public_transaction}
use lp_0002_private_multisig.Lee.MerkleTree.{
  doubled_to, next_power_of_two, zeros_of, trailing_zeros, get_node, depth, root_index, root,
}
use lp_0002_private_multisig.Lee.Commitments.{insert_all, extend, digest, extend_nullifiers}
use lp_0002_private_multisig.Lee.State.{V03State, insert_program, apply_state_diff}
use lp_0002_private_multisig.Lee.Private.{
  Zkvm, is_empty, public_state_diff, transition_from_public_transaction,
}
use lp_0002_private_multisig.Lee.Private.Replay.{
  HaveSameNonces, KeepsNonces, here, public-no_replay,
}
use lp_0002_private_multisig.Tests.Ledger.{
  cut32, alice, machine, ledger, payment, settled, accepted_payment,
}

-- A verifier of outputs without public accounts alone.
abbrev closed : Zkvm
closed = record {
  is_proof_valid_for = λ proof out. is_empty out.public_post_states;
  image_id = λ code. some code;
}

none_posted :
    (pres : List AccountWithMetadata) (posts : List Account)
    → is_empty posts ≡ true
    → HaveSameNonces pres posts
none_posted [] posts h = tt
none_posted (pre ∷ pres) [] h = tt
none_posted (pre ∷ pres) (post ∷ posts) h = cc

closed-KeepsNonces : KeepsNonces closed
closed-KeepsNonces proof out h = none_posted out.public_pre_states out.public_post_states h

abbrev leaf : Bytes
leaf = replicate 32 0

abbrev state_with : Accounts → List Bytes → V03State
state_with accounts roots = record {
  public_state = accounts;
  commitment_set = record {
    merkle_tree = record { nodes = leaf ∷ leaf ∷ leaf ∷ []; capacity = 2; size = 0 };
    commitments = [];
    root_history = roots;
  };
  nullifier_set = [];
  programs = [];
}

applied :
    transition_from_public_transaction cut32 machine closed (state_with ledger []) 0 0 payment
    ≡ ok (state_with settled (leaf ∷ []))
unfolding transition_from_public_transaction public_state_diff apply_state_diff apply_diff
    bump_nonces nonce_increment insert get_account_by_id lookup extend insert_all digest root
    root_index depth next_power_of_two doubled_to trailing_zeros zeros_of get_node extend_nullifiers
    insert_program Bytes-discrete ℕ_discrete
applied = rw accepted_payment refl

public-no_replay_example :
    ¬ ((diff : Accounts) × (from_public_transaction cut32 settled machine 1 1 payment ≡ ok diff))
public-no_replay_example =
    public-no_replay cut32 closed machine machine 0 0 1 1 payment alice.account_id []
      (state_with ledger []) (state_with settled (leaf ∷ [])) (state_with settled (leaf ∷ []))
      closed-KeepsNonces refl applied here
