-- ===== src/Lee/Private/Total.antt =====
-- lee/state_machine/src/state.rs: applying a diff panics for no other reason than the last nonce.
use lp_0002_private_multisig.Prelude.{
  ℕ, ◌+◌, ◌^◌, ◌≤◌, ◌≡◌, refl, some, List, [], ◌∷◌, length, ok, arith,
}
use lp_0002_private_multisig.Core.Bytes.{Bytes}
use lp_0002_private_multisig.Core.Hash.{Sha256}
use lp_0002_private_multisig.Core.Maps.{put}
use lp_0002_private_multisig.Lee.Accounts.{Accounts, apply_diff, bump_nonces}
use lp_0002_private_multisig.Lee.MerkleTree.Safe as Tree
use lp_0002_private_multisig.Lee.MerkleTree.Safe.{insert-Returns, root-Returns}
use lp_0002_private_multisig.Lee.Commitments.{
  CommitmentSet, insert_all, extend, extend_nullifiers, digest,
}
use lp_0002_private_multisig.Lee.State.{V03State, StateDiff, insert_program, apply_state_diff}

-- A set whose tree is well formed and has room for so many more leaves.
pub record HasRoom (set : CommitmentSet) (more : ℕ) : Type 0 where
  pub d : ℕ
  pub formed : Tree.IsWellFormed set.merkle_tree d
  pub room : set.merkle_tree.size + more ≤ 2 ^ 31

module _ (sha : Sha256) where
  insert_all-Returns :
      (set : CommitmentSet) (new : List Bytes)
      → HasRoom set (length new)
      → (set' : CommitmentSet) × (insert_all sha set new ≡ ok set')
        × HasRoom set' 0
        × (set'.merkle_tree.size ≡ set.merkle_tree.size + length new)
  unfolding insert_all
  insert_all-Returns set [] h = (set, refl, h, omega arith)
  insert_all-Returns set (c ∷ cs) h =
      let (tree, d, e, grown, formed) =
        insert-Returns sha set.merkle_tree h.d c h.formed (omega (arith, h.room)) in
      let next : CommitmentSet = record set {
        merkle_tree = tree;
        commitments = put c set.merkle_tree.size set.commitments;
      } in
      let (set', e', room, size) =
        insert_all-Returns next cs
          (record { d = d; formed = formed; room = omega (arith, h.room, grown) }) in
      (set', rw e e', room, omega (arith, size, grown))

  pub extend-Returns :
      (set : CommitmentSet) (new : List Bytes)
      → HasRoom set (length new)
      → (set' : CommitmentSet) × (extend sha set new ≡ ok set')
        × HasRoom set' 0
        × (set'.merkle_tree.size ≡ set.merkle_tree.size + length new)
  unfolding extend digest
  extend-Returns set new h =
      let (filled, e, room, size) = insert_all-Returns set new h in
      let (now, e') = root-Returns filled.merkle_tree room.d room.formed in
      (
        record filled { root_history = now ∷ filled.root_history },
        rw (e, e') refl,
        record { d = room.d; formed = room.formed; room = room.room },
        size,
      )

  -- Where no signer's nonce ends and the tree of commitments is well formed and has at most `2 ^ 31` leaves with the
  -- new ones, applying a diff returns, its tree is well formed again, and the leaves have grown by the new
  -- commitments: only the end of a nonce makes it panic.
  pub apply_state_diff-Returns :
      (state : V03State) (diff : StateDiff) (accounts : Accounts)
      → bump_nonces (apply_diff state.public_state diff.public_diff) diff.signer_account_ids
        ≡ some accounts
      → HasRoom state.commitment_set (length diff.new_commitments)
      → (state' : V03State) × (apply_state_diff sha state diff ≡ ok state')
        × HasRoom state'.commitment_set 0
        × (state'.commitment_set.merkle_tree.size
            ≡ state.commitment_set.merkle_tree.size + length diff.new_commitments)
  unfolding apply_state_diff
  apply_state_diff-Returns state diff accounts bumped h =
      let (set, e, room, size) = extend-Returns state.commitment_set diff.new_commitments h in
      (
        record {
          public_state = accounts;
          commitment_set = set;
          nullifier_set = extend_nullifiers state.nullifier_set diff.new_nullifiers;
          programs = insert_program state.programs diff.program;
        },
        rw (bumped, e) refl,
        room,
        size,
      )
