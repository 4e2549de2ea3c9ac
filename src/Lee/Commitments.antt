-- ===== src/Lee/Commitments.antt =====
-- lee/state_machine/src/state.rs: the `CommitmentSet` and the `NullifierSet`.
use lp_0002_private_multisig.Prelude.{
  ℕ, Bool, Option, none, some, List, [], ◌∷◌, Result, ok, ◌>>=◌, if◌then◌else◌,
}
use lp_0002_private_multisig.Core.Bytes.{Bytes}
use lp_0002_private_multisig.Core.Hash.{Sha256}
use lp_0002_private_multisig.Core.Sets.{contains}
use lp_0002_private_multisig.Core.Maps.{value_at, put, members}
use lp_0002_private_multisig.Lee.MerkleTree.{
  MerkleTree, TreePanic, with_capacity, root, insert, get_authentication_path_for,
}

-- `HashMap<Commitment, usize>`
abbrev pub Indices : Type 0
Indices = List (Bytes × ℕ)

pub record CommitmentSet : Type 0 where
  pub merkle_tree : MerkleTree
  pub commitments : Indices
  pub root_history : List Bytes

-- `CommitmentSet::with_capacity`
unfoldable pub empty_set : ℕ → Result TreePanic CommitmentSet
empty_set capacity = do
  tree ← with_capacity capacity
  ok (record { merkle_tree = tree; commitments = []; root_history = [] })

unfoldable pub digest : CommitmentSet → Result TreePanic Bytes
digest set = root set.merkle_tree

-- `CommitmentSet::contains`
unfoldable pub has_commitment : CommitmentSet → Bytes → Bool
has_commitment set c = contains (members set.commitments) c

unfoldable pub get_proof_for : CommitmentSet → Bytes → Result TreePanic (Option (ℕ × List Bytes))
get_proof_for set c = elim (value_at c set.commitments) [
  | none ↦ ok none
  | some index ↦ (do
    path ← get_authentication_path_for set.merkle_tree index
    elim path [ none ↦ ok none | some nodes ↦ ok (some (index, nodes)) ])
]

module _ (sha : Sha256) where
  -- The loop of `extend`.
  unfoldable pub insert_all : CommitmentSet → List Bytes → Result TreePanic CommitmentSet
  insert_all set [] = ok set
  insert_all set (c ∷ cs) = do
    placed ← insert sha set.merkle_tree c
    insert_all (record set { merkle_tree = placed.0; commitments = put c placed.1 set.commitments })
        cs

  unfoldable pub extend : CommitmentSet → List Bytes → Result TreePanic CommitmentSet
  extend set new = do
    filled ← insert_all set new
    now ← digest filled
    ok (record filled { root_history = now ∷ filled.root_history })

-- `NullifierSet`: its members, the latest first.
abbrev pub NullifierSet : Type 0
NullifierSet = List Bytes

unfoldable pub extend_nullifiers : NullifierSet → List Bytes → NullifierSet
extend_nullifiers set [] = set
extend_nullifiers set (n ∷ ns) =
    let more = if contains set n then set else n ∷ set in extend_nullifiers more ns
