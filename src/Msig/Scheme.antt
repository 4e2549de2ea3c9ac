-- ===== src/Msig/Scheme.antt =====
-- programs/msig/core/src/lib.rs: leaves, vote nullifiers and the member tree of depth 5.
use Prim.Native.Nat.{bit_xor}
use lp_0002_private_multisig.Prelude.{
  ℕ, zero, suc, ◌/◌, ◌%◌, ◌^◌, Option, none, some, List, [], ◌∷◌, ◌++◌, ◌==◌, if◌then◌else◌,
  get_elem?, get_or, replicate, resize, length, ◌≡◌,
}
use lp_0002_private_multisig.Core.Bytes.{Bytes, codes}
use lp_0002_private_multisig.Core.Hash.{Sha256}

-- `(leaf_index: u32, sibling_path bottom-up)`
abbrev pub MerkleProof : Type 0
MerkleProof = ℕ × List Bytes

abbrev pub tree_depth : ℕ
tree_depth = 5

abbrev pub empty_leaf : Bytes
empty_leaf = replicate 32 0

abbrev pub leaf_domain : Bytes
leaf_domain = codes "/lp0002/leaf/" ++ 0 ∷ []

abbrev pub null_domain : Bytes
null_domain = codes "/lp0002/null/" ++ 0 ∷ []

abbrev pub prepend : Option Bytes → Option (List Bytes) → Option (List Bytes)
prepend none rest = none
prepend (some sibling) none = none
prepend (some sibling) (some path) = some (sibling ∷ path)

-- `[u8; 32]`
abbrev pub IsDigest : Bytes → Type 0
IsDigest x = length x ≡ 32

module _ (sha : Sha256) where
  open sha use {hash_bytes}

  unfoldable pub hash_pair : Bytes → Bytes → Bytes
  hash_pair left right = hash_bytes (left ++ right)

  unfoldable pub member_leaf : Bytes → Bytes
  member_leaf secret = hash_bytes (leaf_domain ++ secret)

  unfoldable pub vote_nullifier : Bytes → Bytes → Bytes
  vote_nullifier secret proposal_id = hash_bytes (null_domain ++ (secret ++ proposal_id))

  -- `level.chunks(2).map(|c| hash_pair(&c[0], &c[1]))`. A level always has an even length here, so
  -- the clause for an odd chunk, at which the code panics, is not reached.
  unfoldable pub next_level : List Bytes → List Bytes
  next_level [] = []
  next_level (a ∷ []) = []
  next_level (a ∷ b ∷ rest) = hash_pair a b ∷ next_level rest

  -- The loop of `merkle_root`, on the rounds left.
  unfoldable pub fold_levels : ℕ → List Bytes → List Bytes
  fold_levels zero level = level
  fold_levels (suc n) level = fold_levels n (next_level level)

  -- `level[0]` is in range: the last level has one node.
  unfoldable pub merkle_root : List Bytes → Bytes
  unfolding fold_levels next_level hash_pair
  merkle_root leaves =
      get_or (fold_levels tree_depth (resize (2 ^ tree_depth) empty_leaf leaves)) 0 empty_leaf

  -- The loop of `merkle_path`, on the rounds left; `none` is the panic of `level[idx ^ 1]`.
  unfoldable pub collect_path : ℕ → List Bytes → ℕ → Option (List Bytes)
  collect_path zero level idx = some []
  collect_path (suc n) level idx =
      let rest = collect_path n (next_level level) (idx / 2) in
      prepend (get_elem? level (bit_xor idx 1)) rest

  unfoldable pub merkle_path : List Bytes → ℕ → Option MerkleProof
  unfolding collect_path next_level hash_pair
  merkle_path leaves index =
      elim (collect_path tree_depth (resize (2 ^ tree_depth) empty_leaf leaves) index) [
        | none ↦ none
        | some path ↦ some (index % 2 ^ 32, path)
      ]

  -- The loop of `root_from_path`: `idx & 1` is the remainder by 2, `idx >>= 1` the half.
  unfoldable pub climb : Bytes → ℕ → List Bytes → Bytes
  climb result idx [] = result
  climb result idx (sibling ∷ path) =
      climb (if idx % 2 == 0 then hash_pair result sibling else hash_pair sibling result) (idx / 2)
        path

  unfoldable pub root_from_path : Bytes → MerkleProof → Bytes
  unfolding climb hash_pair
  root_from_path leaf proof = climb leaf proof.0 proof.1
