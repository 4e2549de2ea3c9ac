-- ===== src/Msig/Tree/Deep.antt =====
-- The length of a membership proof is not checked: one enrolled leaf can stand for two secrets.
use lp_0002_private_multisig.Prelude.{
  ℕ, ◌+◌, ◌*◌, ◌/◌, ◌%◌, ◌<◌, ◌≡◌, refl, ◌∙◌, List, ◌∷◌, arith, get_or, length, All,
}
use lp_0002_private_multisig.Core.Bytes.{Bytes}
use lp_0002_private_multisig.Core.Hash.{Sha256}
use lp_0002_private_multisig.Msig.Scheme.{
  IsDigest, MerkleProof, empty_leaf, hash_pair, member_leaf, merkle_root, climb, root_from_path,
}
use lp_0002_private_multisig.Msig.Tree.Complete.{root_from_path-merkle_path}

module _ (sha : Sha256) where
  climb-left :
      (x s : Bytes) (idx : ℕ) (path : List Bytes)
      → climb sha x (2 * idx) (s ∷ path) ≡ climb sha (hash_pair sha x s) idx path
  unfolding climb
  climb-left x s idx path =
      let even : 2 * idx % 2 ≡ 0 = omega arith in
      let half : 2 * idx / 2 ≡ idx = omega arith in rw (even, half) refl

  climb-right :
      (x s : Bytes) (idx : ℕ) (path : List Bytes)
      → climb sha x (2 * idx + 1) (s ∷ path) ≡ climb sha (hash_pair sha s x) idx path
  unfolding climb
  climb-right x s idx path =
      let odd : (2 * idx + 1) % 2 ≡ 1 = omega arith in
      let half : (2 * idx + 1) / 2 ≡ idx = omega arith in rw (odd, half) refl

  -- Among leaves of 32 bytes, one of the first 32 that is the hash of a pair of member leaves gives
  -- both secrets a proof for the root, of length 6 instead of 5.
  pub root_from_path_deep :
      (leaves : List Bytes) (index : ℕ) (s t : Bytes)
      → index < 32
      → All IsDigest leaves
      → get_or leaves index empty_leaf ≡ hash_pair sha (member_leaf sha s) (member_leaf sha t)
      → (p q : MerkleProof) × (length p.1 ≡ 6)
        × (length q.1 ≡ 6)
        × (root_from_path sha (member_leaf sha s) p ≡ merkle_root sha leaves)
        × (root_from_path sha (member_leaf sha t) q ≡ merkle_root sha leaves)
  unfolding root_from_path
  root_from_path_deep leaves index s t h ds e =
      let (proof, made, at, deep, digests, leads) =
        root_from_path-merkle_path sha leaves index h ds in
      let up : climb sha (hash_pair sha (member_leaf sha s) (member_leaf sha t)) proof.0 proof.1
          ≡ merkle_root sha leaves =
        rw (← e) leads in
      (
        (2 * proof.0, member_leaf sha t ∷ proof.1),
        (2 * proof.0 + 1, member_leaf sha s ∷ proof.1),
        omega (arith, deep),
        omega (arith, deep),
        climb-left (member_leaf sha s) (member_leaf sha t) proof.0 proof.1 ∙ up,
        climb-right (member_leaf sha t) (member_leaf sha s) proof.0 proof.1 ∙ up,
      )
