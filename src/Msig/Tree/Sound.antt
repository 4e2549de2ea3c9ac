-- ===== src/Msig/Tree/Sound.antt =====
-- A path of full length leads to the root from a leaf of the tree only.
use lp_0002_private_multisig.Prelude.{
  ℕ, zero, suc, ◌+◌, ◌/◌, ◌%◌, ◌<◌, ◌≡◌, refl, ap, sym, ◌∙◌, inl, inr, List, [], ◌∷◌, ◌++◌, take,
  drop, arith, ◌==◌, Bool-cases, length, get_or, resize, length-resize, All, All-get_or, All-resize,
  get_or-resize, take-append, drop-append,
}
use lp_0002_private_multisig.Core.Bytes.{Bytes}
use lp_0002_private_multisig.Core.Hash.{Sha256, IsCollisionFree}
use lp_0002_private_multisig.Msig.Scheme.{
  IsDigest, MerkleProof, empty_leaf, hash_pair, next_level, fold_levels, merkle_root, climb,
  root_from_path,
}
use lp_0002_private_multisig.Msig.Tree.{
  next_level-IsDigests, hash_pair-IsDigest, width, length-next_level, get_or-next_level,
}

-- The slot that the low `d` bits of an index name.
abbrev slot : ℕ → ℕ → ℕ
slot zero idx = 0
slot (suc d) idx = slot d (idx / 2) + slot d (idx / 2) + idx % 2

slot_bound : (d idx : ℕ) → slot d idx < width d
slot_bound zero idx = omega arith
slot_bound (suc d) idx = omega (arith, slot_bound d (idx / 2))

module _ (sha : Sha256) (free : IsCollisionFree sha) where
  open sha use {hash_bytes, length-hash_bytes}

  -- The hash of a pair of digests determines both.
  hash_pair-injective :
      (a b x s : Bytes)
      → length a ≡ 32
      → length x ≡ 32
      → hash_pair sha a b ≡ hash_pair sha x s
      → (a ≡ x) × (b ≡ s)
  unfolding hash_pair
  hash_pair-injective a b x s la lx e =
      let joined : a ++ b ≡ x ++ s = free (a ++ b) (x ++ s) e in
      (
        sym (take-append a b 32 la) ∙ ap (take 32) joined ∙ take-append x s 32 lx,
        sym (drop-append a b 32 la) ∙ ap (drop 32) joined ∙ drop-append x s 32 lx,
      )

  climb_sound :
      (d : ℕ) (xs : List Bytes) (x : Bytes) (idx : ℕ) (path : List Bytes)
      → length xs ≡ width d
      → All IsDigest xs
      → IsDigest x
      → All IsDigest path
      → length path ≡ d
      → climb sha x idx path ≡ get_or (fold_levels sha d xs) 0 empty_leaf
      → x ≡ get_or xs (slot d idx) empty_leaf
  unfolding climb fold_levels
  climb_sound zero xs x idx [] len ds dx dp lp e = e
  climb_sound zero xs x idx (s ∷ path) len ds dx dp lp e = absurd (omega arith)
  climb_sound (suc d) xs x idx [] len ds dx dp lp e = absurd (omega arith)
  climb_sound (suc d) xs x idx (s ∷ path) len ds dx dp lp e = elim (Bool-cases (idx % 2 == 0)) [
    | inl even ↦
        let up : hash_pair sha x s ≡ get_or (next_level sha xs) j empty_leaf =
          climb_sound d (next_level sha xs) (hash_pair sha x s) (idx / 2) path above
            (next_level-IsDigests sha xs) (hash_pair-IsDigest sha x s) dp.1 (omega arith)
            (rw even at e) in
        let here : slot (suc d) idx ≡ j + j = ground arith in
        rw here
          (hash_pair-injective x s (get_or xs (j + j) empty_leaf) (get_or xs (j + j + 1) empty_leaf)
            dx (All-get_or IsDigest xs (j + j) empty_leaf ds refl) (up ∙ children)).0
    | inr odd ↦
        let up : hash_pair sha s x ≡ get_or (next_level sha xs) j empty_leaf =
          climb_sound d (next_level sha xs) (hash_pair sha s x) (idx / 2) path above
            (next_level-IsDigests sha xs) (hash_pair-IsDigest sha s x) dp.1 (omega arith)
            (rw odd at e) in
        let here : slot (suc d) idx ≡ j + j + 1 = ground arith in
        rw here
          (hash_pair-injective s x (get_or xs (j + j) empty_leaf) (get_or xs (j + j + 1) empty_leaf)
            dp.0 (All-get_or IsDigest xs (j + j) empty_leaf ds refl) (up ∙ children)).1
  ]
    where
      j : ℕ
      j = slot d (idx / 2)

      above : length (next_level sha xs) ≡ width d
      above = length-next_level sha xs (width d) len

      children :
          get_or (next_level sha xs) j empty_leaf
          ≡ hash_pair sha (get_or xs (j + j) empty_leaf) (get_or xs (j + j + 1) empty_leaf)
      children = get_or-next_level sha xs j (omega (arith, slot_bound d (idx / 2)))

  -- With a collision-free hash and leaves of 32 bytes, a proof of five siblings of 32 bytes that
  -- leads a leaf of 32 bytes to `merkle_root` names the slot, by the low five bits of its index, at
  -- which the padded set holds that leaf.
  pub root_from_path_sound :
      (leaves : List Bytes) (leaf : Bytes) (proof : MerkleProof)
      → All IsDigest leaves
      → IsDigest leaf
      → All IsDigest proof.1
      → length proof.1 ≡ 5
      → root_from_path sha leaf proof ≡ merkle_root sha leaves
      → leaf ≡ get_or leaves (proof.0 % 32) empty_leaf
  unfolding root_from_path merkle_root
  root_from_path_sound leaves leaf proof ds dl dp deep e =
      let xs : List Bytes = resize 32 empty_leaf leaves in
      let same : slot 5 proof.0 ≡ proof.0 % 32 = omega arith in
      climb_sound 5 xs leaf proof.0 proof.1 (length-resize 32 empty_leaf leaves)
        (All-resize IsDigest 32 empty_leaf leaves refl ds) dl dp deep e
      ∙ rw same (get_or-resize 32 (proof.0 % 32) empty_leaf leaves (omega arith))
