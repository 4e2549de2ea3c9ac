-- ===== src/Msig/Tree/Complete.antt =====
-- A path that `merkle_path` collects leads from its leaf back to the root.
use Prim.Native.Nat.{bit_xor}
use lp_0002_private_multisig.Prelude.{
  ℕ, zero, suc, ◌+◌, ◌-◌, ◌*◌, ◌/◌, ◌%◌, ◌^◌, ◌<◌, ◌≡◌, refl, ap, some, inl, inr, List, [], ◌∷◌,
  arith, ◌==◌, if◌then◌else◌, Bool-cases, length, All, All-get_or, All-resize, get_elem?, get_or,
  resize, length-resize, get_or-resize, get_elem?-eq-get_or,
}
use lp_0002_private_multisig.Core.Bytes.{Bytes}
use lp_0002_private_multisig.Core.Hash.{Sha256}
use lp_0002_private_multisig.Msig.Scheme.{
  IsDigest, MerkleProof, empty_leaf, hash_pair, next_level, fold_levels, merkle_root, collect_path,
  merkle_path, climb, root_from_path,
}
use lp_0002_private_multisig.Msig.Tree.{
  next_level-IsDigests, width, flip, bit_xor-eq-flip, length-next_level, get_or-next_level,
}

module _ (sha : Sha256) where
  -- What `collect_path` has found for the leaf `i` of a tree of depth `d`.
  record Leads (d : ℕ) (xs : List Bytes) (i : ℕ) : Type 0 where
    path : List Bytes
    collected : collect_path sha d xs i ≡ some path
    deep : length path ≡ d
    digests : All IsDigest path
    climbs : climb sha (get_or xs i empty_leaf) i path ≡ get_or (fold_levels sha d xs) 0 empty_leaf

  -- The node above leaf `i` is what one step of `climb` computes.
  step_up :
      (xs : List Bytes) (i m : ℕ)
      → length xs ≡ 2 * m
      → i < 2 * m
      → (if i % 2 == 0
          then hash_pair sha (get_or xs i empty_leaf) (get_or xs (flip i) empty_leaf)
          else hash_pair sha (get_or xs (flip i) empty_leaf) (get_or xs i empty_leaf))
        ≡ get_or (next_level sha xs) (i / 2) empty_leaf
  step_up xs i m len h = elim (Bool-cases (i % 2 == 0)) [
    | inl even ↦
        let e : i / 2 + i / 2 ≡ i = ground arith in
        rw (get_or-next_level sha xs (i / 2) (ground arith), e, even) refl
    | inr odd ↦
        let e : i / 2 + i / 2 ≡ i - 1 = ground arith in
        let f : i - 1 + 1 ≡ i = ground arith in
        rw (get_or-next_level sha xs (i / 2) (ground arith), e, f, odd) refl
  ]

  collect_path-Leads :
      (d : ℕ) (xs : List Bytes) (i : ℕ)
      → length xs ≡ width d
      → i < width d
      → i < 32
      → All IsDigest xs
      → Leads d xs i
  unfolding collect_path climb fold_levels
  collect_path-Leads zero xs i len h small ds =
      let e : i ≡ 0 = omega arith in
      record { path = []; collected = refl; deep = refl; digests = tt; climbs = rw e refl }
  collect_path-Leads (suc d) xs i len h small ds =
      let up =
        collect_path-Leads d (next_level sha xs) (i / 2) (length-next_level sha xs (width d) len)
          (omega arith) (omega arith) (next_level-IsDigests sha xs) in
      let sibling : Bytes = get_or xs (flip i) empty_leaf in
      let found : get_elem? xs (bit_xor i 1) ≡ some sibling =
        rw (bit_xor-eq-flip i small) (get_elem?-eq-get_or xs (flip i) empty_leaf (ground arith)) in
      record {
        path = sibling ∷ up.path;
        collected = rw (found, up.collected) refl;
        deep = ap suc up.deep;
        digests = (All-get_or IsDigest xs (flip i) empty_leaf ds refl, up.digests);
        climbs = rw (step_up xs i (width d) len h) up.climbs;
      }

  -- For leaves of 32 bytes, the path that `merkle_path` builds for slot `index` exists, is of five siblings of 32 bytes, and
  -- `root_from_path` takes the leaf at that slot along it to `merkle_root`.
  pub root_from_path-merkle_path :
      (leaves : List Bytes) (index : ℕ)
      → index < 32
      → All IsDigest leaves
      → (proof : MerkleProof) × (merkle_path sha leaves index ≡ some proof)
        × (proof.0 ≡ index)
        × (length proof.1 ≡ 5)
        × All IsDigest proof.1
        × (root_from_path sha (get_or leaves index empty_leaf) proof ≡ merkle_root sha leaves)
  unfolding merkle_path root_from_path merkle_root
  root_from_path-merkle_path leaves index h ds =
      let xs : List Bytes = resize 32 empty_leaf leaves in
      let found =
        collect_path-Leads 5 xs index (length-resize 32 empty_leaf leaves) h h
          (All-resize IsDigest 32 empty_leaf leaves refl ds) in
      let same : index % 2 ^ 32 ≡ index = omega arith in
      let at : get_or xs index empty_leaf ≡ get_or leaves index empty_leaf =
        get_or-resize 32 index empty_leaf leaves h in
      (
        (index % 2 ^ 32, found.path),
        ground (arith, found.collected),
        same,
        found.deep,
        found.digests,
        rw (same, ← at) found.climbs,
      )
