-- ===== src/Msig/Tree.antt =====
-- The member tree of programs/msig/core/src/lib.rs, one level at a time, for every depth.
pub mod Complete
pub mod Sound
pub mod Deep
use Prim.Native.Nat.{bit_xor}
use lp_0002_private_multisig.Prelude.{
  ℕ, zero, suc, ◌+◌, ◌-◌, ◌*◌, ◌/◌, ◌%◌, ◌<◌, ◌≡◌, refl, Bool, true, ◌&&◌, List, [], ◌∷◌, arith,
  ◌==◌, if◌then◌else◌, length, get_or, ◌++◌, All, All-get_or, All-resize, resize,
}
use lp_0002_private_multisig.Core.Bytes.{Bytes}
use lp_0002_private_multisig.Core.Hash.{Sha256}
use lp_0002_private_multisig.Msig.Scheme.{
  IsDigest, merkle_root, empty_leaf, hash_pair, next_level, fold_levels,
}

-- The number of leaves of a tree of depth `d`.
abbrev pub width : ℕ → ℕ
width zero = 1
width (suc d) = 2 * width d

-- `idx ^ 1`, written with a test.
abbrev pub flip : ℕ → ℕ
flip i = if i % 2 == 0 then i + 1 else i - 1

-- The two agree on every index below the bound.
flips : ℕ → Bool
flips zero = true
flips (suc bound) = flips bound && (bit_xor bound 1 == flip bound)

flips_lem : (bound i : ℕ) → i < bound → flips bound ≡ true → bit_xor i 1 ≡ flip i
unfolding flips
flips_lem zero i less h = absurd (omega arith)
flips_lem (suc bound) i less h = ground (arith, flips_lem bound i)

flips_all : flips 32 ≡ true
unfolding flips
flips_all = refl

pub bit_xor-eq-flip : (i : ℕ) → i < 32 → bit_xor i 1 ≡ flip i
bit_xor-eq-flip i h = flips_lem 32 i h flips_all

module _ (sha : Sha256) where
  open sha use {length-hash_bytes}

  pub hash_pair-IsDigest : (a b : Bytes) → IsDigest (hash_pair sha a b)
  unfolding hash_pair
  hash_pair-IsDigest a b = length-hash_bytes (a ++ b)

  pub next_level-IsDigests : (xs : List Bytes) → All IsDigest (next_level sha xs)
  unfolding next_level
  next_level-IsDigests [] = tt
  next_level-IsDigests (a ∷ []) = tt
  next_level-IsDigests (a ∷ b ∷ r) = (hash_pair-IsDigest a b, next_level-IsDigests r)

  fold_levels-IsDigests :
      (d : ℕ) (xs : List Bytes) → All IsDigest xs → All IsDigest (fold_levels sha d xs)
  unfolding fold_levels
  fold_levels-IsDigests zero xs h = h
  fold_levels-IsDigests (suc d) xs h =
      fold_levels-IsDigests d (next_level sha xs) (next_level-IsDigests xs)

  -- A root is 32 bytes long.
  pub merkle_root-IsDigest :
      (leaves : List Bytes) → All IsDigest leaves → IsDigest (merkle_root sha leaves)
  unfolding merkle_root
  merkle_root-IsDigest leaves h =
      All-get_or IsDigest (fold_levels sha 5 (resize 32 empty_leaf leaves)) 0 empty_leaf
        (fold_levels-IsDigests 5 (resize 32 empty_leaf leaves)
          (All-resize IsDigest 32 empty_leaf leaves refl h))
        refl

  pub length-next_level :
      (xs : List Bytes) (m : ℕ) → length xs ≡ 2 * m → length (next_level sha xs) ≡ m
  unfolding next_level
  length-next_level [] m h = omega arith
  length-next_level (a ∷ []) m h = absurd (omega arith)
  length-next_level (a ∷ b ∷ r) zero h = absurd (omega arith)
  length-next_level (a ∷ b ∷ r) (suc m) h = omega (arith, length-next_level r m (omega arith))

  -- A node of the next level is the hash of its two children.
  pub get_or-next_level :
      (xs : List Bytes) (j : ℕ)
      → j + j + 1 < length xs
      → get_or (next_level sha xs) j empty_leaf
        ≡ hash_pair sha (get_or xs (j + j) empty_leaf) (get_or xs (j + j + 1) empty_leaf)
  unfolding next_level
  get_or-next_level [] j h = absurd (omega arith)
  get_or-next_level (a ∷ []) j h = absurd (omega arith)
  get_or-next_level (a ∷ b ∷ r) zero h = refl
  get_or-next_level (a ∷ b ∷ r) (suc j) h =
      let e : suc j + suc j ≡ suc (suc (j + j)) = omega arith in
      let f : suc j + suc j + 1 ≡ suc (suc (j + j + 1)) = omega arith in
      rw (f, e) (get_or-next_level r j (omega arith))
