-- ===== src/Tests/Packing.antt =====
-- A stand-in for SHA-256 that forgets nothing, for the results that rest on collision freedom: a
-- message is packed into one number, by `2 ^ x * (2 * rest + 1)`.
use native.Mathlib.Nat.{pow-suc}
use lp_0002_private_multisig.Prelude.{
  ℕ, zero, suc, ◌+◌, ◌*◌, ◌%◌, ◌^◌, ◌<◌, ◌≡◌, refl, ap, some, List, [], ◌∷◌, arith, length, All,
  replicate, get_or,
}
use lp_0002_private_multisig.Core.Bytes.{Bytes}
use lp_0002_private_multisig.Core.Hash.{Sha256, IsCollisionFree}
use lp_0002_private_multisig.Msig.Scheme.{
  MerkleProof, IsDigest, empty_leaf, merkle_root, merkle_path, root_from_path,
}
use lp_0002_private_multisig.Msig.Tree.Complete.{root_from_path-merkle_path}
use lp_0002_private_multisig.Msig.Tree.Sound.{root_from_path_sound}

pub pack : Bytes → ℕ
pack [] = 0
pack (x ∷ xs) = 2 ^ x * (2 * pack xs + 1)

pow_pos : (a : ℕ) → 0 < 2 ^ a
pow_pos zero = omega arith
pow_pos (suc a) = omega (arith, pow-suc 2 a, pow_pos a)

odd_part : (a b u v : ℕ) → 2 ^ a * (2 * u + 1) ≡ 2 ^ b * (2 * v + 1) → (a ≡ b) × (u ≡ v)
odd_part zero zero u v h = omega arith
odd_part (suc a) zero u v h = absurd (omega (arith, rw pow-suc at h))
odd_part zero (suc b) u v h = absurd (omega (arith, rw pow-suc at h))
odd_part (suc a) (suc b) u v h =
    let halves : 2 ^ a * 2 * (2 * u + 1) ≡ 2 ^ b * 2 * (2 * v + 1) = simp pow-suc at h in
    let (e, f) = odd_part a b u v (omega arith) in (ap suc e, f)

pack-injective : (m n : Bytes) → pack m ≡ pack n → m ≡ n
unfolding pack
pack-injective [] [] h = refl
pack-injective [] (y ∷ n) h = absurd (omega (arith, pow_pos y))
pack-injective (x ∷ m) [] h = absurd (omega (arith, pow_pos x))
pack-injective (x ∷ m) (y ∷ n) h =
    let (e, f) = odd_part x y (pack m) (pack n) h in let rest = pack-injective m n f in cc

abbrev pub packed : Sha256
packed = record { hash_bytes = λ m. pack m ∷ replicate 31 0; length-hash_bytes = λ m. refl }

pub packed-IsCollisionFree : IsCollisionFree packed
packed-IsCollisionFree m n h = pack-injective m n (ap (λ l. get_or l 0 0) h)

abbrev enrolled : List Bytes
enrolled = replicate 32 1 ∷ replicate 32 2 ∷ replicate 32 3 ∷ []

abbrev second :
    (proof : MerkleProof) × (merkle_path packed enrolled 1 ≡ some proof)
    × (proof.0 ≡ 1)
    × (length proof.1 ≡ 5)
    × All IsDigest proof.1
    × (root_from_path packed (replicate 32 2) proof ≡ merkle_root packed enrolled)
second = root_from_path-merkle_path packed enrolled 1 (omega arith) (refl, (refl, (refl, tt)))

root_from_path_sound_example : replicate 32 2 ≡ get_or enrolled (second.0.0 % 32) empty_leaf
root_from_path_sound_example =
    root_from_path_sound packed packed-IsCollisionFree enrolled (replicate 32 2) second.0
      (refl, (refl, (refl, tt))) refl second.4 second.3 second.5
