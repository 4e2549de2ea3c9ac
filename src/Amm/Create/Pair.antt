-- ===== src/Amm/Create/Pair.antt =====
-- programs/amm/core/src/lib.rs: one pool for a pair of tokens, whichever comes first.
use Prim.Native.Nat.{compare, Ordering}
use Prim.Native.Nat.compare
use lp_0002_private_multisig.Prelude.{
  ℕ, zero, suc, ◌≡◌, ◌⊎◌, inl, inr, refl, sym, ap, ap₂, ◌∙◌, [], ◌∷◌, ◌++◌, length, halves, ◌↔◌, ok,
  ok-injective,
}
use lp_0002_private_multisig.Core.Bytes.{Bytes}
use lp_0002_private_multisig.Core.Account.{AccountId}
use lp_0002_private_multisig.Core.Hash.{Sha256, IsCollisionFree}
use lp_0002_private_multisig.Core.Program.{PdaSeed}
use lp_0002_private_multisig.Amm.Types.{first_of, compare_bytes, seed_for, compute_pool_pda_seed}

abbrev opposite : Ordering → Ordering
opposite Ordering.lt = Ordering.gt
opposite Ordering.eq = Ordering.eq
opposite Ordering.gt = Ordering.lt

opposite-compare : (x y : ℕ) → compare y x ≡ opposite (compare x y)
opposite-compare zero zero = rw (compare.zero-zero) refl
opposite-compare zero (suc y) = rw (compare.zero-suc y, compare.suc-zero y) refl
opposite-compare (suc x) zero = rw (compare.zero-suc x, compare.suc-zero x) refl
opposite-compare (suc x) (suc y) =
    rw (compare.suc-suc x y, compare.suc-suc y x) (opposite-compare x y)

compare-eq : (x y : ℕ) → compare x y ≡ Ordering.eq → x ≡ y
compare-eq zero zero h = refl
compare-eq zero (suc y) h = (let clash = rw (compare.zero-suc y) at h in cc)
compare-eq (suc x) zero h = (let clash = rw (compare.suc-zero x) at h in cc)
compare-eq (suc x) (suc y) h = ap suc (compare-eq x y (rw (compare.suc-suc x y) at h))

opposite-first_of :
    (o rest : Ordering) → first_of (opposite o) (opposite rest) ≡ opposite (first_of o rest)
opposite-first_of Ordering.lt rest = refl
opposite-first_of Ordering.eq rest = refl
opposite-first_of Ordering.gt rest = refl

first_of-eq :
    (o rest : Ordering) → first_of o rest ≡ Ordering.eq → (o ≡ Ordering.eq) × (rest ≡ Ordering.eq)
first_of-eq Ordering.lt rest h = cc
first_of-eq Ordering.eq rest h = (refl, h)
first_of-eq Ordering.gt rest h = cc

opposite-compare_bytes : (a b : Bytes) → compare_bytes b a ≡ opposite (compare_bytes a b)
unfolding compare_bytes
opposite-compare_bytes [] [] = refl
opposite-compare_bytes [] (y ∷ b) = refl
opposite-compare_bytes (x ∷ a) [] = refl
opposite-compare_bytes (x ∷ a) (y ∷ b) =
    rw (opposite-compare x y, opposite-compare_bytes a b)
      (opposite-first_of (compare x y) (compare_bytes a b))

compare_bytes-eq : (a b : Bytes) → compare_bytes a b ≡ Ordering.eq → a ≡ b
unfolding compare_bytes
compare_bytes-eq [] [] h = refl
compare_bytes-eq [] (y ∷ b) h = cc
compare_bytes-eq (x ∷ a) [] h = cc
compare_bytes-eq (x ∷ a) (y ∷ b) h =
    let (head, tail) = first_of-eq (compare x y) (compare_bytes a b) h in
    ap₂ (λ z zs. z ∷ zs) (compare-eq x y head) (compare_bytes-eq a b tail)

module _ (sha : Sha256) where
  open sha use {hash_bytes}

  seed_for-opposite :
      (o : Ordering) (a b : AccountId) → seed_for sha (opposite o) b a ≡ seed_for sha o a b
  seed_for-opposite Ordering.lt a b = refl
  seed_for-opposite Ordering.eq a b = refl
  seed_for-opposite Ordering.gt a b = refl

  compute_pool_pda_seed_comm :
      (a b : AccountId) → compute_pool_pda_seed sha a b ≡ compute_pool_pda_seed sha b a
  unfolding compute_pool_pda_seed
  compute_pool_pda_seed_comm a b =
      rw (opposite-compare_bytes a b) (sym (seed_for-opposite (compare_bytes a b) a b))

  -- The message that a pool's seed is the hash of.
  seed_for-ok :
      (o : Ordering) (a b : AccountId) {s : PdaSeed}
      → seed_for sha o a b ≡ ok s
      → (s ≡ hash_bytes (a ++ b)) ⊎ (s ≡ hash_bytes (b ++ a))
  seed_for-ok Ordering.lt a b h = inr (sym (ok-injective h))
  seed_for-ok Ordering.eq a b h = cc
  seed_for-ok Ordering.gt a b h = inl (sym (ok-injective h))

  compute_pool_pda_seed-ok :
      (a b : AccountId) {s : PdaSeed}
      → compute_pool_pda_seed sha a b ≡ ok s
      → (s ≡ hash_bytes (a ++ b)) ⊎ (s ≡ hash_bytes (b ++ a))
  unfolding compute_pool_pda_seed
  compute_pool_pda_seed-ok a b h = seed_for-ok (compare_bytes a b) a b h

-- The same two tokens, in one order or the other.
abbrev pub IsSamePair : AccountId → AccountId → AccountId → AccountId → Type 0
IsSamePair a b c d = ((a ≡ c) × (b ≡ d)) ⊎ ((a ≡ d) × (b ≡ c))

same_digest :
    (sha : Sha256) (a b c d : AccountId) {s : PdaSeed}
    → IsCollisionFree sha
    → length a ≡ length c
    → s ≡ sha.hash_bytes (a ++ b)
    → s ≡ sha.hash_bytes (c ++ d)
    → (a ≡ c) × (b ≡ d)
same_digest sha a b c d free same e e' = halves a b c d same (free (a ++ b) (c ++ d) (sym e ∙ e'))

shared_seed :
    (sha : Sha256) (a b c d : AccountId) {s : PdaSeed}
    → IsCollisionFree sha
    → length a ≡ 32
    → length b ≡ 32
    → length c ≡ 32
    → length d ≡ 32
    → compute_pool_pda_seed sha a b ≡ ok s
    → compute_pool_pda_seed sha c d ≡ ok s
    → IsSamePair a b c d
shared_seed sha a b c d free la lb lc ld h h' = elim (compute_pool_pda_seed-ok sha a b h) [
  | inl e ↦ elim (compute_pool_pda_seed-ok sha c d h') [
    | inl e' ↦ inl (same_digest sha a b c d free (la ∙ sym lc) e e')
    | inr e' ↦ inr (same_digest sha a b d c free (la ∙ sym ld) e e')
  ]
  | inr e ↦ elim (compute_pool_pda_seed-ok sha c d h') [
    | inl e' ↦ (let (x, y) = same_digest sha b a c d free (lb ∙ sym lc) e e' in inr (y, x))
    | inr e' ↦ (let (x, y) = same_digest sha b a d c free (lb ∙ sym ld) e e' in inl (y, x))
  ]
]

-- With a collision-free hash, where two tokens of 32-byte identifiers have a pool's seed, another two have the
-- same seed if and only if they are the same two in one order or the other: there is one pool for each pair.
pub compute_pool_pda_seed-IsSamePair :
    (sha : Sha256) (a b c d : AccountId) {s : PdaSeed}
    → IsCollisionFree sha
    → length a ≡ 32
    → length b ≡ 32
    → length c ≡ 32
    → length d ≡ 32
    → compute_pool_pda_seed sha a b ≡ ok s
    → (compute_pool_pda_seed sha c d ≡ ok s) ↔ IsSamePair a b c d
compute_pool_pda_seed-IsSamePair sha a b c d {s} free la lb lc ld h = (
  λ h'. shared_seed sha a b c d free la lb lc ld h h',
  λ pair. elim pair [
    | inl (e, e') ↦ rw (← e, ← e') h
    | inr (e, e') ↦ sym (compute_pool_pda_seed_comm sha d c) ∙ rw (← e, ← e') h
  ],
)
