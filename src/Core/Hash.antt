-- ===== src/Core/Hash.antt =====
-- SHA-256 as a parameter (the zkVM's accelerator, lee/state_machine/core/src uses it through
-- `risc0_zkvm::sha`), and the identifiers that lee/state_machine/core/src/nullifier.rs and program.rs derive by it.
use mathlib.Core.List.{flat_map}
use lp_0002_private_multisig.Prelude.{
  refl, sym, ◌∙◌, ap, drop, drop-append, ℕ, ◌≡◌, ◌∷◌, ◌++◌, length, replicate,
}
use lp_0002_private_multisig.Core.Bytes.{Bytes, codes, to_le_bytes}
use lp_0002_private_multisig.Core.Account.{AccountId, ProgramId}

-- The hash function: any function into strings of 32 bytes.
pub record Sha256 : Type 0 where
  pub hash_bytes : Bytes → Bytes
  pub length-hash_bytes : (m : Bytes) → length (hash_bytes m) ≡ 32

-- Collision resistance, taken to the letter: no two messages have one digest.
abbrev pub IsCollisionFree : Sha256 → Type 0
IsCollisionFree sha = (m n : Bytes) → sha.hash_bytes m ≡ sha.hash_bytes n → m ≡ n

-- 32 bytes each: a text and its padding.
abbrev private_account_id_prefix : Bytes
private_account_id_prefix = codes "/LEE/v0.3/AccountId/Private/" ++ replicate 4 0

abbrev program_derived_account_id_prefix : Bytes
program_derived_account_id_prefix = codes "/LEE/v0.2/AccountId/PDA/" ++ replicate 8 0

abbrev private_pda_prefix : Bytes
private_pda_prefix = codes "/LEE/v0.3/AccountId/PrivatePDA/" ++ replicate 1 0

module _ (sha : Sha256) where
  open sha use {hash_bytes}

  -- `NullifierPublicKey::from(&NullifierSecretKey)`
  unfoldable pub nullifier_public_key : Bytes → Bytes
  nullifier_public_key nsk = hash_bytes (codes "LEE/keys" ++ (nsk ++ (7 ∷ replicate 23 0)))

  -- `AccountId::for_regular_private_account(npk, identifier)`
  unfoldable pub for_regular_private_account : Bytes → ℕ → AccountId
  for_regular_private_account npk identifier =
      hash_bytes (private_account_id_prefix ++ (npk ++ to_le_bytes 16 identifier))

  -- `bytemuck::try_cast_slice`: the words of a program id, each in four bytes.
  program_id_bytes : ProgramId → Bytes
  program_id_bytes = flat_map (to_le_bytes 4)

  -- `AccountId::for_public_pda(program_id, seed)`
  unfoldable pub for_public_pda : ProgramId → Bytes → AccountId
  unfolding program_id_bytes
  for_public_pda program_id seed =
      hash_bytes (program_derived_account_id_prefix ++ (program_id_bytes program_id ++ seed))

  -- `AccountId::for_private_pda(program_id, seed, npk, identifier)`
  unfoldable pub for_private_pda : ProgramId → Bytes → Bytes → ℕ → AccountId
  unfolding program_id_bytes
  for_private_pda program_id seed npk identifier = hash_bytes (
      private_pda_prefix
      ++ (program_id_bytes program_id ++ (seed ++ (npk ++ to_le_bytes 16 identifier))))

-- With a collision-free hash, a program's public derived accounts are told apart by their seeds.
pub for_public_pda-injective :
    (sha : Sha256)
    → IsCollisionFree sha
    → (program : ProgramId) (s t : Bytes)
    → for_public_pda sha program s ≡ for_public_pda sha program t
    → s ≡ t
unfolding for_public_pda
for_public_pda-injective sha free program s t h =
    let bytes = program_id_bytes sha program in
    let messages = free _ _ h in
    let tails : bytes ++ s ≡ bytes ++ t =
      sym (drop-append program_derived_account_id_prefix (bytes ++ s) 32 refl)
      ∙ ap (drop 32) messages
      ∙ drop-append program_derived_account_id_prefix (bytes ++ t) 32 refl in
    sym (drop-append bytes s (length bytes) refl)
    ∙ ap (drop (length bytes)) tails
    ∙ drop-append bytes t (length bytes) refl
