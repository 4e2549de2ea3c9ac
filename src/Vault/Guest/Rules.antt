-- ===== src/Vault/Guest/Rules.antt =====
-- The vault program keeps the rules of the state machine, and vaults belong to one owner each.
use lp_0002_private_multisig.Prelude.{
  ◌≡◌, refl, sym, ◌∙◌, ap, Option, List, [], ◌∷◌, drop, arith, All, ok, >>=-eq-ok, ok-injective,
  drop-append,
}
use lp_0002_private_multisig.Core.Account.{
  ProgramId, AccountId, AccountWithMetadata, default_account, default_program_id,
}
use lp_0002_private_multisig.Core.Hash.{Sha256, IsCollisionFree, for_public_pda-injective}
use lp_0002_private_multisig.Core.Sets.{Distinct}
use lp_0002_private_multisig.Core.Validate.{ids}
use lp_0002_private_multisig.Core.Program.{InstructionData, ProgramOutput}
use lp_0002_private_multisig.Core.Balance.{sum}
use lp_0002_private_multisig.Core.Validate.{pre_balances, post_balances}
use lp_0002_private_multisig.Core.Validate.Rules.{AllAllowed, IsWellBehaved}
use lp_0002_private_multisig.AuthTransfer.Types as Transfer
use lp_0002_private_multisig.Vault.Guest.{
  VaultInstruction, vault_seed_domain_separator, unchanged_post_states, compute_vault_seed,
  compute_vault_account_id, vault_calls, vault_main,
}

-- An account that nobody owns is a default account.
abbrev pub IsInitialized : AccountWithMetadata → Type 0
IsInitialized p = p.account.program_owner ≡ default_program_id → p.account ≡ default_account

unchanged-AllAllowed :
    (program : ProgramId) (pres : List AccountWithMetadata)
    → All IsInitialized pres
    → AllAllowed program pres (unchanged_post_states pres)
      × (sum (pre_balances pres) ≡ sum (post_balances (unchanged_post_states pres)))
unchanged-AllAllowed program [] h = (tt, refl)
unchanged-AllAllowed program (p ∷ pres) h =
    let (allowed, same) = unchanged-AllAllowed program pres h.1 in
    (
      (
        record {
          nonce_kept = refl;
          owner_kept = refl;
          debit = λ foreign. omega arith;
          write = λ changed. absurd (changed refl);
          fresh = h.0;
        },
        allowed,
      ),
      omega (arith, same),
    )

module _ (sha : Sha256) (to_vec : Transfer.Instruction → InstructionData) where
  -- Whatever the vault program outputs passes the validation of its execution, if its accounts have
  -- different ids and those that nobody owns are default accounts.
  pub vault_main-IsWellBehaved :
      (self : ProgramId) (caller : Option ProgramId) (words : InstructionData)
      (pres : List AccountWithMetadata) (instruction : VaultInstruction) {out : ProgramOutput}
      → Distinct (ids pres)
      → All IsInitialized pres
      → vault_main sha to_vec self caller words pres instruction ≡ ok out
      → IsWellBehaved self out.pre_states out.post_states
  unfolding vault_main
  vault_main-IsWellBehaved self caller words pres instruction d init h =
      let (calls, e, h₁) = >>=-eq-ok (vault_calls sha to_vec instruction pres) _ h in
      let (allowed, same) = unchanged-AllAllowed self pres init in
      rw (← ok-injective h₁) (record { unique = d; allowed = allowed; preserved = same })

-- With a collision-free hash, two owners do not share a vault.
pub compute_vault_account_id-injective :
    (sha : Sha256)
    → IsCollisionFree sha
    → (program : ProgramId) (a b : AccountId)
    → compute_vault_account_id sha program a ≡ compute_vault_account_id sha program b
    → a ≡ b
unfolding compute_vault_account_id compute_vault_seed
compute_vault_account_id-injective sha free program a b h =
    let seeds =
      for_public_pda-injective sha free program (compute_vault_seed sha a)
        (compute_vault_seed sha b) h in
    let messages = free _ _ seeds in
    sym (drop-append vault_seed_domain_separator a 32 refl)
    ∙ ap (drop 32) messages
    ∙ drop-append vault_seed_domain_separator b 32 refl
