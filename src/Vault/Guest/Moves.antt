-- ===== src/Vault/Guest/Moves.antt =====
-- program_methods/guest/src/bin/vault.rs and the `transfer` of authenticated_transfer that it calls.
use lp_0002_private_multisig.Prelude.{
  ℕ, ◌+◌, ◌-◌, ◌≤◌, ◌<◌, ◌≡◌, refl, true, some, Option, List, [], ◌∷◌, ok, >>=-eq-ok, ok-injective,
  ensure-eq-ok,
}
use lp_0002_private_multisig.Core.Account.{ProgramId, AccountId, AccountWithMetadata}
use lp_0002_private_multisig.Core.Balance.{u128_mod}
use lp_0002_private_multisig.Core.Hash.{Sha256}
use lp_0002_private_multisig.Core.Program.{
  InstructionData, AccountPostState, ChainedCall, ProgramOutput, new_post, new_claimed_if_default,
  authorized,
}
use lp_0002_private_multisig.AuthTransfer.Guest.{run}
use lp_0002_private_multisig.AuthTransfer.Guest.Rules.{transfer_balance_complete}
use lp_0002_private_multisig.Lee.Accounts.{Accounts}
use lp_0002_private_multisig.Lee.Public.{authorized_pdas}
use lp_0002_private_multisig.AuthTransfer.Types as Transfer
use lp_0002_private_multisig.AuthTransfer.Types.{TransferSerde}
use lp_0002_private_multisig.Vault.Guest.{
  deposit, claim, owner_unauthorized, unchanged_post_states, compute_vault_account_id, vault_calls,
  vault_main,
}

-- The sender without the amount, and the recipient with it.
abbrev pub moved : AccountWithMetadata → AccountWithMetadata → ℕ → List AccountPostState
moved from to amount =
    new_post (record from.account { balance = from.account.balance - amount })
    ∷ new_claimed_if_default (record to.account { balance = to.account.balance + amount })
        authorized
    ∷ []

-- A run that changes no account itself and makes one call of a program, which may authorize the vault of an owner
-- and no other account by itself, and which authenticated_transfer runs with success to move the amount.
pub record IsMove (sha : Sha256) (serde : TransferSerde) (self : ProgramId) (owner_id : AccountId)
    (pres : List AccountWithMetadata) (from to : AccountWithMetadata) (amount : ℕ)
    (out : ProgramOutput) : Type 0 where
  pub unchanged : out.post_states ≡ unchanged_post_states pres
  pub call : ChainedCall
  pub one : out.chained_calls ≡ call ∷ []
  pub owning : call.program_id ≡ from.account.program_owner
  pub lent :
      (state : Accounts)
      → authorized_pdas sha state (some self) call.pda_seeds
        ≡ compute_vault_account_id sha self owner_id ∷ []
  pub instruction : Transfer.Instruction
  pub read : serde.from_vec call.instruction_data ≡ some instruction
  pub runs : run instruction call.pre_states ≡ ok (moved from to amount)

module _ (sha : Sha256) (serde : TransferSerde) (self : ProgramId) (caller : Option ProgramId)
    (words : InstructionData) where
  -- If the vault program accepts a claim of no more than a vault's balance, which its owner can hold, then the owner
  -- has signed, no account changes, and the one call, of the program that owns the vault's account, may by itself
  -- authorize the owner's vault alone; its words read back as an instruction with which authenticated_transfer
  -- succeeds and moves exactly the amount from the vault to the owner.
  pub vault_main-claim :
      (owner owner_vault : AccountWithMetadata) (amount : ℕ) {out : ProgramOutput}
      → amount ≤ owner_vault.account.balance
      → owner.account.balance + amount < u128_mod
      → vault_main sha serde.to_vec self caller words (owner ∷ owner_vault ∷ []) (claim amount)
        ≡ ok out
      → (owner.is_authorized ≡ true)
        × IsMove sha serde self owner.account_id
            (owner ∷ owner_vault ∷ [])
            owner_vault
            owner
            amount
            out
  unfolding vault_main vault_calls run authorized_pdas compute_vault_account_id
  vault_main-claim owner owner_vault amount funds room h =
      let (calls, e, h₁) =
        >>=-eq-ok (vault_calls sha serde.to_vec (claim amount) (owner ∷ owner_vault ∷ [])) _ h in
      let (signed, h₂) = ensure-eq-ok owner.is_authorized owner_unauthorized _ e in
      (
        signed,
        rw (← ok-injective h₁, ← ok-injective h₂)
            (record {
              unchanged = refl;
              call = _;
              one = refl;
              owning = refl;
              lent = λ state. refl;
              instruction = Transfer.transfer amount;
              read = serde.from_vec-to_vec (Transfer.transfer amount);
              runs =
                  transfer_balance_complete (record owner_vault { is_authorized = true }) owner
                    amount refl funds room;
            }),
      )

  -- If the vault program accepts a deposit, by a sender who has signed, of no more than the sender's balance into a
  -- vault that can hold it, then no account changes, and the one call, of the program that owns the sender's account,
  -- may by itself authorize the recipient's vault alone; its words read back as an instruction with which
  -- authenticated_transfer succeeds and moves exactly the amount from the sender to the vault.
  pub vault_main-deposit :
      (sender recipient_vault : AccountWithMetadata) (recipient_id : AccountId) (amount : ℕ)
      {out : ProgramOutput}
      → sender.is_authorized ≡ true
      → amount ≤ sender.account.balance
      → recipient_vault.account.balance + amount < u128_mod
      → vault_main sha serde.to_vec self caller words
          (sender ∷ recipient_vault ∷ [])
          (deposit recipient_id amount)
        ≡ ok out
      → IsMove sha serde self recipient_id
          (sender ∷ recipient_vault ∷ [])
          sender
          recipient_vault
          amount
          out
  unfolding vault_main vault_calls run authorized_pdas compute_vault_account_id
  vault_main-deposit sender recipient_vault recipient_id amount signed funds room h =
      rw (← ok-injective h) (record {
        unchanged = refl;
        call = _;
        one = refl;
        owning = refl;
        lent = λ state. refl;
        instruction = Transfer.transfer amount;
        read = serde.from_vec-to_vec (Transfer.transfer amount);
        runs =
            transfer_balance_complete sender (record recipient_vault { is_authorized = true })
              amount signed funds room;
      })
