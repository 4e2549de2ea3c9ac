-- ===== src/AuthTransfer/Guest/Rules.antt =====
-- The native token program keeps the rules of the state machine.
use lp_0002_private_multisig.Prelude.{
  ℕ, ◌+◌, ◌-◌, ◌<◌, ◌≤◌, ◌≡◌, ◌≢◌, true, refl, sym, ◌∙◌, List, [], ◌∷◌, arith, ok,
}
use lp_0002_private_multisig.Core.Bytes.{Bytes-discrete}
use lp_0002_private_multisig.Core.Sets.{contains}
use lp_0002_private_multisig.Core.Validate.Rules.{IsAllowed, IsWellBehaved}
use lp_0002_private_multisig.Core.Account.{
  ProgramId, Account, AccountWithMetadata, default_account, default_program_id,
}
use lp_0002_private_multisig.Core.Balance.{u128_mod}
use lp_0002_private_multisig.Core.Program.{
  AccountPostState, new_post, new_claimed_if_default, authorized,
}
use lp_0002_private_multisig.AuthTransfer.Guest.{transfer_balance}

-- A transfer happens exactly when the sender has authorized it, has the funds, and the recipient can
-- hold them; then the amount leaves the one and reaches the other, and nothing else changes.
pub transfer_balance_lem :
    (sender recipient : AccountWithMetadata) (amount : ℕ) {posts : List AccountPostState}
    → transfer_balance sender recipient amount ≡ ok posts
    → (sender.is_authorized ≡ true)
      × (amount ≤ sender.account.balance)
      × (recipient.account.balance + amount < u128_mod)
      × (posts
          ≡ new_post (record sender.account { balance = sender.account.balance - amount })
            ∷ new_claimed_if_default
                (record recipient.account { balance = recipient.account.balance + amount })
                authorized
            ∷ [])
unfolding transfer_balance
transfer_balance_lem sender recipient amount h = ground arith

pub transfer_balance_complete :
    (sender recipient : AccountWithMetadata) (amount : ℕ)
    → sender.is_authorized ≡ true
    → amount ≤ sender.account.balance
    → recipient.account.balance + amount < u128_mod
    → transfer_balance sender recipient amount
      ≡ ok (
          new_post (record sender.account { balance = sender.account.balance - amount })
          ∷ new_claimed_if_default
              (record recipient.account { balance = recipient.account.balance + amount })
              authorized
          ∷ [])
unfolding transfer_balance
transfer_balance_complete sender recipient amount a f r = ground arith

recipient-IsAllowed :
    (program : ProgramId) (a : Account) (amount : ℕ)
    → (a.program_owner ≡ default_program_id → a ≡ default_account)
    → IsAllowed program a
        (new_claimed_if_default (record a { balance = a.balance + amount }) authorized).account
recipient-IsAllowed program a amount fresh =
    elim (Bytes-discrete a.program_owner default_program_id) [
      | yes p ↦ (let e = fresh p in ground arith)
      | no p ↦ ground arith
    ]

recipient_balance :
    (a : Account) → (new_claimed_if_default a authorized).account.balance ≡ a.balance
recipient_balance a = ground arith

-- An accepted transfer between two accounts of different ids keeps the rules of
-- `validate_execution`, if the executing program owns the sender and is not the default id, and a
-- recipient that nobody owns is a default account.
pub transfer_balance-IsWellBehaved :
    (program : ProgramId) (sender recipient : AccountWithMetadata) (amount : ℕ)
    {posts : List AccountPostState}
    → sender.account_id ≢ recipient.account_id
    → sender.account.program_owner ≡ program
    → program ≢ default_program_id
    → (recipient.account.program_owner ≡ default_program_id → recipient.account ≡ default_account)
    → transfer_balance sender recipient amount ≡ ok posts
    → IsWellBehaved program (sender ∷ recipient ∷ []) posts
unfolding contains
transfer_balance-IsWellBehaved program sender recipient amount ne own some_program fresh h =
    let (auth, funds, room, shape) = transfer_balance_lem sender recipient amount h in
    let credited =
      recipient_balance
        (record recipient.account { balance = recipient.account.balance + amount }) in
    rw shape (record {
      unique = (ground arith, (refl, tt));
      allowed = (
        record {
          nonce_kept = refl;
          owner_kept = refl;
          debit = λ foreign. absurd (foreign own);
          write = λ changed. absurd (changed refl);
          fresh = λ none_owns. absurd (some_program (sym own ∙ none_owns));
        },
        (recipient-IsAllowed program recipient.account amount fresh, tt),
      );
      preserved = omega arith;
    })
